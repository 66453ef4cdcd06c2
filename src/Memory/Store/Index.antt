-- ===== src/Memory/Store/Index.antt =====
-- The index of the in-memory store of pkg/memory/inmem.go.
use galdor.Prelude.{
  ℕ, zero, suc, String, true, Bool-cases, none, some, List, [], ◌∷◌, ◌++◌, ◌≡◌, ◌⊎◌, inl, inr, refl,
  sym, ap, subst, ◌∙◌, lookup, insert, lookup-insert, ◌==◌, eq_iff, if◌then◌else◌, length,
}
use galdor.Memory.Store.{Chunk, InMemoryStore, get_at}

-- The index names for each chunk its place, and nothing else.
pub record IsIndexed {F : Type 0} (s : InMemoryStore F) : Type 0 where
  pub placed : (i : ℕ) (c : Chunk F) → get_at i s.chunks ≡ some c → lookup c.id s.by_id ≡ some i
  pub named :
      (id : String) (i : ℕ)
      → lookup id s.by_id ≡ some i
      → (c : Chunk F) × (get_at i s.chunks ≡ some c) × (c.id ≡ id)

pub get_at-snoc-inv :
    {A : Type 0} (i : ℕ) (xs : List A) (y z : A)
    → get_at i (xs ++ y ∷ []) ≡ some z
    → (get_at i xs ≡ some z) ⊎ ((i ≡ length xs) × (y ≡ z))
unfolding get_at
get_at-snoc-inv zero [] y z h = inr (refl, cc h)
get_at-snoc-inv (suc i) [] y z h = cc h
get_at-snoc-inv zero (x ∷ xs) y z h = inl h
get_at-snoc-inv (suc i) (x ∷ xs) y z h = elim (get_at-snoc-inv i xs y z h) [
  | inl e ↦ inl e
  | inr (e, f) ↦ inr (ap suc e, f)
]

pub get_at-snoc : {A : Type 0} (xs : List A) (y : A) → get_at (length xs) (xs ++ y ∷ []) ≡ some y
unfolding get_at
get_at-snoc [] y = refl
get_at-snoc (x ∷ xs) y = get_at-snoc xs y

pub get_at-append :
    {A : Type 0} (i : ℕ) (xs ys : List A) (z : A)
    → get_at i xs ≡ some z
    → get_at i (xs ++ ys) ≡ some z
unfolding get_at
get_at-append i [] ys z h = cc h
get_at-append zero (x ∷ xs) ys z h = h
get_at-append (suc i) (x ∷ xs) ys z h = get_at-append i xs ys z h

-- A chunk that is not there yet is appended.
pub append-IsIndexed :
    {F : Type 0} (s : InMemoryStore F) (c : Chunk F)
    → IsIndexed s
    → lookup c.id s.by_id ≡ none
    → IsIndexed
        (record { chunks = s.chunks ++ c ∷ []; by_id = insert c.id (length s.chunks) s.by_id })
append-IsIndexed s c ix free = record {
  placed = λ i d h. elim (get_at-snoc-inv i s.chunks c d h) [
    | inl old ↦ lookup-insert c.id d.id (length s.chunks) s.by_id ∙ other d.id i (ix.placed i d old)
    | inr (e, f) ↦
        lookup-insert c.id d.id (length s.chunks) s.by_id
        ∙ ap (λ b. if b then some (length s.chunks) else lookup d.id s.by_id)
            ((eq_iff c.id d.id).1 (ap (λ (x : Chunk _). x.id) f))
        ∙ ap some (sym e)
  ];
  named = λ id i h. elim (Bool-cases (c.id == id)) [
    | inl e ↦ (
      c,
      subst (λ k. get_at k (s.chunks ++ c ∷ []) ≡ some c) (at_end id i e h)
          (get_at-snoc s.chunks c),
      (eq_iff c.id id).0 e,
    )
    | inr e ↦
        let (d, q, same) = ix.named id i (
          ap (λ b. if b then some (length s.chunks) else lookup id s.by_id) (sym e)
          ∙ sym (lookup-insert c.id id (length s.chunks) s.by_id)
          ∙ h) in
        (d, get_at-append i s.chunks (c ∷ []) d q, same)
  ];
}
  where
    other :
        (id : String) (i : ℕ)
        → lookup id s.by_id ≡ some i
        → (if c.id == id then some (length s.chunks) else lookup id s.by_id) ≡ some i
    other id i h = elim (Bool-cases (c.id == id)) [
      | inl e ↦ cc (subst (λ k. lookup k s.by_id ≡ none) ((eq_iff c.id id).0 e) free, h)
      | inr e ↦ ap (λ b. if b then some (length s.chunks) else lookup id s.by_id) e ∙ h
    ]

    at_end :
        (id : String) (i : ℕ)
        → (c.id == id) ≡ true
        → lookup id (insert c.id (length s.chunks) s.by_id) ≡ some i
        → length s.chunks ≡ i
    at_end id i e h = cc (
        ap (λ b. if b then some (length s.chunks) else lookup id s.by_id) (sym e)
        ∙ sym (lookup-insert c.id id (length s.chunks) s.by_id)
        ∙ h)
