-- ===== src/Memory/Store/Delete.antt =====
-- `Delete` of the in-memory store of pkg/memory/inmem.go.
use galdor.Prelude.{
  ℕ, suc, ◌+◌, String, false, Bool-cases, none, some, List, [], ◌∷◌, ◌++◌, ◌≡◌, inl, inr, refl, sym,
  ap, subst, ◌∙◌, lookup, insert, lookup-insert, ◌==◌, eq_iff, if◌then◌else◌, length, arith, ok,
  All, append-nil, append_assoc,
}
use galdor.Memory.Store.{Chunk, InMemoryStore, get_at, keep_others, delete}
use galdor.Memory.Store.Index.{IsIndexed, append-IsIndexed}

lookup-nil : (k : String) → lookup {V = ℕ} k [] ≡ none
unfolding lookup
lookup-nil k = refl

module _ {F : Type 0} where
  -- The chunks of other documents, in order.
  unfoldable pub others_of : String → List (Chunk F) → List (Chunk F)
  others_of document_id [] = []
  others_of document_id (c ∷ cs) =
      let rest = others_of document_id cs in if c.document_id == document_id then rest else c ∷ rest

  abbrev Distinct : List (Chunk F) → Type 0
  Distinct [] = Unit
  Distinct (c ∷ cs) = All (λ d. (c.id == d.id) ≡ false) cs × Distinct cs

  abbrev Free : InMemoryStore F → List (Chunk F) → Type 0
  Free s cs = All (λ c. lookup c.id s.by_id ≡ none) cs

  All-get_at :
      (P : Chunk F → Type 0) (cs : List (Chunk F))
      → ((i : ℕ) (d : Chunk F) → get_at i cs ≡ some d → P d)
      → All P cs
  unfolding get_at
  All-get_at P [] h = tt
  All-get_at P (c ∷ cs) h = (h 0 c refl, All-get_at P cs (λ i d q. h (suc i) d q))

  -- Chunks that an index places one after the other have different ids.
  placed-Distinct :
      (s : InMemoryStore F) (cs : List (Chunk F)) (k : ℕ)
      → ((i : ℕ) (c : Chunk F) → get_at i cs ≡ some c → lookup c.id s.by_id ≡ some (k + i))
      → Distinct cs
  unfolding get_at
  placed-Distinct s [] k h = tt
  placed-Distinct s (c ∷ cs) k h = (
    All-get_at (λ d. (c.id == d.id) ≡ false) cs (λ i d q. apart i d (h (suc i) d q)),
    placed-Distinct s cs (suc k) (λ i d q. h (suc i) d q ∙ ap some (omega arith)),
  )
    where
      apart :
          (i : ℕ) (d : Chunk F) → lookup d.id s.by_id ≡ some (k + suc i) → (c.id == d.id) ≡ false
      apart i d q = elim (Bool-cases (c.id == d.id)) [
        | inr e ↦ e
        | inl e ↦
            let first : lookup d.id s.by_id ≡ some (k + 0) =
              subst (λ x. lookup x s.by_id ≡ some (k + 0)) ((eq_iff c.id d.id).0 e) (h 0 c refl) in
            let same : k + suc i ≡ k + 0 = cc (q, first) in absurd (omega arith)
      ]

  Free-insert :
      (s : InMemoryStore F) (c : Chunk F) (cs : List (Chunk F))
      → All (λ d. (c.id == d.id) ≡ false) cs
      → Free s cs
      → Free
          (record { chunks = s.chunks ++ c ∷ []; by_id = insert c.id (length s.chunks) s.by_id })
          cs
  Free-insert s c [] apart free = tt
  Free-insert s c (d ∷ cs) apart free = (
    lookup-insert c.id d.id (length s.chunks) s.by_id
        ∙ ap (λ b. if b then some (length s.chunks) else lookup d.id s.by_id) apart.0
        ∙ free.0,
    Free-insert s c cs apart.1 free.1,
  )

  keep_others-IsIndexed :
      (document_id : String) (cs : List (Chunk F)) (kept : InMemoryStore F)
      → IsIndexed kept
      → Distinct cs
      → Free kept cs
      → IsIndexed (keep_others document_id cs kept)
        × ((keep_others document_id cs kept).chunks ≡ kept.chunks ++ others_of document_id cs)
  unfolding keep_others others_of
  keep_others-IsIndexed document_id [] kept ix distinct free = (ix, sym (append-nil kept.chunks))
  keep_others-IsIndexed document_id (c ∷ cs) kept ix distinct free =
      elim (Bool-cases (c.document_id == document_id)) [
        | inl e ↦
            rw (e, keep_others, others_of)
              (keep_others-IsIndexed document_id cs kept ix distinct.1 free.1)
        | inr e ↦
            let next : InMemoryStore F = record {
              chunks = kept.chunks ++ c ∷ [];
              by_id = insert c.id (length kept.chunks) kept.by_id;
            } in
            let (ix', made) =
              keep_others-IsIndexed document_id cs next (append-IsIndexed kept c ix free.0)
                distinct.1 (Free-insert kept c cs distinct.0 free.1) in
            rw (e, keep_others, others_of)
              (ix', made ∙ append_assoc kept.chunks (c ∷ []) (others_of document_id cs))
      ]

  empty-IsIndexed : IsIndexed {F = F} (record { chunks = []; by_id = [] })
  unfolding get_at lookup
  empty-IsIndexed = record { placed = λ i c h. cc; named = λ id i h. cc }

  -- `Delete` of a document, on a store whose index names each chunk its place, keeps the index right and
  -- leaves the chunks of the other documents, in their order.
  pub delete-IsIndexed :
      (document_id : String) (s s' : InMemoryStore F)
      → IsIndexed s
      → delete document_id s ≡ ok s'
      → IsIndexed s' × (s'.chunks ≡ others_of document_id s.chunks)
  unfolding delete
  delete-IsIndexed document_id s s' ix h = elim (Bool-cases (document_id == "")) [
    | inl e ↦ cc (rw (e, delete) at h)
    | inr e ↦
        let none_kept : InMemoryStore F = record { chunks = []; by_id = [] } in
        let same : keep_others document_id s.chunks none_kept ≡ s' = cc (rw (e, delete) at h) in
        subst (λ (x : InMemoryStore F). IsIndexed x × (x.chunks ≡ others_of document_id s.chunks))
          same
          (keep_others-IsIndexed document_id s.chunks none_kept empty-IsIndexed
            (placed-Distinct s s.chunks 0 (λ i c q. ix.placed i c q ∙ ap some (omega arith)))
            (All-get_at (λ c. lookup c.id none_kept.by_id ≡ none) s.chunks
              (λ i d q. lookup-nil d.id)))
  ]
