-- ===== src/Memory/Store/Find.antt =====
-- The in-memory store of pkg/memory/inmem.go as a map from ids to chunks.
use galdor.Prelude.{
  ℕ, zero, suc, String, false, Bool-cases, Option, none, some, Option-cases, List, [], ◌∷◌, ◌++◌,
  ◌≡◌, ◌⊎◌, inl, inr, refl, sym, ap, subst, ◌∙◌, lookup, insert, lookup-insert, ◌==◌, eq_iff,
  if◌then◌else◌, length,
}
use galdor.Memory.Store.{
  Chunk, InMemoryStore, get_at, set_at, after, put, place, replaced, add, with_id, then_add,
}
use galdor.Memory.Store.Index.{IsIndexed, append-IsIndexed, get_at-snoc, get_at-append}

abbrev pub at_index : {F : Type 0} → InMemoryStore F → Option ℕ → Option (Chunk F)
at_index s none = none
at_index s (some i) = get_at i s.chunks

-- The chunk that the store holds under an id.
abbrev pub find : {F : Type 0} → String → InMemoryStore F → Option (Chunk F)
find id s = at_index s (lookup id s.by_id)

set_at-replaces :
    {A : Type 0} (i : ℕ) (xs : List A) (x y : A)
    → get_at i xs ≡ some x
    → (ys : List A) × (set_at i y xs ≡ some ys)
      × (get_at i ys ≡ some y)
      × ((j : ℕ) → (j ≡ i) ⊎ (get_at j ys ≡ get_at j xs))
unfolding get_at set_at
set_at-replaces i [] x y h = cc h
set_at-replaces zero (x' ∷ xs) x y h = (y ∷ xs, refl, refl, others)
  where
    others : (j : ℕ) → (j ≡ zero) ⊎ (get_at j (y ∷ xs) ≡ get_at j (x' ∷ xs))
    others zero = inl refl
    others (suc j) = inr refl
set_at-replaces (suc i) (x' ∷ xs) x y h =
    let (ys, made, here, rest) = set_at-replaces i xs x y h in
    (x' ∷ ys, ap (after x') made, here, others ys rest)
  where
    others :
        (ys : List _)
        → ((j : ℕ) → (j ≡ i) ⊎ (get_at j ys ≡ get_at j xs))
        → (j : ℕ) → (j ≡ suc i) ⊎ (get_at j (x' ∷ ys) ≡ get_at j (x' ∷ xs))
    others ys rest zero = inr refl
    others ys rest (suc j) = elim (rest j) [ inl e ↦ inl (ap suc e) | inr e ↦ inr e ]

module _ {F : Type 0} where
  -- A chunk takes the place of the one with its id.
  replace-IsIndexed :
      (s : InMemoryStore F) (c : Chunk F) (i : ℕ) (cs : List (Chunk F))
      → IsIndexed s
      → lookup c.id s.by_id ≡ some i
      → get_at i cs ≡ some c
      → ((j : ℕ) → (j ≡ i) ⊎ (get_at j cs ≡ get_at j s.chunks))
      → IsIndexed (record s { chunks = cs })
  replace-IsIndexed s c i cs ix known here others = record {
    placed = λ j d h. elim (others j) [
      | inl e ↦
          let same : c ≡ d = cc (here, subst (λ k. get_at k cs ≡ some d) e h) in
          subst (λ (x : Chunk F). lookup x.id s.by_id ≡ some j) same (known ∙ ap some (sym e))
      | inr e ↦ ix.placed j d (sym e ∙ h)
    ];
    named = λ id j h. elim (others j) [
      | inl e ↦
          let (d, q, same) = ix.named id j h in
          let (d', q', same') = ix.named c.id i known in
          let one : d ≡ d' = cc (q, subst (λ k. get_at k s.chunks ≡ some d') (sym e) q') in
          (
            c,
            subst (λ k. get_at k cs ≡ some c) (sym e) here,
            sym same' ∙ sym (ap (λ (x : Chunk F). x.id) one) ∙ same,
          )
      | inr e ↦ let (d, q, same) = ix.named id j h in (d, e ∙ q, same)
    ];
  }

  appended : Chunk F → InMemoryStore F → InMemoryStore F
  appended c s = record {
    chunks = s.chunks ++ c ∷ [];
    by_id = insert c.id (length s.chunks) s.by_id;
  }

  find-append :
      (c : Chunk F) (s : InMemoryStore F) (id : String)
      → IsIndexed s
      → find id (appended c s) ≡ (if c.id == id then some c else find id s)
  unfolding appended
  find-append c s id ix = elim (Bool-cases (c.id == id)) [
    | inl e ↦
        ap (at_index (appended c s)) (
          lookup-insert c.id id (length s.chunks) s.by_id
          ∙ ap (λ b. if b then some (length s.chunks) else lookup id s.by_id) e)
        ∙ get_at-snoc s.chunks c
        ∙ ap (λ b. if b then some c else find id s) (sym e)
    | inr e ↦
        ap (at_index (appended c s)) (
          lookup-insert c.id id (length s.chunks) s.by_id
          ∙ ap (λ b. if b then some (length s.chunks) else lookup id s.by_id) e)
        ∙ old (lookup id s.by_id) refl
        ∙ ap (λ b. if b then some c else find id s) (sym e)
  ]
    where
      old : (o : Option ℕ) → lookup id s.by_id ≡ o → at_index (appended c s) o ≡ at_index s o
      old none q = refl
      old (some j) q =
          let (d, there, same) = ix.named id j q in
          get_at-append j s.chunks (c ∷ []) d there ∙ sym there

  find-replace :
      (c : Chunk F) (s : InMemoryStore F) (i : ℕ) (cs : List (Chunk F)) (id : String)
      → IsIndexed s
      → lookup c.id s.by_id ≡ some i
      → get_at i cs ≡ some c
      → ((j : ℕ) → (j ≡ i) ⊎ (get_at j cs ≡ get_at j s.chunks))
      → find id (record s { chunks = cs }) ≡ (if c.id == id then some c else find id s)
  find-replace c s i cs id ix known here others = elim (Bool-cases (c.id == id)) [
    | inl e ↦
        ap (at_index (record s { chunks = cs }))
          (subst (λ k. lookup k s.by_id ≡ some i) ((eq_iff c.id id).0 e) known)
        ∙ here
        ∙ ap (λ b. if b then some c else find id s) (sym e)
    | inr e ↦ old e (lookup id s.by_id) refl ∙ ap (λ b. if b then some c else find id s) (sym e)
  ]
    where
      old :
          (c.id == id) ≡ false
          → (o : Option ℕ) → lookup id s.by_id ≡ o
          → at_index (record s { chunks = cs }) o ≡ at_index s o
      old e none q = refl
      old e (some j) q = elim (others j) [
        | inr kept ↦ kept
        | inl at ↦
            let (d, there, same) = ix.named id j q in
            let (d', there', same') = ix.named c.id i known in
            let one : d ≡ d' =
              cc (there, subst (λ k. get_at k s.chunks ≡ some d') (sym at) there') in
            let ids : c.id ≡ id = sym same' ∙ sym (ap (λ (x : Chunk F). x.id) one) ∙ same in
            cc ((eq_iff c.id id).1 ids, e)
      ]

  -- One chunk of `Add` into a store whose index names each chunk its place: the write succeeds, the index
  -- stays right, and the store then finds the chunk under its id and the same as before under the others.
  pub put-find :
      (c : Chunk F) (s : InMemoryStore F)
      → IsIndexed s
      → (s' : InMemoryStore F) × (put c s ≡ some s')
        × IsIndexed s'
        × ((id : String) → find id s' ≡ (if c.id == id then some c else find id s))
  unfolding put appended
  put-find c s ix = elim (Option-cases (lookup c.id s.by_id)) [
    | inl e ↦
        (appended c s, ap (place c s) e, append-IsIndexed s c ix e, λ id. find-append c s id ix)
    | inr (i, e) ↦
        let (d, q, same) = ix.named c.id i e in
        let (cs, made, here, others) = set_at-replaces i s.chunks d c q in
        (
          record s { chunks = cs },
          ap (place c s) e ∙ ap (replaced s) made,
          replace-IsIndexed s c i cs ix e here others,
          λ id. find-replace c s i cs id ix e here others,
        )
  ]

  -- `Add` of any chunks, with any source of new ids, succeeds and keeps the index right.
  pub add-IsIndexed :
      {W : Type 0} (new_id : W → String × W) (cs : List (Chunk F)) (s : InMemoryStore F) (w : W)
      → IsIndexed s
      → (s' : InMemoryStore F) × (w' : W) × (add new_id cs s w ≡ (some s', w')) × IsIndexed s'
  unfolding add
  add-IsIndexed new_id [] s w ix = (s, w, refl, ix)
  add-IsIndexed new_id (c ∷ cs) s w ix =
      let (c', w1) = with_id new_id c w in
      let (s1, made, ix1, found) = put-find c' s ix in
      let (s', w', rest, ix') = add-IsIndexed new_id cs s1 w1 ix1 in
      (s', w', ap (λ o. then_add new_id (add new_id cs) (o, w1)) made ∙ rest, ix')
