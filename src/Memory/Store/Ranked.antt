-- ===== src/Memory/Store/Ranked.antt =====
-- What `Retrieve` of pkg/memory/inmem.go returns.
use galdor.Prelude.{
  is_empty, ℕ, zero, suc, ◌≤◌, Bool, true, false, Bool-cases, ◌&&◌, List, [], ◌∷◌, ◌≡◌, inl, inr,
  refl, subst, some, if◌then◌else◌, length, take, length-take, arith, ok, err, Result, Result-cases,
  All, ◌==◌,
}
use galdor.Graph.Run.{positive_or}
use galdor.Memory.Store.{Chunk, InMemoryStore, get_at}
use galdor.Memory.Store.Retrieve.{
  Query, Hit, Scoring, RetrieveErr, matches_filter, lexical_score, kept_vector, scored, joined,
  collect, put_before, sort_hits, retrieve,
}

module _ {F D : Type 0} (sc : Scoring F D) where
  -- No hit is better than the one before it.
  abbrev pub Ranked : List (Hit F) → Type 0
  Ranked [] = Unit
  Ranked (h ∷ []) = Unit
  Ranked (h ∷ g ∷ hs) = (sc.exceeds g.score h.score ≡ false) × Ranked (g ∷ hs)

  -- `>` on float32 holds one way only.
  abbrev pub ExceedsOneWay : Type 0
  ExceedsOneWay = (x y : F) → sc.exceeds x y ≡ true → sc.exceeds y x ≡ false

  put_before-Ranked :
      ExceedsOneWay → (h : Hit F) (hs : List (Hit F)) → Ranked hs → Ranked (put_before sc h hs)
  unfolding put_before
  put_before-Ranked one h [] r = tt
  put_before-Ranked one h (x ∷ []) r = elim (Bool-cases (sc.exceeds x.score h.score)) [
    | inl e ↦ rw (e, put_before) (one x.score h.score e, tt)
    | inr e ↦ rw (e, put_before) (e, tt)
  ]
  put_before-Ranked one h (x ∷ y ∷ ys) r = elim (Bool-cases (sc.exceeds x.score h.score)) [
    | inr e ↦ rw (e, put_before) (e, r)
    | inl e ↦ elim (Bool-cases (sc.exceeds y.score h.score)) [
      | inl f ↦
          rw (e, f, put_before) (r.0, rw (f, put_before) at (put_before-Ranked one h (y ∷ ys) r.1))
      | inr f ↦ rw (e, f, put_before) (one x.score h.score e, (f, r.1))
    ]
  ]

  sort_hits-Ranked : ExceedsOneWay → (hs : List (Hit F)) → Ranked (sort_hits sc hs)
  unfolding sort_hits
  sort_hits-Ranked one [] = tt
  sort_hits-Ranked one (h ∷ hs) =
      put_before-Ranked one h (sort_hits sc hs) (sort_hits-Ranked one hs)

  take-Ranked : (k : ℕ) (hs : List (Hit F)) → Ranked hs → Ranked (take k hs)
  take-Ranked zero hs r = tt
  take-Ranked (suc k) [] r = tt
  take-Ranked (suc zero) (h ∷ hs) r = tt
  take-Ranked (suc (suc k)) (h ∷ []) r = tt
  take-Ranked (suc (suc k)) (h ∷ g ∷ hs) r = (r.0, take-Ranked (suc k) (g ∷ hs) r.1)

  module _ (P : Hit F → Type 0) where
    put_before-All : (h : Hit F) (hs : List (Hit F)) → P h → All P hs → All P (put_before sc h hs)
    unfolding put_before
    put_before-All h [] p a = (p, tt)
    put_before-All h (x ∷ xs) p a = elim (Bool-cases (sc.exceeds x.score h.score)) [
      | inl e ↦ rw (e, put_before) (a.0, put_before-All h xs p a.1)
      | inr e ↦ rw (e, put_before) (p, a)
    ]

    sort_hits-All : (hs : List (Hit F)) → All P hs → All P (sort_hits sc hs)
    unfolding sort_hits
    sort_hits-All [] a = tt
    sort_hits-All (h ∷ hs) a = put_before-All h (sort_hits sc hs) a.0 (sort_hits-All hs a.1)

    take-All : (k : ℕ) (hs : List (Hit F)) → All P hs → All P (take k hs)
    take-All zero hs a = tt
    take-All (suc k) [] a = tt
    take-All (suc k) (h ∷ hs) a = (a.0, take-All k hs a.1)

  module _ (q : Query F) where
    -- A hit is a chunk of the list that passes the filter.
    abbrev pub IsHit : List (Chunk F) → Hit F → Type 0
    IsHit cs h =
        (matches_filter h.chunk.metadata q.filter ≡ true) × (i : ℕ) × (get_at i cs ≡ some h.chunk)

    IsHit-later : (c : Chunk F) (cs : List (Chunk F)) (h : Hit F) → IsHit cs h → IsHit (c ∷ cs) h
    unfolding get_at
    IsHit-later c cs h (m, i, e) = (m, suc i, e)

    All-later :
        (c : Chunk F) (cs : List (Chunk F)) (hs : List (Hit F))
        → All (IsHit cs) hs
        → All (IsHit (c ∷ cs)) hs
    All-later c cs [] a = tt
    All-later c cs (h ∷ hs) a = (IsHit-later c cs h a.0, All-later c cs hs a.1)

    nothing-IsHit :
        (cs : List (Chunk F)) (hs : List (Hit F))
        → ◌≡◌ {A = Result RetrieveErr (List (Hit F))} (ok []) (ok hs)
        → All (IsHit cs) hs
    nothing-IsHit cs hs h = let same : [] ≡ hs = cc h in subst (All (IsHit cs)) same tt

    one-IsHit :
        (b : Bool) (c : Chunk F) (score : F) (cs : List (Chunk F)) (hs : List (Hit F))
        → matches_filter c.metadata q.filter ≡ true
        → ◌≡◌ {A = Result RetrieveErr (List (Hit F))}
            (ok (if b then [] else record { chunk = c; score = score } ∷ []))
            (ok hs)
        → All (IsHit (c ∷ cs)) hs
    unfolding get_at
    one-IsHit true c score cs hs m h = nothing-IsHit (c ∷ cs) hs h
    one-IsHit false c score cs hs m h =
        let same : record { chunk = c; score = score } ∷ [] ≡ hs = cc h in
        subst (All (IsHit (c ∷ cs))) same ((m, 0, refl), tt)

    vector-IsHit :
        (c : Chunk F) (r : Result RetrieveErr F) (cs : List (Chunk F)) (hs : List (Hit F))
        → matches_filter c.metadata q.filter ≡ true
        → kept_vector sc c r ≡ ok hs
        → All (IsHit (c ∷ cs)) hs
    vector-IsHit c (err e) cs hs m h = cc h
    vector-IsHit c (ok score) cs hs m h = one-IsHit (sc.is_below_zero score) c score cs hs m h

    scored-IsHit :
        (c : Chunk F) (cs : List (Chunk F)) (hs : List (Hit F))
        → scored sc q c ≡ ok hs
        → All (IsHit (c ∷ cs)) hs
    unfolding scored
    scored-IsHit c cs hs h = elim (Bool-cases (matches_filter c.metadata q.filter)) [
      | inr m ↦ nothing-IsHit (c ∷ cs) hs (rw (m, scored) at h)
      | inl m ↦ elim (Bool-cases (is_empty q.embedding)) [
        | inl v ↦
            one-IsHit (sc.is_at_most_zero (lexical_score sc q.text c.text)) c
              (lexical_score sc q.text c.text) cs hs m (rw (m, v, scored) at h)
        | inr v ↦ elim (Bool-cases (is_empty c.embedding)) [
          | inl w ↦ nothing-IsHit (c ∷ cs) hs (rw (m, v, w, scored) at h)
          | inr w ↦ vector-IsHit c _ cs hs m (rw (m, v, w, scored) at h)
        ]
      ]
    ]

    joined-IsHit :
        (c : Chunk F) (cs : List (Chunk F)) (hs : List (Hit F))
        (a b : Result RetrieveErr (List (Hit F)))
        → ((gs : List (Hit F)) → a ≡ ok gs → All (IsHit (c ∷ cs)) gs)
        → ((gs : List (Hit F)) → b ≡ ok gs → All (IsHit cs) gs)
        → joined sc a b ≡ ok hs
        → All (IsHit (c ∷ cs)) hs
    joined-IsHit c cs hs (err e) b here later h = cc h
    joined-IsHit c cs hs (ok []) (err e) here later h = cc h
    joined-IsHit c cs hs (ok (g ∷ gs)) (err e) here later h = cc h
    joined-IsHit c cs hs (ok []) (ok rest) here later h =
        let same : rest ≡ hs = cc h in
        subst (All (IsHit (c ∷ cs))) same (All-later c cs rest (later rest refl))
    joined-IsHit c cs hs (ok (g ∷ gs)) (ok rest) here later h =
        let same : g ∷ rest ≡ hs = cc h in
        subst (All (IsHit (c ∷ cs))) same
          ((here (g ∷ gs) refl).0, All-later c cs rest (later rest refl))

    collect-IsHit :
        (cs : List (Chunk F)) (hs : List (Hit F)) → collect sc q cs ≡ ok hs → All (IsHit cs) hs
    unfolding collect
    collect-IsHit [] hs h = nothing-IsHit [] hs h
    collect-IsHit (c ∷ cs) hs h =
        joined-IsHit c cs hs (scored sc q c) (collect sc q cs) (λ gs. scored-IsHit c cs gs)
          (λ gs. collect-IsHit cs gs) h

  -- If `>` holds one way only, the hits of a query are at most as many as asked for, or five, each is a
  -- chunk of the store that passes the filter, and none is better than the one before it.
  pub retrieve-Ranked :
      (q : Query F) (s : InMemoryStore F) (hits : List (Hit F))
      → ExceedsOneWay
      → retrieve sc q s ≡ ok hits
      → (length hits ≤ positive_or q.k 5) × All (IsHit q s.chunks) hits × Ranked hits
  unfolding retrieve
  retrieve-Ranked q s hits one h = elim (Bool-cases (q.text == "" && is_empty q.embedding)) [
    | inl e ↦ cc (rw (e, retrieve) at h)
    | inr e ↦ elim (Result-cases (collect sc q s.chunks)) [
      | inr (x, c) ↦ cc (rw (e, c, retrieve) at h)
      | inl (found, c) ↦
          let k = positive_or q.k 5 in
          let same : take k (sort_hits sc found) ≡ hits = cc (rw (e, c, retrieve) at h) in
          subst (λ (x : List (Hit F)). (length x ≤ k) × All (IsHit q s.chunks) x × Ranked x) same
            (
              omega (arith, length-take k (sort_hits sc found)),
              take-All (IsHit q s.chunks) k (sort_hits sc found)
                  (sort_hits-All (IsHit q s.chunks) found (collect-IsHit q s.chunks found c)),
              take-Ranked k (sort_hits sc found) (sort_hits-Ranked one found),
            )
    ]
  ]
