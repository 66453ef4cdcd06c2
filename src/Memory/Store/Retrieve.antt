-- ===== src/Memory/Store/Retrieve.antt =====
-- `Retrieve` of pkg/memory/inmem.go. `F` is the type of float32 and `D` of float64 values; their
-- operations, and those of the strings package, are in `Scoring`.
use galdor.Prelude.{
  is_empty, ℕ, suc, ℤ, String, Bool, true, not, ◌&&◌, ◌||◌, Option, none, some, List, [], ◌∷◌,
  Assoc, lookup, ◌==◌, if◌then◌else◌, length, take, eqb, ok, err, Result,
}
use galdor.Graph.Run.{positive_or}
use galdor.Memory.Store.{Chunk, InMemoryStore}

pub record Query (F : Type 0) : Type 0 where
  pub text : String
  pub embedding : List F
  pub k : ℤ
  pub filter : Assoc String

pub record Hit (F : Type 0) : Type 0 where
  pub chunk : Chunk F
  pub score : F

pub record Scoring (F D : Type 0) : Type 0 where
  pub widen : F → D
  pub narrow : D → F
  pub no_score : F
  pub zero_sum : D
  pub plus : D → D → D
  pub times : D → D → D
  pub divide : D → D → D
  pub square_root : D → D
  pub is_zero_sum : D → Bool
  pub ratio : ℕ → ℕ → F
  pub is_below_zero : F → Bool
  pub is_at_most_zero : F → Bool
  pub exceeds : F → F → Bool
  pub to_lower : String → String
  pub fields : String → List String
  pub contains_text : String → String → Bool

pub data RetrieveErr : Type 0 where
  empty_query : RetrieveErr
  dimension_mismatch : ℕ → ℕ → RetrieveErr

abbrev pub value_or_empty : Option String → String
value_or_empty none = ""
value_or_empty (some v) = v

-- `matchesFilter`.
unfoldable pub matches_filter : Assoc String → Assoc String → Bool
matches_filter meta [] = true
matches_filter meta ((key, value) ∷ filter) =
    value_or_empty (lookup key meta) == value && matches_filter meta filter

module _ {F D : Type 0} (sc : Scoring F D) where
  -- The three sums of the loop of `cosine`.
  unfoldable pub sums : List F → List F → D × D × D → D × D × D
  sums (x ∷ xs) (y ∷ ys) (dot, na, nb) =
      let a = sc.widen x in
      let b = sc.widen y in
      sums xs ys (sc.plus dot (sc.times a b), sc.plus na (sc.times a a), sc.plus nb (sc.times b b))
  sums _ _ acc = acc

  abbrev pub quotient : D × D × D → F
  quotient (dot, na, nb) =
      let denom = sc.times (sc.square_root na) (sc.square_root nb) in
      if sc.is_zero_sum denom then sc.no_score else sc.narrow (sc.divide dot denom)

  unfoldable pub cosine : List F → List F → Result RetrieveErr F
  unfolding sums
  cosine a b =
      if not (eqb (length a) (length b))
      then err (dimension_mismatch (length a) (length b))
      else if is_empty a
      then ok sc.no_score
      else ok (quotient (sums a b (sc.zero_sum, sc.zero_sum, sc.zero_sum)))

  abbrev pub hits_in : String → List String → ℕ
  hits_in target [] = 0
  hits_in target (token ∷ tokens) =
      let rest = hits_in target tokens in if sc.contains_text target token then suc rest else rest

  unfoldable pub lexical_score : String → String → F
  lexical_score query target =
      if query == "" || target == ""
      then sc.no_score
      else let tokens = sc.fields (sc.to_lower query) in
        if is_empty tokens
        then sc.no_score
        else sc.ratio (hits_in (sc.to_lower target) tokens) (length tokens)

  abbrev pub kept_vector : Chunk F → Result RetrieveErr F → Result RetrieveErr (List (Hit F))
  kept_vector c (err e) = err e
  kept_vector c (ok score) =
      ok (if sc.is_below_zero score then [] else record { chunk = c; score = score } ∷ [])

  abbrev pub kept_lexical : Chunk F → F → Result RetrieveErr (List (Hit F))
  kept_lexical c score =
      ok (if sc.is_at_most_zero score then [] else record { chunk = c; score = score } ∷ [])

  -- One round of the loop: the hit that a chunk is, if it is one.
  unfoldable pub scored : Query F → Chunk F → Result RetrieveErr (List (Hit F))
  unfolding cosine lexical_score matches_filter
  scored q c =
      if not (matches_filter c.metadata q.filter)
      then ok []
      else if not (is_empty q.embedding)
      then (if is_empty c.embedding then ok [] else kept_vector c (cosine q.embedding c.embedding))
      else kept_lexical c (lexical_score q.text c.text)

  abbrev pub joined :
      Result RetrieveErr (List (Hit F))
      → Result RetrieveErr (List (Hit F))
      → Result RetrieveErr (List (Hit F))
  joined (err e) rest = err e
  joined (ok hits) (err e) = err e
  joined (ok []) (ok rest) = ok rest
  joined (ok (h ∷ hs)) (ok rest) = ok (h ∷ rest)

  unfoldable pub collect : Query F → List (Chunk F) → Result RetrieveErr (List (Hit F))
  unfolding scored
  collect q [] = ok []
  collect q (c ∷ cs) = joined (scored q c) (collect q cs)

  -- `sort.SliceStable` by descending score.
  unfoldable pub put_before : Hit F → List (Hit F) → List (Hit F)
  put_before h [] = h ∷ []
  put_before h (x ∷ xs) = if sc.exceeds x.score h.score then x ∷ put_before h xs else h ∷ x ∷ xs

  unfoldable pub sort_hits : List (Hit F) → List (Hit F)
  unfolding put_before
  sort_hits [] = []
  sort_hits (h ∷ hs) = put_before h (sort_hits hs)

  abbrev pub best : ℕ → Result RetrieveErr (List (Hit F)) → Result RetrieveErr (List (Hit F))
  best k (err e) = err e
  best k (ok hits) = ok (take k (sort_hits hits))

  unfoldable pub retrieve : Query F → InMemoryStore F → Result RetrieveErr (List (Hit F))
  unfolding collect sort_hits
  retrieve q s =
      if q.text == "" && is_empty q.embedding
      then err empty_query
      else best (positive_or q.k 5) (collect q s.chunks)
