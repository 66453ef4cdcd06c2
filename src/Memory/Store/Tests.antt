-- ===== src/Memory/Store/Tests.antt =====
-- A store of pkg/memory/inmem.go with chunks of two documents.
use galdor.Prelude.{
  ◌+◌, ◌*◌, ◌≤◌, pos, eqb, ltb, arith, false, true, All, subst, ℕ, suc, String, some, List, [], ◌∷◌,
  ok, ◌≡◌, refl, lookup, insert, remove, ◌==◌, if◌then◌else◌,
}
use galdor.Memory.Store.{
  Chunk, InMemoryStore, get_at, put, add, delete, keep_others, new_in_memory_store,
}
use galdor.Graph.Run.{positive_or}
use galdor.Memory.Store.Retrieve.{
  Query, Scoring, matches_filter, lexical_score, scored, collect, put_before, sort_hits, retrieve,
}
use galdor.Memory.Store.Ranked.{Ranked, ExceedsOneWay, IsHit, retrieve-Ranked}
use galdor.Memory.Store.Index.{IsIndexed}
use galdor.Memory.Store.Find.{find, put-find, add-IsIndexed}
use galdor.Memory.Store.Delete.{others_of, delete-IsIndexed}

abbrev chunk : String → String → Chunk ℕ
chunk id document = record {
  id = id;
  document_id = document;
  index = 0;
  text = "";
  embedding = [];
  metadata = [];
}

abbrev new_id : ℕ → String × ℕ
new_id w = ("new", suc w)

abbrev chunks : List (Chunk ℕ)
chunks = chunk "a" "d" ∷ chunk "b" "e" ∷ chunk "a" "e" ∷ []

abbrev store : InMemoryStore ℕ
store = record { chunks = chunk "a" "d" ∷ chunk "b" "e" ∷ []; by_id = ("b", 1) ∷ ("a", 0) ∷ [] }

empty-IsIndexed : IsIndexed {F = ℕ} new_in_memory_store
unfolding new_in_memory_store get_at lookup
empty-IsIndexed = record { placed = λ i c h. cc; named = λ id i h. cc }

add-IsIndexed_example :
    (s' : InMemoryStore ℕ) × (w' : ℕ) × (add new_id chunks new_in_memory_store 0 ≡ (some s', w'))
    × IsIndexed s'
add-IsIndexed_example = add-IsIndexed new_id chunks new_in_memory_store 0 empty-IsIndexed

abbrev one : InMemoryStore ℕ
one = record { chunks = chunk "a" "d" ∷ []; by_id = ("a", 0) ∷ [] }

first_made : put (chunk "a" "d") new_in_memory_store ≡ some one
unfolding put new_in_memory_store lookup insert remove
first_made = refl

second_made : put (chunk "b" "e") one ≡ some store
unfolding put lookup insert remove
second_made = refl

one-IsIndexed : IsIndexed one
one-IsIndexed =
    let (s, made, ix, found) = put-find (chunk "a" "d") new_in_memory_store empty-IsIndexed in
    let same : s ≡ one = cc (made, first_made) in subst IsIndexed same ix

store-IsIndexed : IsIndexed store
store-IsIndexed =
    let (s, made, ix, found) = put-find (chunk "b" "e") one one-IsIndexed in
    let same : s ≡ store = cc (made, second_made) in subst IsIndexed same ix

put-find_example :
    (s' : InMemoryStore ℕ) × (put (chunk "a" "e") store ≡ some s')
    × IsIndexed s'
    × ((id : String)
        → find id s' ≡ (if (chunk "a" "e").id == id then some (chunk "a" "e") else find id store))
put-find_example = put-find (chunk "a" "e") store store-IsIndexed

abbrev left : InMemoryStore ℕ
left = record { chunks = chunk "b" "e" ∷ []; by_id = ("b", 0) ∷ [] }

deleted : delete "d" store ≡ ok left
unfolding delete keep_others insert remove
deleted = refl

delete-IsIndexed_example : IsIndexed left × (left.chunks ≡ others_of "d" store.chunks)
delete-IsIndexed_example = delete-IsIndexed "d" store left store-IsIndexed deleted

-- Scores that are whole numbers: a chunk scores as many points as the query has words in its text.
abbrev scoring : Scoring ℕ ℕ
scoring = record {
  widen = λ x. x;
  narrow = λ x. x;
  no_score = 0;
  zero_sum = 0;
  plus = λ x y. x + y;
  times = λ x y. x * y;
  divide = λ x y. x;
  square_root = λ x. x;
  is_zero_sum = λ x. eqb x 0;
  ratio = λ n d. n;
  is_below_zero = λ x. false;
  is_at_most_zero = λ x. eqb x 0;
  exceeds = λ x y. ltb y x;
  to_lower = λ s. s;
  fields = λ s. s ∷ [];
  contains_text = λ s t. true;
}

abbrev query : Query ℕ
query = record { text = "x"; embedding = []; k = pos 1; filter = [] }

abbrev texts : InMemoryStore ℕ
texts = record store {
  chunks = record (chunk "a" "d") { text = "x y" } ∷ record (chunk "b" "e") { text = "x" } ∷ [];
}

one_hit :
    retrieve scoring query texts
    ≡ ok (record { chunk = record (chunk "a" "d") { text = "x y" }; score = 1 } ∷ [])
unfolding retrieve collect scored matches_filter lexical_score sort_hits put_before
one_hit = refl

one_way : ExceedsOneWay scoring
one_way x y h = ground arith

retrieve-Ranked_example :
    (1 ≤ positive_or (pos 1) 5)
    × All
        (IsHit scoring query texts.chunks)
        (record { chunk = record (chunk "a" "d") { text = "x y" }; score = 1 } ∷ [])
    × Ranked scoring (record { chunk = record (chunk "a" "d") { text = "x y" }; score = 1 } ∷ [])
retrieve-Ranked_example =
    retrieve-Ranked scoring query texts
      (record { chunk = record (chunk "a" "d") { text = "x y" }; score = 1 } ∷ []) one_way one_hit
