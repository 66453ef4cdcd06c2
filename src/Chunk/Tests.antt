-- ===== src/Chunk/Tests.antt =====
-- Small documents for pkg/memory/chunk/chunk.go.
use galdor.Prelude.{
  err, int_bound, map, wrap_int, ◌-◌, ℕ, pos, Bool, List, [], ◌∷◌, ok, ◌≡◌, refl, arith, eqb, All,
}
use galdor.Chunk.{
  bad_capacity, runes_of, Text, Document, Chunk, chunk_fixed, merge_pieces, joined, tail_runes,
}
use galdor.Chunk.Fixed.{rebuilt, WellSized, Numbered, chunk_fixed-covers}
use galdor.Chunk.Sentences.{AtEnds, IsOf, OneSentence, FitsOr, chunk_sentences-covers}
use galdor.Chunk.Splitters.{chunk_sentences, chunk_recursive, recursive_split, default_separators}
use galdor.Chunk.Covers.{chunk_recursive-covers, texts, FitsOf}
use galdor.Chunk.Pieces.{Fits, merge_pieces-Fits}

-- "Hi. Yes"
abbrev greeting : Text
greeting = 72 ∷ 105 ∷ b'.' ∷ 32 ∷ 89 ∷ 101 ∷ 115 ∷ []

abbrev document : Document ℕ
document = record { id = "doc"; text = greeting; metadata = 4 }

abbrev is_blank : ℕ → Bool
is_blank r = eqb r 32

abbrev pieces : List Text
pieces = (1 ∷ 2 ∷ 3 ∷ []) ∷ (4 ∷ 5 ∷ 6 ∷ []) ∷ []

chunk_fixed-covers_example :
    (cs : List (Chunk ℕ)) × (chunk_fixed document (record { size = pos 3; overlap = pos 1 })
      ≡ ok cs)
    × (rebuilt 1 cs ≡ greeting)
    × All (WellSized document 3) cs
    × Numbered 0 cs
chunk_fixed-covers_example =
    chunk_fixed-covers document 3 1 (omega arith) (omega arith) (omega arith)

chunk_recursive-covers_example :
    (cs : List (Chunk ℕ)) × (chunk_recursive document
        (record { size = pos 3; overlap = pos 0; separators = [] })
      ≡ ok cs)
    × (joined (texts cs) ≡ greeting)
    × All (FitsOf document 3) cs
    × Numbered 0 cs
chunk_recursive-covers_example = chunk_recursive-covers document 3 [] (omega arith) (omega arith) tt

-- "Hi. Yes" split at the default separators, at size 4.
recursive_pieces :
    recursive_split 4 default_separators greeting
    ≡ (72 ∷ 105 ∷ b'.' ∷ 32 ∷ []) ∷ (89 ∷ 101 ∷ 115 ∷ []) ∷ []
unfolding recursive_split runes_of
recursive_pieces = refl

-- The trimming of this witness leaves a text as it is.
chunk_sentences-covers_example :
    (cs : List (Chunk ℕ)) × (ts : List Text) × (chunk_sentences document is_blank (λ t. t) (pos 4)
      ≡ ok cs)
    × (texts cs ≡ map (λ t. t) ts)
    × (joined ts ≡ greeting)
    × All (FitsOr 4 (OneSentence is_blank)) ts
    × AtEnds is_blank ts
    × Numbered 0 cs
    × All (IsOf document) cs
chunk_sentences-covers_example =
    chunk_sentences-covers document is_blank (λ t. t) 4 (omega arith) (omega arith)

merge_pieces-Fits_example : Fits 7 (merge_pieces pieces 4 3)
merge_pieces-Fits_example = merge_pieces-Fits pieces 4 3 (omega arith, (omega arith, tt))

-- With an overlap, a chunk may be longer than the size: here five runes at size four.
merge_pieces-passes_size :
    merge_pieces pieces 4 2 ≡ (1 ∷ 2 ∷ 3 ∷ []) ∷ (2 ∷ 3 ∷ 4 ∷ 5 ∷ 6 ∷ []) ∷ []
unfolding merge_pieces tail_runes runes_of
merge_pieces-passes_size = refl

-- With the largest size and a text of two runes, the capacity is below 0.
chunk_fixed-panics :
    chunk_fixed
      (record document { text = 72 ∷ 105 ∷ [] })
      (record { size = pos (int_bound - 1); overlap = pos 0 })
    ≡ err bad_capacity
unfolding chunk_fixed runes_of wrap_int
chunk_fixed-panics = refl
