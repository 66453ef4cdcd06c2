-- ===== src/Chunk.antt =====
-- pkg/memory/chunk/chunk.go: `FixedSize`, `forceSplit`, `mergePieces` and `splitSentences`; Splitters
-- has `Recursive` and `Sentence`. A text is a list of code points and of bytes that belong to none, as
-- `[]rune` reads it; such a byte is its value plus `max_rune`. Bytes of this kind are taken to stay
-- apart where texts are joined, and separators to be valid. The metadata of a document is a value `M`
-- that each chunk copies. The runes of a text in memory are fewer than 2^61, so that no sum of a
-- position and a smaller size overflows.
pub mod Fixed
pub mod Pieces
pub mod Splitters
pub mod Recursive
pub mod Covers
pub mod Sentences
mod Tests
use mathlib.Core.List.{flatten}
use galdor.Prelude.{
  All, is_empty, wrap_int, ◌<◌, Result, ok, err, ℕ, zero, suc, ◌+◌, ◌-◌, ◌*◌, ℤ, pos, negsuc,
  String, Bool, true, false, ◌||◌, ◌&&◌, List, [], ◌∷◌, ◌++◌, Option, none, some, ltb, leb, eqb,
  if◌then◌else◌, length, take, drop, get_elem?,
}

abbrev pub Text : Type 0
Text = List ℕ

abbrev pub max_rune : ℕ
max_rune = 0x110000

-- A text in UTF-8.
abbrev pub IsValid : Text → Type 0
IsValid = All (λ r. r < max_rune)

-- `[]rune(text)`, or `string` of it: a byte that belongs to no code point becomes U+FFFD.
unfoldable pub runes_of : Text → Text
runes_of [] = []
runes_of (r ∷ text) = (if ltb r max_rune then r else 0xfffd) ∷ runes_of text

pub record Document (M : Type 0) : Type 0 where
  pub id : String
  pub text : Text
  pub metadata : M

pub record Chunk (M : Type 0) : Type 0 where
  pub document_id : String
  pub index : ℕ
  pub text : Text
  pub metadata : M

pub data ChunkErr : Type 0 where
  bad_size bad_overlap : ChunkErr
  -- The panic of `make` at a negative capacity.
  bad_capacity : ChunkErr

pub record FixedSize : Type 0 where
  pub size : ℤ
  pub overlap : ℤ

-- The text that pieces make up, one after the other.
abbrev pub joined : List Text → Text
joined [] = []
joined (t ∷ ts) = t ++ joined ts

-- The last append, of what is left if it is not empty.
abbrev pub flush : Text → List Text
flush [] = []
flush (c ∷ cur) = (c ∷ cur) ∷ []

-- `runes[start:end]`.
abbrev pub slice : ℕ → ℕ → Text → Text
slice start end runes = take (end - start) (drop start runes)

-- The end of the chunk that begins at `start`.
abbrev pub chunk_end : ℕ → ℕ → ℕ → ℕ
chunk_end size n start = if ltb n (start + size) then n else start + size

-- Whether `(n + step - 1) / step` is below 0, where the sum wraps around.
abbrev pub is_negative_capacity : ℕ → ℤ → Bool
is_negative_capacity step (pos sum) = false
is_negative_capacity step (negsuc m) = leb step (suc m)

module _ {M : Type 0} (doc : Document M) where
  abbrev pub chunk_of : ℕ → Text → Chunk M
  chunk_of index text = record {
    document_id = doc.id;
    index = index;
    text = text;
    metadata = doc.metadata;
  }

  -- The loop of `FixedSize.Chunk` over the runes of `doc.text`. It goes on by `step` at each of at most `fuel` rounds.
  unfoldable pub fixed_loop : ℕ → ℕ → ℕ → ℕ → ℕ → List (Chunk M)
  fixed_loop zero size step start idx = []
  fixed_loop (suc fuel) size step start idx =
      let n = length doc.text in
      let end = chunk_end size n start in
      let rest = fixed_loop fuel size step (start + step) (idx + 1) in
      let more = (if leb n end then [] else rest) in
      if ltb start n then chunk_of idx (slice start end doc.text) ∷ more else []

module _ {M : Type 0} (doc : Document M) where
  -- The document with its text converted to runes.
  abbrev pub in_runes : Document M
  in_runes = record doc { text = runes_of doc.text }

  abbrev pub fixed_chunks : ℕ → ℕ → Result ChunkErr (List (Chunk M))
  fixed_chunks size overlap =
      let runes = in_runes in
      let n = length runes.text in
      let step = size - overlap in
      if leb size overlap
      then err bad_overlap
      else if is_empty runes.text
      then ok []
      else if is_negative_capacity step (wrap_int (n + step - 1))
      then err bad_capacity
      else ok (fixed_loop runes n size step 0 0)

  -- `FixedSize.Chunk`.
  abbrev fixed_size_of : ℤ → ℤ → Result ChunkErr (List (Chunk M))
  fixed_size_of (pos zero) overlap = err bad_size
  fixed_size_of (negsuc size) overlap = err bad_size
  fixed_size_of (pos (suc size)) (negsuc overlap) = err bad_overlap
  fixed_size_of (pos (suc size)) (pos overlap) = fixed_chunks (suc size) overlap

  unfoldable pub chunk_fixed : FixedSize → Result ChunkErr (List (Chunk M))
  unfolding fixed_loop runes_of wrap_int
  chunk_fixed f = fixed_size_of f.size f.overlap

-- The loop of `forceSplit`, from `i` on.
unfoldable pub force_split_loop : ℕ → ℕ → Text → ℕ → List Text
force_split_loop zero size runes i = []
force_split_loop (suc fuel) size runes i =
    let n = length runes in
    let rest = force_split_loop fuel size runes (i + size) in
    if ltb i n then slice i (chunk_end size n i) runes ∷ rest else []

unfoldable pub force_split : Text → ℕ → List Text
unfolding force_split_loop runes_of
force_split text size = force_split_loop (length text) size (runes_of text) 0

-- `tailRunes`.
unfoldable pub tail_runes : Text → ℕ → Text
unfolding runes_of
tail_runes s n = if leb (length s) n then s else drop (length s - n) (runes_of s)

-- What the next chunk begins with: the tail of the one just appended.
abbrev pub begin : ℕ → Text → Text
begin overlap cur = if ltb 0 overlap then tail_runes cur overlap else []

-- Whether the next piece closes the chunk under construction. `curLen` is the length of `cur`.
abbrev pub closes : ℕ → Text → Text → Bool
closes size cur p = ltb size (length cur + length p) && ltb 0 (length cur)

-- The loop of `mergePieces` from the chunk `cur` on, and its last append.
unfoldable pub merge_loop : ℕ → ℕ → Text → List Text → List Text
merge_loop size overlap cur [] = flush cur
merge_loop size overlap cur (p ∷ pieces) =
    let kept = (if closes size cur p then begin overlap cur else cur) in
    let rest = merge_loop size overlap (kept ++ p) pieces in
    if closes size cur p then cur ∷ rest else rest

unfoldable pub merge_pieces : List Text → ℕ → ℕ → List Text
unfolding merge_loop
merge_pieces pieces size overlap = merge_loop size overlap [] pieces

-- Whether a sentence ends before the rest of the text. `is_space` is `unicode.IsSpace`; a NUL
-- rune counts as the end of the text, as in the source.
abbrev pub next_ends : (ℕ → Bool) → Text → Bool
next_ends is_space [] = true
next_ends is_space (next ∷ rest) = eqb next 0 || is_space next

abbrev pub ends_here : (ℕ → Bool) → ℕ → Text → Bool
ends_here is_space r rest = (eqb r b'.' || eqb r b'!' || eqb r b'?') && next_ends is_space rest

-- The loop of `splitSentences` over the runes, with the sentence read so far.
unfoldable pub sentence_loop : (ℕ → Bool) → Text → Text → List Text
sentence_loop is_space cur [] = flush cur
sentence_loop is_space cur (r ∷ rest) =
    let ends = ends_here is_space r rest in
    let sentences = sentence_loop is_space (if ends then [] else cur ++ r ∷ []) rest in
    if ends then (cur ++ r ∷ []) ∷ sentences else sentences

unfoldable pub split_sentences : (ℕ → Bool) → Text → List Text
unfolding sentence_loop runes_of
split_sentences is_space text = sentence_loop is_space [] (runes_of text)
