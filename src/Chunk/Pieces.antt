-- ===== src/Chunk/Pieces.antt =====
-- Splitting and merging in pkg/memory/chunk/chunk.go loses no rune.
use galdor.Prelude.{
  true, ℕ, zero, suc, ◌+◌, ◌-◌, ◌≤◌, ◌<◌, Bool, Bool-cases, List, [], ◌∷◌, ◌++◌, append-nil,
  append_assoc, ◌≡◌, inl, inr, refl, sym, ap, ◌∙◌, arith, ltb, leb, length, length-append,
  length-drop, drop, take-append-drop, drop-drop, drop-length, All, take_all,
}
use galdor.Chunk.{
  IsValid, max_rune, runes_of, Text, flush, begin, slice, chunk_end, joined, force_split_loop,
  force_split, tail_runes, closes, merge_loop, merge_pieces, ends_here, sentence_loop,
  split_sentences,
}

pub length-runes_of : (t : Text) → length (runes_of t) ≡ length t
unfolding runes_of
length-runes_of [] = refl
length-runes_of (r ∷ t) = ap suc (length-runes_of t)

-- The conversion to runes leaves a valid text as it is.
pub runes_of-valid : (t : Text) → IsValid t → runes_of t ≡ t
unfolding runes_of
runes_of-valid [] v = refl
runes_of-valid (r ∷ t) (small, v) =
    let below : ltb r max_rune ≡ true = ground arith in
    rw below (ap (λ k. r ∷ k) (runes_of-valid t v))

-- A slice up to the chunk's end, and what follows it.
pub slice-drop :
    (size start : ℕ) (runes : Text)
    → slice start (chunk_end size (length runes) start) runes ++ drop (start + size) runes
      ≡ drop start runes
slice-drop size start runes = elim (Bool-cases (ltb (length runes) (start + size))) [
  | inl e ↦
      rw
        (
          e,
          take_all (length runes - start) (drop start runes)
              (omega (arith, length-drop start runes)),
          drop-length (start + size) runes (ground arith),
        )
        (append-nil (drop start runes))
  | inr e ↦
      let width : start + size - start ≡ size = omega arith in
      rw (e, width, ← drop-drop size start runes) (take-append-drop size (drop start runes))
]

pub force_split_loop-joined :
    (fuel size : ℕ) (runes : Text) (i : ℕ)
    → 0 < size
    → length runes ≤ i + fuel
    → joined (force_split_loop fuel size runes i) ≡ drop i runes
unfolding force_split_loop
force_split_loop-joined zero size runes i p h = sym (drop-length i runes (omega arith))
force_split_loop-joined (suc fuel) size runes i p h = elim (Bool-cases (ltb i (length runes))) [
  | inl e ↦
      let ih = force_split_loop-joined fuel size runes (i + size) p (omega arith) in
      rw e (
        ap (λ t. slice i (chunk_end size (length runes) i) runes ++ t) ih ∙ slice-drop size i runes)
  | inr e ↦ rw e (sym (drop-length i runes (ground arith)))
]

-- `forceSplit` cuts a valid text into pieces that make up the text again.
pub joined-force_split :
    (text : Text) (size : ℕ) → IsValid text → 0 < size → joined (force_split text size) ≡ text
unfolding force_split
joined-force_split text size v p =
    force_split_loop-joined (length text) size (runes_of text) 0 p
      (omega (arith, length-runes_of text))
    ∙ runes_of-valid text v

flush-joined : (cur : Text) → joined (flush cur) ≡ cur ++ []
flush-joined [] = refl
flush-joined (c ∷ cur) = refl

pub sentence_loop-joined :
    (is_space : ℕ → Bool) (cur text : Text) → joined (sentence_loop is_space cur text) ≡ cur ++ text
unfolding sentence_loop
sentence_loop-joined is_space cur [] = flush-joined cur
sentence_loop-joined is_space cur (r ∷ rest) = elim (Bool-cases (ends_here is_space r rest)) [
  | inl e ↦ rw e (
      ap (λ t. (cur ++ r ∷ []) ++ t) (sentence_loop-joined is_space [] rest)
      ∙ append_assoc cur (r ∷ []) rest)
  | inr e ↦
      rw e (sentence_loop-joined is_space (cur ++ r ∷ []) rest ∙ append_assoc cur (r ∷ []) rest)
]

-- The sentences of a valid text make up the text, whatever counts as a space.
pub joined-split_sentences :
    (is_space : ℕ → Bool) (text : Text)
    → IsValid text
    → joined (split_sentences is_space text) ≡ text
unfolding split_sentences
joined-split_sentences is_space text v =
    sentence_loop-joined is_space [] (runes_of text) ∙ runes_of-valid text v

pub merge_loop-joined :
    (size : ℕ) (cur : Text) (pieces : List Text)
    → joined (merge_loop size 0 cur pieces) ≡ cur ++ joined pieces
unfolding merge_loop
merge_loop-joined size cur [] = flush-joined cur
merge_loop-joined size cur (p ∷ pieces) = elim (Bool-cases (closes size cur p)) [
  | inl e ↦ rw e (ap (λ t. cur ++ t) (merge_loop-joined size p pieces))
  | inr e ↦ rw e (merge_loop-joined size (cur ++ p) pieces ∙ append_assoc cur p (joined pieces))
]

-- Without overlap, merging pieces into chunks keeps the text that they make up.
pub joined-merge_pieces :
    (pieces : List Text) (size : ℕ) → joined (merge_pieces pieces size 0) ≡ joined pieces
unfolding merge_pieces
joined-merge_pieces pieces size = merge_loop-joined size [] pieces

length-tail_runes : (s : Text) (n : ℕ) → length (tail_runes s n) ≤ n
unfolding tail_runes
length-tail_runes s n = elim (Bool-cases (leb (length s) n)) [
  | inl e ↦ rw (e, tail_runes) (ground arith)
  | inr e ↦
      rw (e, tail_runes) (omega (arith, length-drop (length s - n) (runes_of s), length-runes_of s))
]

length-begin : (overlap : ℕ) (cur : Text) → length (begin overlap cur) ≤ overlap
length-begin overlap cur = elim (Bool-cases (ltb 0 overlap)) [
  | inl e ↦ rw e (length-tail_runes cur overlap)
  | inr e ↦ rw e (omega arith)
]

abbrev pub Fits : ℕ → List Text → Type 0
Fits bound = All (λ t. length t ≤ bound)

merge_loop-Fits :
    (size overlap : ℕ) (cur : Text) (pieces : List Text)
    → length cur ≤ size + overlap
    → Fits size pieces
    → Fits (size + overlap) (merge_loop size overlap cur pieces)
unfolding merge_loop
merge_loop-Fits size overlap [] [] c f = tt
merge_loop-Fits size overlap (x ∷ cur) [] c f = (c, tt)
merge_loop-Fits size overlap cur (p ∷ pieces) c f = elim (Bool-cases (closes size cur p)) [
  | inl e ↦ rw e (
    c,
    merge_loop-Fits size overlap (begin overlap cur ++ p) pieces
        (omega (arith, length-append (begin overlap cur) p, length-begin overlap cur, f.0)) f.1,
  )
  | inr e ↦
      rw e
        (merge_loop-Fits size overlap (cur ++ p) pieces (ground (arith, length-append cur p)) f.1)
]

-- Merging pieces of at most `size` runes gives chunks of at most `size + overlap` runes.
pub merge_pieces-Fits :
    (pieces : List Text) (size overlap : ℕ)
    → Fits size pieces
    → Fits (size + overlap) (merge_pieces pieces size overlap)
unfolding merge_pieces
merge_pieces-Fits pieces size overlap f = merge_loop-Fits size overlap [] pieces (omega arith) f
