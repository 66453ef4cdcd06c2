-- ===== src/Chunk/Fixed.antt =====
-- `FixedSize.Chunk` of pkg/memory/chunk/chunk.go: its chunks cover the document.

use galdor.Prelude.{
  FitsInt, is_empty, wrap_int, wrap_int-pos, ℕ, zero, suc, ◌+◌, ◌-◌, ◌≤◌, ◌<◌, pos, true, false,
  Bool-cases, List, [], ◌∷◌, ◌++◌, append-nil, ◌≡◌, inl, inr, refl, sym, ap, ◌∙◌, arith, ltb, leb,
  leb→le, ok, length, length-take, length-drop, drop, take-append-drop, drop-drop, drop-take,
  drop-length, take_all, All,
}
use galdor.Chunk.{
  IsValid, fixed_chunks, in_runes, is_negative_capacity, runes_of, Text, Document, Chunk, chunk_of,
  chunk_end, slice, fixed_loop, chunk_fixed,
}
use galdor.Chunk.Pieces.{length-runes_of, runes_of-valid, slice-drop}

-- The text that overlapping chunks make up: all of the first, and of the others what follows the
-- overlap.
abbrev pub unlapped : {M : Type 0} → ℕ → List (Chunk M) → Text
unlapped overlap [] = []
unlapped overlap (c ∷ cs) = drop overlap c.text ++ unlapped overlap cs

abbrev pub rebuilt : {M : Type 0} → ℕ → List (Chunk M) → Text
rebuilt overlap [] = []
rebuilt overlap (c ∷ cs) = c.text ++ unlapped overlap cs

-- A chunk of the document that is neither empty nor longer than the size.
abbrev pub WellSized : {M : Type 0} → Document M → ℕ → Chunk M → Type 0
WellSized doc size c =
    (0 < length c.text)
    × (length c.text ≤ size)
    × (c.document_id ≡ doc.id)
    × (c.metadata ≡ doc.metadata)

-- The chunks carry the numbers from `i` on.
abbrev pub Numbered : {M : Type 0} → ℕ → List (Chunk M) → Type 0
Numbered i [] = Unit
Numbered i (c ∷ cs) = (c.index ≡ i) × Numbered (i + 1) cs

module _ {M : Type 0} (doc : Document M) (size overlap : ℕ) (fits : overlap < size) where
  abbrev step : ℕ
  step = size - overlap

  -- A chunk without its overlap, and what follows the chunk.
  slice-unlap :
      (start : ℕ)
      → drop overlap (slice start (chunk_end size (length doc.text) start) doc.text)
          ++ drop (start + step + overlap) doc.text
        ≡ drop (start + overlap) doc.text
  slice-unlap start = elim (Bool-cases (ltb (length doc.text) (start + size))) [
    | inl e ↦ rw (
      e,
      take_all (length doc.text - start) (drop start doc.text)
          (omega (arith, length-drop start doc.text)),
      drop-length (start + step + overlap) doc.text (ground arith),
      append-nil (drop overlap (drop start doc.text)),
      drop-drop overlap start doc.text,
    )
    | inr e ↦
        let width : start + size - start ≡ size = omega arith in
        let next : start + step + overlap ≡ start + overlap + step = omega arith in
        rw
          (
            e,
            width,
            next,
            drop-take overlap size (drop start doc.text),
            drop-drop overlap start doc.text,
            ← drop-drop step (start + overlap) doc.text,
          )
          (take-append-drop step (drop (start + overlap) doc.text))
  ]

  -- The chunk that reaches the end of the text is all that is left.
  slice-last :
      (start : ℕ)
      → leb (length doc.text) (chunk_end size (length doc.text) start) ≡ true
      → slice start (chunk_end size (length doc.text) start) doc.text ≡ drop start doc.text
  slice-last start l =
      take_all (chunk_end size (length doc.text) start - start) (drop start doc.text)
        (omega (arith, length-drop start doc.text, leb→le _ _ l))

  fixed_loop-unlapped :
      (fuel start idx : ℕ)
      → length doc.text ≤ start + fuel
      → unlapped overlap (fixed_loop doc fuel size step start idx) ≡ drop (start + overlap) doc.text
  unfolding fixed_loop
  fixed_loop-unlapped zero start idx h = sym (drop-length (start + overlap) doc.text (omega arith))
  fixed_loop-unlapped (suc fuel) start idx h = elim (Bool-cases (ltb start (length doc.text))) [
    | inr e ↦ rw e (sym (drop-length (start + overlap) doc.text (ground arith)))
    | inl e ↦ elim (Bool-cases (leb (length doc.text) (chunk_end size (length doc.text) start))) [
      | inl l ↦
          rw (e, l, slice-last start l)
            (append-nil (drop overlap (drop start doc.text)) ∙ drop-drop overlap start doc.text)
      | inr l ↦
          let ih = fixed_loop-unlapped fuel (start + step) (idx + 1) (omega arith) in
          rw (e, l)
            (ap
                (λ t.
                  drop overlap (slice start (chunk_end size (length doc.text) start) doc.text) ++ t)
                ih
              ∙ slice-unlap start)
    ]
  ]

  fixed_loop-rebuilt :
      (fuel idx : ℕ)
      → length doc.text ≤ fuel
      → rebuilt overlap (fixed_loop doc fuel size step 0 idx) ≡ doc.text
  unfolding fixed_loop
  fixed_loop-rebuilt zero idx h = sym (drop-length 0 doc.text h)
  fixed_loop-rebuilt (suc fuel) idx h = elim (Bool-cases (ltb 0 (length doc.text))) [
    | inr e ↦ rw e (sym (drop-length 0 doc.text (ground arith)))
    | inl e ↦ elim (Bool-cases (leb (length doc.text) (chunk_end size (length doc.text) 0))) [
      | inl l ↦ rw (e, l, slice-last 0 l) (append-nil doc.text)
      | inr l ↦
          let ih = fixed_loop-unlapped fuel (0 + step) (idx + 1) (omega arith) in
          let after : 0 + step + overlap ≡ 0 + size = omega arith in
          rw (e, l)
            (ap (λ t. slice 0 (chunk_end size (length doc.text) 0) doc.text ++ t)
                (ih ∙ ap (λ n. drop n doc.text) after)
              ∙ slice-drop size 0 doc.text)
    ]
  ]

  slice-WellSized :
      (start idx : ℕ)
      → ltb start (length doc.text) ≡ true
      → WellSized doc size
          (chunk_of doc idx (slice start (chunk_end size (length doc.text) start) doc.text))
  slice-WellSized start idx h =
      let m = chunk_end size (length doc.text) start - start in
      (
        ground (arith, length-take m (drop start doc.text), length-drop start doc.text),
        ground (arith, length-take m (drop start doc.text), length-drop start doc.text),
        refl,
        refl,
      )

  fixed_loop-WellSized :
      (fuel start idx : ℕ)
      → All (WellSized doc size) (fixed_loop doc fuel size step start idx)
        × Numbered idx (fixed_loop doc fuel size step start idx)
  unfolding fixed_loop
  fixed_loop-WellSized zero start idx = (tt, tt)
  fixed_loop-WellSized (suc fuel) start idx = elim (Bool-cases (ltb start (length doc.text))) [
    | inr e ↦ rw e (tt, tt)
    | inl e ↦
        let ih = fixed_loop-WellSized fuel (start + step) (idx + 1) in
        elim (Bool-cases (leb (length doc.text) (chunk_end size (length doc.text) start))) [
          | inl l ↦ rw (e, l) ((slice-WellSized start idx e, tt), (refl, tt))
          | inr l ↦ rw (e, l) ((slice-WellSized start idx e, ih.0), (refl, ih.1))
        ]
  ]

-- With a size and an overlap below it, for a valid text whose length and the size have a sum without
-- overflow, `FixedSize` gives chunks that together make up the text once
-- each overlap is taken off; none is empty or longer than the size, they are numbered from 0, and
-- each carries the document's id and metadata.
pub chunk_fixed-covers :
    {M : Type 0} (doc : Document M) (size overlap : ℕ)
    → overlap < size
    → IsValid doc.text
    → FitsInt (length doc.text + size)
    → (cs : List (Chunk M)) × (chunk_fixed doc (record { size = pos size; overlap = pos overlap })
        ≡ ok cs)
      × (rebuilt overlap cs ≡ doc.text)
      × All (WellSized doc size) cs
      × Numbered 0 cs
unfolding chunk_fixed fixed_loop
chunk_fixed-covers doc zero overlap h v small = absurd (omega arith)
chunk_fixed-covers doc (suc size) overlap h v small =
    let d = in_runes doc in
    let n = length d.text in
    let sized = fixed_loop-WellSized d (suc size) overlap h n 0 0 in
    (
      fixed_loop d n (suc size) (suc size - overlap) 0 0,
      made d.text refl,
      fixed_loop-rebuilt d (suc size) overlap h n 0 (omega arith) ∙ runes_of-valid doc.text v,
      sized.0,
      sized.1,
    )
  where
    not_over : leb (suc size) overlap ≡ false
    not_over = ground arith

    fitting :
        is_negative_capacity
          (suc size - overlap)
          (wrap_int (length (runes_of doc.text) + (suc size - overlap) - 1))
        ≡ false
    fitting =
        ap (is_negative_capacity (suc size - overlap))
          (wrap_int-pos _ (omega (arith, length-runes_of doc.text)))

    made :
        (runes : Text)
        → runes_of doc.text ≡ runes
        → fixed_chunks doc (suc size) overlap
          ≡ ok (
              fixed_loop
                (in_runes doc)
                (length (runes_of doc.text))
                (suc size)
                (suc size - overlap)
                0
                0)
    made [] e = rw (not_over, e) refl
    made (r ∷ runes) e =
        let some_runes : is_empty (runes_of doc.text) ≡ false = ap is_empty e in
        rw (not_over, some_runes, fitting) refl
