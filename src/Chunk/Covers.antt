-- ===== src/Chunk/Covers.antt =====
-- The chunks of `Recursive.Chunk` of pkg/memory/chunk/chunk.go against the document.
use galdor.Chunk.Splitters.{
  chunk_recursive, numbered, recursive_chunks, recursive_split, separators_of,
}
use galdor.Prelude.{
  false, leb, All, List, [], ap, arith, if◌then◌else◌, is_empty, length, ok, pos, refl, subst, suc,
  sym, zero, ℕ, ◌+◌, ◌<◌, ◌∙◌, ◌∷◌, ◌≡◌, ◌≤◌,
}
use galdor.Chunk.{IsValid, Text, Document, Chunk, joined, merge_pieces}
use galdor.Chunk.Pieces.{Fits, joined-merge_pieces, merge_pieces-Fits}
use galdor.Chunk.Fixed.{Numbered}
use galdor.Chunk.Recursive.{recursive_split-IsSplit}

abbrev pub texts : {M : Type 0} → List (Chunk M) → List Text
texts [] = []
texts (c ∷ cs) = c.text ∷ texts cs

-- A chunk of the document that is not longer than the size.
abbrev pub FitsOf : {M : Type 0} → Document M → ℕ → Chunk M → Type 0
FitsOf doc size c = (length c.text ≤ size) × (c.document_id ≡ doc.id) × (c.metadata ≡ doc.metadata)

module _ {M : Type 0} (doc : Document M) where
  texts-numbered : (i : ℕ) (ts : List Text) → texts (numbered doc i ts) ≡ ts
  unfolding numbered
  texts-numbered i [] = refl
  texts-numbered i (t ∷ ts) = ap (λ k. t ∷ k) (texts-numbered (suc i) ts)

  pub numbered-Numbered : (i : ℕ) (ts : List Text) → Numbered i (numbered doc i ts)
  unfolding numbered
  numbered-Numbered i [] = tt
  numbered-Numbered i (t ∷ ts) =
      let next : suc i ≡ i + 1 = omega arith in
      (refl, subst (λ k. Numbered k (numbered doc (suc i) ts)) next (numbered-Numbered (suc i) ts))

  numbered-FitsOf :
      (size i : ℕ) (ts : List Text) → Fits size ts → All (FitsOf doc size) (numbered doc i ts)
  unfolding numbered
  numbered-FitsOf size i [] f = tt
  numbered-FitsOf size i (t ∷ ts) f = ((f.0, refl, refl), numbered-FitsOf size (suc i) ts f.1)

  -- Without overlap, for any size, a valid text and valid separators, `Recursive` gives chunks that together make up the
  -- text; none is longer than the size, they are numbered from 0, and each carries the document's id
  -- and metadata.
  pub chunk_recursive-covers :
      (size : ℕ) (seps : List Text)
      → 0 < size
      → IsValid doc.text
      → All IsValid seps
      → (cs : List (Chunk M)) × (chunk_recursive doc
            (record { size = pos size; overlap = pos 0; separators = seps })
          ≡ ok cs)
        × (joined (texts cs) ≡ doc.text)
        × All (FitsOf doc size) cs
        × Numbered 0 cs
  unfolding chunk_recursive
  chunk_recursive-covers zero seps h v u = absurd (omega arith)
  chunk_recursive-covers (suc size) seps h v u = on_text doc.text refl
    where
      abbrev_seps : List Text
      abbrev_seps =
          separators_of (record { size = pos (suc size); overlap = pos 0; separators = seps })

      not_over : leb (suc size) 0 ≡ false
      not_over = ground arith

      on_text :
          (t : Text)
          → doc.text ≡ t
          → (cs : List (Chunk M)) × (recursive_chunks doc abbrev_seps (suc size) 0 ≡ ok cs)
            × (joined (texts cs) ≡ doc.text)
            × All (FitsOf doc (suc size)) cs
            × Numbered 0 cs
      on_text [] e = ([], rw (not_over, e), sym e, tt, tt)
      on_text (c ∷ t) e =
          let pieces = recursive_split (suc size) abbrev_seps doc.text in
          let (same, fit) = recursive_split-IsSplit (suc size) abbrev_seps doc.text v h in
          let merged = merge_pieces pieces (suc size) 0 in
          let none_over : suc size + 0 ≡ suc size = omega arith in
          (
            numbered doc 0 merged,
            rw not_over (ap (λ b. if b then ok [] else ok (numbered doc 0 merged)) (ap is_empty e)),
            ap joined (texts-numbered 0 merged) ∙ joined-merge_pieces pieces (suc size) ∙ same,
            numbered-FitsOf (suc size) 0 merged
                (subst (λ k. Fits k merged) none_over (merge_pieces-Fits pieces (suc size) 0 fit)),
            numbered-Numbered 0 merged,
          )
