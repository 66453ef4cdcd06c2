-- ===== src/Provider/StripThinking/Same.antt =====
-- `stripMessage` and `extractMessage` of pkg/provider/strip_thinking.go, compared.
use galdor.Schema.{other_part, text, text_part, thinking_part}
use galdor.Provider.StripThinking.Blocks.{
  Parts, extract_message, extract_parts, strip_message, thinking_parts, think_block, blocks, closed,
  extract_text, fuel_for, has_angle, opened, same_bytes, strip_text, without_blocks,
}
use galdor.Provider.StripThinking.Search.{length-drop-le, length-drop-lt, open_tag-suc}
use galdor.Provider.StripThinking.Tags.{Bytes, close_tag, is_byte, open_tag}
use galdor.Prelude.{
  ◌++◌, Bool-cases, Option, Option-cases, [], ap, arith, drop, false, inl, inr, is_empty, length,
  none, refl, some, subst, suc, sym, true, zero, ℕ, ◌<◌, ◌∙◌, ◌∷◌, ◌≡◌, ◌≤◌,
}

think_block-lt :
    (c : ℕ) (s inner rest : Bytes)
    → think_block (c ∷ s) ≡ some (inner, rest)
    → length rest < length (c ∷ s)
unfolding think_block
think_block-lt c s inner rest h = tagged (open_tag (c ∷ s)) refl h
  where
    ended :
        (l : Bytes) (o : Option (ℕ × ℕ)) → closed l o ≡ some (inner, rest) → length rest ≤ length l
    ended l none q = cc q
    ended l (some (i, j)) q =
        let same : drop j l ≡ rest = cc q in
        subst (λ k. length k ≤ length l) same (length-drop-le j l)

    tagged :
        (o : Option ℕ)
        → open_tag (c ∷ s) ≡ o
        → opened (c ∷ s) o ≡ some (inner, rest)
        → length rest < length (c ∷ s)
    tagged none e q = cc q
    tagged (some n) e q =
        let (m, count) = open_tag-suc (c ∷ s) n e in
        let shorter = ended (drop n (c ∷ s)) (close_tag (drop n (c ∷ s))) q in
        let less =
          subst (λ k. length (drop k (c ∷ s)) < length (c ∷ s)) (sym count)
            (length-drop-lt m c s) in
        omega arith

-- One round of each search.
module _ (f c : ℕ) (s : Bytes) where
  without_blocks-miss :
      think_block (c ∷ s) ≡ none → without_blocks (suc f) (c ∷ s) ≡ c ∷ without_blocks f s
  unfolding without_blocks
  without_blocks-miss e = rw (e, without_blocks)

  without_blocks-hit :
      (inner rest : Bytes)
      → think_block (c ∷ s) ≡ some (inner, rest)
      → without_blocks (suc f) (c ∷ s) ≡ without_blocks f rest
  unfolding without_blocks
  without_blocks-hit inner rest e = rw (e, without_blocks)

  blocks-miss : think_block (c ∷ s) ≡ none → blocks (suc f) (c ∷ s) ≡ blocks f s
  unfolding blocks
  blocks-miss e = rw (e, blocks)

  blocks-hit :
      (inner rest : Bytes)
      → think_block (c ∷ s) ≡ some (inner, rest)
      → blocks (suc f) (c ∷ s) ≡ inner ∷ blocks f rest
  unfolding blocks
  blocks-hit inner rest e = rw (e, blocks)

without_blocks-le : (f : ℕ) (s : Bytes) → length (without_blocks f s) ≤ length s
without_blocks-le zero s = unfold without_blocks in omega arith
without_blocks-le (suc f) [] = unfold without_blocks in omega arith
without_blocks-le (suc f) (c ∷ s) = elim (Option-cases (think_block (c ∷ s))) [
  | inl e ↦ rw (without_blocks-miss f c s e) (omega (arith, without_blocks-le f s))
  | inr ((inner, rest), e) ↦
      let less = think_block-lt c s inner rest e in
      rw (without_blocks-hit f c s inner rest e) (omega (arith, without_blocks-le f rest))
]

-- A text changes just where it has blocks.
blocks-empty : (f : ℕ) (s : Bytes) → is_empty (blocks f s) ≡ true → without_blocks f s ≡ s
blocks-empty zero s h = unfold without_blocks in refl
blocks-empty (suc f) [] h = unfold without_blocks in refl
blocks-empty (suc f) (c ∷ s) h = elim (Option-cases (think_block (c ∷ s))) [
  | inl e ↦
      without_blocks-miss f c s e
      ∙ ap (λ k. c ∷ k) (blocks-empty f s (rw (blocks-miss f c s e) at h))
  | inr ((inner, rest), e) ↦ cc (rw (blocks-hit f c s inner rest e) at h)
]

blocks-shorter :
    (f : ℕ) (s : Bytes) → is_empty (blocks f s) ≡ false → length (without_blocks f s) < length s
blocks-shorter zero s h = unfold blocks in cc h
blocks-shorter (suc f) [] h = unfold blocks in cc h
blocks-shorter (suc f) (c ∷ s) h = elim (Option-cases (think_block (c ∷ s))) [
  | inl e ↦
      rw (without_blocks-miss f c s e)
        (omega (arith, blocks-shorter f s (rw (blocks-miss f c s e) at h)))
  | inr ((inner, rest), e) ↦
      let less = think_block-lt c s inner rest e in
      rw (without_blocks-hit f c s inner rest e) (omega (arith, without_blocks-le f rest))
]

is_byte_refl : (c : ℕ) → is_byte c c ≡ true
is_byte_refl c = ground arith

same_bytes_refl : (s : Bytes) → same_bytes s s ≡ true
same_bytes_refl [] = refl
same_bytes_refl (c ∷ s) = rw (is_byte_refl c) (same_bytes_refl s)

same_bytes-length : (s t : Bytes) → same_bytes s t ≡ true → length s ≡ length t
same_bytes-length [] [] h = refl
same_bytes-length [] (d ∷ t) h = cc h
same_bytes-length (c ∷ s) [] h = cc h
same_bytes-length (c ∷ s) (d ∷ t) h = elim (Bool-cases (is_byte c d)) [
  | inl e ↦ ap suc (same_bytes-length s t (rw e at h))
  | inr e ↦ cc (rw e at h)
]

-- The two functions make the same text, and agree on whether it was changed.
extract_text-strip_text :
    (s : Bytes) → ((extract_text s).0 ≡ (strip_text s).0) × ((extract_text s).2 ≡ (strip_text s).1)
unfolding extract_text strip_text
extract_text-strip_text s = elim (Bool-cases (has_angle s)) [
  | inr a ↦ (rw a refl, rw a refl)
  | inl a ↦ elim (Bool-cases (is_empty (blocks (fuel_for s) s))) [
    | inl e ↦
        let same = blocks-empty (fuel_for s) s e in
        let kept = ap (λ k. same_bytes k s) same ∙ same_bytes_refl s in
        (rw (a, e, kept) refl, rw (a, e, kept) refl)
    | inr e ↦ elim (Bool-cases (same_bytes (without_blocks (fuel_for s) s) s)) [
      | inl k ↦
          let less = blocks-shorter (fuel_for s) s e in
          absurd (omega (arith, same_bytes-length (without_blocks (fuel_for s) s) s k))
      | inr k ↦ (rw (a, e, k) refl, rw (a, e, k) refl)
    ]
  ]
]

extract_parts-strip_message : (ps : Parts) → (extract_parts ps).0 ≡ strip_message ps
unfolding extract_parts strip_message
extract_parts-strip_message [] = refl
extract_parts-strip_message (text_part t ∷ ps) =
    let (text, changed) = extract_text-strip_text t in
    elim (Bool-cases (strip_text t).1) [
      | inl e ↦ cc (changed, e, text, extract_parts-strip_message ps)
      | inr e ↦ cc (changed, e, extract_parts-strip_message ps)
    ]
extract_parts-strip_message (thinking_part t ∷ ps) =
    ap (λ k. thinking_part t ∷ k) (extract_parts-strip_message ps)
extract_parts-strip_message (other_part t ∷ ps) =
    ap (λ k. other_part t ∷ k) (extract_parts-strip_message ps)

-- Extraction makes the parts that stripping makes, and puts the reasoning after them.
pub extract_message-strip_message :
    (ps : Parts) → extract_message ps ≡ strip_message ps ++ thinking_parts (extract_parts ps).1
unfolding extract_message
extract_message-strip_message ps =
    ap (λ k. k ++ thinking_parts (extract_parts ps).1) (extract_parts-strip_message ps)
