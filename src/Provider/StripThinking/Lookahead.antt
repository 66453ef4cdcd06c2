-- ===== src/Provider/StripThinking/Lookahead.antt =====
-- How `feed` of pkg/provider/strip_thinking.go depends on the borders between chunks.
use galdor.Provider.StripThinking.Search.{
  length-drop-le, length-drop-lt, open_tag-suc, find_close-drop, from,
}
use galdor.Provider.StripThinking.Stream.{
  Fed, Scan, feed, keep_tail, scan, inside, outside, trim_seam,
}
use galdor.Prelude.{
  append_assoc, drop-append, length-append, length-drop, ltb-false→le, ltb→lt, ◌||◌, ℕ, zero, suc,
  ◌+◌, ◌-◌, ◌≤◌, ◌<◌, true, Bool-cases, Option, none, some, Option-cases, [], ◌∷◌, ◌++◌, drop, take,
  length, ◌≡◌, refl, sym, ap, subst, ◌∙◌, inl, inr, arith, ltb,
}
use galdor.Provider.StripThinking.Tags.{
  lower, is_byte, Bytes, find_open, find_close, open_tag, moved, tag_here,
}

trim_seam-le : (s : Bytes) → length (trim_seam s) ≤ length s
unfolding trim_seam
trim_seam-le [] = omega arith
trim_seam-le (c ∷ s) =
    elim (Bool-cases (is_byte c 32 || (is_byte c 9 || (is_byte c 10 || is_byte c 13)))) [
      | inl e ↦ rw e (omega (arith, trim_seam-le s))
      | inr e ↦ rw e (omega arith)
    ]

find_open-lt : (s : Bytes) (i j : ℕ) → find_open s ≡ some (i, j) → length (drop j s) < length s
unfolding find_open
find_open-lt [] i j h = cc h
find_open-lt (c ∷ s) i j h = cases (open_tag (c ∷ s)) refl (find_open s) h
  where
    cases :
        (o : Option ℕ)
        → open_tag (c ∷ s) ≡ o
        → (rest : Option (ℕ × ℕ)) → tag_here o (moved rest) ≡ some (i, j)
        → length (drop j (c ∷ s)) < length (c ∷ s)
    cases none e none q = cc q
    cases none e (some (a, b)) q =
        let same : suc b ≡ j = cc q in
        subst (λ k. length (drop k (c ∷ s)) < length (c ∷ s)) same (length-drop-lt b c s)
    cases (some n) e rest q =
        let (m, count) = open_tag-suc (c ∷ s) n e in
        let same : n ≡ j = cc q in
        subst (λ k. length (drop k (c ∷ s)) < length (c ∷ s)) (sym count ∙ same)
          (length-drop-lt m c s)

-- Two loops that agree on shorter texts agree outside a block.
outside-cong :
    (F G : Bytes → Bytes → Fed) (out work : Bytes)
    → ((o w : Bytes) → length w < length work → F o w ≡ G o w)
    → outside lower F out work ≡ outside lower G out work
outside-cong F G out work same = elim (Option-cases (find_open work)) [
  | inl e ↦ rw e refl
  | inr ((i, j), e) ↦ rw e (same (out ++ take i work) (drop j work) (find_open-lt work i j e))
]

-- Fuel beyond the length of the work changes nothing.
inside-fuel :
    (f g : ℕ) (out work : Bytes)
    → length work < f
    → length work < g
    → inside lower f out work ≡ inside lower g out work
unfolding inside
inside-fuel zero g out work h k = absurd (omega arith)
inside-fuel (suc f) zero out work h k = absurd (omega arith)
inside-fuel (suc f) (suc g) out work h k = elim (Option-cases (find_close lower work)) [
  | inl e ↦ rw e refl
  | inr ((i, j), e) ↦
      let short = trim_seam-le (drop j work) in
      let less = length-drop-le j work in
      rw e (
        outside-cong (inside lower f) (inside lower g) out (trim_seam (drop j work))
          (λ o w lt. inside-fuel f g o w (omega arith) (omega arith)))
]

pub drop-drop : (m n : ℕ) (s : Bytes) → drop m (drop n s) ≡ drop (n + m) s
drop-drop m zero s = ap (λ k. drop k s) (omega arith)
drop-drop m (suc n) [] = nothing m ∙ sym (nothing (suc n + m))
  where
    nothing : (k : ℕ) → drop {A = ℕ} k [] ≡ []
    nothing zero = refl
    nothing (suc k) = refl
drop-drop m (suc n) (c ∷ s) = drop-drop m n s ∙ ap (λ k. drop k (c ∷ s)) (suc_add n m)
  where
    suc_add : (n m : ℕ) → suc (n + m) ≡ suc n + m
    suc_add n m = omega arith

keep_tail-drop_all : (s : Bytes) → keep_tail s ≡ drop (length s - 16) s
keep_tail-drop_all s = elim (Bool-cases (ltb 16 (length s))) [
  | inl e ↦ rw e refl
  | inr e ↦
      let few = ltb-false→le 16 (length s) e in
      let none_over : 0 ≡ length s - 16 = omega arith in rw e (ap (λ k. drop k s) none_over)
]

-- The tail that is kept does not depend on what was dropped before it.
keep_tail-drop : (d : ℕ) (s : Bytes) → d + 16 ≤ length s → keep_tail (drop d s) ≡ keep_tail s
keep_tail-drop d s room =
    let long = length-drop d s in
    keep_tail-drop_all (drop d s)
    ∙ drop-drop (length (drop d s) - 16) d s
    ∙ ap (λ k. drop k s) (omega arith)
    ∙ sym (keep_tail-drop_all s)

-- Inside a block, bytes before the closing tag may be dropped.
inside-drop :
    (d : ℕ) (s : Bytes)
    → d + 16 ≤ length s
    → find_close lower s ≡ from d (find_close lower (drop d s))
    → inside lower (suc (length (drop d s))) [] (drop d s) ≡ inside lower (suc (length s)) [] s
unfolding inside
inside-drop d s room found = elim (Option-cases (find_close lower (drop d s))) [
  | inl e ↦
      rw (found, e) (ap (λ k. ([], record { buf = k; in_think = true })) (keep_tail-drop d s room))
  | inr ((i, j), e) ↦
      let short = trim_seam-le (drop j (drop d s)) in
      let less = length-drop-le j (drop d s) in
      let fewer = length-drop-le d s in
      rw (found, e)
        (outside-cong (inside lower (length (drop d s))) (inside lower (length s)) []
            (trim_seam (drop j (drop d s)))
            (λ o w lt. inside-fuel (length (drop d s)) (length s) o w (omega arith) (omega arith))
          ∙ ap (λ k. outside lower (inside lower (length s)) [] (trim_seam k)) (drop-drop j d s))
]

-- Where only ASCII letters change to lower case: inside a block, if a chunk does not complete a closing tag, then it emits nothing, and the chunk
-- after it is treated as if both had come as one.
pub feed-lower-append :
    (s : Scan) (first second : Bytes)
    → s.in_think ≡ true
    → find_close lower (s.buf ++ first) ≡ none
    → ((feed lower s first).0 ≡ [])
      × (feed lower (feed lower s first).1 second ≡ feed lower s (first ++ second))
unfolding feed scan inside
feed-lower-append s first second open_block unclosed = (
  rw (open_block, unclosed) refl,
  rw (open_block, unclosed)
      (joined (s.buf ++ first) unclosed
        ∙ ap (λ k. inside lower (suc (length k)) [] k) (append_assoc s.buf first second)),
)
  where
    joined :
        (w : Bytes)
        → find_close lower w ≡ none
        → inside lower (suc (length (keep_tail w ++ second))) [] (keep_tail w ++ second)
          ≡ inside lower (suc (length (w ++ second))) [] (w ++ second)
    joined w h = elim (Bool-cases (ltb 16 (length w))) [
      | inr e ↦ rw e refl
      | inl e ↦
          let long = ltb→lt 16 (length w) e in
          let total = length-append w second in
          let same = drop-append (length w - 16) w second (omega arith) in
          rw e (
            subst
              (λ k.
                inside lower (suc (length k)) [] k
                ≡ inside lower (suc (length (w ++ second))) [] (w ++ second))
              same
              (inside-drop (length w - 16) (w ++ second) (omega arith) (
                find_close-drop (length w - 16) w second h (omega arith)
                ∙ ap (λ k. from (length w - 16) (find_close lower k)) (sym same))))
    ]
