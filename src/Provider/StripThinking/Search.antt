-- ===== src/Provider/StripThinking/Search.antt =====
-- The searches of pkg/provider/strip_thinking.go in a text that goes on.
use galdor.Prelude.{
  ◌&&◌, ℕ, zero, suc, ◌+◌, ◌≤◌, ◌<◌, true, false, Bool-cases, Option, none, some, [], ◌∷◌, ◌++◌,
  drop, length, ◌≡◌, refl, sym, ap, ◌∙◌, inl, inr, arith, ltb,
}
use galdor.Provider.StripThinking.Tags.{
  at_boundary, Bytes, is_byte, lower, to_lower, has_prefix, index, think, thinking, greater,
  find_close, shifted, open_tag, better, plus, close_think, close_thinking,
}

pub lower-append : (s t : Bytes) → lower (s ++ t) ≡ lower s ++ lower t
lower-append [] t = refl
lower-append (c ∷ s) t = ap (λ k. to_lower c ∷ k) (lower-append s t)

lower-drop : (d : ℕ) (s : Bytes) → lower (drop d s) ≡ drop d (lower s)
lower-drop zero s = refl
lower-drop (suc d) [] = refl
lower-drop (suc d) (c ∷ s) = lower-drop d s

pub length-lower : (s : Bytes) → length (lower s) ≡ length s
length-lower [] = refl
length-lower (c ∷ s) = ap suc (length-lower s)

-- A prefix is decided by as many bytes as it has.
pub has_prefix-append :
    (s t p : Bytes) → length p ≤ length s → has_prefix (s ++ t) p ≡ has_prefix s p
unfolding has_prefix
has_prefix-append [] t [] h = none_left t
  where
    none_left : (t : Bytes) → has_prefix t [] ≡ true
    none_left [] = refl
    none_left (c ∷ t) = refl
has_prefix-append [] t (d ∷ p) h = absurd (omega arith)
has_prefix-append (c ∷ s) t [] h = refl
has_prefix-append (c ∷ s) t (d ∷ p) h = elim (Bool-cases (is_byte c d)) [
  | inl e ↦ rw e (has_prefix-append s t p (omega arith))
  | inr e ↦ rw e refl
]

pub index-miss :
    (c : ℕ) (s p : Bytes)
    → index (c ∷ s) p ≡ none
    → (has_prefix (c ∷ s) p ≡ false) × (index s p ≡ none)
unfolding index
index-miss c s p h = elim (Bool-cases (has_prefix (c ∷ s) p)) [
  | inl e ↦ cc (rw (e, index) at h)
  | inr e ↦ (e, tail (index s p) (rw (e, index) at h))
]
  where
    tail : (o : Option ℕ) → shifted o ≡ none → o ≡ none
    tail none h = refl
    tail (some i) h = cc h

plus-shifted : (d : ℕ) (o : Option ℕ) → shifted (plus d o) ≡ plus (suc d) o
plus-shifted d none = refl
plus-shifted d (some i) = ap some (omega arith)

plus-zero : (o : Option ℕ) → o ≡ plus 0 o
plus-zero none = refl
plus-zero (some i) = ap some (omega arith)

-- A pattern that is not in the first text is found past the part that leaves room for it.
index-drop :
    (d : ℕ) (s t p : Bytes)
    → index s p ≡ none
    → d + length p ≤ length s
    → index (s ++ t) p ≡ plus d (index (drop d s ++ t) p)
unfolding index
index-drop zero s t p h room = plus-zero (index (s ++ t) p)
index-drop (suc d) [] t p h room = absurd (omega arith)
index-drop (suc d) (c ∷ s) t p h room =
    let (miss, later) = index-miss c s p h in
    let far : has_prefix (c ∷ (s ++ t)) p ≡ false =
      has_prefix-append (c ∷ s) t p (omega arith) ∙ miss in
    rw (far, index)
      (ap shifted (index-drop d s t p later (omega arith))
        ∙ plus-shifted d (index (drop d s ++ t) p))

-- A place, counted from the start.
abbrev pub from : ℕ → Option (ℕ × ℕ) → Option (ℕ × ℕ)
from d none = none
from d (some (i, j)) = some (d + i, d + j)

better-plus :
    (d n : ℕ) (best : Option (ℕ × ℕ)) (o : Option ℕ)
    → better (from d best) n (plus d o) ≡ from d (better best n o)
better-plus d n best none = refl
better-plus d n none (some i) = ground arith
better-plus d n (some (a, b)) (some i) = ground arith

-- If neither closing tag is in the first text, both are found past its part that leaves room for them.
pub find_close-drop :
    (d : ℕ) (s t : Bytes)
    → find_close lower s ≡ none
    → d + 11 ≤ length s
    → find_close lower (s ++ t) ≡ from d (find_close lower (drop d s ++ t))
unfolding find_close
find_close-drop d s t h room =
    let (no_short, no_long) =
      missed (index (lower s) close_think) (index (lower s) close_thinking) h in
    let long = length-lower s in
    let short_at = moved_by close_think no_short (omega arith) in
    let long_at = moved_by close_thinking no_long (omega arith) in
    rw (short_at, long_at)
      (ap (λ o. better o 11 (plus d (index (lower (drop d s ++ t)) close_thinking)))
          (better-plus d 8 none (index (lower (drop d s ++ t)) close_think))
        ∙ better-plus d 11 (better none 8 (index (lower (drop d s ++ t)) close_think))
            (index (lower (drop d s ++ t)) close_thinking))
  where
    missed : (a b : Option ℕ) → better (better none 8 a) 11 b ≡ none → (a ≡ none) × (b ≡ none)
    missed none none h = (refl, refl)
    missed none (some j) h = cc h
    missed (some i) none h = cc h
    missed (some i) (some j) h = elim (Bool-cases (ltb j i)) [
      | inl e ↦ cc (rw e at h)
      | inr e ↦ cc (rw e at h)
    ]

    moved_by :
        (p : Bytes)
        → index (lower s) p ≡ none
        → d + length p ≤ length (lower s)
        → index (lower (s ++ t)) p ≡ plus d (index (lower (drop d s ++ t)) p)
    moved_by p none_yet fits =
        ap (λ k. index k p) (lower-append s t)
        ∙ index-drop d (lower s) (lower t) p none_yet fits
        ∙ ap (λ k. plus d (index k p))
            (ap (λ k. k ++ lower t) (sym (lower-drop d s)) ∙ sym (lower-append (drop d s) t))

pub length-drop-le : (n : ℕ) (s : Bytes) → length (drop n s) ≤ length s
length-drop-le zero s = omega arith
length-drop-le (suc n) [] = omega arith
length-drop-le (suc n) (c ∷ s) = omega (arith, length-drop-le n s)

pub length-drop-lt : (n : ℕ) (c : ℕ) (s : Bytes) → length (drop (suc n) (c ∷ s)) < length (c ∷ s)
length-drop-lt n c s = omega (arith, length-drop-le n s)

-- An opening tag has a byte at least.
pub open_tag-suc : (s : Bytes) (n : ℕ) → open_tag s ≡ some n → (m : ℕ) × (n ≡ suc m)
unfolding open_tag
open_tag-suc s n h = elim (Bool-cases (has_prefix (lower s) think && at_boundary (drop 6 s))) [
  | inl e ↦ counted 6 (index (drop 6 s) greater) (rw (e, open_tag) at h)
  | inr e ↦ elim (Bool-cases (has_prefix (lower s) thinking && at_boundary (drop 9 s))) [
    | inl f ↦ counted 9 (index (drop 9 s) greater) (rw (e, f, open_tag) at h)
    | inr f ↦ cc (rw (e, f, open_tag) at h)
  ]
]
  where
    counted : (k : ℕ) (o : Option ℕ) → plus (suc k) o ≡ some n → (m : ℕ) × (n ≡ suc m)
    counted k none q = cc q
    counted k (some i) q = (k + i, ground arith)
