-- ===== src/Provider/StripThinking/Whole.antt =====
-- What `feed` of pkg/provider/strip_thinking.go makes of a stream without an opening tag.
use galdor.Provider.StripThinking.Search.{index-miss, has_prefix-append, length-lower, lower-append}
use galdor.Provider.StripThinking.Stream.{
  scan, Scan, feed, is_some_index, last_angle, max_open_tag_len, split_at, split_safe_prefix,
}
use galdor.Provider.StripThinking.Tags.{
  find_open, moved, tag_here, Bytes, at_boundary, greater, has_prefix, index, is_byte, lower,
  open_tag, plus, shifted, think, thinking,
}
use galdor.Prelude.{
  Option-cases, append_assoc, drop-drop, zero, Bool, Bool-cases, List, Option, [], ap, append-nil,
  arith, drop, drop-append, false, if◌then◌else◌, inl, inr, length, ltb, none, not, refl, some,
  subst, suc, sym, take, take-append-drop, true, ℕ, ◌&&◌, ◌++◌, ◌||◌, ◌∙◌, ◌∷◌, ◌≡◌, ◌≤◌,
}

-- The outputs for a sequence of chunks, and the state after them.
unfoldable pub feed_all : (Bytes → Bytes) → Scan → List Bytes → Bytes × Scan
unfolding feed
feed_all string_lower s [] = ([], s)
feed_all string_lower s (c ∷ cs) =
    let (out, s1) = feed string_lower s c in
    let (others, s2) = feed_all string_lower s1 cs in (out ++ others, s2)

abbrev pub joined : List Bytes → Bytes
joined [] = []
joined (c ∷ cs) = c ++ joined cs

abbrev picked : Bytes → ℕ → Bool → Bool → Bool → Bytes × Bytes
picked s i a b c =
    if a
    then (s, [])
    else if b
    then (take i s, drop i s)
    else if c
    then (s, [])
    else (take i s, drop i s)

picked-append :
    (s : Bytes) (i : ℕ) (a b c : Bool) → (picked s i a b c).0 ++ (picked s i a b c).1 ≡ s
picked-append s i true b c = append-nil s
picked-append s i false true c = take-append-drop i s
picked-append s i false false true = append-nil s
picked-append s i false false false = take-append-drop i s

split_at-append :
    (string_lower : Bytes → Bytes) (s : Bytes) (o : Option ℕ)
    → (split_at string_lower s o).0 ++ (split_at string_lower s o).1 ≡ s
split_at-append string_lower s none = append-nil s
split_at-append string_lower s (some i) =
    picked-append s i
      (not (
          has_prefix think (string_lower (drop i s))
          || has_prefix thinking (string_lower (drop i s)))
        && not (has_prefix (string_lower (drop i s)) think))
      (has_prefix (string_lower (drop i s)) think && not (is_some_index (index (drop i s) greater)))
      (ltb max_open_tag_len (length (drop i s)))

-- What is emitted and what is held back make up the text.
pub split_safe_prefix-append :
    (string_lower : Bytes → Bytes) (s : Bytes)
    → (split_safe_prefix string_lower s).0 ++ (split_safe_prefix string_lower s).1 ≡ s
unfolding split_safe_prefix
split_safe_prefix-append string_lower s = split_at-append string_lower s (last_angle s)

has_prefix-le : (s p : Bytes) → has_prefix s p ≡ true → length p ≤ length s
unfolding has_prefix
has_prefix-le s [] h = omega arith
has_prefix-le [] (d ∷ p) h = cc h
has_prefix-le (c ∷ s) (d ∷ p) h = elim (Bool-cases (is_byte c d)) [
  | inl e ↦ omega (arith, has_prefix-le s p (rw e at h))
  | inr e ↦ cc (rw e at h)
]

has_prefix-longer : (s t p : Bytes) → has_prefix s p ≡ true → has_prefix (s ++ t) p ≡ true
has_prefix-longer s t p h = has_prefix-append s t p (has_prefix-le s p h) ∙ h

shifted-inv : (o : Option ℕ) (i : ℕ) → shifted o ≡ some i → (k : ℕ) × (o ≡ some k)
shifted-inv none i h = cc h
shifted-inv (some k) i h = (k, refl)

-- What a text holds a longer text holds.
index-longer : (s t p : Bytes) (i : ℕ) → index s p ≡ some i → (j : ℕ) × (index (s ++ t) p ≡ some j)
unfolding index has_prefix
index-longer [] [] p i h = (i, h)
index-longer [] (c ∷ t) [] i h = (0, refl)
index-longer [] (c ∷ t) (d ∷ p) i h = cc h
index-longer (c ∷ s) t p i h = elim (Bool-cases (has_prefix (c ∷ (s ++ t)) p)) [
  | inl e ↦ (0, rw (e, index))
  | inr e ↦ elim (Bool-cases (has_prefix (c ∷ s) p)) [
    | inl f ↦ cc (e, has_prefix-longer (c ∷ s) t p f)
    | inr f ↦
        let (k, found) = shifted-inv (index s p) i (rw (f, index) at h) in
        let (j, later) = index-longer s t p k found in (suc j, rw (e, index) (ap shifted later))
  ]
]

plus-inv : (n i : ℕ) (o : Option ℕ) → plus n o ≡ some i → (k : ℕ) × (o ≡ some k)
plus-inv n i none h = cc h
plus-inv n i (some k) h = (k, refl)

plus-none : (n : ℕ) (o : Option ℕ) → plus n o ≡ none → o ≡ none
plus-none n none h = refl
plus-none n (some i) h = cc h

-- What is not in a text is not in its parts.
index-later : (k : ℕ) (s p : Bytes) → index s p ≡ none → index (drop k s) p ≡ none
index-later zero s p h = h
index-later (suc k) [] p h = h
index-later (suc k) (c ∷ s) p h = index-later k s p (index-miss c s p h).1

both_true : (a b : Bool) → (a && b) ≡ true → (a ≡ true) × (b ≡ true)
both_true true b h = (refl, h)
both_true false b h = cc h

-- The tests of an opening tag with a name of `k` bytes, in a longer text.
tag-longer :
    (k i : ℕ) (word s t : Bytes)
    → length word ≡ k
    → (has_prefix (lower s) word && at_boundary (drop k s)) ≡ true
    → index (drop k s) greater ≡ some i
    → ((has_prefix (lower (s ++ t)) word && at_boundary (drop k (s ++ t))) ≡ true)
      × (j : ℕ) × (index (drop k (s ++ t)) greater ≡ some j)
unfolding index has_prefix
tag-longer k i word s t size test found =
    let (starts, ends) = both_true _ _ test in
    let room = has_prefix-le (lower s) word starts in
    let same = drop-append k s t (omega (arith, length-lower s)) in
    let (j, later) = index-longer (drop k s) t greater i found in
    (
      both
          (subst (λ l. has_prefix l word ≡ true) (sym (lower-append s t))
            (has_prefix-longer (lower s) (lower t) word starts))
          (subst (λ l. at_boundary l ≡ true) (sym same) (bounded (drop k s) ends found)),
      j,
      subst (λ l. index l greater ≡ some j) (sym same) later,
    )
  where
    both : {a b : Bool} → a ≡ true → b ≡ true → (a && b) ≡ true
    both p q = rw (p, q) refl

    bounded :
        (l : Bytes) → at_boundary l ≡ true → index l greater ≡ some i → at_boundary (l ++ t) ≡ true
    bounded [] a f = cc f
    bounded (c ∷ l) a f = a

open_tag-longer : (s t : Bytes) (n : ℕ) → open_tag s ≡ some n → open_tag (s ++ t) ≡ none → ⊥
unfolding open_tag index has_prefix
open_tag-longer s t n h missing =
    elim (Bool-cases (has_prefix (lower s) think && at_boundary (drop 6 s))) [
      | inl e ↦
          let (i, found) = plus-inv 7 n (index (drop 6 s) greater) (rw (e, open_tag) at h) in
          let (test, j, later) = tag-longer 6 i think s t refl e found in
          cc (rw (test, later, open_tag) at missing)
      | inr e ↦ elim (Bool-cases (has_prefix (lower s) thinking && at_boundary (drop 9 s))) [
        | inr f ↦ cc (rw (e, f, open_tag) at h)
        | inl f ↦
            let (i, found) = plus-inv 10 n (index (drop 9 s) greater) (rw (e, f, open_tag) at h) in
            let (test, j, later) = tag-longer 9 i thinking s t refl f found in no_short test later
      ]
    ]
  where
    no_short :
        {j : ℕ}
        → (has_prefix (lower (s ++ t)) thinking && at_boundary (drop 9 (s ++ t))) ≡ true
        → index (drop 9 (s ++ t)) greater ≡ some j
        → ⊥
    no_short {j} test later =
        elim (Bool-cases (has_prefix (lower (s ++ t)) think && at_boundary (drop 6 (s ++ t)))) [
          | inr g ↦ cc (rw (g, test, later, open_tag) at missing)
          | inl g ↦
              let short =
                index-later 3 (drop 6 (s ++ t)) greater
                  (plus-none 7 (index (drop 6 (s ++ t)) greater) (rw (g, open_tag) at missing)) in
              cc (later, ap (λ l. index l greater) (drop-drop 3 6 (s ++ t)), short)
        ]

find_open-miss :
    (c : ℕ) (s : Bytes)
    → find_open (c ∷ s) ≡ none
    → (open_tag (c ∷ s) ≡ none) × (find_open s ≡ none)
unfolding find_open
find_open-miss c s h = cases (open_tag (c ∷ s)) (find_open s) h
  where
    cases :
        (o : Option ℕ) (rest : Option (ℕ × ℕ))
        → tag_here o (moved rest) ≡ none
        → (o ≡ none) × (rest ≡ none)
    cases none none q = (refl, refl)
    cases none (some (i, j)) q = cc q
    cases (some n) rest q = cc q

-- Where a text has no opening tag, its parts have none.
find_open-append : (s t : Bytes) → find_open (s ++ t) ≡ none → find_open s ≡ none
unfolding find_open
find_open-append [] t h = refl
find_open-append (c ∷ s) t h =
    let (no_tag, later) = find_open-miss c (s ++ t) h in
    elim (Option-cases (open_tag (c ∷ s))) [
      | inl e ↦ rw (e, find_open) (ap moved (find_open-append s t later))
      | inr (n, e) ↦ absurd (open_tag-longer (c ∷ s) t n e no_tag)
    ]

find_open-suffix : (s t : Bytes) → find_open (s ++ t) ≡ none → find_open t ≡ none
find_open-suffix [] t h = h
find_open-suffix (c ∷ s) t h = find_open-suffix s t (find_open-miss c (s ++ t) h).1

-- A chunk that completes no opening tag is emitted but for the part that is held back.
feed-plain :
    (string_lower : Bytes → Bytes) (s : Scan) (chunk : Bytes)
    → s.in_think ≡ false
    → find_open (s.buf ++ chunk) ≡ none
    → ((feed string_lower s chunk).0 ++ (feed string_lower s chunk).1.buf ≡ s.buf ++ chunk)
      × ((feed string_lower s chunk).1.in_think ≡ false)
unfolding feed scan
feed-plain string_lower s chunk closed plain = (
  rw (closed, plain) (split_safe_prefix-append string_lower (s.buf ++ chunk)),
  rw (closed, plain) refl,
)

-- If no opening tag stands in the text that is held back and the chunks, joined, then what the chunks
-- make `feed` emit, whatever `strings.ToLower` is, and what it holds back after them, is that text, and no block is open.
pub feed_all-joined :
    (string_lower : Bytes → Bytes) (s : Scan) (chunks : List Bytes)
    → s.in_think ≡ false
    → find_open (s.buf ++ joined chunks) ≡ none
    → ((feed_all string_lower s chunks).0 ++ (feed_all string_lower s chunks).1.buf
        ≡ s.buf ++ joined chunks)
      × ((feed_all string_lower s chunks).1.in_think ≡ false)
unfolding feed_all
feed_all-joined string_lower s [] closed plain = (sym (append-nil s.buf), closed)
feed_all-joined string_lower s (c ∷ cs) closed plain =
    let assoc = append_assoc s.buf c (joined cs) in
    let here = find_open-append (s.buf ++ c) (joined cs) (ap find_open assoc ∙ plain) in
    let (kept, still) = feed-plain string_lower s c closed here in
    let out = (feed string_lower s c).0 in
    let held = (feed string_lower s c).1.buf in
    let whole : out ++ (held ++ joined cs) ≡ s.buf ++ (c ++ joined cs) =
      sym (append_assoc out held (joined cs)) ∙ ap (λ k. k ++ joined cs) kept ∙ assoc in
    let (others, last) =
      feed_all-joined string_lower (feed string_lower s c).1 cs still
        (find_open-suffix out (held ++ joined cs) (ap find_open whole ∙ plain)) in
    (
      append_assoc out (feed_all string_lower (feed string_lower s c).1 cs).0
            (feed_all string_lower (feed string_lower s c).1 cs).1.buf
          ∙ ap (λ k. out ++ k) others
          ∙ whole,
      last,
    )
