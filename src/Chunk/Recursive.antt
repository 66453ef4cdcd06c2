-- ===== src/Chunk/Recursive.antt =====
-- What `Recursive.Chunk` and `Sentence.Chunk` of pkg/memory/chunk/chunk.go make of a document.
use galdor.Chunk.Splitters.{
  begins_with, parts_of, reattach, recursive_split, split_each, split_loop,
}
use galdor.Prelude.{
  Bool-cases, List, [], ap, append-nil, append_assoc, arith, drop, eqb, false, inl, inr, is_empty,
  leb, leb→le, length, length-take, ltb, ltb→lt, refl, subst, suc, sym, true, zero, ℕ, ◌++◌, ◌+◌,
  ◌-◌, ◌<◌, ◌∙◌, ◌∷◌, ◌≡◌, ◌≤◌,
}
use galdor.Chunk.{IsValid, runes_of, Text, joined, force_split, force_split_loop, slice, chunk_end}
use galdor.Chunk.Pieces.{Fits, joined-force_split}

joined-append : (ps qs : List Text) → joined (ps ++ qs) ≡ joined ps ++ joined qs
joined-append [] qs = refl
joined-append (p ∷ ps) qs =
    ap (λ t. p ++ t) (joined-append ps qs) ∙ sym (append_assoc p (joined ps) (joined qs))

Fits-append :
    (bound : ℕ) (ps qs : List Text) → Fits bound ps → Fits bound qs → Fits bound (ps ++ qs)
Fits-append bound [] qs f g = g
Fits-append bound (p ∷ ps) qs f g = (f.0, Fits-append bound ps qs f.1 g)

-- What begins with a separator is the separator and what follows it.
begins_with-drop :
    (text sep : Text) → begins_with text sep ≡ true → text ≡ sep ++ drop (length sep) text
unfolding begins_with
begins_with-drop text [] h = refl
begins_with-drop [] (d ∷ sep) h = cc h
begins_with-drop (c ∷ text) (d ∷ sep) h = elim (Bool-cases (eqb c d)) [
  | inr e ↦ cc (rw e at h)
  | inl e ↦
      let same : c ≡ d = ground arith in
      subst (λ k. c ∷ text ≡ k ∷ (sep ++ drop (length sep) text)) same
        (ap (λ t. c ∷ t) (begins_with-drop text sep (rw e at h)))
]

reattach-cons :
    (sep p : Text) (ps : List Text)
    → is_empty ps ≡ false
    → joined (reattach sep (p ∷ ps)) ≡ p ++ (sep ++ joined (reattach sep ps))
unfolding reattach
reattach-cons sep p [] h = cc h
reattach-cons sep p (q ∷ ps) h = append_assoc p sep (joined (reattach sep (q ∷ ps)))

split_loop-some :
    (width : ℕ) (sep : Text) (skip : ℕ) (cur text : Text)
    → is_empty (split_loop width sep skip cur text) ≡ false
unfolding split_loop
split_loop-some width sep zero cur [] = refl
split_loop-some width sep (suc skip) cur [] = refl
split_loop-some width sep (suc skip) cur (r ∷ rest) = split_loop-some width sep skip cur rest
split_loop-some width sep zero cur (r ∷ rest) = elim (Bool-cases (begins_with (r ∷ rest) sep)) [
  | inl e ↦ rw e refl
  | inr e ↦ rw e (split_loop-some width sep zero (cur ++ r ∷ []) rest)
]

split_loop-joined :
    (width : ℕ) (sep : Text) (skip : ℕ) (cur text : Text)
    → length sep ≡ suc width
    → joined (reattach sep (split_loop width sep skip cur text)) ≡ cur ++ drop skip text
unfolding split_loop reattach
split_loop-joined width sep zero cur [] h = refl
split_loop-joined width sep (suc skip) cur [] h = refl
split_loop-joined width sep (suc skip) cur (r ∷ rest) h =
    split_loop-joined width sep skip cur rest h
split_loop-joined width sep zero cur (r ∷ rest) h = elim (Bool-cases (begins_with (r ∷ rest) sep)) [
  | inl e ↦
      let found = split_loop width sep width [] rest in
      let whole : sep ++ drop width rest ≡ r ∷ rest =
        ap (λ k. sep ++ drop k (r ∷ rest)) (sym h) ∙ sym (begins_with-drop (r ∷ rest) sep e) in
      rw e (
        reattach-cons sep cur found (split_loop-some width sep width [] rest)
        ∙ ap (λ t. cur ++ (sep ++ t)) (split_loop-joined width sep width [] rest h)
        ∙ ap (λ t. cur ++ t) whole)
  | inr e ↦
      rw e
        (split_loop-joined width sep zero (cur ++ r ∷ []) rest h ∙ append_assoc cur (r ∷ []) rest)
]

parts_of-joined :
    (size : ℕ) (sep text : Text) → IsValid text → 0 < size → joined (parts_of size sep text) ≡ text
unfolding parts_of
parts_of-joined size [] text v p = joined-force_split text size v p
parts_of-joined size (d ∷ sep) text v p = split_loop-joined (length sep) (d ∷ sep) 0 [] text refl

force_split_loop-Fits :
    (fuel size : ℕ) (runes : Text) (i : ℕ) → Fits size (force_split_loop fuel size runes i)
unfolding force_split_loop
force_split_loop-Fits zero size runes i = tt
force_split_loop-Fits (suc fuel) size runes i = elim (Bool-cases (ltb i (length runes))) [
  | inr e ↦ rw e tt
  | inl e ↦ rw e (short, force_split_loop-Fits fuel size runes (i + size))
]
  where
    width : (n : ℕ) → chunk_end size n i - i ≤ size
    width n = elim (Bool-cases (ltb n (i + size))) [
      | inl e ↦ rw e (omega (arith, ltb→lt n (i + size) e))
      | inr e ↦ rw e (omega arith)
    ]

    short : length (slice i (chunk_end size (length runes) i) runes) ≤ size
    short = omega (
      arith,
      length-take (chunk_end size (length runes) i - i) (drop i runes),
      width (length runes),
    )

-- Pieces that make up a text and are not too long.
abbrev pub IsSplit : ℕ → Text → List Text → Type 0
IsSplit size text pieces = (joined pieces ≡ text) × Fits size pieces

force_split-IsSplit :
    (size : ℕ) (text : Text) → IsValid text → 0 < size → IsSplit size text (force_split text size)
unfolding force_split
force_split-IsSplit size text v p =
    (joined-force_split text size v p, force_split_loop-Fits (length text) size (runes_of text) 0)

-- The parts of a valid text are valid.
IsValid-split : (s t : Text) → IsValid (s ++ t) → IsValid s × IsValid t
IsValid-split [] t v = (tt, v)
IsValid-split (r ∷ s) t (small, v) = let (a, b) = IsValid-split s t v in ((small, a), b)

split_each-IsSplit :
    (size : ℕ) (again : Text → List Text) (parts : List Text)
    → ((t : Text) → IsValid t → IsSplit size t (again t))
    → IsValid (joined parts)
    → IsSplit size (joined parts) (split_each size again parts)
unfolding split_each
split_each-IsSplit size again [] each v = (refl, tt)
split_each-IsSplit size again (p ∷ parts) each v =
    let (here, later) = IsValid-split p (joined parts) v in
    let (others, fit) = split_each-IsSplit size again parts each later in
    elim (Bool-cases (leb (length p) size)) [
      | inl e ↦ rw e (ap (λ t. p ++ t) others, (leb→le (length p) size e, fit))
      | inr e ↦
          let (same, short) = each p here in
          rw e (
            joined-append (again p) (split_each size again parts)
                ∙ ap (λ t. t ++ joined (split_each size again parts)) same
                ∙ ap (λ t. p ++ t) others,
            Fits-append size (again p) (split_each size again parts) short fit,
          )
    ]

-- The pieces of a valid text make it up and are not too long, whatever the separators.
pub recursive_split-IsSplit :
    (size : ℕ) (seps : List Text) (text : Text)
    → IsValid text
    → 0 < size
    → IsSplit size text (recursive_split size seps text)
unfolding recursive_split
recursive_split-IsSplit size [] text v p = elim (Bool-cases (leb (length text) size)) [
  | inl e ↦ rw e (append-nil text, (leb→le (length text) size e, tt))
  | inr e ↦ rw e (force_split-IsSplit size text v p)
]
recursive_split-IsSplit size (sep ∷ seps) text v p = elim (Bool-cases (leb (length text) size)) [
  | inl e ↦ rw e (append-nil text, (leb→le (length text) size e, tt))
  | inr e ↦ rw e (
      subst
        (λ k. IsSplit size k (split_each size (recursive_split size seps) (parts_of size sep text)))
        (parts_of-joined size sep text v p)
        (split_each-IsSplit size (recursive_split size seps) (parts_of size sep text)
          (λ t u. recursive_split-IsSplit size seps t u p)
          (subst IsValid (sym (parts_of-joined size sep text v p)) v)))
]
