-- ===== src/Chunk/Sentences.antt =====
-- The chunks of `Sentence.Chunk` of pkg/memory/chunk/chunk.go against the document.
use galdor.Chunk.Fixed.{Numbered}
use galdor.Chunk.Covers.{numbered-Numbered, texts}
use galdor.Chunk.Pieces.{merge_loop-joined, sentence_loop-joined, joined-split_sentences}
use galdor.Chunk.Splitters.{chunk_sentences, each_trimmed, numbered, pack}
use galdor.Chunk.{
  Chunk, IsValid, ends_here, runes_of, sentence_loop, Document, Text, closes, flush, joined,
  merge_loop, split_sentences,
}
use galdor.Prelude.{
  append-nil, append_assoc, eqb, map, subst, take, true, ◌&&◌, ◌||◌, length-append, ◌+◌, All, Bool,
  Bool-cases, List, [], ap, arith, false, if◌then◌else◌, inl, inr, is_empty, length, ok, pos, refl,
  suc, sym, zero, ◌++◌, ◌<◌, ◌∙◌, ◌∷◌, ◌≡◌, ◌≤◌, ◌⊎◌, ℕ,
}

pack-merge_loop :
    (size : ℕ) (cur : Text) (ss : List Text) → pack size cur ss ≡ merge_loop size 0 cur ss
unfolding pack merge_loop
pack-merge_loop size cur [] = refl
pack-merge_loop size cur (s ∷ ss) = elim (Bool-cases (closes size cur s)) [
  | inl e ↦ rw e (ap (λ k. cur ∷ k) (pack-merge_loop size s ss))
  | inr e ↦ rw e (pack-merge_loop size (cur ++ s) ss)
]

pack-joined :
    (size : ℕ) (cur : Text) (ss : List Text) → joined (pack size cur ss) ≡ cur ++ joined ss
pack-joined size cur ss = ap joined (pack-merge_loop size cur ss) ∙ merge_loop-joined size cur ss

module _ (size : ℕ) (P : Text → Type 0) where
  -- A chunk within the size, or a text of the kind `P` that is too long.
  abbrev pub FitsOr : Text → Type 0
  FitsOr t = (length t ≤ size) ⊎ P t

  flush-FitsOr : (cur : Text) → FitsOr cur → All FitsOr (flush cur)
  flush-FitsOr [] f = tt
  flush-FitsOr (r ∷ cur) f = (f, tt)

  longer-FitsOr : (cur s : Text) → closes size cur s ≡ false → P s → FitsOr (cur ++ s)
  longer-FitsOr [] s e k = inr k
  longer-FitsOr (r ∷ cur) s e k =
      let within : length (r ∷ cur) + length s ≤ size = ground arith in
      inl (omega (arith, length-append (r ∷ cur) s))

  pack-FitsOr :
      (cur : Text) (ss : List Text) → FitsOr cur → All P ss → All FitsOr (pack size cur ss)
  unfolding pack
  pack-FitsOr cur [] f k = flush-FitsOr cur f
  pack-FitsOr cur (s ∷ ss) f (h, k) = elim (Bool-cases (closes size cur s)) [
    | inl e ↦ rw e (f, pack-FitsOr s ss (inr h) k)
    | inr e ↦ rw e (pack-FitsOr (cur ++ s) ss (longer-FitsOr cur s e h) k)
  ]

module _ (is_space : ℕ → Bool) where
  -- A sentence ends between these two runes.
  abbrev pub is_end : ℕ → ℕ → Bool
  is_end r next = (eqb r b'.' || eqb r b'!' || eqb r b'?') && (eqb next 0 || is_space next)

  -- No sentence ends inside the text.
  abbrev pub OneSentence : Text → Type 0
  OneSentence [] = Unit
  OneSentence (r ∷ []) = Unit
  OneSentence (r ∷ next ∷ t) = (is_end r next ≡ false) × OneSentence (next ∷ t)

  -- A sentence ends where the text `t` does and `rest` begins, if there is a rest.
  abbrev pub EndsAt : Text → Text → Type 0
  EndsAt t [] = Unit
  EndsAt t (next ∷ rest) = (a : Text) × (r : ℕ) × (t ≡ a ++ r ∷ []) × (is_end r next ≡ true)

  -- Each of the texts but the last ends where a sentence does.
  abbrev pub AtEnds : List Text → Type 0
  AtEnds [] = Unit
  AtEnds (t ∷ ts) = EndsAt t (joined ts) × AtEnds ts

  OneSentence-snoc :
      (a : Text) (r next : ℕ)
      → OneSentence (a ++ r ∷ [])
      → is_end r next ≡ false
      → OneSentence (a ++ r ∷ next ∷ [])
  OneSentence-snoc [] r next one e = (e, tt)
  OneSentence-snoc (x ∷ []) r next (f, one) e = (f, (e, tt))
  OneSentence-snoc (x ∷ y ∷ a) r next (f, one) e = (f, OneSentence-snoc (y ∷ a) r next one e)

  OneSentence-begins : (t : Text) → OneSentence (take 1 t)
  OneSentence-begins [] = tt
  OneSentence-begins (r ∷ t) = tt

  -- The sentences after `cur`, which goes on with the text.
  sentence_loop-OneSentence :
      (cur text : Text)
      → OneSentence (cur ++ take 1 text)
      → All OneSentence (sentence_loop is_space cur text)
  unfolding sentence_loop
  sentence_loop-OneSentence cur [] one = flushed cur (subst OneSentence (append-nil cur) one)
    where
      flushed : (t : Text) → OneSentence t → All OneSentence (flush t)
      flushed [] one = tt
      flushed (r ∷ t) one = (one, tt)
  sentence_loop-OneSentence cur (r ∷ rest) one = elim (Bool-cases (ends_here is_space r rest)) [
    | inl e ↦ rw e (one, sentence_loop-OneSentence [] rest (OneSentence-begins rest))
    | inr e ↦ rw e (sentence_loop-OneSentence (cur ++ r ∷ []) rest (longer rest e))
  ]
    where
      longer :
          (rest : Text)
          → ends_here is_space r rest ≡ false
          → OneSentence ((cur ++ r ∷ []) ++ take 1 rest)
      longer [] e = subst OneSentence (sym (append-nil (cur ++ r ∷ []))) one
      longer (next ∷ t) e =
          subst OneSentence (sym (append_assoc cur (r ∷ []) (next ∷ [])))
            (OneSentence-snoc cur r next one e)

  sentence_loop-AtEnds : (cur text : Text) → AtEnds (sentence_loop is_space cur text)
  unfolding sentence_loop
  sentence_loop-AtEnds [] [] = tt
  sentence_loop-AtEnds (c ∷ cur) [] = (tt, tt)
  sentence_loop-AtEnds cur (r ∷ rest) = elim (Bool-cases (ends_here is_space r rest)) [
    | inr e ↦ rw e (sentence_loop-AtEnds (cur ++ r ∷ []) rest)
    | inl e ↦ rw e (
      subst (EndsAt (cur ++ r ∷ [])) (sym (sentence_loop-joined is_space [] rest)) (ended rest e),
      sentence_loop-AtEnds [] rest,
    )
  ]
    where
      ended : (rest : Text) → ends_here is_space r rest ≡ true → EndsAt (cur ++ r ∷ []) rest
      ended [] e = tt
      ended (next ∷ t) e = (cur, r, refl, e)

  EndsAt-append : (cur s rest : Text) → EndsAt s rest → EndsAt (cur ++ s) rest
  EndsAt-append cur s [] h = tt
  EndsAt-append cur s (next ∷ rest) (a, r, same, e) =
      (cur ++ a, r, ap (λ t. cur ++ t) same ∙ sym (append_assoc cur a (r ∷ [])), e)

  pack-AtEnds :
      (size : ℕ) (cur : Text) (ss : List Text)
      → (cur ≡ []) ⊎ EndsAt cur (joined ss)
      → AtEnds ss
      → AtEnds (pack size cur ss)
  unfolding pack
  pack-AtEnds size [] [] h k = tt
  pack-AtEnds size (c ∷ cur) [] h k = (tt, tt)
  pack-AtEnds size cur (s ∷ ss) h (here, k) = elim (Bool-cases (closes size cur s)) [
    | inr e ↦ rw e (pack-AtEnds size (cur ++ s) ss (inr (EndsAt-append cur s (joined ss) here)) k)
    | inl e ↦ rw e (
      subst (EndsAt cur) (sym (pack-joined size s ss)) (parted e h),
      pack-AtEnds size s ss (inr here) k,
    )
  ]
    where
      parted :
          closes size cur s ≡ true
          → (cur ≡ []) ⊎ EndsAt cur (s ++ joined ss)
          → EndsAt cur (s ++ joined ss)
      parted e (inr h) = h
      parted e (inl begun) = let empty : length cur ≡ 0 = ap length begun in ground arith

-- A chunk of the document, by the number it has.
abbrev pub IsOf : {M : Type 0} → Document M → Chunk M → Type 0
IsOf doc c = (c.document_id ≡ doc.id) × (c.metadata ≡ doc.metadata)

module _ {M : Type 0} (doc : Document M) (is_space : ℕ → Bool) (trim_space : Text → Text) where
  texts-trimmed :
      (i : ℕ) (ts : List Text)
      → texts (numbered doc i (each_trimmed trim_space ts)) ≡ map trim_space ts
  unfolding numbered
  texts-trimmed i [] = refl
  texts-trimmed i (t ∷ ts) = ap (λ k. trim_space t ∷ k) (texts-trimmed (suc i) ts)

  numbered-IsOf : (i : ℕ) (ts : List Text) → All (IsOf doc) (numbered doc i ts)
  unfolding numbered
  numbered-IsOf i [] = tt
  numbered-IsOf i (t ∷ ts) = ((refl, refl), numbered-IsOf (suc i) ts)

  -- For a valid text, `Sentence` gives the chunks of some texts, trimmed, that together make up the
  -- document's text. Each of these texts is not longer than the size or has no end of a sentence
  -- inside, and each but the last ends where a sentence does. The chunks are numbered from 0 and carry
  -- the document's id and metadata.
  pub chunk_sentences-covers :
      (size : ℕ)
      → 0 < size
      → IsValid doc.text
      → (cs : List (Chunk M)) × (ts : List Text) × (chunk_sentences doc is_space trim_space
            (pos size)
          ≡ ok cs)
        × (texts cs ≡ map trim_space ts)
        × (joined ts ≡ doc.text)
        × All (FitsOr size (OneSentence is_space)) ts
        × AtEnds is_space ts
        × Numbered 0 cs
        × All (IsOf doc) cs
  unfolding chunk_sentences split_sentences
  chunk_sentences-covers zero h v = absurd (omega arith)
  chunk_sentences-covers (suc size) h v = on_text doc.text refl
    where
      sentences : List Text
      sentences = split_sentences is_space doc.text

      on_text :
          (t : Text)
          → doc.text ≡ t
          → (cs : List (Chunk M)) × (ts : List Text) × (chunk_sentences doc is_space trim_space
                (pos (suc size))
              ≡ ok cs)
            × (texts cs ≡ map trim_space ts)
            × (joined ts ≡ doc.text)
            × All (FitsOr (suc size) (OneSentence is_space)) ts
            × AtEnds is_space ts
            × Numbered 0 cs
            × All (IsOf doc) cs
      on_text [] e = ([], [], rw e refl, refl, sym e, tt, tt, tt, tt)
      on_text (c ∷ t) e =
          let ts = pack (suc size) [] sentences in
          let trimmed = each_trimmed trim_space ts in
          let all_one =
            sentence_loop-OneSentence is_space [] (runes_of doc.text)
              (OneSentence-begins is_space (runes_of doc.text)) in
          let at_ends = sentence_loop-AtEnds is_space [] (runes_of doc.text) in
          (
            numbered doc 0 trimmed,
            ts,
            ap (λ b. if b then ok [] else ok (numbered doc 0 trimmed)) (ap is_empty e),
            texts-trimmed 0 ts,
            pack-joined (suc size) [] sentences ∙ joined-split_sentences is_space doc.text v,
            pack-FitsOr (suc size) (OneSentence is_space) [] sentences (inl (omega arith)) all_one,
            pack-AtEnds is_space (suc size) [] sentences (inl refl) at_ends,
            numbered-Numbered doc 0 trimmed,
            numbered-IsOf 0 trimmed,
          )
