-- ===== src/Provider/StripThinking/Ascii.antt =====
-- `feed` of pkg/provider/strip_thinking.go on ASCII texts, where `strings.ToLower` changes the letters only.
use galdor.Provider.StripThinking.Lookahead.{feed-lower-append}
use galdor.Provider.StripThinking.Stream.{
  Fed, Scan, at_close, feed, inside, keep_tail, last_angle, max_open_tag_len, outside, safe_end,
  scan, split_at, split_safe_prefix, trim_seam,
}
use galdor.Provider.StripThinking.Tags.{
  Bytes, IsAscii, LowersAscii, better, close_think, close_thinking, find_close, find_open, index,
  is_byte, lower,
}
use galdor.Prelude.{
  All, Bool-cases, Option, Option-cases, [], ap, append_assoc, drop, inl, inr, length, ltb, none,
  refl, some, subst, suc, sym, take, true, zero, ◌++◌, ◌-◌, ◌||◌, ◌∙◌, ◌∷◌, ◌≡◌, ℕ,
}

All-append : (s t : Bytes) → All IsAscii (s ++ t) → All IsAscii s × All IsAscii t
All-append [] t a = (tt, a)
All-append (c ∷ s) t (x, a) = let (b, d) = All-append s t a in ((x, b), d)

All-join : (s t : Bytes) → All IsAscii s → All IsAscii t → All IsAscii (s ++ t)
All-join [] t a b = b
All-join (c ∷ s) t (x, a) b = (x, All-join s t a b)

All-drop : (n : ℕ) (s : Bytes) → All IsAscii s → All IsAscii (drop n s)
All-drop zero s a = a
All-drop (suc n) [] a = tt
All-drop (suc n) (c ∷ s) (x, a) = All-drop n s a

All-trim_seam : (s : Bytes) → All IsAscii s → All IsAscii (trim_seam s)
unfolding trim_seam
All-trim_seam [] a = tt
All-trim_seam (c ∷ s) (x, a) =
    elim (Bool-cases (is_byte c 32 || (is_byte c 9 || (is_byte c 10 || is_byte c 13)))) [
      | inl e ↦ rw e (All-trim_seam s a)
      | inr e ↦ rw e (x, a)
    ]

All-keep_tail : (s : Bytes) → All IsAscii s → All IsAscii (keep_tail s)
All-keep_tail s a = elim (Bool-cases (ltb max_open_tag_len (length s))) [
  | inl e ↦ rw e (All-drop (length s - max_open_tag_len) s a)
  | inr e ↦ rw e a
]

module _ (string_lower : Bytes → Bytes) (lowers : LowersAscii string_lower) where
  find_close-lower : (s : Bytes) → All IsAscii s → find_close string_lower s ≡ find_close lower s
  unfolding find_close
  find_close-lower s a =
      ap (λ l. better (better none 8 (index l close_think)) 11 (index l close_thinking))
        (lowers s a)

  split_at-lower :
      (s : Bytes) (o : Option ℕ) → All IsAscii s → split_at string_lower s o ≡ split_at lower s o
  split_at-lower s none a = refl
  split_at-lower s (some i) a = let same = lowers (drop i s) (All-drop i s a) in rw same refl

  outside-lower :
      (F G : Bytes → Bytes → Fed) (out work : Bytes)
      → ((o w : Bytes) → All IsAscii w → F o w ≡ G o w)
      → All IsAscii work
      → outside string_lower F out work ≡ outside lower G out work
  unfolding split_safe_prefix
  outside-lower F G out work same a = elim (Option-cases (find_open work)) [
    | inl e ↦ rw e (ap (safe_end out) (split_at-lower work (last_angle work) a))
    | inr ((i, j), e) ↦ rw e (same (out ++ take i work) (drop j work) (All-drop j work a))
  ]

  inside-lower :
      (fuel : ℕ) (out work : Bytes)
      → All IsAscii work
      → inside string_lower fuel out work ≡ inside lower fuel out work
  unfolding inside
  inside-lower zero out work a = refl
  inside-lower (suc fuel) out work a =
      ap (at_close (outside string_lower (inside string_lower fuel)) out work)
        (find_close-lower work a)
      ∙ agrees (λ o w b. inside-lower fuel o w b) (find_close lower work)
    where
      agrees :
          ((o w : Bytes) → All IsAscii w → inside string_lower fuel o w ≡ inside lower fuel o w)
          → (o : Option (ℕ × ℕ))
          → at_close (outside string_lower (inside string_lower fuel)) out work o
            ≡ at_close (outside lower (inside lower fuel)) out work o
      agrees same none = refl
      agrees same (some (i, j)) =
          outside-lower (inside string_lower fuel) (inside lower fuel) out (trim_seam (drop j work))
            same (All-trim_seam (drop j work) (All-drop j work a))

  -- A chunk inside a block, over ASCII.
  feed-lower :
      (s : Scan) (chunk : Bytes)
      → s.in_think ≡ true
      → All IsAscii (s.buf ++ chunk)
      → feed string_lower s chunk ≡ feed lower s chunk
  unfolding feed scan
  feed-lower s chunk opened a =
      rw opened (inside-lower (suc (length (s.buf ++ chunk))) [] (s.buf ++ chunk) a)

  feed-kept :
      (s : Scan) (chunk : Bytes)
      → s.in_think ≡ true
      → find_close lower (s.buf ++ chunk) ≡ none
      → feed lower s chunk ≡ ([], record { buf = keep_tail (s.buf ++ chunk); in_think = true })
  unfolding feed scan inside
  feed-kept s chunk opened unclosed = rw (opened, unclosed) refl

  -- Over ASCII texts, inside a block: if a chunk does not complete a closing tag, then it emits nothing,
  -- and the chunk after it is treated as if both had come as one.
  pub feed-append :
      (s : Scan) (first second : Bytes)
      → All IsAscii (s.buf ++ (first ++ second))
      → s.in_think ≡ true
      → find_close string_lower (s.buf ++ first) ≡ none
      → ((feed string_lower s first).0 ≡ [])
        × (feed string_lower (feed string_lower s first).1 second
            ≡ feed string_lower s (first ++ second))
  feed-append s first second ascii opened unclosed =
      let (here, later) =
        All-append (s.buf ++ first) second
          (subst (All IsAscii) (sym (append_assoc s.buf first second)) ascii) in
      let none_yet : find_close lower (s.buf ++ first) ≡ none =
        sym (find_close-lower (s.buf ++ first) here) ∙ unclosed in
      let kept = feed-kept s first opened none_yet in
      let one = feed-lower s first opened here in
      let both = feed-lower-append s first second opened none_yet in
      let held : Scan = record { buf = keep_tail (s.buf ++ first); in_think = true } in
      let tail_ascii =
        All-join (keep_tail (s.buf ++ first)) second (All-keep_tail (s.buf ++ first) here) later in
      (
        ap (λ r. r.0) one ∙ both.0,
        ap (λ r. feed string_lower r.1 second) (one ∙ kept)
            ∙ feed-lower held second refl tail_ascii
            ∙ ap (λ r. feed lower r.1 second) (sym kept)
            ∙ both.1
            ∙ sym (feed-lower s (first ++ second) opened ascii),
      )
