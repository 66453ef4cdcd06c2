-- ===== src/Window/Caps.antt =====
-- What the caps of pkg/memory/window.go promise for a snapshot.
use galdor.Prelude.{
  append-nil, set, ℕ, zero, suc, ◌+◌, ◌≤◌, ℤ, pos, negsuc, Bool, true, false, Bool-cases, not, ◌&&◌,
  ◌||◌, Option, List, [], ◌∷◌, ◌++◌, Result, ◌≡◌, ◌⊎◌, inl, inr, refl, sym, ap, subst, ◌∙◌, arith,
  ltb, length, length-append, drop,
}
use galdor.Schema.{is_system}
use galdor.Window.{
  summary_message, Text, Message, Window, exceeds, is_set, has_text, one_if, leading, body_of,
  to_list, tokens_of, estimate_tokens, count_of, token_count, fits, evict, eviction_plan,
  enforce_caps, summary_heading, summary_part, build_snapshot, snapshot, drop_evicted, summarized,
  cut,
}

not-true : (b : Bool) → not b ≡ true → b ≡ false
not-true true h = sym h
not-true false h = refl

both-true : (a b : Bool) → a && b ≡ true → (a ≡ true) × (b ≡ true)
both-true true b h = (refl, h)
both-true false b h = cc h

both-false : (a b : Bool) → a || b ≡ false → (a ≡ false) × (b ≡ false)
both-false false b h = (refl, h)
both-false true b h = cc h

unset-exceeds : (cap : ℤ) (n : ℕ) → is_set cap ≡ false → exceeds cap n ≡ false
unset-exceeds (pos zero) n h = refl
unset-exceeds (pos (suc c)) n h = cc h
unset-exceeds (negsuc c) n h = refl

module _ {E : Type 0} where
  -- The plan stops at messages that fit, or at none.
  evict-fits :
      (w : Window E) (sys : Option (Message E)) (body : List (Message E))
      → (fits w sys (drop (evict w sys body) body) ≡ true) ⊎ (drop (evict w sys body) body ≡ [])
  unfolding evict
  evict-fits w sys [] = inr refl
  evict-fits w sys (m ∷ ms) = elim (Bool-cases (fits w sys (m ∷ ms))) [
    | inl e ↦ rw e (inl e)
    | inr e ↦ rw e (evict-fits w sys ms)
  ]

  length-split :
      (ms : List (Message E)) → length (to_list (leading ms)) + length (body_of ms) ≡ length ms
  length-split [] = refl
  length-split (m ∷ ms) = ground arith

  tokens-split :
      (ms : List (Message E))
      → tokens_of (to_list (leading ms)) + tokens_of (body_of ms) ≡ tokens_of ms
  tokens-split [] = refl
  tokens-split (m ∷ ms) = ground arith

  tokens_of-append : (xs ys : List (Message E)) → tokens_of (xs ++ ys) ≡ tokens_of xs + tokens_of ys
  tokens_of-append [] ys = omega arith
  tokens_of-append (m ∷ xs) ys = omega (arith, tokens_of-append xs ys)

  -- Both caps hold of `ms` as the messages of `w`, with a slot for the summary.
  abbrev pub Within : Window E → List (Message E) → Type 0
  Within w ms =
      (exceeds w.max_messages (length ms + one_if (has_text w.summary || w.has_summarizer)) ≡ false)
      × (exceeds w.max_tokens (tokens_of ms + estimate_tokens w.summary) ≡ false)

  fits-Within :
      (w : Window E) (sys : Option (Message E)) (kept : List (Message E))
      → fits w sys kept ≡ true
      → Within w (to_list sys ++ kept)
  unfolding fits
  fits-Within w sys kept h =
      let slot = one_if (has_text w.summary || w.has_summarizer) in
      let both =
        both-true (not (exceeds w.max_messages (count_of w sys kept)))
          (not (exceeds w.max_tokens (token_count w sys kept))) h in
      let counted : length (to_list sys ++ kept) + slot ≡ count_of w sys kept =
        omega (arith, length-append (to_list sys) kept) in
      let weighed : tokens_of (to_list sys ++ kept) + estimate_tokens w.summary
          ≡ token_count w sys kept =
        omega (arith, tokens_of-append (to_list sys) kept) in
      (
        ap (exceeds w.max_messages) counted ∙ not-true _ both.0,
        ap (exceeds w.max_tokens) weighed ∙ not-true _ both.1,
      )

  leading-body : (ms : List (Message E)) → to_list (leading ms) ++ body_of ms ≡ ms
  leading-body [] = refl
  leading-body (m ∷ ms) = elim (Bool-cases (is_system m.role)) [
    | inl e ↦ rw e refl
    | inr e ↦ rw e refl
  ]

  body_of-leading : (ms : List (Message E)) → body_of (to_list (leading ms) ++ []) ≡ []
  body_of-leading [] = refl
  body_of-leading (m ∷ ms) = elim (Bool-cases (is_system m.role)) [
    | inl e ↦ rw (e, e) refl
    | inr e ↦ rw e refl
  ]

  -- Nothing is left that may be dropped: there is the leading system message at most.
  abbrev pub IsBare : Window E → Type 0
  IsBare w = body_of w.messages ≡ []

  cut-Within :
      (w : Window E) (capped : Bool) (start : ℕ)
      → is_set w.max_messages || is_set w.max_tokens ≡ capped
      → eviction_plan w ≡ start
      → Within (cut w capped start) (cut w capped start).messages ⊎ IsBare (cut w capped start)
  unfolding eviction_plan
  cut-Within w false start unset e =
      let both = both-false (is_set w.max_messages) (is_set w.max_tokens) unset in
      inl (unset-exceeds w.max_messages _ both.0, unset-exceeds w.max_tokens _ both.1)
  cut-Within w true zero set e = elim (evict-fits w (leading w.messages) (body_of w.messages)) [
    | inl h ↦ inl (
        subst (Within w) (leading-body w.messages)
          (fits-Within w (leading w.messages) (body_of w.messages) (rw e at h)))
    | inr h ↦ inr (rw e at h)
  ]
  cut-Within w true (suc n) set e = elim (evict-fits w (leading w.messages) (body_of w.messages)) [
    | inl h ↦
        inl (fits-Within w (leading w.messages) (drop (suc n) (body_of w.messages)) (rw e at h))
    | inr h ↦ inr (
        ap (λ r. body_of (to_list (leading w.messages) ++ r)) (rw e at h)
        ∙ body_of-leading w.messages)
  ]

  pub enforce_caps-Within :
      (w : Window E) → Within (enforce_caps w) (enforce_caps w).messages ⊎ IsBare (enforce_caps w)
  unfolding enforce_caps
  enforce_caps-Within w = cut-Within w _ _ refl refl

  cut-caps :
      (w : Window E) (capped : Bool) (start : ℕ)
      → ((cut w capped start).max_messages ≡ w.max_messages)
        × ((cut w capped start).max_tokens ≡ w.max_tokens)
  cut-caps w false start = (refl, refl)
  cut-caps w true zero = (refl, refl)
  cut-caps w true (suc n) = (refl, refl)

  drop_evicted-caps :
      (sys : Option (Message E)) (start : ℕ) (w : Window E)
      → ((drop_evicted sys start w).max_messages ≡ w.max_messages)
        × ((drop_evicted sys start w).max_tokens ≡ w.max_tokens)
  drop_evicted-caps sys zero w = (refl, refl)
  drop_evicted-caps sys (suc n) w = (refl, refl)

-- How long and how heavy a snapshot is, next to the window that it is built from.
module _ {E : Type 0} (no_extra : E) where
  estimate-heading : (t : Text) → estimate_tokens (summary_heading ++ t) ≤ 8 + estimate_tokens t
  estimate-heading t = omega (arith, length-append summary_heading t)

  summary_part-bounds :
      (summary : Text) (more : Bool)
      → (length (summary_part no_extra summary) ≤ one_if (has_text summary || more))
        × (tokens_of (summary_part no_extra summary) ≤ 8 + estimate_tokens summary)
  summary_part-bounds [] more = (omega arith, omega arith)
  summary_part-bounds (c ∷ t) more = (
    omega arith,
    omega (arith, estimate-heading (c ∷ t), length-append (summary_heading ++ c ∷ t) []),
  )

  build-length :
      (w : Window E)
      → length (build_snapshot no_extra w)
        ≤ length w.messages + one_if (has_text w.summary || w.has_summarizer)
  unfolding build_snapshot
  build-length w = omega (
    arith,
    length-append (to_list (leading w.messages))
        (summary_part no_extra w.summary ++ body_of w.messages),
    length-append (summary_part no_extra w.summary) (body_of w.messages),
    length-split w.messages,
    (summary_part-bounds w.summary w.has_summarizer).0,
  )

  build-tokens :
      (w : Window E)
      → tokens_of (build_snapshot no_extra w) ≤ tokens_of w.messages + estimate_tokens w.summary + 8
  unfolding build_snapshot
  build-tokens w = omega (
    arith,
    tokens_of-append (to_list (leading w.messages))
        (summary_part no_extra w.summary ++ body_of w.messages),
    tokens_of-append (summary_part no_extra w.summary) (body_of w.messages),
    tokens-split w.messages,
    (summary_part-bounds w.summary w.has_summarizer).1,
  )

  -- At most one message, and that of the role system.
  abbrev pub IsInstruction : List (Message E) → Type 0
  IsInstruction [] = Unit
  IsInstruction (m ∷ []) = is_system m.role ≡ true
  IsInstruction (m ∷ n ∷ ms) = ⊥

  -- Nothing but a leading system message and the summary, if there are any.
  abbrev pub OnlyPinned : Text → List (Message E) → Type 0
  OnlyPinned summary out =
      (sys : List (Message E)) × IsInstruction sys
      × ((out ≡ sys) ⊎ (out ≡ sys ++ summary_message no_extra summary ∷ []))

  leading-IsInstruction : (ms : List (Message E)) → IsInstruction (to_list (leading ms))
  leading-IsInstruction [] = tt
  leading-IsInstruction (m ∷ ms) = elim (Bool-cases (is_system m.role)) [
    | inl e ↦ rw e e
    | inr e ↦ rw e tt
  ]

  bare-OnlyPinned : (w : Window E) → IsBare w → OnlyPinned w.summary (build_snapshot no_extra w)
  unfolding build_snapshot
  bare-OnlyPinned w bare =
      let sys = to_list (leading w.messages) in
      let summary = summary_part no_extra w.summary in
      let short : build_snapshot no_extra w ≡ sys ++ summary =
        ap (λ body. sys ++ (summary ++ body)) bare ∙ ap (λ t. sys ++ t) (append-nil summary) in
      (
        sys,
        leading-IsInstruction w.messages,
        with_summary sys (build_snapshot no_extra w) w.summary short,
      )
    where
      with_summary :
          (sys out : List (Message E)) (t : Text)
          → out ≡ sys ++ summary_part no_extra t
          → (out ≡ sys) ⊎ (out ≡ sys ++ summary_message no_extra t ∷ [])
      with_summary sys out [] h = inl (h ∙ append-nil sys)
      with_summary sys out (c ∷ t) h = inr h

  exceeds-bound : (cap : ℤ) (c n : ℕ) → cap ≡ pos (suc c) → exceeds cap n ≡ false → n ≤ suc c
  exceeds-bound cap c n e h = let clear : ltb (suc c) n ≡ false = rw e at h in ground arith

  snapshot-caps :
      {X : Type 0} (answer : List (Message E) → Result X Text) (arrived : List (Message E))
      (w : Window E)
      → ((snapshot no_extra answer arrived w).0.max_messages ≡ w.max_messages)
        × ((snapshot no_extra answer arrived w).0.max_tokens ≡ w.max_tokens)
  unfolding snapshot enforce_caps
  snapshot-caps answer arrived w =
      let start = eviction_plan w in
      let folded = summarized no_extra answer arrived w in
      let planned = drop_evicted (leading w.messages) start folded in
      let kept = drop_evicted-caps (leading w.messages) start folded in
      let capped =
        cut-caps planned (is_set planned.max_messages || is_set planned.max_tokens)
          (eviction_plan planned) in
      (capped.0 ∙ kept.0, capped.1 ∙ kept.1)

  snapshot-Within :
      {X : Type 0} (answer : List (Message E) → Result X Text) (arrived : List (Message E))
      (w : Window E)
      → let w2 = (snapshot no_extra answer arrived w).0 in Within w2 w2.messages ⊎ IsBare w2
  unfolding snapshot
  snapshot-Within answer arrived w =
      enforce_caps-Within
        (drop_evicted (leading w.messages) (eviction_plan w) (summarized no_extra answer arrived w))

  -- With `max_messages` set to n > 0, a snapshot has at most n messages, or it is made of
  -- a leading system message and the window's summary at most. This holds for every answer or failure of
  -- the summarizer and for all messages that arrive while it runs.
  pub snapshot-max_messages :
      {X : Type 0} (answer : List (Message E) → Result X Text) (arrived : List (Message E))
      (w : Window E) (cap : ℕ)
      → w.max_messages ≡ pos (suc cap)
      → let (w2, out) = snapshot no_extra answer arrived w in
        (length out ≤ suc cap) ⊎ OnlyPinned w2.summary out
  unfolding snapshot
  snapshot-max_messages answer arrived w cap set =
      let w2 = (snapshot no_extra answer arrived w).0 in
      elim (snapshot-Within answer arrived w) [
        | inl within ↦ inl (
            omega (
              arith,
              build-length w2,
              exceeds-bound w2.max_messages cap _ ((snapshot-caps answer arrived w).0 ∙ set)
                  within.0,
            ))
        | inr bare ↦ inr (bare-OnlyPinned w2 bare)
      ]

  -- With `max_tokens` set to n > 0, the estimated tokens of a snapshot are at most n + 8, where the
  -- 8 pays for the heading of the summary, which the cap does not count; or it is made of
  -- a leading system message and the window's summary at most.
  pub snapshot-max_tokens :
      {X : Type 0} (answer : List (Message E) → Result X Text) (arrived : List (Message E))
      (w : Window E) (cap : ℕ)
      → w.max_tokens ≡ pos (suc cap)
      → let (w2, out) = snapshot no_extra answer arrived w in
        (tokens_of out ≤ suc cap + 8) ⊎ OnlyPinned w2.summary out
  unfolding snapshot
  snapshot-max_tokens answer arrived w cap set =
      let w2 = (snapshot no_extra answer arrived w).0 in
      elim (snapshot-Within answer arrived w) [
        | inl within ↦ inl (
            omega (
              arith,
              build-tokens w2,
              exceeds-bound w2.max_tokens cap _ ((snapshot-caps answer arrived w).1 ∙ set) within.1,
            ))
        | inr bare ↦ inr (bare-OnlyPinned w2 bare)
      ]
