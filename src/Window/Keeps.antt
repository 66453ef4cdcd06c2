-- ===== src/Window/Keeps.antt =====
-- What pkg/memory/window.go never drops.
use galdor.Prelude.{
  ℕ, zero, suc, Bool, true, false, Bool-cases, Option, none, some, List, [], ◌∷◌, ◌++◌, Result, inl,
  inr, ◌≡◌, refl, sym, ap, ◌∙◌, get_elem?, ◌||◌,
}
use galdor.Schema.{is_system}
use galdor.Window.{
  Text, Message, Window, is_set, leading, body_of, to_list, eviction_plan, cut, or_else,
  drop_evicted, summarized, enforce_caps, build_snapshot, snapshot, trimmed, summary_part,
}

module _ {E : Type 0} where
  -- The messages begin with the system message `m`.
  abbrev pub LedBy : Message E → Window E → Type 0
  LedBy m w = leading w.messages ≡ some m

  abbrev led_by_system : Option (Message E) → Bool
  led_by_system none = true
  led_by_system (some m) = is_system m.role

  leading-is_system :
      (ms : List (Message E)) (m : Message E) → leading ms ≡ some m → is_system m.role ≡ true
  leading-is_system [] m h = cc h
  leading-is_system (x ∷ ms) m h = elim (Bool-cases (is_system x.role)) [
    | inl e ↦ let same : some x ≡ some m = rw e at h in ap led_by_system (sym same) ∙ e
    | inr e ↦ cc (rw e at h)
  ]

  trimmed-leads :
      (m : Message E) (body : List (Message E)) (n : ℕ)
      → is_system m.role ≡ true
      → leading (trimmed (some m) body n) ≡ some m
  trimmed-leads m body n s = rw s refl

  append-leads :
      (ms more : List (Message E)) (m : Message E)
      → leading ms ≡ some m
      → leading (ms ++ more) ≡ some m
  append-leads [] more m h = cc h
  append-leads (x ∷ ms) more m h = h

  drop_evicted-LedBy :
      (m : Message E) (sys : Option (Message E)) (start : ℕ) (w : Window E)
      → LedBy m w
      → LedBy m (drop_evicted sys start w)
  drop_evicted-LedBy m sys zero w h = h
  drop_evicted-LedBy m sys (suc n) w h =
      ap (λ o. leading (trimmed (or_else o sys) (body_of w.messages) (suc n))) h
      ∙ trimmed-leads m (body_of w.messages) (suc n) (leading-is_system w.messages m h)

  cut-LedBy :
      (m : Message E) (w : Window E) (capped : Bool) (start : ℕ)
      → LedBy m w
      → LedBy m (cut w capped start)
  cut-LedBy m w false start h = h
  cut-LedBy m w true zero h = h
  cut-LedBy m w true (suc n) h =
      ap (λ o. leading (trimmed o (body_of w.messages) (suc n))) h
      ∙ trimmed-leads m (body_of w.messages) (suc n) (leading-is_system w.messages m h)

module _ {E : Type 0} (no_extra : E) where
  build_snapshot-LedBy :
      (m : Message E) (w : Window E) → LedBy m w → get_elem? (build_snapshot no_extra w) 0 ≡ some m
  unfolding build_snapshot
  build_snapshot-LedBy m w h =
      ap (λ o. get_elem? (to_list o ++ (summary_part no_extra w.summary ++ body_of w.messages)) 0) h

  -- When the first message of a window is a system message, it is the first message of every
  -- snapshot, and it still leads the messages that the window keeps. This holds for every cap, every answer or failure of the
  -- summarizer and all messages that arrive while it runs.
  pub snapshot-keeps-instructions :
      {X : Type 0} (answer : List (Message E) → Result X Text) (arrived : List (Message E))
      (w : Window E) (m : Message E)
      → leading w.messages ≡ some m
      → let (w2, out) = snapshot no_extra answer arrived w in
        (get_elem? out 0 ≡ some m) × (leading w2.messages ≡ some m)
  unfolding snapshot enforce_caps
  snapshot-keeps-instructions answer arrived w m h =
      let folded = summarized no_extra answer arrived w in
      let planned = drop_evicted (leading w.messages) (eviction_plan w) folded in
      let led =
        cut-LedBy m planned (is_set planned.max_messages || is_set planned.max_tokens)
          (eviction_plan planned)
          (drop_evicted-LedBy m (leading w.messages) (eviction_plan w) folded
            (append-leads w.messages arrived m h)) in
      (build_snapshot-LedBy m (enforce_caps planned) led, led)
