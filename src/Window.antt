-- ===== src/Window.antt =====
-- pkg/memory/window.go: the bounded short-term memory, with the messages of pkg/schema/message.go
-- that it reads. A text is its list of bytes. `E` holds the fields of a message that the window
-- carries and does not read (tool calls, cache hints). What the configured Summarizer answers, and
-- the messages that other goroutines append while it runs, are arguments of `snapshot`.
pub mod Caps
pub mod Keeps
mod Tests
use galdor.Prelude.{
  ℕ, zero, suc, ◌+◌, ◌-◌, ◌/◌, ℤ, pos, String, Bool, true, false, not, ◌&&◌, ◌||◌, Option, none,
  some, List, [], ◌∷◌, ◌++◌, Result, ok, err, ltb, if◌then◌else◌, length, take, drop,
}
use galdor.Schema.{Role, system, ContentPart, text_part, thinking_part, other_part, is_system}

abbrev pub Text : Type 0
Text = List ℕ

pub record Message (E : Type 0) : Type 0 where
  pub role : Role
  pub content : List (ContentPart Text)
  pub name : String
  pub extra : E

-- `Message.Text`.
abbrev pub part_texts : List (ContentPart Text) → Text
part_texts [] = []
part_texts (text_part t ∷ ps) = t ++ part_texts ps
part_texts (thinking_part t ∷ ps) = part_texts ps
part_texts (other_part t ∷ ps) = part_texts ps

-- `estimateTokens`, over the length of a text.
abbrev pub estimate_tokens : Text → ℕ
estimate_tokens t = (length t + 3) / 4

pub record Window (E : Type 0) : Type 0 where
  pub max_messages : ℤ
  pub max_tokens : ℤ
  pub has_summarizer : Bool
  pub messages : List (Message E)
  pub summary : Text

-- A cap that is set and passed.
abbrev pub exceeds : ℤ → ℕ → Bool
exceeds (pos (suc cap)) n = ltb (suc cap) n
exceeds _ n = false

abbrev pub is_set : ℤ → Bool
is_set (pos (suc cap)) = true
is_set _ = false

abbrev pub has_text : Text → Bool
has_text [] = false
has_text (c ∷ t) = true

abbrev pub one_if : Bool → ℕ
one_if true = 1
one_if false = 0

abbrev pub fold_summary : Text → Text → Text
fold_summary old [] = old
fold_summary [] new = new
fold_summary (o ∷ old) new = (o ∷ old) ++ 10 ∷ 10 ∷ new

abbrev pub or_nothing : {X : Type 0} → Result X Text → Text
or_nothing (ok s) = s
or_nothing (err x) = []

module _ {E : Type 0} where
  -- The leading system message, if there is one, and the rest.
  abbrev pub leading : List (Message E) → Option (Message E)
  leading [] = none
  leading (m ∷ ms) = if is_system m.role then some m else none

  abbrev pub body_of : List (Message E) → List (Message E)
  body_of [] = []
  body_of (m ∷ ms) = if is_system m.role then ms else m ∷ ms

  abbrev pub to_list : Option (Message E) → List (Message E)
  to_list none = []
  to_list (some m) = m ∷ []

  abbrev pub tokens_of : List (Message E) → ℕ
  tokens_of [] = 0
  tokens_of (m ∷ ms) = estimate_tokens (part_texts m.content) + tokens_of ms

  unfoldable pub append : Message E → Window E → Window E
  append m w = record w { messages = w.messages ++ m ∷ [] }

  unfoldable pub append_all : List (Message E) → Window E → Window E
  append_all ms w = record w { messages = w.messages ++ ms }

  abbrev pub count_of : Window E → Option (Message E) → List (Message E) → ℕ
  count_of w sys kept =
      length (to_list sys) + one_if (has_text w.summary || w.has_summarizer) + length kept

  abbrev pub token_count : Window E → Option (Message E) → List (Message E) → ℕ
  token_count w sys kept = tokens_of (to_list sys) + estimate_tokens w.summary + tokens_of kept

  unfoldable pub fits : Window E → Option (Message E) → List (Message E) → Bool
  fits w sys kept =
      not (exceeds w.max_messages (count_of w sys kept))
      && not (exceeds w.max_tokens (token_count w sys kept))

  -- The loop of `evictionPlanLocked`: how many of the oldest messages have to go.
  unfoldable pub evict : Window E → Option (Message E) → List (Message E) → ℕ
  evict w sys [] = 0
  evict w sys (m ∷ ms) = let rest = suc (evict w sys ms) in if fits w sys (m ∷ ms) then 0 else rest

  unfoldable pub eviction_plan : Window E → ℕ
  unfolding evict fits
  eviction_plan w = evict w (leading w.messages) (body_of w.messages)

  -- The messages after a plan to drop `start` of them.
  abbrev pub trimmed : Option (Message E) → List (Message E) → ℕ → List (Message E)
  trimmed sys body start = to_list sys ++ drop start body

  -- What `enforceCapsLocked` does under a cap or none, and with this many messages to drop.
  abbrev pub cut : Window E → Bool → ℕ → Window E
  cut w false start = w
  cut w true zero = w
  cut w true (suc n) = record w {
    messages = trimmed (leading w.messages) (body_of w.messages) (suc n);
  }

  unfoldable pub enforce_caps : Window E → Window E
  enforce_caps w = cut w (is_set w.max_messages || is_set w.max_tokens) (eviction_plan w)

  abbrev pub or_else : Option (Message E) → Option (Message E) → Option (Message E)
  or_else none d = d
  or_else (some m) d = some m

  -- Phase 3 up to the second trim: `start` and `sys` are the plan of phase 1.
  abbrev pub drop_evicted : Option (Message E) → ℕ → Window E → Window E
  drop_evicted sys zero w = w
  drop_evicted sys (suc n) w = record w {
    messages = trimmed (or_else (leading w.messages) sys) (body_of w.messages) (suc n);
  }

  -- Phase 2: the summary of the evicted messages, "" on an error or if there are none.
  abbrev pub new_summary :
      {X : Type 0} → (List (Message E) → Result X Text) → List (Message E) → Text
  new_summary answer [] = []
  new_summary answer (m ∷ ms) = or_nothing (answer (m ∷ ms))

-- "Conversation summary so far:\n".
abbrev pub summary_heading : Text
summary_heading =
    67 ∷ 111 ∷ 110 ∷ 118 ∷ 101 ∷ 114 ∷ 115 ∷ 97 ∷ 116 ∷ 105 ∷ 111 ∷ 110 ∷ 32 ∷ 115 ∷ 117 ∷ 109 ∷ 109
    ∷ 97 ∷ 114 ∷ 121 ∷ 32 ∷ 115 ∷ 111 ∷ 32 ∷ 102 ∷ 97 ∷ 114 ∷ 58 ∷ 10 ∷ []

-- `no_extra` is the zero value of the fields that the window does not read.
module _ {E : Type 0} (no_extra : E) where
  abbrev pub summary_message : Text → Message E
  summary_message summary = record {
    role = system;
    content = text_part (summary_heading ++ summary) ∷ [];
    name = "summary";
    extra = no_extra;
  }

  abbrev pub summary_part : Text → List (Message E)
  summary_part [] = []
  summary_part (c ∷ t) = summary_message (c ∷ t) ∷ []

  unfoldable pub build_snapshot : Window E → List (Message E)
  build_snapshot w = to_list (leading w.messages) ++ (summary_part w.summary ++ body_of w.messages)

  abbrev pub evicted : Window E → List (Message E)
  evicted w = if w.has_summarizer then take (eviction_plan w) (body_of w.messages) else []

  -- The window when phase 3 begins, with the new summary folded in.
  abbrev pub summarized :
      {X : Type 0} → (List (Message E) → Result X Text) → List (Message E) → Window E → Window E
  summarized answer arrived w = record w {
    messages = w.messages ++ arrived;
    summary = fold_summary w.summary (new_summary answer (evicted w));
  }

  -- `Snapshot`: the window that it leaves, and the messages that it returns.
  unfoldable pub snapshot :
      {X : Type 0}
      → (List (Message E) → Result X Text)
      → List (Message E)
      → Window E
      → Window E × List (Message E)
  unfolding eviction_plan enforce_caps build_snapshot
  snapshot answer arrived w =
      let planned =
        drop_evicted (leading w.messages) (eviction_plan w) (summarized answer arrived w) in
      let capped = enforce_caps planned in (capped, build_snapshot capped)
