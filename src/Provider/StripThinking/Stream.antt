-- ===== src/Provider/StripThinking/Stream.antt =====
-- `stripThinkingStream` of pkg/provider/strip_thinking.go. `feed` takes fuel for each byte of its work and
-- one more, which is enough as each round drops an opening tag; `strings.ToLower` is a parameter. The answers of the inner stream are a
-- list; where it ends, the inner stream has not answered yet.
use galdor.Prelude.{
  ℕ, zero, suc, ◌-◌, Bool, true, false, not, ◌&&◌, ◌||◌, Option, none, some, List, [], ◌∷◌, ◌++◌,
  drop, take, length, is_empty, Result, ok, err, if◌then◌else◌, ltb,
}
use galdor.Provider.StripThinking.Tags.{
  Bytes, is_byte, has_prefix, index, think, thinking, greater, find_open, find_close,
}
use galdor.Provider.StripThinking.Blocks.{Parts, strip_message, extract_message}

abbrev pub max_open_tag_len : ℕ
max_open_tag_len = 16

-- `strings.LastIndexByte(s, '<')`.
unfoldable pub last_angle : Bytes → Option ℕ
last_angle [] = none
last_angle (c ∷ s) = elim (last_angle s) [
  | some i ↦ some (suc i)
  | none ↦ if is_byte c b'<' then some 0 else none
]

abbrev pub is_some_index : Option ℕ → Bool
is_some_index none = false
is_some_index (some i) = true

module _ (string_lower : Bytes → Bytes) where
  abbrev pub split_at : Bytes → Option ℕ → Bytes × Bytes
  split_at s none = (s, [])
  split_at s (some i) =
      let tail = drop i s in
      let prefix_of_tag =
        has_prefix think (string_lower tail) || has_prefix thinking (string_lower tail) in
      let starts_tag = has_prefix (string_lower tail) think in
      if not prefix_of_tag && not starts_tag
      then (s, [])
      else if starts_tag && not (is_some_index (index tail greater))
      then (take i s, tail)
      else if ltb max_open_tag_len (length tail)
      then (s, [])
      else (take i s, tail)

  -- `splitSafePrefix`.
  unfoldable pub split_safe_prefix : Bytes → Bytes × Bytes
  unfolding last_angle has_prefix index
  split_safe_prefix s = split_at s (last_angle s)

-- `strings.TrimLeft(s, " \t\n\r")`.
unfoldable pub trim_seam : Bytes → Bytes
trim_seam [] = []
trim_seam (c ∷ s) =
    let rest = trim_seam s in
    if is_byte c 32 || (is_byte c 9 || (is_byte c 10 || is_byte c 13)) then rest else c ∷ s

-- What is kept of the text inside a block.
abbrev pub keep_tail : Bytes → Bytes
keep_tail s = if ltb max_open_tag_len (length s) then drop (length s - max_open_tag_len) s else s

pub record Scan : Type 0 where
  pub buf : Bytes
  pub in_think : Bool

abbrev pub Fed : Type 0
Fed = Bytes × Scan

-- `out` is what was emitted before.
abbrev pub safe_end : Bytes → Bytes × Bytes → Fed
safe_end out (safe, tail) = (out ++ safe, record { buf = tail; in_think = false })

-- The text from the end of the closing tag on. An end past the text, where the source panics, leaves
-- nothing; it cannot be on ASCII texts.
abbrev pub at_close : (Bytes → Bytes → Fed) → Bytes → Bytes → Option (ℕ × ℕ) → Fed
at_close outside out work none = (out, record { buf = keep_tail work; in_think = true })
at_close outside out work (some (start, end)) = outside out (trim_seam (drop end work))

module _ (string_lower : Bytes → Bytes) where
  -- A round outside a block goes on inside one; `inside` is that part of the loop.
  abbrev pub at_open : (Bytes → Bytes → Fed) → Bytes → Bytes → Option (ℕ × ℕ) → Fed
  at_open inside out work none = safe_end out (split_safe_prefix string_lower work)
  at_open inside out work (some (start, end)) = inside (out ++ take start work) (drop end work)

  abbrev pub outside : (Bytes → Bytes → Fed) → Bytes → Bytes → Fed
  outside inside out work = at_open inside out work (find_open work)

  unfoldable pub inside : ℕ → Bytes → Bytes → Fed
  unfolding split_safe_prefix trim_seam find_open find_close
  inside zero out work = (out, record { buf = work; in_think = true })
  inside (suc fuel) out work =
      at_close (outside (inside fuel)) out work (find_close string_lower work)

  unfoldable pub scan : Bool → Bytes → Fed
  unfolding inside
  scan true work = inside (suc (length work)) [] work
  scan false work = outside (inside (suc (length work))) [] work

  -- `feed`.
  unfoldable pub feed : Scan → Bytes → Fed
  unfolding scan
  feed s chunk = scan s.in_think (s.buf ++ chunk)

-- The events of a stream; of a message its parts.
pub data Event : Type 0 where
  content_delta : Bytes → Event
  message_stop : Option Parts → Event
  other_event : Event

pub record Reader : Type 0 where
  pub collect : Bool
  pub state : Scan
  pub pending : List Event

abbrev pub idle : Scan
idle = record { buf = []; in_think = false }

-- The terminal message without its blocks.
abbrev pub cleaned : Bool → Option Parts → Option Parts
cleaned collect none = none
cleaned collect (some ps) = some (if collect then extract_message ps else strip_message ps)

abbrev pub stop_event : Reader → Option Parts → Event × Reader
stop_event r m =
    if not r.state.in_think && not (is_empty r.state.buf)
    then (
      content_delta r.state.buf,
      record r {
        state = record { buf = []; in_think = r.state.in_think };
        pending = message_stop (cleaned r.collect m) ∷ [];
      },
    )
    else (message_stop (cleaned r.collect m), record r { state = idle })

-- What a call returns, the reader after it, and the answers that are left.
abbrev pub Answered : Type 0 → Type 0
Answered X = Option (Result X Event × Reader × List (Result X Event))

module _ {X : Type 0} where
  abbrev pub with_rest : List (Result X Event) → Event × Reader → Answered X
  with_rest rest (e, r) = some (ok e, r, rest)

module _ {X : Type 0} (string_lower : Bytes → Bytes) where
  -- The loop of `Recv`.
  unfoldable pub receive : Reader → List (Result X Event) → Answered X
  unfolding feed strip_message extract_message
  receive r [] = none
  receive r (err x ∷ rest) = some (err x, r, rest)
  receive r (ok (content_delta chunk) ∷ rest) =
      let (out, s) = feed string_lower r.state chunk in
      let next = receive (record r { state = s }) rest in
      if is_empty out then next else some (ok (content_delta out), record r { state = s }, rest)
  receive r (ok (message_stop m) ∷ rest) = with_rest rest (stop_event r m)
  receive r (ok other_event ∷ rest) = some (ok other_event, r, rest)

  abbrev pub pending_or : Reader → List (Result X Event) → List Event → Answered X
  pending_or r answers [] = receive r answers
  pending_or r answers (e ∷ es) = some (ok e, record r { pending = es }, answers)

  -- `Recv`.
  unfoldable pub recv : Reader → List (Result X Event) → Answered X
  unfolding receive
  recv r answers = pending_or r answers r.pending
