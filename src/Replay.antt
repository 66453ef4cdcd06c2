-- ===== src/Replay.antt =====
-- pkg/replay/replay.go: a provider that serves a recorded run again. Of a response the message is kept,
-- as in Provider. The fingerprint (JSON and SHA-256) is a parameter, and so is `X`, its errors. The
-- counter of served calls is taken not to pass 2^31 - 1.
pub mod Strict
pub mod Lenient
mod Tests
use galdor.Prelude.{
  ℕ, zero, suc, ◌+◌, ◌-◌, String, Bool, Option, none, some, List, [], ◌∷◌, ◌++◌, Result, ok, err,
  ◌==◌, if◌then◌else◌, leb, length, get_elem?, Assoc, lookup, insert,
}
use galdor.Schema.{Message, ToolDef}
use galdor.Provider.{Request, ToolChoice}

pub data Mode : Type 0 where
  strict lenient : Mode

pub record RecordedCall : Type 0 where
  pub model : String
  pub prompt : List Message
  pub tools : List ToolDef
  pub tool_choice : ToolChoice
  pub response : Option Message

-- `out_of_range` is the panic of a slice.
pub data ReplayErr (X : Type 0) : Type 0 where
  prompt_mismatch : ℕ → String → String → ReplayErr X
  unknown_prompt : String → ReplayErr X
  exhausted : ℕ → ℕ → ReplayErr X
  nil_response out_of_range : ReplayErr X
  bad_recording : ℕ → X → ReplayErr X
  bad_request : X → ReplayErr X

pub record Replayer : Type 0 where
  pub calls : List RecordedCall
  pub mode : Mode
  pub idx : ℕ
  pub fingerprints : Assoc (List ℕ)
  pub cursors : Assoc ℕ

-- The matching surface of a recorded call.
abbrev pub request_of : RecordedCall → Request
request_of c = record {
  model = c.model;
  messages = c.prompt;
  tools = c.tools;
  tool_choice = c.tool_choice;
}

abbrev pub queue_or_empty : Option (List ℕ) → List ℕ
queue_or_empty none = []
queue_or_empty (some q) = q

abbrev pub cursor_or_zero : Option ℕ → ℕ
cursor_or_zero none = 0
cursor_or_zero (some n) = n

-- `Remaining`.
unfoldable pub remaining : Replayer → ℕ
remaining p = if leb (length p.calls) p.idx then 0 else length p.calls - p.idx

-- `Reset`.
unfoldable pub reset : Replayer → Replayer
reset p = record p { idx = 0 }

-- `responseOrError`; a copy is the same value.
abbrev pub response_or_error : {X : Type 0} → Option Message → Result (ReplayErr X) Message
response_or_error none = err nil_response
response_or_error (some m) = ok m

module _ {X : Type 0} (fingerprint : Request → Result X String) where
  abbrev pub queued : ℕ → Assoc (List ℕ) → Result X String → Assoc (List ℕ)
  queued i m (err e) = m
  queued i m (ok fp) = insert fp (queue_or_empty (lookup fp m) ++ i ∷ []) m

  -- The queues of the calls from the index `i` on.
  unfoldable pub queue_calls : ℕ → List RecordedCall → Assoc (List ℕ) → Assoc (List ℕ)
  queue_calls i [] m = m
  queue_calls i (c ∷ cs) m = queue_calls (suc i) cs (queued i m (fingerprint (request_of c)))

  -- `NewProvider`.
  unfoldable pub new_provider : List RecordedCall → Mode → Replayer
  unfolding queue_calls
  new_provider calls strict = record {
    calls = calls;
    mode = strict;
    idx = 0;
    fingerprints = [];
    cursors = [];
  }
  new_provider calls lenient = record {
    calls = calls;
    mode = lenient;
    idx = 0;
    fingerprints = queue_calls 0 calls [];
    cursors = [];
  }

  abbrev pub compared :
      ℕ → Option Message → Result X String → Result X String → Result (ReplayErr X) Message
  compared idx response (err e) got = err (bad_recording (idx + 1) e)
  compared idx response (ok want) (err e) = err (bad_request e)
  compared idx response (ok want) (ok got) =
      if want == got then response_or_error response else err (prompt_mismatch (idx + 1) want got)

  abbrev pub serve : Replayer → Request → Option RecordedCall → Result (ReplayErr X) Message
  serve p req none = err (exhausted (p.idx + 1) (length p.calls))
  serve p req (some c) = compared p.idx c.response (fingerprint (request_of c)) (fingerprint req)

  -- `generateStrict`.
  unfoldable pub generate_strict : Replayer → Request → Result (ReplayErr X) Message × Replayer
  generate_strict p req = (serve p req (get_elem? p.calls p.idx), record p { idx = p.idx + 1 })

  abbrev pub response_at : Option RecordedCall → Result (ReplayErr X) Message
  response_at none = err out_of_range
  response_at (some c) = response_or_error c.response

  abbrev pub call_at : Replayer → Option ℕ → Result (ReplayErr X) Message
  call_at p none = err out_of_range
  call_at p (some i) = response_at (get_elem? p.calls i)

  -- A call from the queue of its fingerprint, the last one again once all are served.
  abbrev pub from_queue : Replayer → String → List ℕ → Result (ReplayErr X) Message × Replayer
  from_queue p fp [] = (err (unknown_prompt fp), p)
  from_queue p fp (i ∷ queue) =
      let cur = cursor_or_zero (lookup fp p.cursors) in
      if leb (length (i ∷ queue)) cur
      then (call_at p (get_elem? (i ∷ queue) (length (i ∷ queue) - 1)), p)
      else (
        call_at p (get_elem? (i ∷ queue) cur),
        record p { cursors = insert fp (cur + 1) p.cursors },
      )

  abbrev pub looked_up : Replayer → Result X String → Result (ReplayErr X) Message × Replayer
  looked_up p (err e) = (err (bad_request e), p)
  looked_up p (ok fp) = from_queue p fp (queue_or_empty (lookup fp p.fingerprints))

  -- `generateLenient`.
  unfoldable pub generate_lenient : Replayer → Request → Result (ReplayErr X) Message × Replayer
  generate_lenient p req = looked_up p (fingerprint req)

  abbrev pub by_mode : Mode → Replayer → Request → Result (ReplayErr X) Message × Replayer
  by_mode strict p req = generate_strict p req
  by_mode lenient p req = generate_lenient p req

  -- `Provider.Generate`.
  unfoldable pub generate_replay : Replayer → Request → Result (ReplayErr X) Message × Replayer
  unfolding generate_strict generate_lenient
  generate_replay p req = by_mode p.mode p req
