-- ===== src/Replay/Tests.antt =====
-- A recorded run of two calls for pkg/replay/replay.go.
use galdor.Replay.Lenient.{generate_replay-in-order, in_order, matching, moved}
use galdor.Schema.{assistant, text_message}
use galdor.Provider.{unset, Request}
use galdor.Replay.Strict.{answers_of, replay_all, replay_all-answers}
use galdor.Replay.{
  cursor_or_zero, remaining, RecordedCall, generate_lenient, generate_replay, generate_strict,
  lenient, new_provider, nil_response, prompt_mismatch, queue_calls, request_of, strict,
}
use galdor.Prelude.{
  length, lookup, insert, ℕ, String, List, [], ◌∷◌, none, some, Result, ok, err, ◌≡◌, refl,
}

-- The model stands for the fingerprint.
abbrev by_model : Request → Result ℕ String
by_model r = ok r.model

abbrev answered : RecordedCall
answered = record {
  model = "small";
  prompt = [];
  tools = [];
  tool_choice = unset;
  response = some (text_message assistant "yes");
}

abbrev unanswered : RecordedCall
unanswered = record {
  model = "large";
  prompt = [];
  tools = [];
  tool_choice = unset;
  response = none;
}

abbrev recorded : List RecordedCall
recorded = answered ∷ unanswered ∷ []

replay_all-answers_example :
    let (answers, last) = replay_all by_model (new_provider by_model recorded strict) recorded in
    (answers ≡ answers_of recorded) × (remaining last ≡ 0)
replay_all-answers_example =
    replay_all-answers by_model recorded (("small", refl), (("large", refl), tt))

generate_replay-in-order_example :
    let p = record (new_provider by_model recorded lenient) { cursors = [] } in
    let (answer, q) = generate_replay by_model p (request_of unanswered) in
    let k = cursor_or_zero (lookup "large" []) in
    (answer ≡ in_order "large" (matching by_model "large" recorded) k)
    × (cursor_or_zero (lookup "large" q.cursors)
        ≡ moved (length (matching by_model "large" recorded)) k)
generate_replay-in-order_example =
    generate_replay-in-order by_model "large" recorded [] (request_of unanswered) refl

-- Out of order, a lenient replay finds its call and a strict one does not.
lenient-finds :
    (generate_replay by_model (new_provider by_model recorded lenient) (request_of unanswered)).0
    ≡ err nil_response
unfolding generate_replay new_provider generate_lenient queue_calls lookup insert
lenient-finds = refl

strict-refuses :
    (generate_replay by_model (new_provider by_model recorded strict) (request_of unanswered)).0
    ≡ err (prompt_mismatch 1 "small" "large")
unfolding generate_replay new_provider generate_strict
strict-refuses = refl
