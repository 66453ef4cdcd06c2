-- ===== src/Agent/Once.antt =====
-- `Run` of pkg/agent/react.go.
use mathlib.Core.Option
use galdor.Prelude.{
  get_last?, ◌≤◌, ◌⊎◌, FitsInt, ◌*◌, ◌+◌, ℕ, String, true, false, Option, none, some, List, [], ◌∷◌,
  ◌++◌, Result, ok, err, ◌==◌, if◌then◌else◌, ◌≡◌, refl, ap, subst, inl, inr, Bool-cases, sym,
  Result-cases, ◌∙◌,
}
use galdor.Schema.{Message, text, system_message, user_message}
use galdor.Tool.Calls.{unanswered}
use galdor.Graph.Core.{Env, RunErr, max_steps_exceeded}
use galdor.Graph.Run.{bound, Final, invoke_with, no_options}
use galdor.Graph.Run.Total.{invoke_with_total}
use galdor.Agent.{State, Config, Services, AgentErr, NewErr, new_react, has_calls}
use galdor.Agent.Shape.{Agent}
use galdor.Agent.Answer.{cap_of, AnswersAssistant, EndsWell, react-ends-well}

-- The errors of `Run`, the last one `ErrMaxIterations`.
pub data OnceErr (X : Type 0) : Type 0 where
  not_built : NewErr X → OnceErr X
  not_finished : RunErr (AgentErr X) → OnceErr X
  max_iterations_reached : OnceErr X

abbrev pub system_messages : List String → List Message
system_messages [] = []
system_messages (s ∷ ss) =
    let rest = system_messages ss in if s == "" then rest else system_message s ∷ rest

abbrev pub initial_state : String → List String → State
initial_state input system = record {
  messages = system_messages system ++ user_message input ∷ [];
  final_text = "";
  iterations = 0;
  input_guarded = 0;
  input_guarded_digest = "";
  stopped_at_iteration_cap = false;
}

-- The text and the error of a run that ended.
abbrev pub answer :
    {X : Type 0} → State → Option (RunErr (AgentErr X)) → String × Option (OnceErr X)
answer s (some e) = (s.final_text, some (not_finished e))
answer s none =
    (s.final_text, if s.stopped_at_iteration_cap then some max_iterations_reached else none)

-- The first messages of a run hold no calls.
begins :
    (system : List String) (input : String)
    → unanswered [] (initial_state input system).messages ≡ some []
unfolding unanswered
begins [] input = refl
begins (s ∷ ss) input = elim (Bool-cases (s == "")) [
  | inl e ↦ rw (e, unanswered) (begins ss input)
  | inr e ↦ rw (e, unanswered) (begins ss input)
]

module _ {Ctx W X : Type 0} (sv : Services Ctx W X) (cfg : Config Ctx W X)
    (env : Env Ctx W (AgentErr X)) where
  abbrev pub run_built :
      Ctx
      → String
      → List String
      → W
      → Result (NewErr X) (Agent sv cfg)
      → Option ((String × Option (OnceErr X)) × W)
  run_built ctx input system w (err e) = some (("", some (not_built e)), w)
  run_built ctx input system w (ok r) =
      Option.map (λ (x : Final State (AgentErr X) × W). (answer x.0.state x.0.error, x.1))
        (invoke_with env r no_options ctx (initial_state input system) w)

  unfoldable pub run : Ctx → String → List String → W → Option ((String × Option (OnceErr X)) × W)
  run ctx input system w = run_built ctx input system w (new_react sv cfg)

  -- How the answer of `Run` comes from the end of the run of the agent: without an error, or with
  -- `ErrMaxIterations`, it is the text of the last message, which asks for no tools, or does.
  abbrev pub IsAnswer : Final State (AgentErr X) → String × Option (OnceErr X) → Type 0
  IsAnswer f (t, none) =
      (f.error ≡ none)
      × (m : Message) × (get_last? f.state.messages ≡ some m)
      × (t ≡ text m)
      × (has_calls m.tool_calls ≡ false)
  IsAnswer f (t, some max_iterations_reached) =
      (f.error ≡ none)
      × (m : Message) × (get_last? f.state.messages ≡ some m)
      × (t ≡ text m)
      × (has_calls m.tool_calls ≡ true)
      × (cap_of cfg ≤ f.state.iterations)
  IsAnswer f (t, some (not_finished (max_steps_exceeded limit))) = ⊥
  IsAnswer f (t, some (not_finished e)) = (f.error ≡ some e) × (t ≡ f.state.final_text)
  IsAnswer f (t, some (not_built e)) = ⊥

  -- What `Run` answers: an error of `NewReAct`, or what the run of the agent ends with.
  abbrev pub IsRun : Ctx → String → List String → W → String × Option (OnceErr X) → W → Type 0
  IsRun ctx input system w a w' =
      ((e : NewErr X) × (new_react sv cfg ≡ err e) × (a ≡ ("", some (not_built e))))
      ⊎ ((r : Agent sv cfg) × (f : Final State (AgentErr X)) × (new_react sv cfg ≡ ok r)
          × (invoke_with env r no_options ctx (initial_state input system) w ≡ some (f, w'))
          × IsAnswer f a)

  answer-IsAnswer :
      (begun : ℕ) (f : Final State (AgentErr X)) (e : Option (RunErr (AgentErr X)))
      → f.error ≡ e
      → EndsWell (cap_of cfg) begun f.state e
      → IsAnswer f (answer f.state e)
  answer-IsAnswer begun f none same ((m, last, said, marked, why, waits), bound) =
      elim (Bool-cases (has_calls m.tool_calls)) [
        | inl c ↦
            let at_cap : cap_of cfg ≤ f.state.iterations = elim why [
              | inl free ↦ cc (free, c)
              | inr k ↦ k
            ] in
            subst
              (λ b.
                IsAnswer f (f.state.final_text, if b then some max_iterations_reached else none))
              (sym (marked ∙ c)) (same, m, last, said, c, at_cap)
        | inr c ↦
            subst
              (λ b.
                IsAnswer f (f.state.final_text, if b then some max_iterations_reached else none))
              (sym (marked ∙ c)) (same, m, last, said, c)
      ]
  answer-IsAnswer begun f (some (max_steps_exceeded l)) same h = h
  answer-IsAnswer begun f (some e) same h = (same, refl)

  -- `Run` returns.
  pub run_total :
      (ctx : Ctx) (input : String) (system : List String) (w : W)
      → (a : String × Option (OnceErr X)) × (w' : W) × (run ctx input system w ≡ some (a, w'))
  unfolding run
  run_total ctx input system w = elim (Result-cases (new_react sv cfg)) [
    | inr (e, q) ↦ (("", some (not_built e)), w, ap (run_built ctx input system w) q)
    | inl (r, q) ↦
        let ((f, w'), ran) =
          invoke_with_total env r no_options ctx (initial_state input system) w in
        (answer f.state f.error, w', ap (run_built ctx input system w) q ∙ ap (Option.map _) ran)
  ]

  -- If the provider answers with messages of the assistant and the step limit is an `int` without
  -- overflow, then `Run` returns: the error of `NewReAct`, or what the run of the agent from the input
  -- and the system messages ends with. Without an error the answer is the text of the last message of
  -- that run, which asks for no tools; with `ErrMaxIterations` it is that of the last message, which
  -- asks for tools, and the cap is reached; any other error is that of the run, never the step limit.
  pub run-IsAnswer :
      (ctx : Ctx) (input : String) (system : List String) (w : W)
      → AnswersAssistant cfg
      → FitsInt (cap_of cfg * 3 + 4)
      → (a : String × Option (OnceErr X)) × (w' : W) × (run ctx input system w ≡ some (a, w'))
        × IsRun ctx input system w a w'
  unfolding run
  run-IsAnswer ctx input system w assistant small = elim (Result-cases (new_react sv cfg)) [
    | inr (e, q) ↦
        (("", some (not_built e)), w, ap (run_built ctx input system w) q, inl (e, q, refl))
    | inl (r, q) ↦
        let (f, w', ran, well) =
          react-ends-well sv cfg env no_options r ctx (initial_state input system) w assistant small
            q refl (begins system input) refl in
        (
          answer f.state f.error,
          w',
          ap (run_built ctx input system w) q ∙ ap (Option.map _) ran,
          inr (r, f, q, ran, answer-IsAnswer 0 f f.error refl well),
        )
  ]
