-- ===== src/Agent/PlanExecute/Turns.antt =====
-- What the nodes of the plan-execute agent of pkg/agent/planexecute.go return, and how they fail.
use galdor.Guardrail.{GuardErr, check_guards}
use galdor.Provider.{Provider, Reply, crashed, refused, replied}
use galdor.Agent.PlanExecute.Nodes.{
  after_input_guards, after_output_guards, after_plan, after_planner, after_replan, after_replanner,
  after_step, ask_planner, ask_replanner, execute_node, execute_step, parse_plan, parse_replan,
  plan_node, replan_node,
}
use galdor.Agent.PlanExecute.{
  provider_required, OutputErr, PlanErr, PlanExecuteConfig, PlanExecuteState, PlanServices,
  empty_plan, executor_config, given_or, nil_provider, provider_of_executor, provider_of_planner,
  provider_of_replanner, unfinished, validate_config,
}
use galdor.Prelude.{
  passed, Bool-cases, List, Option, Result, String, [], eq_iff, err, false, inl, inr, is_some, none,
  not, ok, refl, some, subst, sym, true, ◌&&◌, ◌++◌, ◌+◌, ◌==◌, ◌||◌, ◌∷◌, ◌≡◌, ◌≢◌, ◌⊎◌,
}
use galdor.Schema.{Message, assistant, text, text_message, user_message}
use galdor.Graph.Core.{Outcome, returned, failed, panicked}
use galdor.Agent.Once.{OnceErr, run_total}
use galdor.Agent.PlanExecute.Prompts.{step_prompt, step_input}

-- The error of a node: `Empty` holds of an empty plan, and two errors do not occur.
abbrev pub IsPlanErr : {X : Type 0} → Type 0 → PlanErr X → Type 0
IsPlanErr Empty empty_plan = Empty
IsPlanErr Empty nil_provider = ⊥
IsPlanErr Empty unfinished = ⊥
IsPlanErr Empty e = Unit

-- A call that returns a state of the kind `P` or fails with such an error.
abbrev pub IsTurn :
    {X : Type 0}
    → (PlanExecuteState → Type 0)
    → Type 0
    → Outcome (PlanErr X) PlanExecuteState
    → Type 0
IsTurn P Empty (returned out) = P out
IsTurn P Empty (failed out e) = IsPlanErr Empty e
IsTurn P Empty (panicked e) = IsPlanErr Empty e

abbrev pub IsPlanned : PlanExecuteState → PlanExecuteState → Type 0
IsPlanned s out = (out.past ≡ s.past) × (out.iter ≡ s.iter) × (out.final ≡ s.final)

-- The first step of the plan is moved to the past with its result.
abbrev pub IsExecuted : PlanExecuteState → PlanExecuteState → Type 0
IsExecuted s out =
    (step : String) × (result : String) × (s.plan ≡ step ∷ out.plan)
    × (out.past ≡ s.past ++ record { step = step; result = result } ∷ [])
    × (out.iter ≡ s.iter)
    × (out.final ≡ s.final)

abbrev pub IsReplanned : PlanExecuteState → PlanExecuteState → Type 0
IsReplanned s out =
    (out.past ≡ s.past)
    × (out.iter ≡ s.iter + 1)
    × (((out.final ≢ "") × (out.plan ≡ [])) ⊎ (out.final ≡ s.final))

-- The configuration is accepted, so each role has a provider.
given :
    {A : Type 0} (a b c d : Option A)
    → (not (is_some d) && (not (is_some a) || (not (is_some b) || not (is_some c)))) ≡ false
    → (is_some (given_or a d) ≡ true)
      × (is_some (given_or b d) ≡ true)
      × (is_some (given_or c d) ≡ true)
given a b c (some p) h = (some_or a, some_or b, some_or c)
  where
    some_or : (o : Option _) → is_some (given_or o (some p)) ≡ true
    some_or none = refl
    some_or (some q) = refl
given none b c none h = cc h
given (some p) none c none h = cc h
given (some p) (some q) none none h = cc h
given (some p) (some q) (some v) none h = (refl, refl, refl)

module _ {Ctx W X : Type 0} (cfg : PlanExecuteConfig Ctx W X) where
  abbrev pub HasProviders : Type 0
  HasProviders =
      (is_some (provider_of_planner cfg) ≡ true)
      × (is_some (provider_of_executor cfg) ≡ true)
      × (is_some (provider_of_replanner cfg) ≡ true)

  pub validate_config-HasProviders : validate_config cfg ≡ none → HasProviders
  unfolding validate_config
  validate_config-HasProviders h =
      given cfg.planner_provider cfg.executor_provider cfg.replanner_provider cfg.provider
        (passed _ provider_required _ h).0

module _ {Ctx W X : Type 0} (sv : PlanServices Ctx W X) (cfg : PlanExecuteConfig Ctx W X) where
  pub plan_node-IsTurn :
      (ctx : Ctx) (s : PlanExecuteState) (w : W)
      → is_some (provider_of_planner cfg) ≡ true
      → IsTurn (IsPlanned s) ⊥ (plan_node sv cfg ctx s w).0
  unfolding plan_node
  plan_node-IsTurn ctx s w some_provider = elim (Bool-cases (s.input == "")) [
    | inl e ↦ rw e tt
    | inr e ↦ rw e (
        guarded
          (check_guards sv.agent.is_eval_failed cfg.input_guards ctx (user_message s.input) w))
  ]
    where
      planned :
          (p : Result OutputErr (List String))
          → IsTurn {X = X} (IsPlanned s) ⊥ (after_plan sv cfg s p)
      planned (err e) = tt
      planned (ok plan) = (refl, refl, refl)

      answered : (o : Reply X Message × W) → IsTurn (IsPlanned s) ⊥ (after_planner sv cfg s o).0
      answered (refused x, v) = tt
      answered (crashed x, v) = tt
      answered (replied m, v) = planned (parse_plan sv (text m))

      asked :
          (p : Option (Provider Ctx W X)) (v : W)
          → is_some p ≡ true
          → IsTurn (IsPlanned s) ⊥ (ask_planner sv cfg p ctx s v).0
      asked none v h = cc h
      asked (some p) v h = answered (p.generate ctx _ v)

      guarded :
          (o : Option (GuardErr X) × W)
          → IsTurn (IsPlanned s) ⊥ (after_input_guards sv cfg ctx s o).0
      guarded (some e, v) = tt
      guarded (none, v) = asked (provider_of_planner cfg) v some_provider

  pub execute_node-IsTurn :
      (ctx : Ctx) (s : PlanExecuteState) (w : W)
      → IsTurn (IsExecuted s) (s.plan ≡ []) (execute_node sv cfg ctx s w).0
  unfolding execute_node
  execute_node-IsTurn ctx s w = on_plan s.plan refl
    where
      stepped :
          (step : String) (steps : List String) (a : String × Option (OnceErr X)) (v : W)
          → s.plan ≡ step ∷ steps
          → IsTurn
              (IsExecuted s)
              (s.plan ≡ [])
              (after_step sv cfg step (record s { plan = steps }) (some (a, v)) w).0
      stepped step steps (out, some e) v h = tt
      stepped step steps (out, none) v h = (step, out, h, refl, refl, refl)

      on_plan :
          (plan : List String)
          → s.plan ≡ plan
          → IsTurn (IsExecuted s) (s.plan ≡ []) (execute_step sv cfg plan ctx s w).0
      on_plan [] h = h
      on_plan (step ∷ steps) h =
          let (a, v, ran) =
            run_total sv.agent (executor_config cfg) sv.agent_env ctx
              (step_input sv.decimal s.input s.past step) (step_prompt ∷ []) w in
          subst
            (λ o.
              IsTurn (IsExecuted s) (s.plan ≡ [])
                (after_step sv cfg step (record s { plan = steps }) o w).0)
            (sym ran) (stepped step steps a v h)

  pub replan_node-IsTurn :
      (ctx : Ctx) (s : PlanExecuteState) (w : W)
      → is_some (provider_of_replanner cfg) ≡ true
      → IsTurn (IsReplanned s) ⊥ (replan_node sv cfg ctx s w).0
  unfolding replan_node
  replan_node-IsTurn ctx s w some_provider = asked (provider_of_replanner cfg) some_provider
    where
      counted : PlanExecuteState
      counted = record s { iter = s.iter + 1 }

      guarded :
          (final : String) (o : Option (GuardErr X) × W)
          → final ≢ ""
          → IsTurn (IsReplanned s) ⊥ (after_output_guards sv cfg final counted o).0
      guarded final (some e, v) said = tt
      guarded final (none, v) said = (refl, refl, inl (said, refl))

      planned :
          (v : W) (p : Result OutputErr (List String × String))
          → IsTurn (IsReplanned s) ⊥ (after_replan sv cfg ctx counted v p).0
      planned v (err e) = tt
      planned v (ok (plan, final)) = elim (Bool-cases (final == "")) [
        | inl e ↦ rw e (refl, refl, inr refl)
        | inr e ↦ rw e (
            guarded final
              (check_guards sv.agent.is_eval_failed cfg.output_guards ctx
                (text_message assistant final) v)
              (λ same. cc (e, (eq_iff final "").1 same)))
      ]

      answered :
          (o : Reply X Message × W)
          → IsTurn (IsReplanned s) ⊥ (after_replanner sv cfg ctx counted o).0
      answered (refused x, v) = tt
      answered (crashed x, v) = tt
      answered (replied m, v) = planned v (parse_replan sv (text m))

      asked :
          (p : Option (Provider Ctx W X))
          → is_some p ≡ true
          → IsTurn (IsReplanned s) ⊥ (ask_replanner sv cfg p ctx counted w).0
      asked none h = cc h
      asked (some p) h = answered (p.generate ctx _ w)
