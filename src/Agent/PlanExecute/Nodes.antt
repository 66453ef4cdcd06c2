-- ===== src/Agent/PlanExecute/Nodes.antt =====
-- The nodes of the plan-execute agent of pkg/agent/planexecute.go.
use galdor.Guardrail.{GuardErr, check_guards}
use galdor.Provider.{Provider, Reply, crashed, refused, replied}
use galdor.Agent.PlanExecute.{
  model_of_planner, model_of_replanner, OutputErr, PlanErr, PlanExecuteConfig, PlanExecuteState,
  PlanServices, decoded, empty_input, empty_plan, empty_response, executor_config, guard_failed,
  nil_provider, plain_request, planner_failed, planner_output, provider_of_planner,
  provider_of_replanner, raised, replanner_failed, replanner_output, step_failed, text_or,
  unfinished,
}
use galdor.Prelude.{
  List, Option, Result, String, [], err, if◌then◌else◌, none, ok, some, ◌++◌, ◌+◌, ◌==◌, ◌∷◌,
}
use galdor.Fences.{json_body}
use galdor.Schema.{Message, assistant, text, text_message, user_message}
use galdor.Graph.Core.{NodeFunc, Outcome, returned, failed, panicked}
use galdor.Agent.Once.{OnceErr, run}
use galdor.Agent.PlanExecute.Prompts.{
  default_planner_prompt, default_replanner_prompt, step_prompt, step_input,
  build_replanner_payload,
}

module _ {Ctx W X : Type 0} (sv : PlanServices Ctx W X) where
  -- `parsePlan`.
  unfoldable pub parse_plan : String → Result OutputErr (List String)
  parse_plan raw =
      let body = json_body b'[' b']' raw in
      if body == "" then err empty_response else decoded (sv.decode_plan body)

  -- `parseReplan`.
  unfoldable pub parse_replan : String → Result OutputErr (List String × String)
  parse_replan raw =
      let body = json_body b'{' b'}' raw in
      if body == "" then err empty_response else decoded (sv.decode_replan body)

  module _ (cfg : PlanExecuteConfig Ctx W X) where
    abbrev pub PlanBody : Type 0
    PlanBody = Outcome (PlanErr X) PlanExecuteState × W

    abbrev pub after_plan :
        PlanExecuteState → Result OutputErr (List String) → Outcome (PlanErr X) PlanExecuteState
    after_plan s (err e) = failed s (planner_output e)
    after_plan s (ok plan) = returned (record s { plan = plan })

    abbrev pub after_planner : PlanExecuteState → Reply X Message × W → PlanBody
    after_planner s (refused x, w) = (failed s (planner_failed x), w)
    after_planner s (crashed x, w) = (panicked (raised x), w)
    after_planner s (replied m, w) = (after_plan s (parse_plan (text m)), w)

    abbrev pub ask_planner : Option (Provider Ctx W X) → Ctx → PlanExecuteState → W → PlanBody
    ask_planner none ctx s w = (panicked nil_provider, w)
    ask_planner (some p) ctx s w = after_planner s (
        p.generate ctx
          (plain_request (model_of_planner cfg) (text_or cfg.planner_prompt default_planner_prompt)
            s.input)
          w)

    abbrev pub after_input_guards : Ctx → PlanExecuteState → Option (GuardErr X) × W → PlanBody
    after_input_guards ctx s (some e, w) = (failed s (guard_failed e), w)
    after_input_guards ctx s (none, w) = ask_planner (provider_of_planner cfg) ctx s w

    unfoldable pub plan_node : NodeFunc PlanExecuteState Ctx W (PlanErr X)
    unfolding parse_plan
    plan_node ctx s w =
        if s.input == ""
        then (failed s empty_input, w)
        else after_input_guards ctx s
            (check_guards sv.agent.is_eval_failed cfg.input_guards ctx (user_message s.input) w)

    abbrev pub after_step :
        String → PlanExecuteState → Option ((String × Option (OnceErr X)) × W) → W → PlanBody
    after_step step s none w = (failed s unfinished, w)
    after_step step s (some ((out, some e), w')) w = (failed s (step_failed step e), w')
    after_step step s (some ((out, none), w')) w =
        (returned (record s { past = s.past ++ record { step = step; result = out } ∷ [] }), w')

    -- The executor on the first step of a plan, with the rest in the state.
    abbrev pub execute_step : List String → NodeFunc PlanExecuteState Ctx W (PlanErr X)
    execute_step [] ctx s w = (failed s empty_plan, w)
    execute_step (step ∷ steps) ctx s w =
        after_step step (record s { plan = steps })
          (run sv.agent (executor_config cfg) sv.agent_env ctx
            (step_input sv.decimal s.input s.past step) (step_prompt ∷ []) w)
          w

    unfoldable pub execute_node : NodeFunc PlanExecuteState Ctx W (PlanErr X)
    execute_node ctx s w = execute_step s.plan ctx s w

    abbrev pub after_output_guards : String → PlanExecuteState → Option (GuardErr X) × W → PlanBody
    after_output_guards final s (some e, w) = (failed s (guard_failed e), w)
    after_output_guards final s (none, w) = (returned (record s { final = final; plan = [] }), w)

    abbrev pub after_replan :
        Ctx → PlanExecuteState → W → Result OutputErr (List String × String) → PlanBody
    after_replan ctx s w (err e) = (failed s (replanner_output e), w)
    after_replan ctx s w (ok (plan, final)) =
        if final == ""
        then (returned (record s { plan = plan }), w)
        else after_output_guards final s (
            check_guards sv.agent.is_eval_failed cfg.output_guards ctx
              (text_message assistant final) w)

    abbrev pub after_replanner : Ctx → PlanExecuteState → Reply X Message × W → PlanBody
    after_replanner ctx s (refused x, w) = (failed s (replanner_failed x), w)
    after_replanner ctx s (crashed x, w) = (panicked (raised x), w)
    after_replanner ctx s (replied m, w) = after_replan ctx s w (parse_replan (text m))

    abbrev pub ask_replanner : Option (Provider Ctx W X) → Ctx → PlanExecuteState → W → PlanBody
    ask_replanner none ctx s w = (panicked nil_provider, w)
    ask_replanner (some p) ctx s w = after_replanner ctx s (
        p.generate ctx
          (plain_request (model_of_replanner cfg)
            (text_or cfg.replanner_prompt default_replanner_prompt)
            (build_replanner_payload sv.decimal s.input s.past s.plan))
          w)

    unfoldable pub replan_node : NodeFunc PlanExecuteState Ctx W (PlanErr X)
    unfolding parse_replan
    replan_node ctx s w =
        ask_replanner (provider_of_replanner cfg) ctx (record s { iter = s.iter + 1 }) w
