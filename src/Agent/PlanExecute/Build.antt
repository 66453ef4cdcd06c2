-- ===== src/Agent/PlanExecute/Build.antt =====
-- `NewPlanAndExecute` and `RunPlanAndExecute` of pkg/agent/planexecute.go.
use galdor.Agent.PlanExecute.Nodes.{execute_node, plan_node, replan_node}
use galdor.Agent.PlanExecute.{
  PlanConfigErr, PlanErr, PlanExecuteConfig, PlanExecuteState, PlanNewErr, PlanOnceErr,
  PlanServices, bad_config, max_iter_of, no_graph, no_runnable, plan_router, run_failed_if,
  validate_config,
}
use galdor.Prelude.{
  wrap_int, List, Option, Result, String, [], err, none, ok, some, ℕ, ◌*◌, ◌+◌, ◌∷◌,
}
use mathlib.Core.Option
use galdor.Graph.Core.{start_node, NodeFunc, Router, Runnable, Env}
use galdor.Graph.Builder.{Call, call_add_node, call_add_edge, call_add_conditional_edge, build, new}
use galdor.Graph.Compile.{compile, Compiled, compiled, rejected}
use galdor.Graph.Run.{Final, invoke_with, no_options}

abbrev pub PlanCall : (Ctx W X : Type 0) → Type 0
PlanCall Ctx W X =
    Call (NodeFunc PlanExecuteState Ctx W (PlanErr X)) (Router PlanExecuteState (PlanErr X))

abbrev pub Planner : (Ctx W X : Type 0) → Type 0
Planner Ctx W X =
    Runnable (NodeFunc PlanExecuteState Ctx W (PlanErr X)) (Router PlanExecuteState (PlanErr X))

-- The state that a request starts from.
abbrev pub requested : String → PlanExecuteState
requested input = record { input = input; plan = []; past = []; final = ""; iter = 0 }

-- The result of a run that ended.
abbrev pub plan_answer :
    {W X : Type 0} → Final PlanExecuteState (PlanErr X) × W → (String × Option (PlanOnceErr X)) × W
plan_answer (f, w) = ((f.state.final, run_failed_if f.error), w)

module _ {Ctx W X : Type 0} where
  abbrev pub with_limit :
      ℕ
      → Compiled (NodeFunc PlanExecuteState Ctx W (PlanErr X)) (Router PlanExecuteState (PlanErr X))
      → Result PlanNewErr (Planner Ctx W X)
  with_limit max_iter (rejected ps) = err (no_graph ps)
  with_limit max_iter (compiled r) = ok (record r { max_steps = wrap_int (max_iter * 4 + 6) })

  abbrev pub run_planner :
      Env Ctx W (PlanErr X)
      → Ctx
      → String
      → W
      → Result PlanNewErr (Planner Ctx W X)
      → Option ((String × Option (PlanOnceErr X)) × W)
  run_planner env ctx input w (err e) = some (("", some (no_runnable e)), w)
  run_planner env ctx input w (ok r) =
      Option.map plan_answer (invoke_with env r no_options ctx (requested input) w)

module _ {Ctx W X : Type 0} (sv : PlanServices Ctx W X) (cfg : PlanExecuteConfig Ctx W X) where
  -- The chain of builder calls.
  unfoldable pub plan_calls : List (PlanCall Ctx W X)
  plan_calls =
      call_add_node "plan" (some (plan_node sv cfg))
      ∷ call_add_node "execute" (some (execute_node sv cfg))
      ∷ call_add_node "replan" (some (replan_node sv cfg))
      ∷ call_add_edge start_node "plan"
      ∷ call_add_edge "plan" "execute"
      ∷ call_add_edge "execute" "replan"
      ∷ call_add_conditional_edge "replan" (some (plan_router (max_iter_of cfg)))
      ∷ []

  abbrev pub build_planner : Option PlanConfigErr → Result PlanNewErr (Planner Ctx W X)
  build_planner (some e) = err (bad_config e)
  build_planner none = with_limit (max_iter_of cfg) (compile (build plan_calls new))

  unfoldable pub new_plan_and_execute : Result PlanNewErr (Planner Ctx W X)
  unfolding plan_calls
  new_plan_and_execute = build_planner (validate_config cfg)

  -- `RunPlanAndExecute`.
  unfoldable pub run_plan_and_execute :
      Env Ctx W (PlanErr X) → Ctx → String → W → Option ((String × Option (PlanOnceErr X)) × W)
  unfolding new_plan_and_execute
  run_plan_and_execute env ctx input w = run_planner env ctx input w new_plan_and_execute
