-- ===== src/Agent/PlanExecute/Tests.antt =====
-- A plan-execute agent of pkg/agent/planexecute.go with a plan of one step.
use galdor.Schema.{assistant, text_message}
use galdor.Provider.{Provider, replied}
use galdor.Agent.PlanExecute.Build.{Planner, new_plan_and_execute, plan_calls, requested}
use galdor.Agent.PlanExecute.Nodes.{execute_node, plan_node, replan_node}
use galdor.Agent.PlanExecute.{
  PlanErr, PlanExecuteConfig, PlanExecuteState, PlanServices, plan_router, validate_config,
}
use galdor.Prelude.{
  wrap_int, arith, [], contains, false, has, if◌then◌else◌, insert, leb, lookup, none, ok, pos,
  refl, remove, some, suc, true, ℕ, ◌∷◌, ◌≡◌,
}
use galdor.Graph.Core.{Env, start_node}
use galdor.Graph.Builder.{build, new, add_node, add_edge, add_conditional_edge}
use galdor.Graph.Compile.{
  compile, report_each, entry_problems, static_problems, conditional_problems, branch_problems,
  branch_map_problems, node_problems, entry_target_problems, gate_problems, problems,
}
use galdor.Graph.Run.{Final, invoke_with, no_options}
use galdor.Agent.{AgentErr}
use galdor.Agent.PlanExecute.Answer.{EndsPlanned, plan_and_execute-ends-well}

abbrev replies : Provider Unit ℕ Unit
replies = record {
  name = "p";
  tool_calling = true;
  generate = λ ctx q w.
      (replied (text_message assistant (if leb w 0 then "[1]" else "{\"final\": 1}")), suc w);
}

abbrev agent_env : Env Unit ℕ (AgentErr Unit)
agent_env = record {
  ctx_err = λ ctx w. (none, w);
  is_deadline_exceeded = λ x. true;
  wrapped_panic = λ x. none;
  with_timeout = λ limit ctx w. (ctx, w);
  cancel = λ ctx w. w;
  now = λ w. (0, w);
}

abbrev env : Env Unit ℕ (PlanErr Unit)
env = record {
  ctx_err = λ ctx w. (none, w);
  is_deadline_exceeded = λ x. true;
  wrapped_panic = λ x. none;
  with_timeout = λ limit ctx w. (ctx, w);
  cancel = λ ctx w. w;
  now = λ w. (0, w);
}

abbrev services : PlanServices Unit ℕ Unit
services = record {
  agent = record {
    ctx_err = λ ctx w. (none, w);
    is_eval_failed = λ x. false;
    messages_digest = λ ms. "digest";
    error_text = λ e. "error";
  };
  agent_env = agent_env;
  decimal = λ n. "1";
  decode_plan = λ s. some ("look it up" ∷ []);
  decode_replan = λ s. some ([], "42");
}

abbrev config : PlanExecuteConfig Unit ℕ Unit
config = record {
  provider = some replies;
  planner_provider = none;
  executor_provider = none;
  replanner_provider = none;
  model = "m";
  planner_model = "";
  executor_model = "";
  replanner_model = "";
  tools = none;
  max_iterations = pos 0;
  max_step_iterations = pos 0;
  planner_prompt = "";
  replanner_prompt = "";
  input_guards = [];
  output_guards = [];
}

abbrev planner : Planner Unit ℕ Unit
planner = record {
  nodes =
      ("replan", replan_node services config)
      ∷ ("execute", execute_node services config)
      ∷ ("plan", plan_node services config)
      ∷ [];
  static_edges = ("execute", "replan") ∷ ("plan", "execute") ∷ (start_node, "plan") ∷ [];
  conditional_edges = ("replan", plan_router 8) ∷ [];
  branch_maps = [];
  interrupt_before = [];
  entry = "plan";
  max_steps = pos 38;
}

made : new_plan_and_execute services config ≡ ok planner
unfolding wrap_int new_plan_and_execute validate_config plan_calls compile problems report_each
    entry_problems static_problems conditional_problems branch_problems branch_map_problems
    node_problems entry_target_problems gate_problems lookup has insert remove contains build new
    add_node add_edge add_conditional_edge
made = refl

plan_and_execute-ends-well_example :
    (f : Final PlanExecuteState (PlanErr Unit)) × (w' : ℕ) × (invoke_with env planner no_options tt
        (requested "what?")
        0
      ≡ some (f, w'))
    × EndsPlanned 8 f.state f.error
plan_and_execute-ends-well_example =
    plan_and_execute-ends-well services config env no_options planner tt (requested "what?") 0
      (omega arith) made refl refl refl refl
