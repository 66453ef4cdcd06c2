-- ===== src/Agent/PlanExecute.antt =====
-- pkg/agent/planexecute.go: an agent that plans, executes each step with a ReAct agent and plans again.
-- `X` holds the errors and panic values of providers, guards and tools.
pub mod Prompts
pub mod Nodes
pub mod Build
pub mod Turns
pub mod Setup
pub mod Ends
pub mod Answer
mod Tests
use galdor.Tool.{Registry}
use galdor.Guardrail.{Guard, GuardErr, check_guards}
use galdor.Schema.{user_message, Message, assistant, system_message, text, text_message, user}
use galdor.Provider.{Provider, Reply, Request, crashed, refused, replied, unset}
use galdor.Prelude.{
  List, Option, Result, String, [], err, false, if◌then◌else◌, is_empty, is_some, leb, none, not,
  ok, pos, some, ℕ, ℤ, ◌&&◌, ◌++◌, ◌+◌, ◌==◌, ◌||◌, ◌∷◌,
}
use mathlib.Core.Option
use galdor.Fences.{json_body}
use galdor.Graph.Core.{
  start_node, end_node, NodeFunc, Outcome, returned, failed, panicked, Router, routed, RunErr, Env,
}
use galdor.Graph.Builder.{Problem}
use galdor.Graph.Run.{positive_or}
use galdor.Agent.{AgentErr, Config, Services}
use galdor.Agent.Once.{OnceErr, run}
use galdor.Agent.PlanExecute.Prompts.{
  StepRecord, default_planner_prompt, default_replanner_prompt, step_prompt, step_input,
  build_replanner_payload,
}

pub record PlanExecuteState : Type 0 where
  pub input : String
  pub plan : List String
  pub past : List StepRecord
  pub final : String
  pub iter : ℕ

pub record PlanExecuteConfig (Ctx W X : Type 0) : Type 0 where
  pub provider : Option (Provider Ctx W X)
  pub planner_provider : Option (Provider Ctx W X)
  pub executor_provider : Option (Provider Ctx W X)
  pub replanner_provider : Option (Provider Ctx W X)
  pub model : String
  pub planner_model : String
  pub executor_model : String
  pub replanner_model : String
  pub tools : Option (Registry Ctx W X)
  pub max_iterations : ℤ
  pub max_step_iterations : ℤ
  pub planner_prompt : String
  pub replanner_prompt : String
  pub input_guards : List (Option (Guard Ctx W X))
  pub output_guards : List (Option (Guard Ctx W X))

-- What the ReAct agent takes from elsewhere and its runtime, fmt's `%d`, and `json.Unmarshal` into a
-- list of texts and into the replanner's object.
pub record PlanServices (Ctx W X : Type 0) : Type 0 where
  pub agent : Services Ctx W X
  pub agent_env : Env Ctx W (AgentErr X)
  pub decimal : ℕ → String
  pub decode_plan : String → Option (List String)
  pub decode_replan : String → Option (List String × String)

pub data OutputErr : Type 0 where
  empty_response not_json : OutputErr

-- The errors of the nodes. `unfinished` is an executor without a result, which does not occur.
pub data PlanErr (X : Type 0) : Type 0 where
  empty_input empty_plan : PlanErr X
  guard_failed : GuardErr X → PlanErr X
  planner_failed replanner_failed : X → PlanErr X
  planner_output replanner_output : OutputErr → PlanErr X
  step_failed : String → OnceErr X → PlanErr X
  raised : X → PlanErr X
  nil_provider unfinished : PlanErr X

pub data PlanConfigErr : Type 0 where
  provider_required model_required : PlanConfigErr

pub data PlanNewErr : Type 0 where
  bad_config : PlanConfigErr → PlanNewErr
  no_graph : List Problem → PlanNewErr

-- The errors of `RunPlanAndExecute`.
pub data PlanOnceErr (X : Type 0) : Type 0 where
  no_runnable : PlanNewErr → PlanOnceErr X
  run_failed : RunErr (PlanErr X) → PlanOnceErr X

abbrev pub run_failed_if : {X : Type 0} → Option (RunErr (PlanErr X)) → Option (PlanOnceErr X)
run_failed_if none = none
run_failed_if (some e) = some (run_failed e)

abbrev pub text_or : String → String → String
text_or s default = if s == "" then default else s

abbrev pub given_or : {A : Type 0} → Option A → Option A → Option A
given_or none default = default
given_or (some a) default = some a

module _ {Ctx W X : Type 0} (cfg : PlanExecuteConfig Ctx W X) where
  -- `validate_config`.
  unfoldable pub validate_config : Option PlanConfigErr
  validate_config =
      if not (is_some cfg.provider)
        && (not (is_some cfg.planner_provider)
            || (not (is_some cfg.executor_provider) || not (is_some cfg.replanner_provider)))
      then some provider_required
      else if cfg.model == ""
          && (cfg.planner_model == "" || (cfg.executor_model == "" || cfg.replanner_model == ""))
      then some model_required
      else none

  -- `plannerProvider` and its like.
  abbrev pub provider_of_planner : Option (Provider Ctx W X)
  provider_of_planner = given_or cfg.planner_provider cfg.provider

  abbrev pub provider_of_executor : Option (Provider Ctx W X)
  provider_of_executor = given_or cfg.executor_provider cfg.provider

  abbrev pub provider_of_replanner : Option (Provider Ctx W X)
  provider_of_replanner = given_or cfg.replanner_provider cfg.provider

  abbrev pub model_of_planner : String
  model_of_planner = text_or cfg.planner_model cfg.model

  abbrev pub model_of_executor : String
  model_of_executor = text_or cfg.executor_model cfg.model

  abbrev pub model_of_replanner : String
  model_of_replanner = text_or cfg.replanner_model cfg.model

  abbrev pub max_iter_of : ℕ
  max_iter_of = positive_or cfg.max_iterations 8

  abbrev pub max_step_of : ℕ
  max_step_of = positive_or cfg.max_step_iterations 6

  -- The configuration of the executor.
  abbrev pub executor_config : Config Ctx W X
  executor_config = record {
    provider = provider_of_executor;
    tools = cfg.tools;
    model = model_of_executor;
    max_iterations = pos max_step_of;
    force_tool_use = false;
    input_guards = [];
    output_guards = cfg.output_guards;
  }

abbrev pub plain_request : String → String → String → Request
plain_request model prompt request = record {
  model = model;
  messages = system_message prompt ∷ user_message request ∷ [];
  tools = [];
  tool_choice = unset;
}

abbrev pub decoded : {A : Type 0} → Option A → Result OutputErr A
decoded none = err not_json
decoded (some a) = ok a

unfoldable pub plan_route : ℕ → PlanExecuteState → String
plan_route max_iter s =
    if not (s.final == "")
    then end_node
    else if leb max_iter s.iter
    then end_node
    else if is_empty s.plan
    then end_node
    else "execute"

abbrev pub plan_router : {X : Type 0} → ℕ → Router PlanExecuteState (PlanErr X)
plan_router max_iter s = routed (plan_route max_iter s)
