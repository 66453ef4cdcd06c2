-- ===== src/Agent/PlanExecute/Prompts.antt =====
-- The texts of pkg/agent/planexecute.go. `decimal` is fmt's `%d`.
use Prim.Native.String.{◌++◌}
use galdor.Prelude.{ℕ, ◌+◌, String, List, [], ◌∷◌}

-- One executed step.
pub record StepRecord : Type 0 where
  pub step : String
  pub result : String

-- `defaultPlannerPrompt`.
abbrev pub default_planner_prompt : String
default_planner_prompt =
    "You are a planning agent. Given a user request, produce a short, ordered plan of concrete steps that, executed in order, will answer the request.\n\nOutput ONLY a JSON array of strings. No prose, no markdown, no code fences.\nEach string is one step. Keep the plan short (1-5 steps). Do not number the steps; the array order is the order.\n\nExample output: [\"look up the population of Quito\", \"compute the answer\"]"

-- `defaultReplannerPrompt`.
abbrev pub default_replanner_prompt : String
default_replanner_prompt =
    "You are a replanning agent. You will be shown the original user request, the steps already executed (each with its observed result), and the remaining plan. Decide one of:\n\n1. Continue: the remaining plan is still correct. Repeat it back as-is.\n2. Revise: replace the remaining plan with a different list of steps.\n3. Finish: there is enough information to answer; produce the final answer.\n\nOutput ONLY a JSON object of the form:\n  {\"plan\": [\"next step\", \"...\"], \"final\": \"\"}\nIf \"final\" is a non-empty string, the loop terminates and returns that text as the answer; \"plan\" is ignored.\nIf \"final\" is empty, the loop continues with \"plan\" as the new remaining steps. If \"plan\" is also empty, the loop terminates with no answer.\nNo prose, no markdown, no code fences."

-- The system prompt of the executor.
abbrev pub step_prompt : String
step_prompt =
    "You are executing one step of a larger plan. Use tools if helpful. Respond with the result of THIS step only; do not announce the next step."

module _ (decimal : ℕ → String) where
  -- The executed steps, numbered from `i + 1` on.
  unfoldable pub past_lines : ℕ → List StepRecord → String
  past_lines i [] = ""
  past_lines i (r ∷ rs) =
      "  "
      ++ decimal (i + 1)
      ++ ". "
      ++ r.step
      ++ " -> "
      ++ r.result
      ++ "\n"
      ++ past_lines (i + 1) rs

  unfoldable pub plan_lines : ℕ → List String → String
  plan_lines i [] = ""
  plan_lines i (step ∷ steps) =
      "  " ++ decimal (i + 1) ++ ". " ++ step ++ "\n" ++ plan_lines (i + 1) steps

  abbrev pub completed : List StepRecord → String
  completed [] = ""
  completed (r ∷ rs) = "\n\nSteps already completed:\n" ++ past_lines 0 (r ∷ rs)

  -- The input of the executor for a step.
  unfoldable pub step_input : String → List StepRecord → String → String
  unfolding past_lines
  step_input input past step =
      "Original request: " ++ input ++ completed past ++ "\nCurrent step to execute: " ++ step

  abbrev pub past_text : List StepRecord → String
  past_text [] = "  (none)\n"
  past_text (r ∷ rs) = past_lines 0 (r ∷ rs)

  abbrev pub plan_text : List String → String
  plan_text [] = "  (none)\n"
  plan_text (step ∷ steps) = plan_lines 0 (step ∷ steps)

  -- `buildReplannerPayload`.
  unfoldable pub build_replanner_payload : String → List StepRecord → List String → String
  unfolding past_lines plan_lines
  build_replanner_payload input past plan =
      "Original request:\n"
      ++ input
      ++ "\n\nSteps already completed:\n"
      ++ past_text past
      ++ "\nRemaining plan:\n"
      ++ plan_text plan
