-- ===== src/Agent.antt =====
-- pkg/agent/react.go: the ReAct agent, a graph of a model node and a tools node. `X` holds the errors
-- and panic values of providers, guards and tools. What the code takes from elsewhere is in
-- `Services`. A guard or a marshalling that panics is not modelled.
pub mod Shape
pub mod Nodes
pub mod Ends
pub mod Answer
pub mod Once
pub mod PlanExecute
mod Tests
use galdor.Prelude.{
  wrap_int, ℕ, suc, ◌+◌, ◌*◌, ℤ, pos, negsuc, String, Bool, true, false, not, ◌&&◌, Option, none,
  some, List, [], ◌∷◌, ◌++◌, Result, ok, err, ◌==◌, if◌then◌else◌, ltb, leb, length, take, drop,
  get_last?, is_some, min,
}
use galdor.Schema.{
  Message, ToolCall, ToolDef, text, is_user, is_assistant, system_message, user_message,
}
use galdor.Provider.{
  Provider, Request, Reply, replied, refused, crashed, ToolChoice, unset, auto, required,
}
use galdor.Guardrail.{Guard, GuardErr, check_guards}
use galdor.Tool.{Registry, ToolErr, tool_defs, execute_calls, as_tool_result_messages}
use galdor.Graph.Core.{
  start_node, end_node, NodeFunc, Outcome, returned, failed, panicked, Router, routed, Runnable,
  RunErr, RunOptions, Env, Hooks,
}
use galdor.Graph.Hooks.{no_hooks}
use galdor.Graph.Builder.{
  Graph, Problem, Call, call_add_node, call_add_edge, call_add_conditional_edge, build, new,
}
use galdor.Graph.Compile.{compile, Compiled, compiled, rejected}
use galdor.Graph.Run.{Final, invoke_with}

pub record State : Type 0 where
  pub messages : List Message
  pub final_text : String
  pub iterations : ℕ
  pub input_guarded : ℕ
  pub input_guarded_digest : String
  pub stopped_at_iteration_cap : Bool

pub record Config (Ctx W X : Type 0) : Type 0 where
  pub provider : Option (Provider Ctx W X)
  pub tools : Option (Registry Ctx W X)
  pub model : String
  pub max_iterations : ℤ
  pub force_tool_use : Bool
  pub input_guards : List (Option (Guard Ctx W X))
  pub output_guards : List (Option (Guard Ctx W X))

-- The context package, `errors.Is` at ErrEvalFailed, the digest of a conversation and the text of a
-- tool's error.
pub record Services (Ctx W X : Type 0) : Type 0 where
  pub ctx_err : Ctx → W → Option X × W
  pub is_eval_failed : X → Bool
  pub messages_digest : List Message → String
  pub error_text : ToolErr X → String

-- The errors of the two nodes, and the values of panics.
pub data AgentErr (X : Type 0) : Type 0 where
  model_failed : X → AgentErr X
  guard_failed : GuardErr X → AgentErr X
  nil_tools no_messages no_pending_calls : AgentErr X
  raised : X → AgentErr X

pub data ConfigErr : Type 0 where
  provider_required model_required no_tool_calling force_without_tools : ConfigErr
  negative_max_iterations : ConfigErr

pub data NewErr (X : Type 0) : Type 0 where
  invalid : ConfigErr → NewErr X
  tool_defs_failed : X → NewErr X
  not_compiled : List Problem → NewErr X

abbrev pub is_negative : ℤ → Bool
is_negative (pos n) = false
is_negative (negsuc n) = true

abbrev pub has_calls : List ToolCall → Bool
has_calls [] = false
has_calls (c ∷ cs) = true

abbrev pub has_defs : List ToolDef → Bool
has_defs [] = false
has_defs (d ∷ ds) = true

-- `maxIter`.
unfoldable pub iteration_cap : ℤ → ℕ
iteration_cap (pos (suc n)) = suc n
iteration_cap _ = 10

-- The state after a reply that the output guards let pass.
unfoldable pub record_reply : ℕ → Message → State → State
record_reply max_iter m s =
    let counted = record s { messages = s.messages ++ m ∷ []; iterations = s.iterations + 1 } in
    if not (has_calls m.tool_calls)
    then record counted { final_text = text m }
    else if leb max_iter (s.iterations + 1)
    then record counted { final_text = text m; stopped_at_iteration_cap = true }
    else counted

abbrev pub wants_tools : Option Message → Bool
wants_tools none = false
wants_tools (some m) = is_assistant m.role && has_calls m.tool_calls

-- The conditional edge out of the model node.
unfoldable pub react_route : ℕ → State → String
react_route max_iter s =
    if leb max_iter s.iterations
    then end_node
    else if wants_tools (get_last? s.messages)
    then "tools"
    else end_node

unfoldable pub react_router : {X : Type 0} → ℕ → Router State (AgentErr X)
unfolding react_route
react_router max_iter s = routed (react_route max_iter s)

module _ {Ctx W X : Type 0} (sv : Services Ctx W X) (cfg : Config Ctx W X) where
  -- From where on the input guards look at the messages.
  abbrev pub guarded_from : State → ℕ
  guarded_from s =
      let from = min s.input_guarded (length s.messages) in
      if not (s.input_guarded_digest == "")
        && not (s.input_guarded_digest == sv.messages_digest (take from s.messages))
      then 0
      else from

  -- The input guards on each user message.
  unfoldable pub vet : List Message → Ctx → W → Option (GuardErr X) × W
  vet [] ctx w = (none, w)
  vet (m ∷ ms) ctx w = elim (is_user m.role) [
    | false ↦ vet ms ctx w
    | true ↦
        let (e, w') = check_guards sv.is_eval_failed cfg.input_guards ctx m w in
        elim e [ none ↦ vet ms ctx w' | some x ↦ (some x, w') ]
  ]

  abbrev pub request : List ToolDef → State → Request
  request defs s = record {
    model = cfg.model;
    messages = s.messages;
    tools = defs;
    tool_choice = if has_defs defs then (if cfg.force_tool_use then required else auto) else unset;
  }

  abbrev pub after_output :
      ℕ → State → Message → Option (GuardErr X) × W → Outcome (AgentErr X) State × W
  after_output max_iter s m (none, w) = (returned (record_reply max_iter m s), w)
  after_output max_iter s m (some e, w) = (failed s (guard_failed e), w)

  abbrev pub after_generate : ℕ → Ctx → State → Reply X Message × W → Outcome (AgentErr X) State × W
  after_generate max_iter ctx s (refused x, w) = (failed s (model_failed x), w)
  after_generate max_iter ctx s (crashed x, w) = (panicked (raised x), w)
  after_generate max_iter ctx s (replied m, w) =
      after_output max_iter s m (check_guards sv.is_eval_failed cfg.output_guards ctx m w)

  abbrev pub call_model :
      Provider Ctx W X → ℕ → List ToolDef → Ctx → State → W → Outcome (AgentErr X) State × W
  call_model p max_iter defs ctx s w =
      after_generate max_iter ctx s (p.generate ctx (request defs s) w)

  abbrev pub has_guards : List (Option (Guard Ctx W X)) → Bool
  has_guards [] = false
  has_guards (g ∷ gs) = true

  -- The state with all its messages marked as vetted.
  abbrev pub mark_guarded : State → State
  mark_guarded s = record s { input_guarded = length s.messages }

  abbrev pub mark_digest : State → State
  mark_digest s = record s { input_guarded_digest = sv.messages_digest s.messages }

  abbrev pub after_vet :
      Provider Ctx W X
      → ℕ
      → List ToolDef
      → Ctx
      → State
      → Option (GuardErr X) × W
      → Outcome (AgentErr X) State × W
  after_vet p max_iter defs ctx s (some e, w) = (failed s (guard_failed e), w)
  after_vet p max_iter defs ctx s (none, w) =
      call_model p max_iter defs ctx (mark_guarded (mark_digest s)) w

  unfoldable pub model_node :
      Provider Ctx W X → ℕ → List ToolDef → NodeFunc State Ctx W (AgentErr X)
  unfolding vet record_reply
  model_node p max_iter defs ctx s w =
      if has_guards cfg.input_guards
      then after_vet p max_iter defs ctx s (vet (drop (guarded_from s) s.messages) ctx w)
      else call_model p max_iter defs ctx (mark_guarded s) w

  abbrev pub run_calls :
      Registry Ctx W X → Ctx → State → List ToolCall → W → Outcome (AgentErr X) State × W
  run_calls reg ctx s calls w =
      let (results, w') = execute_calls sv.ctx_err (some reg) ctx calls w in
      (
        returned
            (record s { messages = s.messages ++ as_tool_result_messages sv.error_text results }),
        w',
      )

  abbrev pub run_pending :
      Registry Ctx W X → Ctx → State → W → Option Message → Outcome (AgentErr X) State × W
  run_pending reg ctx s w none = (failed s no_messages, w)
  run_pending reg ctx s w (some last) =
      if is_assistant last.role && has_calls last.tool_calls
      then run_calls reg ctx s last.tool_calls w
      else (failed s no_pending_calls, w)

  unfoldable pub tools_node : NodeFunc State Ctx W (AgentErr X)
  tools_node ctx s w = elim cfg.tools [
    | none ↦ (failed s nil_tools, w)
    | some reg ↦ run_pending reg ctx s w (get_last? s.messages)
  ]

  unfoldable pub validate_with : Provider Ctx W X → Option ConfigErr
  validate_with p =
      if cfg.model == ""
      then some model_required
      else if is_some cfg.tools && not p.tool_calling
      then some no_tool_calling
      else if cfg.force_tool_use && not (is_some cfg.tools)
      then some force_without_tools
      else if is_negative cfg.max_iterations
      then some negative_max_iterations
      else none

  abbrev pub validate_of : Option (Provider Ctx W X) → Option ConfigErr
  validate_of none = some provider_required
  validate_of (some p) = validate_with p

  unfoldable pub validate : Option ConfigErr
  validate = validate_of cfg.provider

  abbrev pub model_calls :
      Provider Ctx W X
      → ℕ
      → List ToolDef
      → List (Call (NodeFunc State Ctx W (AgentErr X)) (Router State (AgentErr X)))
  model_calls p max_iter defs =
      call_add_node "model" (some (model_node p max_iter defs))
      ∷ call_add_edge start_node "model"
      ∷ call_add_conditional_edge "model" (some (react_router max_iter))
      ∷ []

  abbrev pub tools_calls :
      List (Call (NodeFunc State Ctx W (AgentErr X)) (Router State (AgentErr X)))
  tools_calls = call_add_node "tools" (some tools_node) ∷ call_add_edge "tools" "model" ∷ []

  -- The chain of builder calls, of an agent with tools or without.
  unfoldable pub react_calls :
      Bool
      → Provider Ctx W X
      → ℕ
      → List ToolDef
      → List (Call (NodeFunc State Ctx W (AgentErr X)) (Router State (AgentErr X)))
  react_calls true p max_iter defs = model_calls p max_iter defs ++ tools_calls
  react_calls false p max_iter defs = model_calls p max_iter defs

  abbrev pub with_steps :
      ℕ
      → Compiled (NodeFunc State Ctx W (AgentErr X)) (Router State (AgentErr X))
      → Result (NewErr X) (Runnable (NodeFunc State Ctx W (AgentErr X)) (Router State (AgentErr X)))
  with_steps max_iter (rejected ps) = err (not_compiled ps)
  with_steps max_iter (compiled r) = ok (record r { max_steps = wrap_int (max_iter * 3 + 4) })

  abbrev pub defs_or_none : Option (Registry Ctx W X) → Result X (List ToolDef)
  defs_or_none none = ok []
  defs_or_none (some reg) = tool_defs reg

  abbrev pub build_react :
      Provider Ctx W X
      → Result X (List ToolDef)
      → Result (NewErr X) (Runnable (NodeFunc State Ctx W (AgentErr X)) (Router State (AgentErr X)))
  build_react p (err x) = err (tool_defs_failed x)
  build_react p (ok defs) =
      let max_iter = iteration_cap cfg.max_iterations in
      with_steps max_iter (compile (build (react_calls (is_some cfg.tools) p max_iter defs) new))

  abbrev pub checked_react :
      Provider Ctx W X
      → Option ConfigErr
      → Result (NewErr X) (Runnable (NodeFunc State Ctx W (AgentErr X)) (Router State (AgentErr X)))
  checked_react p (some e) = err (invalid e)
  checked_react p none = build_react p (defs_or_none cfg.tools)

  abbrev pub new_react_with :
      Option (Provider Ctx W X)
      → Result (NewErr X) (Runnable (NodeFunc State Ctx W (AgentErr X)) (Router State (AgentErr X)))
  new_react_with none = err (invalid provider_required)
  new_react_with (some p) = checked_react p (validate_with p)

  unfoldable pub new_react :
      Result (NewErr X) (Runnable (NodeFunc State Ctx W (AgentErr X)) (Router State (AgentErr X)))
  new_react = new_react_with cfg.provider
