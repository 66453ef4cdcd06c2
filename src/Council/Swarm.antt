-- ===== src/Council/Swarm.antt =====
-- pkg/council/swarm.go: peer agents that hand control to each other. `X` holds the errors and panic
-- values of providers and tools. What the code takes from elsewhere is in `Services`.
pub mod Node
pub mod Build
pub mod Setup
pub mod Turns
pub mod Ends
pub mod Answer
mod Tests
use galdor.Prelude.{
  is_empty, ℕ, zero, suc, ◌+◌, ◌*◌, ℤ, pos, String, Bool, true, false, not, ◌&&◌, ◌||◌, Option,
  none, some, List, [], ◌∷◌, ◌++◌, Result, ok, err, Assoc, lookup, has, insert, contains, is_some,
  ◌==◌, if◌then◌else◌, leb,
}
use mathlib.Core.Option
use package.text.Mathlib.Text.{starts_with}
use galdor.Schema.{
  Message, ToolCall, ToolDef, text, is_system, system_message, user_message, tool_result_message,
}
use galdor.Provider.{Provider, Request, Reply, replied, refused, crashed, ToolChoice, unset, auto}
use galdor.Tool.{
  Tool, Registry, ToolErr, tools_of, tool_defs, execute_calls, as_tool_result_messages,
}
use galdor.Graph.Core.{
  start_node, end_node, NodeFunc, Outcome, returned, failed, panicked, Router, routed, Runnable,
  RunErr, Env,
}
use galdor.Graph.Builder.{
  Graph, Problem, Call, call_add_node, call_add_edge, call_add_conditional_edge, build, new,
}
use galdor.Graph.Compile.{compile, Compiled, compiled, rejected}
use galdor.Graph.Run.{positive_or, Final, invoke_with, no_options}
use galdor.Council.Names.{
  is_safe_worker_name, handoff_prefix, swarm_trap_node, handoff_tool_name, handoff_target_of,
  handoff_description, handed_off, skipped, not_permitted, agent_prompt, peer_line, followed_by,
  with_peers,
}

pub record SwarmAgent (Ctx W X : Type 0) : Type 0 where
  pub name : String
  pub description : String
  pub provider : Option (Provider Ctx W X)
  pub model : String
  pub tools : Option (Registry Ctx W X)
  pub handoffs : List String
  pub system_prompt : String
  pub max_iterations : ℤ

pub record SwarmConfig (Ctx W X : Type 0) : Type 0 where
  pub agents : List (Option (SwarmAgent Ctx W X))
  pub start : String
  pub max_hops : ℤ

pub record SwarmState : Type 0 where
  pub messages : List Message
  pub active : String
  pub hops : ℕ
  pub final : String

-- `ctx.Err()`, the text of a tool's error, fmt's `%q`, and `json.Unmarshal` into a `handoffInput`.
pub record Services (Ctx W X : Type 0) : Type 0 where
  pub ctx_err : Ctx → W → Option X × W
  pub error_text : ToolErr X → String
  pub quote : String → String
  pub decode_task : String → Option String

pub data SwarmErr (X : Type 0) : Type 0 where
  tool_defs_failed : X → SwarmErr X
  model_failed : X → SwarmErr X
  nil_tools : SwarmErr X
  exhausted_iterations : ℕ → SwarmErr X
  max_hops_exceeded : ℕ → SwarmErr X
  unknown_handoff_target : String → SwarmErr X
  raised : X → SwarmErr X
  nil_dereference : SwarmErr X

pub data ConfigErr : Type 0 where
  no_agents nil_agent start_required : ConfigErr
  unsafe_name reserved_name nil_provider empty_model duplicate_agent : String → ConfigErr
  reserved_tool unknown_start : String → ConfigErr
  handoff_to_itself : String → ConfigErr
  unknown_target : String → String → ConfigErr

pub data NewErr : Type 0 where
  invalid : ConfigErr → NewErr
  not_compiled : List Problem → NewErr

-- The errors of `RunSwarm`.
pub data OnceErr (X : Type 0) : Type 0 where
  not_built : NewErr → OnceErr X
  not_finished : RunErr (SwarmErr X) → OnceErr X

abbrev pub not_finished_if : {X : Type 0} → Option (RunErr (SwarmErr X)) → Option (OnceErr X)
not_finished_if none = none
not_finished_if (some e) = some (not_finished e)

-- `buildSwarmMessages`.
abbrev pub without_system : List Message → List Message
without_system [] = []
without_system (m ∷ ms) =
    let rest = without_system ms in if is_system m.role then rest else m ∷ rest

module _ {Ctx W X : Type 0} where
  abbrev pub has_reserved_tool : List (Tool Ctx W X) → Bool
  has_reserved_tool [] = false
  has_reserved_tool (t ∷ ts) = starts_with t.name handoff_prefix || has_reserved_tool ts

  abbrev pub collides : Option (Registry Ctx W X) → Bool
  collides none = false
  collides (some reg) = has_reserved_tool (tools_of reg)

  -- The checks of one agent, against the agents before it.
  unfoldable pub check_agent : SwarmAgent Ctx W X → Assoc (SwarmAgent Ctx W X) → Option ConfigErr
  check_agent a by_name =
      if not (is_safe_worker_name a.name)
      then some (unsafe_name a.name)
      else if a.name == start_node || a.name == end_node
      then some (reserved_name a.name)
      else if not (is_some a.provider)
      then some (nil_provider a.name)
      else if a.model == ""
      then some (empty_model a.name)
      else if a.name == swarm_trap_node
      then some (reserved_name a.name)
      else if has a.name by_name
      then some (duplicate_agent a.name)
      else if collides a.tools
      then some (reserved_tool a.name)
      else none

  -- The agents by name.
  unfoldable pub check_agents :
      List (Option (SwarmAgent Ctx W X))
      → Assoc (SwarmAgent Ctx W X)
      → Result ConfigErr (Assoc (SwarmAgent Ctx W X))
  unfolding check_agent
  check_agents [] by_name = ok by_name
  check_agents (none ∷ others) by_name = err nil_agent
  check_agents (some a ∷ others) by_name = elim (check_agent a by_name) [
    | some e ↦ err e
    | none ↦ check_agents others (insert a.name a by_name)
  ]

  unfoldable pub check_targets :
      String → List String → Assoc (SwarmAgent Ctx W X) → Option ConfigErr
  check_targets name [] by_name = none
  check_targets name (target ∷ ts) by_name =
      let rest = check_targets name ts by_name in
      if not (has target by_name)
      then some (unknown_target name target)
      else if target == name
      then some (handoff_to_itself name)
      else rest

  unfoldable pub check_handoffs :
      List (SwarmAgent Ctx W X) → Assoc (SwarmAgent Ctx W X) → Option ConfigErr
  unfolding check_targets
  check_handoffs [] by_name = none
  check_handoffs (a ∷ others) by_name = elim (check_targets a.name a.handoffs by_name) [
    | some e ↦ some e
    | none ↦ check_handoffs others by_name
  ]

  abbrev pub present : List (Option (SwarmAgent Ctx W X)) → List (SwarmAgent Ctx W X)
  present [] = []
  present (none ∷ others) = present others
  present (some a ∷ others) = a ∷ present others

  abbrev pub max_hops_of : SwarmConfig Ctx W X → ℕ
  max_hops_of cfg = positive_or cfg.max_hops 8

  abbrev pub max_iterations_of : SwarmAgent Ctx W X → ℕ
  max_iterations_of a = positive_or a.max_iterations 6

  unfoldable pub swarm_route : ℕ → Assoc (SwarmAgent Ctx W X) → SwarmState → String
  swarm_route max_hops by_name s =
      if not (s.final == "")
      then end_node
      else if s.active == ""
      then end_node
      else if not (has s.active by_name)
      then swarm_trap_node
      else if leb max_hops s.hops
      then swarm_trap_node
      else s.active

  abbrev pub swarm_router : ℕ → Assoc (SwarmAgent Ctx W X) → Router SwarmState (SwarmErr X)
  swarm_router max_hops by_name s = routed (swarm_route max_hops by_name s)

  unfoldable pub swarm_trap : Assoc (SwarmAgent Ctx W X) → NodeFunc SwarmState Ctx W (SwarmErr X)
  swarm_trap by_name ctx s w =
      if not (s.active == "") && not (has s.active by_name)
      then (failed s (unknown_handoff_target s.active), w)
      else (failed s (max_hops_exceeded s.hops), w)

  abbrev pub description_of : Option (SwarmAgent Ctx W X) → Option String
  description_of none = none
  description_of (some a) = some a.description

  abbrev pub peer_lines : Assoc (SwarmAgent Ctx W X) → List String → String
  peer_lines by_name [] = ""
  peer_lines by_name (target ∷ ts) =
      followed_by (peer_line target (description_of (lookup target by_name)))
        (peer_lines by_name ts)

  abbrev pub swarm_prompt : SwarmAgent Ctx W X → Assoc (SwarmAgent Ctx W X) → String
  swarm_prompt a by_name =
      let body =
        if a.system_prompt == "" then agent_prompt a.name a.description else a.system_prompt in
      if is_empty a.handoffs then body else with_peers body (peer_lines by_name a.handoffs)
