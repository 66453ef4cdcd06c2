-- ===== src/Council/Swarm/Node.antt =====
-- The node of an agent in pkg/council/swarm.go: an activation, a loop of turns of the model.
use galdor.Prelude.{
  is_empty, suc, zero, err, ◌==◌, contains, [], ◌∷◌, some, ok, none, ◌+◌, ◌++◌, ℕ, if◌then◌else◌,
  String, Result, Option, List, Assoc,
}
use galdor.Schema.{Message, ToolCall, ToolDef, text, system_message, tool_result_message}
use galdor.Provider.{Provider, Request, Reply, replied, refused, crashed, unset, auto}
use galdor.Tool.{Registry, tool_defs, execute_calls, as_tool_result_messages}
use galdor.Graph.Core.{NodeFunc, Outcome, returned, failed, panicked}
use galdor.Council.Names.{
  handoff_schema, handoff_tool_name, handoff_target_of, handoff_description, handed_off, skipped,
  not_permitted,
}
use galdor.Council.Swarm.{
  Services, SwarmAgent, SwarmErr, SwarmState, exhausted_iterations, max_iterations_of, model_failed,
  nil_tools, raised, swarm_prompt, tool_defs_failed, without_system,
}

module _ {Ctx W X : Type 0} (sv : Services Ctx W X) where
  abbrev pub handoff_defs : List String → List ToolDef
  handoff_defs [] = []
  handoff_defs (target ∷ ts) =
      record {
        name = handoff_tool_name target;
        description = handoff_description target;
        schema = handoff_schema;
      }
      ∷ handoff_defs ts

  abbrev pub domain_defs : Option (Registry Ctx W X) → Result X (List ToolDef)
  domain_defs none = ok []
  domain_defs (some reg) = tool_defs reg

  abbrev pub task_or_empty : Option String → String
  task_or_empty none = ""
  task_or_empty (some task) = task

  -- `extractHandoffTask`.
  abbrev pub extract_task : String → String
  extract_task args = if args == "" then "" else task_or_empty (sv.decode_task args)

  -- `detectHandoff`: the target and the task.
  unfoldable pub detect_handoff : List ToolCall → List String → Option (String × String)
  detect_handoff [] allowed = none
  detect_handoff (c ∷ cs) allowed = elim (handoff_target_of c.name) [
    | none ↦ detect_handoff cs allowed
    | some target ↦
        let rest = detect_handoff cs allowed in
        if contains target allowed then some (target, extract_task c.arguments) else rest
  ]

  -- `acknowledgeHandoff`.
  unfoldable pub acknowledge_handoff : List ToolCall → String → String → List Message
  acknowledge_handoff [] target task = []
  acknowledge_handoff (c ∷ cs) target task =
      tool_result_message c.id (
        if c.name == handoff_tool_name target
        then handed_off target task
        else skipped sv.quote c.name target)
      ∷ acknowledge_handoff cs target task

  -- `partitionHandoffCalls`.
  unfoldable pub partition_handoff_calls : List ToolCall → List ToolCall × List Message
  partition_handoff_calls [] = ([], [])
  partition_handoff_calls (c ∷ cs) =
      let (real, denied) = partition_handoff_calls cs in
      elim (handoff_target_of c.name) [
        | some target ↦ (real, tool_result_message c.id (not_permitted sv.quote target) ∷ denied)
        | none ↦ (c ∷ real, denied)
      ]

  abbrev pub run_real : Registry Ctx W X → Ctx → List ToolCall → W → List Message × W
  run_real reg ctx [] w = ([], w)
  run_real reg ctx (c ∷ cs) w =
      let (results, w') = execute_calls sv.ctx_err (some reg) ctx (c ∷ cs) w in
      (as_tool_result_messages sv.error_text results, w')

  -- The results of the calls of a turn without a handoff; `none` if a registry is needed and missing.
  unfoldable pub answer_calls :
      Option (Registry Ctx W X) → Ctx → List ToolCall → W → Option (List Message × W)
  unfolding partition_handoff_calls
  answer_calls none ctx calls w =
      let (real, denied) = partition_handoff_calls calls in
      if is_empty real then some (denied, w) else none
  answer_calls (some reg) ctx calls w =
      let (real, denied) = partition_handoff_calls calls in
      let (results, w') = run_real reg ctx real w in (some (results ++ denied, w'))

  abbrev pub add_messages : SwarmState → List Message → SwarmState
  add_messages s ms = record s { messages = s.messages ++ ms }

  abbrev pub swarm_request : SwarmAgent Ctx W X → List ToolDef → List Message → Request
  swarm_request a defs msgs = record {
    model = a.model;
    messages = msgs;
    tools = defs;
    tool_choice = if is_empty defs then unset else auto;
  }

  abbrev pub Body : Type 0
  Body = Outcome (SwarmErr X) SwarmState × W

  abbrev pub after_results :
      (List Message → SwarmState → W → Body)
      → List Message
      → SwarmState
      → W
      → Option (List Message × W)
      → Body
  after_results next msgs s w none = (failed s nil_tools, w)
  after_results next msgs s w (some (results, w')) =
      next (msgs ++ results) (add_messages s results) w'

  abbrev pub after_detect :
      (List Message → SwarmState → W → Body)
      → SwarmAgent Ctx W X
      → Ctx
      → List Message
      → SwarmState
      → List ToolCall
      → W
      → Option (String × String)
      → Body
  after_detect next a ctx msgs s calls w (some (target, task)) = (
    returned (record (add_messages s (acknowledge_handoff calls target task)) { active = target }),
    w,
  )
  after_detect next a ctx msgs s calls w none =
      after_results next msgs s w (answer_calls a.tools ctx calls w)

  abbrev pub after_reply :
      (List Message → SwarmState → W → Body)
      → SwarmAgent Ctx W X
      → Ctx
      → List Message
      → SwarmState
      → Message
      → List ToolCall
      → W
      → Body
  after_reply next a ctx msgs s m [] w = (returned (record s { final = text m; active = "" }), w)
  after_reply next a ctx msgs s m (c ∷ cs) w =
      after_detect next a ctx msgs s (c ∷ cs) w (detect_handoff (c ∷ cs) a.handoffs)

  abbrev pub after_generate :
      (List Message → SwarmState → W → Body)
      → SwarmAgent Ctx W X
      → Ctx
      → List Message
      → SwarmState
      → Reply X Message × W
      → Body
  after_generate next a ctx msgs s (refused x, w) = (failed s (model_failed x), w)
  after_generate next a ctx msgs s (crashed x, w) = (panicked (raised x), w)
  after_generate next a ctx msgs s (replied m, w) =
      after_reply next a ctx (msgs ++ m ∷ []) (add_messages s (m ∷ [])) m m.tool_calls w

  -- The loop of an activation, `left` turns before its end.
  unfoldable pub turns :
      SwarmAgent Ctx W X
      → Provider Ctx W X
      → List ToolDef
      → Ctx
      → ℕ
      → List Message
      → SwarmState
      → W
      → Body
  unfolding detect_handoff acknowledge_handoff answer_calls
  turns a p defs ctx zero msgs s w = (failed s (exhausted_iterations (max_iterations_of a)), w)
  turns a p defs ctx (suc left) msgs s w =
      after_generate (turns a p defs ctx left) a ctx msgs s
        (p.generate ctx (swarm_request a defs msgs) w)

  abbrev pub activated :
      SwarmAgent Ctx W X
      → Assoc (SwarmAgent Ctx W X)
      → Provider Ctx W X
      → Ctx
      → SwarmState
      → W
      → Result X (List ToolDef)
      → Body
  activated a by_name p ctx s w (err x) = (failed s (tool_defs_failed x), w)
  activated a by_name p ctx s w (ok defs) =
      turns a p (defs ++ handoff_defs a.handoffs) ctx (max_iterations_of a)
        (system_message (swarm_prompt a by_name) ∷ without_system s.messages) s w

  -- `makeSwarmAgentNode`, for an agent with this provider.
  unfoldable pub swarm_agent_node :
      SwarmAgent Ctx W X
      → Assoc (SwarmAgent Ctx W X)
      → Provider Ctx W X
      → NodeFunc SwarmState Ctx W (SwarmErr X)
  unfolding turns
  swarm_agent_node a by_name p ctx s w =
      activated a by_name p ctx (record s { hops = s.hops + 1 }) w (domain_defs a.tools)
