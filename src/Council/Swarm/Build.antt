-- ===== src/Council/Swarm/Build.antt =====
-- `NewSwarm` and `RunSwarm` of pkg/council/swarm.go.
use galdor.Prelude.{
  wrap_int, is_empty, none, ◌+◌, ◌*◌, has, ◌∷◌, not, ◌==◌, some, ok, [], if◌then◌else◌, err, Option,
  List, ℕ, String, Result, Assoc,
}
use mathlib.Core.Option
use galdor.Schema.{user_message}
use galdor.Provider.{Provider}
use galdor.Graph.Core.{start_node, end_node, NodeFunc, panicked, Router, Runnable, Env}
use galdor.Graph.Builder.{Call, call_add_node, call_add_edge, call_add_conditional_edge, build, new}
use galdor.Graph.Compile.{compile, Compiled, compiled, rejected}
use galdor.Graph.Run.{Final, invoke_with, no_options}
use galdor.Council.Names.{swarm_trap_node}
use galdor.Council.Swarm.{
  ConfigErr, NewErr, OnceErr, Services, SwarmAgent, SwarmConfig, SwarmErr, SwarmState, check_agents,
  check_handoffs, invalid, max_hops_of, nil_dereference, no_agents, not_built, not_compiled,
  not_finished_if, present, start_required, swarm_route, swarm_router, swarm_trap, unknown_start,
}
use galdor.Council.Swarm.Node.{swarm_agent_node}

module _ {Ctx W X : Type 0} (sv : Services Ctx W X) where
  abbrev pub SwarmCall : Type 0
  SwarmCall = Call (NodeFunc SwarmState Ctx W (SwarmErr X)) (Router SwarmState (SwarmErr X))

  abbrev pub Swarm : Type 0
  Swarm = Runnable (NodeFunc SwarmState Ctx W (SwarmErr X)) (Router SwarmState (SwarmErr X))

  abbrev pub node_of :
      SwarmAgent Ctx W X
      → Assoc (SwarmAgent Ctx W X)
      → Option (Provider Ctx W X)
      → NodeFunc SwarmState Ctx W (SwarmErr X)
  node_of a by_name (some p) = λ ctx s w. swarm_agent_node sv a by_name p ctx s w
  -- A call of a nil provider panics.
  node_of a by_name none = λ ctx s w. (panicked nil_dereference, w)

  abbrev pub trap_calls : Assoc (SwarmAgent Ctx W X) → String → List SwarmCall
  trap_calls by_name start =
      call_add_node swarm_trap_node (some (swarm_trap by_name))
      ∷ call_add_edge swarm_trap_node end_node
      ∷ call_add_edge start_node start
      ∷ []

  -- The chain of builder calls.
  unfoldable pub swarm_calls :
      ℕ → Assoc (SwarmAgent Ctx W X) → String → List (SwarmAgent Ctx W X) → List SwarmCall
  unfolding swarm_trap swarm_agent_node swarm_route
  swarm_calls max_hops by_name start [] = trap_calls by_name start
  swarm_calls max_hops by_name start (a ∷ others) =
      call_add_node a.name (some (node_of a by_name a.provider))
      ∷ call_add_conditional_edge a.name (some (swarm_router max_hops by_name))
      ∷ swarm_calls max_hops by_name start others

  abbrev pub with_steps :
      ℕ
      → Compiled (NodeFunc SwarmState Ctx W (SwarmErr X)) (Router SwarmState (SwarmErr X))
      → Result NewErr Swarm
  with_steps max_hops (rejected ps) = err (not_compiled ps)
  with_steps max_hops (compiled r) = ok (record r { max_steps = wrap_int (max_hops * 4 + 4) })

  abbrev pub build_swarm :
      SwarmConfig Ctx W X → Assoc (SwarmAgent Ctx W X) → Option ConfigErr → Result NewErr Swarm
  build_swarm cfg by_name (some e) = err (invalid e)
  build_swarm cfg by_name none =
      with_steps (max_hops_of cfg)
        (compile (build (swarm_calls (max_hops_of cfg) by_name cfg.start (present cfg.agents)) new))

  abbrev pub check_start : SwarmConfig Ctx W X → Assoc (SwarmAgent Ctx W X) → Option ConfigErr
  check_start cfg by_name =
      if cfg.start == ""
      then some start_required
      else if not (has cfg.start by_name)
      then some (unknown_start cfg.start)
      else check_handoffs (present cfg.agents) by_name

  abbrev pub checked_swarm :
      SwarmConfig Ctx W X → Result ConfigErr (Assoc (SwarmAgent Ctx W X)) → Result NewErr Swarm
  checked_swarm cfg (err e) = err (invalid e)
  checked_swarm cfg (ok by_name) = build_swarm cfg by_name (check_start cfg by_name)

  unfoldable pub new_swarm : SwarmConfig Ctx W X → Result NewErr Swarm
  unfolding check_agents check_handoffs swarm_calls
  new_swarm cfg =
      if is_empty cfg.agents
      then err (invalid no_agents)
      else checked_swarm cfg (check_agents cfg.agents [])

  -- The result of a run that ended.
  abbrev pub swarm_answer : Final SwarmState (SwarmErr X) × W → (String × Option (OnceErr X)) × W
  swarm_answer (f, w) = ((f.state.final, not_finished_if f.error), w)

  abbrev pub run_built :
      Env Ctx W (SwarmErr X)
      → Ctx
      → String
      → String
      → W
      → Result NewErr Swarm
      → Option ((String × Option (OnceErr X)) × W)
  run_built env ctx start input w (err e) = some (("", some (not_built e)), w)
  run_built env ctx start input w (ok r) = Option.map swarm_answer (
      invoke_with env r no_options ctx
        (record { messages = user_message input ∷ []; active = start; hops = 0; final = "" }) w)

  -- `RunSwarm`.
  unfoldable pub run_swarm :
      Env Ctx W (SwarmErr X)
      → Ctx
      → SwarmConfig Ctx W X
      → String
      → W
      → Option ((String × Option (OnceErr X)) × W)
  unfolding new_swarm
  run_swarm env ctx cfg input w = run_built env ctx cfg.start input w (new_swarm cfg)
