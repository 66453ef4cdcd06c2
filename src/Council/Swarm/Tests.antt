-- ===== src/Council/Swarm/Tests.antt =====
-- A swarm of pkg/council/swarm.go with two agents: the first hands over to the second, which answers.
use galdor.Prelude.{
  wrap_int, arith, ℕ, suc, pos, String, true, Option, none, some, List, [], ◌∷◌, ok, ◌≡◌, refl, has,
  lookup, insert, remove, contains,
}
use galdor.Schema.{Message, assistant, text_message, user_message}
use galdor.Provider.{Provider, replied}
use galdor.Graph.Core.{Env, start_node, end_node}
use galdor.Graph.Builder.{build, new, add_node, add_edge, add_conditional_edge}
use galdor.Graph.Compile.{
  compile, report_each, entry_problems, static_problems, conditional_problems, branch_problems,
  branch_map_problems, node_problems, entry_target_problems, gate_problems, problems,
}
use galdor.Graph.Run.{Final, invoke_with, no_options}
use galdor.Council.Names.{swarm_trap_node}
use galdor.Council.Swarm.{
  SwarmAgent, SwarmConfig, SwarmState, SwarmErr, Services, OnceErr, check_agent, check_agents,
  check_targets, check_handoffs, swarm_router, swarm_trap,
}
use galdor.Council.Swarm.Build.{Swarm, node_of, swarm_calls, new_swarm, run_swarm}
use galdor.Council.Swarm.Answer.{EndsWell, swarm-ends-well, IsRun, run_swarm-IsAnswer}

abbrev handing : Message
handing = record (text_message assistant "") {
  tool_calls = record { id = "a"; name = "handoff_to_writer"; arguments = ""; signature = "" } ∷ [];
}

abbrev hands_over : Provider Unit ℕ Unit
hands_over = record {
  name = "p";
  tool_calling = true;
  generate = λ ctx q w. (replied handing, suc w);
}

abbrev answers : Provider Unit ℕ Unit
answers = record {
  name = "q";
  tool_calling = true;
  generate = λ ctx q w. (replied (text_message assistant "done"), suc w);
}

abbrev planner : SwarmAgent Unit ℕ Unit
planner = record {
  name = "planner";
  description = "";
  provider = some hands_over;
  model = "m";
  tools = none;
  handoffs = "writer" ∷ [];
  system_prompt = "";
  max_iterations = pos 0;
}

abbrev writer : SwarmAgent Unit ℕ Unit
writer = record planner { name = "writer"; provider = some answers; handoffs = [] }

abbrev config : SwarmConfig Unit ℕ Unit
config = record { agents = some planner ∷ some writer ∷ []; start = "planner"; max_hops = pos 0 }

abbrev services : Services Unit ℕ Unit
services = record {
  ctx_err = λ ctx w. (none, w);
  error_text = λ e. "error";
  quote = λ s. s;
  decode_task = λ s. none;
}

abbrev env : Env Unit ℕ (SwarmErr Unit)
env = record {
  ctx_err = λ ctx w. (none, w);
  is_deadline_exceeded = λ x. true;
  wrapped_panic = λ x. none;
  with_timeout = λ limit ctx w. (ctx, w);
  cancel = λ ctx w. w;
  now = λ w. (0, w);
}

abbrev by_name : List (String × SwarmAgent Unit ℕ Unit)
by_name = ("writer", writer) ∷ ("planner", planner) ∷ []

abbrev swarm : Swarm services
swarm = record {
  nodes =
      (swarm_trap_node, swarm_trap by_name)
      ∷ ("writer", node_of services writer by_name (some answers))
      ∷ ("planner", node_of services planner by_name (some hands_over))
      ∷ [];
  static_edges = (start_node, "planner") ∷ (swarm_trap_node, end_node) ∷ [];
  conditional_edges = ("writer", swarm_router 8 by_name) ∷ ("planner", swarm_router 8 by_name) ∷ [];
  branch_maps = [];
  interrupt_before = [];
  entry = "planner";
  max_steps = pos 36;
}

made : new_swarm services config ≡ ok swarm
unfolding wrap_int new_swarm check_agents check_agent check_handoffs check_targets swarm_calls
    compile problems report_each entry_problems static_problems conditional_problems branch_problems
    branch_map_problems node_problems entry_target_problems gate_problems lookup has insert remove
    contains build new add_node add_edge add_conditional_edge
made = refl

abbrev asked : SwarmState
asked = record { messages = user_message "hi" ∷ []; active = "planner"; hops = 0; final = "" }

swarm-ends-well_example :
    (f : Final SwarmState (SwarmErr Unit)) × (w' : ℕ) × (invoke_with env swarm no_options tt asked 0
      ≡ some (f, w'))
    × EndsWell 8 f.state f.error
swarm-ends-well_example =
    swarm-ends-well services config env no_options swarm tt asked 0 (omega arith) made refl refl
      refl refl

run_swarm-IsAnswer_example :
    (a : String × Option (OnceErr Unit)) × (w' : ℕ) × (run_swarm services env tt config "hi" 0
      ≡ some (a, w'))
    × IsRun services config env tt "hi" 0 a w'
run_swarm-IsAnswer_example = run_swarm-IsAnswer services config env tt "hi" 0 (omega arith)
