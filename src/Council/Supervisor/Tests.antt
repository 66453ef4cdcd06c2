-- ===== src/Council/Supervisor/Tests.antt =====
-- A supervisor of pkg/council/supervisor.go that asks its one worker once and then answers.

use galdor.Fences.{json_body}
use galdor.Schema.{assistant, text_message}
use galdor.Provider.{Provider, replied}
use galdor.Council.Supervisor.Build.{
  Supervisor, asked, new_supervisor, supervisor_calls, worker_calls,
}
use galdor.Council.Supervisor.{
  Services, SupervisorConfig, SupervisorErr, SupervisorState, Worker, check_worker, check_workers,
  parse_decision, supervisor_node, supervisor_router, supervisor_trap, worker_node,
}
use galdor.Prelude.{
  wrap_int, arith, List, String, [], contains, has, if◌then◌else◌, insert, leb, lookup, none, ok,
  pos, refl, remove, some, suc, true, ℕ, ◌==◌, ◌∷◌, ◌≡◌,
}
use galdor.Graph.Core.{Env, start_node, end_node}
use galdor.Graph.Builder.{build, new, add_node, add_edge, add_conditional_edge}
use galdor.Graph.Compile.{
  compile, report_each, entry_problems, static_problems, conditional_problems, branch_problems,
  branch_map_problems, node_problems, entry_target_problems, gate_problems, problems,
}
use galdor.Graph.Run.{Final, invoke_with, no_options}
use galdor.Council.Supervisor.Payload.{supervisor_trap_node}
use galdor.Council.Supervisor.Answer.{EndsWell, supervisor-ends-well}

abbrev looks_up : Worker Unit ℕ Unit
looks_up = record {
  name = "lookup";
  description = "finds facts";
  run = some (λ ctx task w. (replied "42", suc w));
}

-- It answers from its second call on.
abbrev routes : Provider Unit ℕ Unit
routes = record {
  name = "p";
  tool_calling = true;
  generate = λ ctx q w. (
    replied (text_message assistant (if leb w 0 then "{\"worker\": 1}" else "{\"final\": 1}")),
    suc w,
  );
}

abbrev config : SupervisorConfig Unit ℕ Unit
config = record {
  provider = some routes;
  model = "m";
  workers = looks_up ∷ [];
  max_hops = pos 0;
  system_prompt = "";
}

abbrev services : Services
services = record {
  quote = λ s. s;
  decimal = λ n. "1";
  decode_decision = λ s. some (
      if s == "{\"worker\": 1}"
      then record { worker = "lookup"; task = "fact"; final = "" }
      else record { worker = ""; task = ""; final = "it is 42" });
}

abbrev env : Env Unit ℕ (SupervisorErr Unit)
env = record {
  ctx_err = λ ctx w. (none, w);
  is_deadline_exceeded = λ x. true;
  wrapped_panic = λ x. none;
  with_timeout = λ limit ctx w. (ctx, w);
  cancel = λ ctx w. w;
  now = λ w. (0, w);
}

abbrev seen : List String
seen = "lookup" ∷ []

abbrev supervisor : Supervisor Unit ℕ Unit
supervisor = record {
  nodes =
      ("lookup", worker_node looks_up)
      ∷ (supervisor_trap_node, supervisor_trap)
      ∷ ("supervisor", supervisor_node services config seen routes)
      ∷ [];
  static_edges =
      ("lookup", "supervisor") ∷ (start_node, "supervisor") ∷ (supervisor_trap_node, end_node) ∷ [];
  conditional_edges = ("supervisor", supervisor_router 8) ∷ [];
  branch_maps = [];
  interrupt_before = [];
  entry = "supervisor";
  max_steps = pos 28;
}

made : new_supervisor services config ≡ ok supervisor
unfolding wrap_int new_supervisor check_workers check_worker supervisor_calls worker_calls compile
    problems report_each entry_problems static_problems conditional_problems branch_problems
    branch_map_problems node_problems entry_target_problems gate_problems lookup has insert remove
    contains build new add_node add_edge add_conditional_edge
made = refl

decides :
    parse_decision services "```json\n{\"worker\": 1}\n```"
    ≡ ok (record { worker = "lookup"; task = "fact"; final = "" })
unfolding parse_decision json_body
decides = refl

supervisor-ends-well_example :
    (f : Final SupervisorState (SupervisorErr Unit)) × (w' : ℕ) × (invoke_with env supervisor
        no_options tt
        (asked "what?")
        0
      ≡ some (f, w'))
    × EndsWell ("lookup" ∷ []) 8 f.state f.error
supervisor-ends-well_example =
    supervisor-ends-well services config env no_options supervisor tt (asked "what?") 0
      (omega arith) made refl refl refl refl
