-- ===== src/Graph/Tests.antt =====
-- Runs of pkg/graph over a graph of two nodes, "a" and "b", with an interrupt gate at "b". Each node
-- adds one to the state; the world holds a `MemoryCheckpointer` and nothing else.
use galdor.Prelude.{
  length, ◌++◌, ℕ, ◌+◌, pos, String, true, false, Option, none, some, List, [], ◌∷◌, Result, ok,
  ◌≡◌, refl, subst, arith, has, lookup, insert, contains, suc_ℤ, pred_ℤ, Bool, Bool-cases, inl, inr,
  ℤ, suc, sym, ap, ◌∙◌, ◌==◌,
}
use galdor.Graph.Core.{
  end_node, start_node, returned, Outcome, NodeFunc, routed, Router, Runnable, Checkpoint,
  at_interrupt, found, RunOptions, Env, interrupted, Hooks, HookEnd, hook_returned,
}
use galdor.Graph.Builder.{
  Graph, new, build, Call, call_add_node, call_add_edge, call_add_conditional_edges,
  call_interrupt_before, interrupt_before_names, gate_name, add_node, add_edge,
  add_conditional_edges,
}
use galdor.Graph.Builder.Invariant.{IsBuilt, build-IsBuilt}
use galdor.Graph.Compile.{
  compile, compiled, report_each, entry_problems, static_problems, conditional_problems,
  branch_problems, branch_map_problems, node_problems, entry_target_problems, gate_problems,
  problems, runnable_of,
}
use galdor.Graph.Compile.Sound.{IsSound, compile-IsSound}
use galdor.Graph.Hooks.{
  log, merge_hooks, no_hooks, run_before, run_after, node_before, node_after, safe_call_node,
  log_panic_if_any,
}
use galdor.Graph.Hooks.Merge.{run_before_each, merge_hooks-in-order}
use galdor.Graph.Stream.Total.{run_stream_total}
use galdor.Graph.Stream.{Event, run_start, run_stream}
use galdor.Graph.Stream.Agrees.{take_every, stream-agrees}
use galdor.Graph.Checkpoint.{
  MemoryCheckpointer, memory_checkpointer, new_memory_checkpointer_with_limit, history_of, trim,
  save, load,
}
use galdor.Graph.Checkpoint.History.{kept, save_all, copies_of, load-save, history-save_all}
use galdor.Graph.Run.{
  Final, invoke_with, resume, resolve_next, run_loop, rounds, round, dispatch, max_steps_or_default,
  enter, execute, save_checkpoint, run_node, interrupt, finish, validate_run_options, state_or,
}
use galdor.Graph.Run.Invariant.{EndsWith, Keeps, invoke_with-Ends}
use galdor.Graph.Run.Total.{invoke_with_total, resume_total}
use galdor.Graph.Run.Safety.{EndsInside, Resolves, resolve_next-Resolves, run-stays-inside}
use galdor.Graph.Run.Resume.{resume-after-interrupt}

abbrev World : Type 0
World = MemoryCheckpointer ℕ × Unit

abbrev Body : Type 0
Body = NodeFunc ℕ Unit World Unit

abbrev Choice : Type 0
Choice = Router ℕ Unit

abbrev copy : ℕ → Result Unit ℕ
copy s = ok s

abbrev env : Env Unit World Unit
env = record {
  ctx_err = λ ctx w. (none, w);
  is_deadline_exceeded = λ x. false;
  wrapped_panic = λ x. none;
  with_timeout = λ limit ctx w. (ctx, w);
  cancel = λ ctx w. w;
  now = λ w. (0, w);
}

abbrev add_one : Body
add_one ctx s w = (returned (s + 1), w)

abbrev to_end : Choice
to_end s = routed "done"

abbrev calls : List (Call Body Choice)
calls =
    call_add_node "a" (some add_one)
    ∷ call_add_node "b" (some add_one)
    ∷ call_add_edge start_node "a"
    ∷ call_add_edge "a" "b"
    ∷ call_add_conditional_edges "b" (some to_end) (("done", end_node) ∷ [])
    ∷ call_interrupt_before ("b" ∷ [])
    ∷ []

abbrev two_nodes : Graph Body Choice
two_nodes = record {
  nodes = ("b", add_one) ∷ ("a", add_one) ∷ [];
  static_edges = ("a", "b") ∷ (start_node, "a") ∷ [];
  conditional_edges = ("b", to_end) ∷ [];
  branch_maps = ("b", ("done", end_node) ∷ []) ∷ [];
  interrupt_before = "b" ∷ [];
  errs = [];
}

abbrev runnable : Runnable Body Choice
runnable = runnable_of two_nodes "a"

two_nodes-compile : compile two_nodes ≡ compiled runnable
unfolding compile problems report_each entry_problems static_problems conditional_problems
    branch_problems branch_map_problems node_problems entry_target_problems gate_problems lookup has
two_nodes-compile = refl

calls-build : build calls new ≡ two_nodes
unfolding build new gate_name interrupt_before_names add_node add_edge add_conditional_edges lookup
    has insert
calls-build = refl

abbrev opts : RunOptions ℕ Unit World Unit
opts = record {
  checkpointer = some (memory_checkpointer copy);
  run_id = "run";
  max_steps = pos 0;
  override_state = none;
  hooks = no_hooks;
  timeout = pos 0;
  node_timeout = pos 0;
  logger = none;
}

abbrev no_checkpoints : World
no_checkpoints = (record { history = []; limit = 1 }, tt)

abbrev at_b : Checkpoint ℕ
at_b = record {
  run_id = "run";
  step = pos 2;
  node = "b";
  state = 6;
  reason = at_interrupt;
  created_at = 0;
}

abbrev paused : World
paused = (record { history = ("run", at_b ∷ []) ∷ []; limit = 1 }, tt)

-- The run stops at "b" with what "a" made of the state.
invoke-pauses :
    invoke_with env runnable opts tt 5 no_checkpoints
    ≡ some (record { state = 6; error = some (interrupted "b") }, paused)
unfolding invoke_with run_loop rounds round dispatch max_steps_or_default enter contains lookup
    execute save_checkpoint memory_checkpointer save run_node safe_call_node resolve_next suc_ℤ
    interrupt history_of load trim log log_panic_if_any node_after node_before run_after run_before
    finish validate_run_options has insert
invoke-pauses = refl

build-IsBuilt_example : IsBuilt (build calls new)
build-IsBuilt_example = build-IsBuilt calls

runnable-IsSound : IsSound runnable
runnable-IsSound = compile-IsSound two_nodes runnable two_nodes-compile

compile-IsSound_example : IsSound runnable
compile-IsSound_example = compile-IsSound two_nodes runnable two_nodes-compile

resolve_next-Resolves_example : Resolves runnable (resolve_next runnable "b" 6)
unfolding has lookup
resolve_next-Resolves_example = resolve_next-Resolves runnable runnable-IsSound "b" 6 refl

run-stays-inside_example :
    (p : Final ℕ Unit × World) × (invoke_with env
        (record runnable { max_steps = pos 1 })
        opts
        tt
        5
        no_checkpoints
      ≡ some p)
    × EndsInside runnable p.0.error
run-stays-inside_example =
    run-stays-inside env two_nodes runnable (pos 1) opts tt 5 no_checkpoints two_nodes-compile

invoke_with_total_example :
    (p : Final ℕ Unit × World) × (invoke_with env runnable opts tt 5 no_checkpoints ≡ some p)
invoke_with_total_example = invoke_with_total env runnable opts tt 5 no_checkpoints

resume_total_example : (p : Final ℕ Unit × World) × (resume env runnable opts tt 0 paused ≡ some p)
resume_total_example = resume_total env runnable opts tt 0 paused

resume-after-interrupt_example :
    (ck : Checkpoint ℕ) × (load {X = Unit} "run" paused.0 ≡ found ck)
    × (ck.node ≡ "b")
    × (copy 6 ≡ ok ck.state)
    × (resume env runnable opts tt 0 paused
        ≡ run_loop env runnable opts tt
            (state_or env runnable opts none ck.state)
            "b"
            (pred_ℤ ck.step)
            true
            paused)
unfolding run_after
resume-after-interrupt_example =
    resume-after-interrupt copy env runnable opts tt tt 5 0 no_checkpoints paused
      (record { state = 6; error = some (interrupted "b") }) "b" refl (λ c d g v. refl)
      invoke-pauses refl

load-save_example : load {X = Unit} "run" (save copy at_b paused.0).1 ≡ found at_b
load-save_example = load-save copy at_b 6 paused.0 refl

abbrev three_saves : List (Checkpoint ℕ)
three_saves = at_b ∷ record at_b { step = pos 3 } ∷ record at_b { run_id = "other" } ∷ []

history-save_all_example :
    let history =
      history_of "run"
        (save_all (λ s. s) three_saves (new_memory_checkpointer_with_limit (pos 1))) in
    let saved = copies_of (λ s. s) "run" three_saves in
    (older : List (Checkpoint ℕ)) × (older ++ history ≡ saved)
    × (length history ≡ kept (pos 1) (length saved))
history-save_all_example = history-save_all (λ s. s) three_saves (pos 1) "run"

stream-agrees_example :
    run_stream env runnable opts take_every tt 5 no_checkpoints
    ≡ invoke_with env runnable opts tt 5 no_checkpoints
stream-agrees_example = stream-agrees env runnable opts refl tt 5 no_checkpoints

-- The context and the world are numbers here: the hook adds one to the context, and the context
-- that it got to the world.
abbrev counting : Hooks ℕ ℕ ℕ Unit
counting = record {
  before_run = some (λ ctx run_id s w. elim ctx [
    | none ↦ (hook_returned none, w)
    | some c ↦ (hook_returned (some (c + 1)), w + c)
  ]);
  after_run = none;
  before_node = none;
  after_node = none;
}

abbrev answer_of :
    Option (Option ℕ → String → ℕ → ℕ → HookEnd Unit (Option ℕ) × ℕ)
    → ℕ
    → String
    → ℕ
    → ℕ
    → HookEnd Unit (Option ℕ)
answer_of none ctx run_id initial w = hook_returned none
answer_of (some f) ctx run_id initial w = (f (some ctx) run_id initial w).0

counting-answers :
    (f : Option ℕ → String → ℕ → ℕ → HookEnd Unit (Option ℕ) × ℕ)
    → counting.before_run ≡ some f
    → (ctx : ℕ) (run_id : String) (initial w : ℕ)
    → (next : ℕ) × ((f (some ctx) run_id initial w).0 ≡ hook_returned (some next))
counting-answers f e ctx run_id initial w =
    (ctx + 1, subst (λ o. answer_of o ctx run_id initial w ≡ hook_returned (some (ctx + 1))) e refl)

merge_hooks-in-order_example :
    run_before (merge_hooks (counting ∷ no_hooks ∷ counting ∷ [])) none 1 "run" 0 0
    ≡ run_before_each (counting ∷ no_hooks ∷ counting ∷ []) none 1 "run" 0 0
merge_hooks-in-order_example =
    merge_hooks-in-order (counting ∷ no_hooks ∷ counting ∷ []) none 1 "run" 0 0
      (counting-answers, (λ f e ctx run_id initial w. cc e, (counting-answers, tt)))

-- A consumer that leaves after the first event.
abbrev take_first : Unit {0} → Event ℕ Unit → World → Bool × World
take_first ctx event w = (elim event.type [ run_start ↦ true | _ ↦ false ], w)

run_stream_total_example :
    (p : Final ℕ Unit × World) × (run_stream env runnable opts take_first tt 5 no_checkpoints
      ≡ some p)
run_stream_total_example = run_stream_total env runnable opts take_first tt 5 no_checkpoints

-- The run without the gate and without a checkpointer ends at END.
abbrev ungated : Runnable Body Choice
ungated = record runnable { interrupt_before = [] }

abbrev no_store : RunOptions ℕ Unit World Unit
no_store = record opts { checkpointer = none; run_id = "" }

invoke-finishes :
    invoke_with env ungated no_store tt 5 no_checkpoints
    ≡ some (record { state = 7; error = none }, no_checkpoints)
unfolding invoke_with run_loop rounds round dispatch max_steps_or_default enter contains lookup
    execute save_checkpoint run_node safe_call_node resolve_next suc_ℤ interrupt log
    log_panic_if_any node_after node_before run_after run_before finish validate_run_options has
invoke-finishes = refl

-- The state has grown by one for each step.
abbrev Grown : String → ℤ → ℕ → Type 0
Grown n i s = (k : ℕ) × (i ≡ pos k) × (s ≡ 5 + k)

bodies : (n : String) (fn : Body) → lookup n ungated.nodes ≡ some fn → fn ≡ add_one
unfolding lookup
bodies n fn h = elim (Bool-cases ("b" == n)) [
  | inl b ↦ cc (rw (b, lookup) at h)
  | inr b ↦ elim (Bool-cases ("a" == n)) [
    | inl a ↦ cc (rw (b, a, lookup) at h)
    | inr a ↦ cc (rw (b, a, lookup) at h)
  ]
]

grows : Keeps ungated Grown
unfolding suc_ℤ
grows n fn i ctx s out w next known (k, step, size) ran chosen =
    let one : ◌≡◌ {A = Outcome Unit ℕ} (returned (s + 1)) (returned out) =
      sym (ap (λ (f : Body). (f ctx s w).0) (bodies n fn known)) ∙ ran in
    let same : s + 1 ≡ out = cc one in (suc k, ap suc_ℤ step, omega arith)

invoke_with-Ends_example : EndsWith ungated Grown 100 7 none
unfolding max_steps_or_default
invoke_with-Ends_example =
    invoke_with-Ends env ungated no_store Grown grows tt 5 no_checkpoints no_checkpoints
      (record { state = 7; error = none }) (0, refl, refl) invoke-finishes
