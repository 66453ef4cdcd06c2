-- ===== src/Graph/Run.antt =====
-- pkg/graph/runnable.go: `resolveNext`, `runLoop`, `InvokeWith` and `Resume`. One round of the loop
-- is `round`; it ends the run or leaves the loop's variables for the next round. The error texts
-- are dropped, with the elapsed time that a time-out carries. A panic of a checkpointer, which the
-- code does not recover here, is not modelled.
pub mod Total
pub mod Safety
mod Saves
pub mod Invariant
pub mod Next
pub mod Resume
use mathlib.Core.Option
use galdor.Prelude.{
  Result, ok, err, Exit, ℕ, suc, zero, ◌+◌, ◌-◌, ℤ, pos, negsuc, suc_ℤ, pred_ℤ, is_positive,
  reaches, String, Bool, true, false, not, ◌&&◌, Option, none, some, ◌==◌, if◌then◌else◌, lookup,
  has, contains, is_some, exit, go_on, Act, pure, stop, stop_on, lift, ◌>>=◌, ◌>>◌,
}
use galdor.Graph.Core.{
  Checkpointer, end_node, NodeErr, RunErr, context_done, timed_out, max_steps_exceeded,
  unknown_node, interrupted, node_failed, save_failed, load_failed, router_panic,
  empty_router_result, unknown_branch_label, no_outgoing_edge, resume_missing_checkpointer,
  resume_missing_run_id, checkpointer_missing_run_id, checkpoint_not_found, NodeFunc, Routed,
  routed, router_panicked, Router, Runnable, CheckpointReason, at_step, at_interrupt, at_end,
  Loaded, load_error, not_found, found, RunOptions, Env,
}
use galdor.Graph.Hooks.{
  no_hooks, run_before, run_after, node_before, node_after, safe_call_node, log_panic_if_any,
}

abbrev pub default_max_steps : ℕ
default_max_steps = 100

-- A limit that is set, if it is positive.
abbrev pub positive_or : ℤ → ℕ → ℕ
positive_or (pos (suc n)) d = suc n
positive_or _ d = d

-- `maxStepsOrDefault`.
unfoldable pub max_steps_or_default {ℓ} : {A : Type ℓ} → (A → ℤ) → A → ℕ
max_steps_or_default max_steps r = positive_or (max_steps r) default_max_steps

-- The loop's variables.
pub record Hop (S : Type 0) : Type 0 where
  pub state : S
  pub next : String
  pub step : ℤ
  pub bypass_interrupt : Bool

-- `RunOptions[S]{}`.
abbrev pub no_options : {S Ctx W X : Type 0} → RunOptions S Ctx W X
no_options = record {
  checkpointer = none;
  run_id = "";
  max_steps = pos 0;
  override_state = none;
  hooks = no_hooks;
  timeout = pos 0;
  node_timeout = pos 0;
  logger = none;
}

-- What `runLoop` returns.
pub record Final (S X : Type 0) : Type 0 where
  pub state : S
  pub error : Option (RunErr X)

module _ {S X N : Type 0} where
  abbrev pub known_or : Runnable N (Router S X) → String → String → Result (RunErr X) String
  known_or r current out =
      if out == end_node
      then ok out
      else if has out r.nodes
      then ok out
      else err (unknown_node out (some current))

  abbrev pub route : Runnable N (Router S X) → String → Routed X → Result (RunErr X) String
  route r current (router_panicked x) = err (router_panic current x)
  route r current (routed out) =
      if out == "" then err (empty_router_result current) else elim (lookup current r.branch_maps) [
        | some branches ↦ elim (lookup out branches) [
          | none ↦ err (unknown_branch_label current out)
          | some next ↦ ok next
        ]
        | none ↦ known_or r current out
      ]

  unfoldable pub resolve_next : Runnable N (Router S X) → String → S → Result (RunErr X) String
  resolve_next r current state = elim (lookup current r.static_edges) [
    | some next ↦ ok next
    | none ↦ elim (lookup current r.conditional_edges) [
      | some router ↦ route r current (router state)
      | none ↦ err (no_outgoing_edge current)
    ]
  ]

module _ {Ctx W X : Type 0} where
  -- `if limit > 0 { ctx, cancel = context.WithTimeout(ctx, limit) }`.
  abbrev pub bound : Env Ctx W X → ℤ → Ctx → W → Ctx × W
  bound env limit ctx w = if is_positive limit then env.with_timeout limit ctx w else (ctx, w)

  abbrev pub release : Env Ctx W X → ℤ → Ctx → W → W
  release env limit ctx w = if is_positive limit then env.cancel ctx w else w

abbrev pub as_save_failed : {X : Type 0} → Option X → Option (RunErr X)
as_save_failed none = none
as_save_failed (some x) = some (save_failed x)

abbrev pub final : {S X : Type 0} → S → RunErr X → Final S X
final s e = record { state = s; error = some e }

module _ {S Ctx W X : Type 0} where
  unfoldable pub save_checkpoint :
      Env Ctx W X
      → RunOptions S Ctx W X
      → ℤ
      → String
      → S
      → CheckpointReason
      → W
      → Option (RunErr X) × W
  save_checkpoint env opts step node state reason w =
      let (t, w1) = env.now w in
      elim opts.checkpointer [
        | none ↦ (none, w1)
        | some c ↦
            let (e, w2) =
              c.save
                (record {
                  run_id = opts.run_id;
                  step = step;
                  node = node;
                  state = state;
                  reason = reason;
                  created_at = t;
                })
                w1 in
            (as_save_failed e, w2)
      ]

  -- A node between its two hooks, under the node's own time limit.
  unfoldable pub run_node :
      Env Ctx W X
      → RunOptions S Ctx W X
      → Ctx
      → NodeFunc S Ctx W X
      → String
      → ℤ
      → S
      → W
      → (S × Option (NodeErr X)) × W
  run_node env opts ctx fn node step state w =
      let (hook_ctx, w1) = node_before opts.hooks opts.logger ctx opts.run_id node step state w in
      let (node_ctx, w2) = bound env opts.node_timeout hook_ctx w1 in
      let ((out, e), w3) = safe_call_node fn node_ctx state w2 in
      let w4 = node_after opts.hooks opts.logger node_ctx opts.run_id node step out e w3 in
      ((out, e), release env opts.node_timeout node_ctx w4)

module _ {S Ctx W X : Type 0} (env : Env Ctx W X) (r : Runnable (NodeFunc S Ctx W X) (Router S X))
    (opts : RunOptions S Ctx W X) where
  -- The run's own deadline is told apart from the caller's.
  abbrev pub context_error : X → RunErr X
  context_error x =
      if is_positive opts.timeout && env.is_deadline_exceeded x then timed_out x else context_done x

  abbrev pub save_or_stop : ℤ → String → S → CheckpointReason → Act W (Final S X) Unit
  save_or_stop step node state reason = do
    e ← lift (save_checkpoint env opts step node state reason)
    stop_on (final state) tt e

  -- The checkpoint and the return at END.
  unfoldable pub finish : Hop S → Act W (Final S X) (Hop S)
  finish h = do
    save_or_stop h.step end_node h.state at_end
    stop (record { state = h.state; error = none })

  unfoldable pub interrupt : Hop S → Act W (Final S X) (Hop S)
  interrupt h = do
    save_or_stop (suc_ℤ h.step) h.next h.state at_interrupt
    stop (final h.state (interrupted h.next))

  abbrev pub advance : Hop S → S → Act W (Final S X) (Hop S)
  advance h out w = elim (resolve_next r h.next out) [
    | err e ↦ (exit (final out e), w)
    | ok next ↦ (
      go_on (record { state = out; next = next; step = suc_ℤ h.step; bypass_interrupt = false }),
      w,
    )
  ]

  abbrev pub after_node_call : Hop S → S × Option (NodeErr X) → Act W (Final S X) (Hop S)
  after_node_call h (out, some e) = do
    lift (λ w.
        (tt, log_panic_if_any env.wrapped_panic opts.logger opts.run_id h.next (suc_ℤ h.step) e w))
    stop (final h.state (node_failed h.next e))
  after_node_call h (out, none) = advance h out

  -- The checkpoint, the node and the choice of the next node.
  unfoldable pub execute : NodeFunc S Ctx W X → Ctx → Hop S → Act W (Final S X) (Hop S)
  execute fn ctx h = do
    save_or_stop (suc_ℤ h.step) h.next h.state at_step
    o ← lift (run_node env opts ctx fn h.next (suc_ℤ h.step) h.state)
    after_node_call h o

  -- The loop's body below the test of the step limit.
  unfoldable pub enter : Ctx → Hop S → Act W (Final S X) (Hop S)
  enter ctx h w =
      if contains h.next r.interrupt_before && not h.bypass_interrupt
      then interrupt h w
      else elim (lookup h.next r.nodes) [
        | none ↦ stop (final h.state (unknown_node h.next none)) w
        | some fn ↦ execute fn ctx h w
      ]

  -- The loop's body below the test of the context.
  unfoldable pub dispatch : ℕ → Ctx → Hop S → Act W (Final S X) (Hop S)
  dispatch limit ctx h w =
      if h.next == end_node
      then finish h w
      else if reaches limit h.step
      then stop (final h.state (max_steps_exceeded limit)) w
      else enter ctx h w

  unfoldable pub round : ℕ → Ctx → Hop S → Act W (Final S X) (Hop S)
  round limit ctx h = do
    e ← lift (env.ctx_err ctx)
    stop_on (λ x. final h.state (context_error x)) tt e
    dispatch limit ctx h

  abbrev pub after_round :
      (Hop S → W → Option (Final S X × W)) → Exit (Final S X) (Hop S) × W → Option (Final S X × W)
  after_round next_round (exit f, w) = some (f, w)
  after_round next_round (go_on h, w) = next_round h w

  -- The `for` loop; `none` means that the fuel ran out.
  unfoldable pub rounds : ℕ → ℕ → Ctx → Hop S → W → Option (Final S X × W)
  rounds zero limit ctx h w = none
  rounds (suc fuel) limit ctx h w = after_round (rounds fuel limit ctx) (round limit ctx h w)

  -- The limit of this call, then of the runnable, then the default.
  abbrev pub step_limit : ℕ
  step_limit =
      positive_or opts.max_steps (max_steps_or_default (λ (x : Runnable _ _). x.max_steps) r)

  -- How many rounds are left before the step limit, counting the one that meets it.
  abbrev pub rounds_left : ℕ → ℤ → ℕ
  rounds_left limit (pos n) = suc (limit - n)
  rounds_left limit (negsuc n) = suc (limit + suc n)

  -- The deferred calls, the last one first.
  abbrev pub close_run : Ctx → Ctx → Final S X × W → Final S X × W
  close_run run_ctx hook_ctx (f, w) =
      let w' = run_after opts.hooks opts.logger hook_ctx opts.run_id f.state f.error w in
      (f, release env opts.timeout run_ctx w')

  unfoldable pub run_loop : Ctx → S → String → ℤ → Bool → W → Option (Final S X × W)
  run_loop ctx initial start_node start_step bypass w =
      let (run_ctx, w1) = bound env opts.timeout ctx w in
      let (hook_ctx, w2) = run_before opts.hooks opts.logger run_ctx opts.run_id initial w1 in
      let h : Hop S = record {
        state = initial;
        next = start_node;
        step = start_step;
        bypass_interrupt = bypass;
      } in
      Option.map (close_run run_ctx hook_ctx)
        (rounds (rounds_left step_limit start_step) step_limit hook_ctx h w2)

  unfoldable pub validate_run_options : Option (RunErr X)
  validate_run_options =
      if is_some opts.checkpointer && opts.run_id == ""
      then some checkpointer_missing_run_id
      else none

  unfoldable pub invoke_with : Ctx → S → W → Option (Final S X × W)
  unfolding validate_run_options
  invoke_with ctx initial w = elim validate_run_options [
    | some e ↦ some (final initial e, w)
    | none ↦ run_loop ctx initial r.entry (pos 0) false w
  ]

  abbrev pub state_or : Option S → S → S
  state_or none s = s
  state_or (some s') s = s'

  abbrev pub resume_loaded : Ctx → S → Loaded S X × W → Option (Final S X × W)
  resume_loaded ctx zero_state (load_error x, w) = some (final zero_state (load_failed x), w)
  resume_loaded ctx zero_state (not_found, w) =
      some (final zero_state (checkpoint_not_found opts.run_id), w)
  resume_loaded ctx zero_state (found ck, w) =
      run_loop ctx (state_or opts.override_state ck.state) ck.node (pred_ℤ ck.step) true w

  abbrev pub resume_from : Ctx → S → W → Option (Checkpointer S W X) → Option (Final S X × W)
  resume_from ctx zero_state w none = some (final zero_state resume_missing_checkpointer, w)
  resume_from ctx zero_state w (some c) =
      if opts.run_id == ""
      then some (final zero_state resume_missing_run_id, w)
      else resume_loaded ctx zero_state (c.load opts.run_id w)

  -- `zero_state` is Go's zero value of the state type.
  unfoldable pub resume : Ctx → S → W → Option (Final S X × W)
  resume ctx zero_state w = resume_from ctx zero_state w opts.checkpointer
