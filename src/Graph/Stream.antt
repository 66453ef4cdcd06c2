-- ===== src/Graph/Stream.antt =====
-- pkg/graph/runnable.go: `runStream`, and event.go. `emit ctx event` is the send on the channel
-- under `select` with `ctx.Done()`; it answers whether the consumer took the event. The deferred
-- recover is a backstop for panics that the modelled calls do not raise.
pub mod Agrees
pub mod Total
use mathlib.Core.Option
use galdor.Prelude.{
  ok, err, Exit, ℕ, suc, zero, ℤ, pos, suc_ℤ, reaches, String, Bool, true, false, Option, none,
  some, ◌==◌, if◌then◌else◌, lookup, contains, exit, go_on, Act, pure, stop, lift, ◌>>=◌, ◌>>◌,
}
use galdor.Graph.Core.{
  end_node, NodeErr, RunErr, context_done, max_steps_exceeded, unknown_node, interrupted,
  node_failed, NodeFunc, Router, Runnable, at_step, at_interrupt, at_end, RunOptions, Env,
}
use galdor.Graph.Hooks.{run_before, run_after, log_panic_if_any}
use galdor.Graph.Run.{
  close_run, Final, final, resolve_next, bound, release, save_checkpoint, run_node, step_limit,
  rounds_left, validate_run_options,
}

pub data EventType : Type 0 where
  run_start node_start node_end edge_traversed run_end error : EventType

-- An unset state is `none`, an unset node is "".
pub record Event (S X : Type 0) : Type 0 where
  pub type : EventType
  pub node : String
  pub state : Option S
  pub step : ℤ
  pub err : Option (RunErr X)

pub record StreamHop (S : Type 0) : Type 0 where
  pub state : S
  pub next : String
  pub step : ℤ

module _ {S X : Type 0} where
  abbrev progress : EventType → String → S → ℤ → Event S X
  progress type node state step = record {
    type = type;
    node = node;
    state = some state;
    step = step;
    err = none;
  }

  abbrev failure : String → Option S → ℤ → RunErr X → Event S X
  failure node state step e = record {
    type = error;
    node = node;
    state = state;
    step = step;
    err = some e;
  }

module _ {S Ctx W X : Type 0} (env : Env Ctx W X) (r : Runnable (NodeFunc S Ctx W X) (Router S X))
    (opts : RunOptions S Ctx W X) (emit : Ctx → Event S X → W → Bool × W) where
  abbrev taken_or_stop : S → Bool → Act W (Final S X) Unit
  taken_or_stop state taken w =
      if taken then (go_on tt, w) else (exit (record { state = state; error = none }), w)

  -- `if !emit(event) { return }`: `runErr` is still nil there.
  abbrev emit_or_stop : Ctx → S → Event S X → Act W (Final S X) Unit
  emit_or_stop ctx state event = do taken ← lift (emit ctx event); taken_or_stop state taken

  -- `runErr = err; emit(event); return`.
  abbrev fail : {A : Type 0} → Ctx → S → String → Option S → ℤ → RunErr X → Act W (Final S X) A
  fail ctx state node shown step e = do
    taken ← lift (emit ctx (failure node shown step e))
    stop (final state e)

  abbrev fail_on : Ctx → S → String → ℤ → Option (RunErr X) → Act W (Final S X) Unit
  fail_on ctx state node step o w = elim o [
    | none ↦ (go_on tt, w)
    | some e ↦ fail ctx state node none step e w
  ]

  abbrev context_fail : Ctx → StreamHop S → Option X → Act W (Final S X) Unit
  context_fail ctx h o w = elim o [
    | none ↦ (go_on tt, w)
    | some x ↦ fail ctx h.state "" none h.step (context_done x) w
  ]

  unfoldable pub stream_finish : Ctx → StreamHop S → Act W (Final S X) (StreamHop S)
  stream_finish ctx h = do
    e ← lift (save_checkpoint env opts h.step end_node h.state at_end)
    fail_on ctx h.state "" h.step e
    taken ← lift (emit ctx (progress run_end end_node h.state h.step))
    stop (record { state = h.state; error = none })

  unfoldable pub stream_interrupt : Ctx → StreamHop S → Act W (Final S X) (StreamHop S)
  stream_interrupt ctx h = do
    e ← lift (save_checkpoint env opts (suc_ℤ h.step) h.next h.state at_interrupt)
    fail_on ctx h.state "" h.step e
    fail ctx h.state h.next (some h.state) (suc_ℤ h.step) (interrupted h.next)

  abbrev pub stream_traverse : Ctx → StreamHop S → S → String → Act W (Final S X) (StreamHop S)
  stream_traverse ctx h out next = do
    emit_or_stop ctx out (progress edge_traversed next out (suc_ℤ h.step))
    pure (record { state = out; next = next; step = suc_ℤ h.step })

  abbrev pub stream_follow : Ctx → StreamHop S → S → Act W (Final S X) (StreamHop S)
  stream_follow ctx h out w = elim (resolve_next r h.next out) [
    | err e ↦ fail ctx out h.next none (suc_ℤ h.step) e w
    | ok next ↦ stream_traverse ctx h out next w
  ]

  abbrev pub stream_advance : Ctx → StreamHop S → S → Act W (Final S X) (StreamHop S)
  stream_advance ctx h out = do
    emit_or_stop ctx out (progress node_end h.next out (suc_ℤ h.step))
    stream_follow ctx h out

  abbrev pub stream_after_node_call :
      Ctx → StreamHop S → S × Option (NodeErr X) → Act W (Final S X) (StreamHop S)
  stream_after_node_call ctx h (out, some e) = do
    lift (λ w.
        (tt, log_panic_if_any env.wrapped_panic opts.logger opts.run_id h.next (suc_ℤ h.step) e w))
    fail ctx h.state h.next none (suc_ℤ h.step) (node_failed h.next e)
  stream_after_node_call ctx h (out, none) = stream_advance ctx h out

  unfoldable pub stream_execute :
      NodeFunc S Ctx W X → Ctx → StreamHop S → Act W (Final S X) (StreamHop S)
  stream_execute fn ctx h = do
    e ← lift (save_checkpoint env opts (suc_ℤ h.step) h.next h.state at_step)
    fail_on ctx h.state h.next (suc_ℤ h.step) e
    emit_or_stop ctx h.state (progress node_start h.next h.state (suc_ℤ h.step))
    o ← lift (run_node env opts ctx fn h.next (suc_ℤ h.step) h.state)
    stream_after_node_call ctx h o

  unfoldable pub stream_enter : Ctx → StreamHop S → Act W (Final S X) (StreamHop S)
  stream_enter ctx h w =
      if contains h.next r.interrupt_before
      then stream_interrupt ctx h w
      else elim (lookup h.next r.nodes) [
        | none ↦ fail ctx h.state "" none (suc_ℤ h.step) (unknown_node h.next none) w
        | some fn ↦ stream_execute fn ctx h w
      ]

  unfoldable pub stream_dispatch : ℕ → Ctx → StreamHop S → Act W (Final S X) (StreamHop S)
  stream_dispatch limit ctx h w =
      if h.next == end_node
      then stream_finish ctx h w
      else if reaches limit h.step
      then fail ctx h.state "" none h.step (max_steps_exceeded limit) w
      else stream_enter ctx h w

  unfoldable pub stream_round : ℕ → Ctx → StreamHop S → Act W (Final S X) (StreamHop S)
  stream_round limit ctx h = do
    e ← lift (env.ctx_err ctx)
    context_fail ctx h e
    stream_dispatch limit ctx h

  abbrev pub after_stream_round :
      (StreamHop S → W → Option (Final S X × W))
      → Exit (Final S X) (StreamHop S) × W
      → Option (Final S X × W)
  after_stream_round next_round (exit f, w) = some (f, w)
  after_stream_round next_round (go_on h, w) = next_round h w

  -- The `for` loop; `none` means that the fuel ran out.
  unfoldable pub stream_rounds : ℕ → ℕ → Ctx → StreamHop S → W → Option (Final S X × W)
  stream_rounds zero limit ctx h w = none
  stream_rounds (suc fuel) limit ctx h w =
      after_stream_round (stream_rounds fuel limit ctx) (stream_round limit ctx h w)

  -- The statements between the hook `BeforeRun` and the deferred `AfterRun`.
  unfoldable pub stream_body : Ctx → S → W → Option (Final S X × W)
  stream_body ctx initial w =
      let (taken, w') = emit ctx (progress run_start r.entry initial (pos 0)) w in
      let h : StreamHop S = record { state = initial; next = r.entry; step = pos 0 } in
      let limit = step_limit env r opts in
      let run = stream_rounds (rounds_left env r opts limit (pos 0)) limit ctx h w' in
      if taken then run else some (record { state = initial; error = none }, w')

  -- The final state and error are those that `AfterRun` observes.
  unfoldable pub run_stream : Ctx → S → W → Option (Final S X × W)
  run_stream ctx initial w = elim (validate_run_options env r opts) [
    | some e ↦
        let (taken, w') = emit ctx (failure "" none (pos 0) e) w in some (final initial e, w')
    | none ↦
        let (run_ctx, w1) = bound env opts.timeout ctx w in
        let (hook_ctx, w2) = run_before opts.hooks opts.logger run_ctx opts.run_id initial w1 in
        Option.map (close_run env r opts run_ctx hook_ctx) (stream_body hook_ctx initial w2)
  ]
