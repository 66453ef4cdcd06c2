-- ===== src/Graph/Stream/Agrees.antt =====
-- `StreamWith` of pkg/graph/runnable.go against `InvokeWith`.
use mathlib.Core.Option
use galdor.Prelude.{
  Exit, exit, go_on, Result-cases, ℕ, zero, suc, pos, is_positive, reaches, suc_ℤ, Bool, true,
  false, Bool-cases, Option, none, some, Option-cases, ◌≡◌, inl, inr, refl, ap, ◌∙◌, ◌==◌, lookup,
  contains,
}
use galdor.Graph.Core.{
  end_node, NodeErr, NodeFunc, Router, Runnable, RunOptions, Env, at_step, at_end, at_interrupt,
}
use galdor.Graph.Hooks.{run_before}
use galdor.Graph.Run.{
  Hop, Final, resolve_next, bound, save_checkpoint, run_node, finish, interrupt, advance,
  after_node_call, execute, enter, dispatch, round, rounds, after_round, step_limit, rounds_left,
  run_loop, validate_run_options, invoke_with, close_run,
}
use galdor.Graph.Stream.{
  Event, StreamHop, stream_finish, stream_interrupt, stream_follow, stream_after_node_call,
  stream_execute, stream_enter, stream_dispatch, stream_round, after_stream_round, stream_rounds,
  stream_body, run_stream,
}

-- A consumer that takes every event at once.
abbrev pub take_every : {S Ctx W X : Type 0} → Ctx → Event S X → W → Bool × W
take_every ctx event w = (true, w)

module _ {S Ctx W X : Type 0} (env : Env Ctx W X) (r : Runnable (NodeFunc S Ctx W X) (Router S X))
    (opts : RunOptions S Ctx W X) where
  abbrev hop_of : StreamHop S → Hop S
  hop_of h = record { state = h.state; next = h.next; step = h.step; bypass_interrupt = false }

  abbrev as_round : Exit (Final S X) (StreamHop S) × W → Exit (Final S X) (Hop S) × W
  as_round (exit f, w) = (exit f, w)
  as_round (go_on h, w) = (go_on (hop_of h), w)

  finish-agrees :
      (ctx : Ctx) (h : StreamHop S) (w : W)
      → as_round (stream_finish env r opts take_every ctx h w) ≡ finish env r opts (hop_of h) w
  unfolding stream_finish finish
  finish-agrees ctx h w =
      elim (Option-cases (save_checkpoint env opts h.step end_node h.state at_end w).0) [
        | inl e ↦ rw (e, stream_finish, finish) refl
        | inr (x, e) ↦ rw (e, stream_finish, finish) refl
      ]

  interrupt-agrees :
      (ctx : Ctx) (h : StreamHop S) (w : W)
      → as_round (stream_interrupt env r opts take_every ctx h w)
        ≡ interrupt env r opts (hop_of h) w
  unfolding stream_interrupt interrupt
  interrupt-agrees ctx h w =
      elim (Option-cases
        (save_checkpoint env opts (suc_ℤ h.step) h.next h.state at_interrupt w).0) [
          | inl e ↦ rw (e, stream_interrupt, interrupt) refl
          | inr (x, e) ↦ rw (e, stream_interrupt, interrupt) refl
        ]

  follow-agrees :
      (ctx : Ctx) (h : StreamHop S) (out : S) (w : W)
      → as_round (stream_follow env r opts take_every ctx h out w)
        ≡ advance env r opts (hop_of h) out w
  follow-agrees ctx h out w = elim (Result-cases (resolve_next r h.next out)) [
    | inl (next, e) ↦ rw (e, as_round, stream_follow, advance) refl
    | inr (x, e) ↦ rw (e, as_round, stream_follow, advance) refl
  ]

  after_node_call-agrees :
      (ctx : Ctx) (h : StreamHop S) (o : S × Option (NodeErr X)) (w : W)
      → as_round (stream_after_node_call env r opts take_every ctx h o w)
        ≡ after_node_call env r opts (hop_of h) o w
  after_node_call-agrees ctx h (out, some e) w = refl
  after_node_call-agrees ctx h (out, none) w = follow-agrees ctx h out w

  execute-agrees :
      (fn : NodeFunc S Ctx W X) (ctx : Ctx) (h : StreamHop S) (w : W)
      → as_round (stream_execute env r opts take_every fn ctx h w)
        ≡ execute env r opts fn ctx (hop_of h) w
  unfolding stream_execute execute
  execute-agrees fn ctx h w =
      let (o, w1) = save_checkpoint env opts (suc_ℤ h.step) h.next h.state at_step w in
      let (a, w2) = run_node env opts ctx fn h.next (suc_ℤ h.step) h.state w1 in
      elim (Option-cases o) [
        | inl e ↦ rw (e, stream_execute, execute) (after_node_call-agrees ctx h a w2)
        | inr (x, e) ↦ rw (e, stream_execute, execute) refl
      ]

  enter-agrees :
      (ctx : Ctx) (h : StreamHop S) (w : W)
      → as_round (stream_enter env r opts take_every ctx h w) ≡ enter env r opts ctx (hop_of h) w
  unfolding stream_enter enter
  enter-agrees ctx h w = elim (Bool-cases (contains h.next r.interrupt_before)) [
    | inl e ↦ rw (e, stream_enter, enter) (interrupt-agrees ctx h w)
    | inr e ↦ elim (Option-cases (lookup h.next r.nodes)) [
      | inl u ↦ rw (e, u, stream_enter, enter) refl
      | inr (fn, u) ↦ rw (e, u, stream_enter, enter) (execute-agrees fn ctx h w)
    ]
  ]

  dispatch-agrees :
      (limit : ℕ) (ctx : Ctx) (h : StreamHop S) (w : W)
      → as_round (stream_dispatch env r opts take_every limit ctx h w)
        ≡ dispatch env r opts limit ctx (hop_of h) w
  unfolding stream_dispatch dispatch
  dispatch-agrees limit ctx h w = elim (Bool-cases (h.next == end_node)) [
    | inl e ↦ rw (e, stream_dispatch, dispatch) (finish-agrees ctx h w)
    | inr e ↦ elim (Bool-cases (reaches limit h.step)) [
      | inl u ↦ rw (e, u, stream_dispatch, dispatch) refl
      | inr u ↦ rw (e, u, stream_dispatch, dispatch) (enter-agrees ctx h w)
    ]
  ]

  module _ (unbounded : is_positive opts.timeout ≡ false) where
    round-agrees :
        (limit : ℕ) (ctx : Ctx) (h : StreamHop S) (w : W)
        → as_round (stream_round env r opts take_every limit ctx h w)
          ≡ round env r opts limit ctx (hop_of h) w
    unfolding stream_round round
    round-agrees limit ctx h w = elim (Option-cases (env.ctx_err ctx w).0) [
      | inl e ↦ rw (e, stream_round, round) (dispatch-agrees limit ctx h (env.ctx_err ctx w).1)
      | inr (x, e) ↦ rw (e, unbounded, stream_round, round) refl
    ]

    after_round-agrees :
        (fuel : ℕ) (limit : ℕ) (ctx : Ctx) (x : Exit (Final S X) (StreamHop S) × W)
        → ((h : StreamHop S) (w : W)
            → stream_rounds env r opts take_every fuel limit ctx h w
              ≡ rounds env r opts fuel limit ctx (hop_of h) w)
        → after_stream_round env r opts take_every
            (stream_rounds env r opts take_every fuel limit ctx)
            x
          ≡ after_round env r opts (rounds env r opts fuel limit ctx) (as_round x)
    after_round-agrees fuel limit ctx (exit f, w) ih = refl
    after_round-agrees fuel limit ctx (go_on h, w) ih = ih h w

    rounds-agrees :
        (fuel : ℕ) (limit : ℕ) (ctx : Ctx) (h : StreamHop S) (w : W)
        → stream_rounds env r opts take_every fuel limit ctx h w
          ≡ rounds env r opts fuel limit ctx (hop_of h) w
    unfolding stream_rounds rounds
    rounds-agrees zero limit ctx h w = refl
    rounds-agrees (suc fuel) limit ctx h w =
        after_round-agrees fuel limit ctx (stream_round env r opts take_every limit ctx h w)
          (rounds-agrees fuel limit ctx)
        ∙ ap (after_round env r opts (rounds env r opts fuel limit ctx))
            (round-agrees limit ctx h w)

    -- When the consumer takes every event and no time limit is set on the run, a stream ends with
    -- the state, the error and the world (checkpoints, hooks' and nodes' effects included) of the
    -- `InvokeWith` call with the same arguments.
    pub stream-agrees :
        (ctx : Ctx) (initial : S) (w : W)
        → run_stream env r opts take_every ctx initial w ≡ invoke_with env r opts ctx initial w
    unfolding run_stream stream_body invoke_with run_loop
    stream-agrees ctx initial w = elim (Option-cases (validate_run_options env r opts)) [
      | inr (x, e) ↦ rw (e, run_stream, invoke_with) refl
      | inl e ↦
          let (run_ctx, w1) = bound env opts.timeout ctx w in
          let (hook_ctx, w2) = run_before opts.hooks opts.logger run_ctx opts.run_id initial w1 in
          let limit = step_limit env r opts in
          let h : StreamHop S = record { state = initial; next = r.entry; step = pos 0 } in
          rw (e, run_stream, invoke_with)
            (ap (Option.map (close_run env r opts run_ctx hook_ctx))
              (rounds-agrees (rounds_left env r opts limit (pos 0)) limit hook_ctx h w2))
    ]
