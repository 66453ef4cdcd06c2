-- ===== src/Graph/Stream/Total.antt =====
-- A stream of pkg/graph/runnable.go ends, whatever its consumer takes.
use galdor.Prelude.{
  Exit-cases, ℕ, zero, suc, ◌≤◌, pos, suc_ℤ, reaches, Bool, false, Bool-cases, Option, none, some,
  Option-cases, ◌≡◌, inl, inr, refl, arith, ◌==◌, go_on, lookup, contains,
}
use native.Mathlib.Nat.{le_refl}
use galdor.Graph.Core.{
  end_node, NodeErr, NodeFunc, Router, Runnable, RunOptions, Env, at_end, at_interrupt,
}
use galdor.Graph.Hooks.{run_before}
use galdor.Graph.Run.{
  Hop, Final, final, bound, save_checkpoint, step_limit, rounds_left, validate_run_options,
  close_run,
}
use galdor.Graph.Run.Total.{map_total, rounds_left-step, rounds_left_pos}
use galdor.Graph.Stream.{
  Event, StreamHop, run_start, error, stream_finish, stream_interrupt, stream_after_node_call,
  stream_execute, stream_enter, stream_dispatch, stream_round, stream_rounds, stream_body,
  run_stream,
}

module _ {S Ctx W X : Type 0} (env : Env Ctx W X) (r : Runnable (NodeFunc S Ctx W X) (Router S X))
    (opts : RunOptions S Ctx W X) (emit : Ctx → Event S X → W → Bool × W) where
  stream_finish-exits :
      (ctx : Ctx) (h h' : StreamHop S) (w w' : W)
      → stream_finish env r opts emit ctx h w ≡ (go_on h', w')
      → ⊥
  unfolding stream_finish
  stream_finish-exits ctx h h' w w' p =
      elim (Option-cases (save_checkpoint env opts h.step end_node h.state at_end w).0) [
        | inl e ↦ cc (rw e at p)
        | inr (x, e) ↦ cc (rw e at p)
      ]

  stream_interrupt-exits :
      (ctx : Ctx) (h h' : StreamHop S) (w w' : W)
      → stream_interrupt env r opts emit ctx h w ≡ (go_on h', w')
      → ⊥
  unfolding stream_interrupt
  stream_interrupt-exits ctx h h' w w' p =
      elim (Option-cases
        (save_checkpoint env opts (suc_ℤ h.step) h.next h.state at_interrupt w).0) [
          | inl e ↦ cc (rw e at p)
          | inr (x, e) ↦ cc (rw e at p)
        ]

  stream_after_node_call-step :
      (ctx : Ctx) (h h' : StreamHop S) (o : S × Option (NodeErr X)) (w w' : W)
      → stream_after_node_call env r opts emit ctx h o w ≡ (go_on h', w')
      → h'.step ≡ suc_ℤ h.step
  stream_after_node_call-step ctx h h' (out, some e) w w' p = cc
  stream_after_node_call-step ctx h h' (out, none) w w' p = ground arith

  stream_execute-step :
      (fn : NodeFunc S Ctx W X) (ctx : Ctx) (h h' : StreamHop S) (w w' : W)
      → stream_execute env r opts emit fn ctx h w ≡ (go_on h', w')
      → h'.step ≡ suc_ℤ h.step
  unfolding stream_execute
  stream_execute-step fn ctx h h' w w' p = ground arith

  stream_enter-step :
      (ctx : Ctx) (h h' : StreamHop S) (w w' : W)
      → stream_enter env r opts emit ctx h w ≡ (go_on h', w')
      → h'.step ≡ suc_ℤ h.step
  unfolding stream_enter
  stream_enter-step ctx h h' w w' p = elim (Bool-cases (contains h.next r.interrupt_before)) [
    | inl e ↦ absurd (stream_interrupt-exits ctx h h' w w' (rw e at p))
    | inr e ↦ elim (Option-cases (lookup h.next r.nodes)) [
      | inl n ↦ cc (rw (e, n) at p)
      | inr (fn, n) ↦ stream_execute-step fn ctx h h' w w' (rw (e, n) at p)
    ]
  ]

  stream_round-step :
      (limit : ℕ) (ctx : Ctx) (h h' : StreamHop S) (w w' : W)
      → stream_round env r opts emit limit ctx h w ≡ (go_on h', w')
      → (reaches limit h.step ≡ false) × (h'.step ≡ suc_ℤ h.step)
  unfolding stream_round stream_dispatch
  stream_round-step limit ctx h h' w w' p = elim (Option-cases (env.ctx_err ctx w).0) [
    | inr (x, c) ↦ cc (rw c at p)
    | inl c ↦ elim (Bool-cases (h.next == end_node)) [
      | inl e ↦ absurd (stream_finish-exits ctx h h' _ w' (rw (c, e, stream_dispatch) at p))
      | inr e ↦ elim (Bool-cases (reaches limit h.step)) [
        | inl l ↦ cc (rw (c, e, l, stream_dispatch) at p)
        | inr l ↦ (l, stream_enter-step ctx h h' _ w' (rw (c, e, l, stream_dispatch) at p))
      ]
    ]
  ]

  abbrev at_hop : StreamHop S → Hop S
  at_hop h = record { state = h.state; next = h.next; step = h.step; bypass_interrupt = false }

  stream_rounds_total :
      (fuel limit : ℕ) (ctx : Ctx) (h : StreamHop S) (w : W)
      → rounds_left env r opts limit h.step ≤ fuel
      → (p : Final S X × W) × (stream_rounds env r opts emit fuel limit ctx h w ≡ some p)
  unfolding stream_rounds
  stream_rounds_total zero limit ctx h w b =
      absurd (ground (arith, rounds_left_pos env r opts limit (at_hop h)))
  stream_rounds_total (suc fuel) limit ctx h w b =
      elim (Exit-cases (stream_round env r opts emit limit ctx h w)) [
        | inl (f, w', e) ↦ ((f, w'), rw e)
        | inr (h', w', e) ↦
            let q = stream_round-step limit ctx h h' w w' e in
            let left = rounds_left-step env r opts limit (at_hop h) (at_hop h') (q.0, q.1, refl) in
            rw e (stream_rounds_total fuel limit ctx h' w' (omega arith))
      ]

  stream_body_total :
      (ctx : Ctx) (initial : S) (w : W)
      → (p : Final S X × W) × (stream_body env r opts emit ctx initial w ≡ some p)
  unfolding stream_body
  stream_body_total ctx initial w =
      let event : Event S X = record {
        type = run_start;
        node = r.entry;
        state = some initial;
        step = pos 0;
        err = none;
      } in
      let h : StreamHop S = record { state = initial; next = r.entry; step = pos 0 } in
      let limit = step_limit env r opts in
      elim (Bool-cases (emit ctx event w).0) [
        | inl t ↦
            rw (t, stream_body)
              (stream_rounds_total (rounds_left env r opts limit (pos 0)) limit ctx h
                (emit ctx event w).1 (le_refl _))
        | inr t ↦ (
          (record { state = initial; error = none }, (emit ctx event w).1),
          rw (t, stream_body) refl,
        )
      ]

  -- A stream ends, whatever the graph, the options, the world and the events that its consumer takes.
  pub run_stream_total :
      (ctx : Ctx) (initial : S) (w : W)
      → (p : Final S X × W) × (run_stream env r opts emit ctx initial w ≡ some p)
  unfolding run_stream
  run_stream_total ctx initial w = elim (Option-cases (validate_run_options env r opts)) [
    | inl e ↦
        let (run_ctx, w1) = bound env opts.timeout ctx w in
        let (hook_ctx, w2) = run_before opts.hooks opts.logger run_ctx opts.run_id initial w1 in
        rw (e, run_stream)
          (map_total (close_run env r opts run_ctx hook_ctx) _
            (stream_body_total hook_ctx initial w2))
    | inr (x, e) ↦
        let event : Event S X = record {
          type = error;
          node = "";
          state = none;
          step = pos 0;
          err = some x;
        } in
        ((final initial x, (emit ctx event w).1), rw (e, run_stream) refl)
  ]
