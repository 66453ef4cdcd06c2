-- ===== src/Graph/Run/Total.antt =====
-- The run loop of pkg/graph/runnable.go ends: its step limit bounds the rounds.
use mathlib.Core.Option
use galdor.Prelude.{
  ℕ, zero, suc, ◌≤◌, ◌<◌, ℤ, pos, suc_ℤ, pred_ℤ, reaches, String, Bool, true, false, Option,
  Option-cases, Exit-cases, none, some, ◌≡◌, refl, ◌==◌, arith, go_on, lookup, contains, not, ◌&&◌,
  Bool-cases, inl, inr,
}
use native.Mathlib.Nat.{le_refl}
use galdor.Graph.Core.{
  end_node, at_end, at_interrupt, resume_missing_checkpointer, resume_missing_run_id, NodeErr,
  NodeFunc, Router, Runnable, RunOptions, Env, Checkpointer, Loaded, load_error, not_found, found,
}
use galdor.Graph.Hooks.{run_before}
use galdor.Graph.Run.{
  bound, final, close_run, Hop, Final, finish, interrupt, after_node_call, execute, enter, dispatch,
  round, rounds, rounds_left, step_limit, run_loop, validate_run_options, state_or, resume_loaded,
  resume_from, invoke_with, resume, save_checkpoint,
}

pub map_total {ℓ} :
    {A B : Type ℓ} (f : A → B) (o : Option A)
    → (a : A) × (o ≡ some a)
    → (b : B) × (Option.map f o ≡ some b)
map_total f o (a, e) = (f a, rw (e, Option.map))

-- One round nearer to the limit.
abbrev pub Advances : {S : Type 0} → ℕ → Hop S → Hop S → Type 0
Advances limit h h' =
    (reaches limit h.step ≡ false) × (h'.step ≡ suc_ℤ h.step) × (h'.bypass_interrupt ≡ false)

module _ {S Ctx W X : Type 0} (env : Env Ctx W X) (r : Runnable (NodeFunc S Ctx W X) (Router S X))
    (opts : RunOptions S Ctx W X) where
  after_node_call-step :
      (h h' : Hop S) (o : S × Option (NodeErr X)) (w w' : W)
      → after_node_call env r opts h o w ≡ (go_on h', w')
      → (h'.step ≡ suc_ℤ h.step) × (h'.bypass_interrupt ≡ false)
  after_node_call-step h h' (out, some e) w w' p = cc
  after_node_call-step h h' (out, none) w w' p = ground arith

  execute-step :
      (fn : NodeFunc S Ctx W X) (ctx : Ctx) (h h' : Hop S) (w w' : W)
      → execute env r opts fn ctx h w ≡ (go_on h', w')
      → (h'.step ≡ suc_ℤ h.step) × (h'.bypass_interrupt ≡ false)
  unfolding execute
  execute-step fn ctx h h' w w' p = ground arith

  finish-exits : (h h' : Hop S) (w w' : W) → finish env r opts h w ≡ (go_on h', w') → ⊥
  unfolding finish
  finish-exits h h' w w' p =
      elim (Option-cases (save_checkpoint env opts h.step end_node h.state at_end w).0) [
        | inl e ↦ cc (rw e at p)
        | inr (x, e) ↦ cc (rw e at p)
      ]

  interrupt-exits : (h h' : Hop S) (w w' : W) → interrupt env r opts h w ≡ (go_on h', w') → ⊥
  unfolding interrupt
  interrupt-exits h h' w w' p =
      elim (Option-cases
        (save_checkpoint env opts (suc_ℤ h.step) h.next h.state at_interrupt w).0) [
          | inl e ↦ cc (rw e at p)
          | inr (x, e) ↦ cc (rw e at p)
        ]

  enter-step :
      (ctx : Ctx) (h h' : Hop S) (w w' : W)
      → enter env r opts ctx h w ≡ (go_on h', w')
      → (h'.step ≡ suc_ℤ h.step) × (h'.bypass_interrupt ≡ false)
  unfolding enter
  enter-step ctx h h' w w' p =
      elim (Bool-cases (contains h.next r.interrupt_before && not h.bypass_interrupt)) [
        | inl e ↦ absurd (interrupt-exits h h' w w' (rw e at p))
        | inr e ↦ elim (Option-cases (lookup h.next r.nodes)) [
          | inl n ↦ cc (rw (e, n) at p)
          | inr (fn, n) ↦ execute-step fn ctx h h' w w' (rw (e, n) at p)
        ]
      ]

  dispatch-Advances :
      (limit : ℕ) (ctx : Ctx) (h h' : Hop S) (w w' : W)
      → dispatch env r opts limit ctx h w ≡ (go_on h', w')
      → Advances limit h h'
  unfolding dispatch
  dispatch-Advances limit ctx h h' w w' p = elim (Bool-cases (h.next == end_node)) [
    | inl e ↦ absurd (finish-exits h h' w w' (rw e at p))
    | inr e ↦ elim (Bool-cases (reaches limit h.step)) [
      | inl l ↦ cc (rw (e, l) at p)
      | inr l ↦ let q = enter-step ctx h h' w w' (rw (e, l) at p) in (l, q.0, q.1)
    ]
  ]

  pub round-Advances :
      (limit : ℕ) (ctx : Ctx) (h h' : Hop S) (w w' : W)
      → round env r opts limit ctx h w ≡ (go_on h', w')
      → Advances limit h h'
  unfolding round
  round-Advances limit ctx h h' w w' p = elim (Option-cases (env.ctx_err ctx w).0) [
    | inl e ↦ dispatch-Advances limit ctx h h' _ w' (rw e at p)
    | inr (x, e) ↦ cc (rw e at p)
  ]

  -- Each round but the last takes one off the rounds that are left.
  pub rounds_left-step :
      (limit : ℕ) (h h' : Hop S)
      → Advances limit h h'
      → rounds_left env r opts limit h'.step < rounds_left env r opts limit h.step
  unfolding suc_ℤ
  rounds_left-step limit h h' a = ground arith

  pub rounds_left_pos : (limit : ℕ) (h : Hop S) → 0 < rounds_left env r opts limit h.step
  rounds_left_pos limit h = ground arith

  -- With fuel for the rounds that are left the loop returns.
  pub rounds_total :
      (fuel limit : ℕ) (ctx : Ctx) (h : Hop S) (w : W)
      → rounds_left env r opts limit h.step ≤ fuel
      → (p : Final S X × W) × (rounds env r opts fuel limit ctx h w ≡ some p)
  unfolding rounds
  rounds_total zero limit ctx h w b = absurd (ground (arith, rounds_left_pos limit h))
  rounds_total (suc fuel) limit ctx h w b = elim (Exit-cases (round env r opts limit ctx h w)) [
    | inl (f, w', e) ↦ ((f, w'), rw e)
    | inr (h', w', e) ↦
        let left = rounds_left-step limit h h' (round-Advances limit ctx h h' w w' e) in
        rw e (rounds_total fuel limit ctx h' w' (omega arith))
  ]

  pub run_loop_total :
      (ctx : Ctx) (initial : S) (node : String) (step : ℤ) (bypass : Bool) (w : W)
      → (p : Final S X × W) × (run_loop env r opts ctx initial node step bypass w ≡ some p)
  unfolding run_loop
  run_loop_total ctx initial node step bypass w =
      let (run_ctx, w1) = bound env opts.timeout ctx w in
      let (hook_ctx, w2) = run_before opts.hooks opts.logger run_ctx opts.run_id initial w1 in
      let h : Hop S = record {
        state = initial;
        next = node;
        step = step;
        bypass_interrupt = bypass;
      } in
      let limit = step_limit env r opts in
      map_total (close_run env r opts run_ctx hook_ctx) _
        (rounds_total (rounds_left env r opts limit step) limit hook_ctx h w2 (le_refl _))

  -- `invoke_with` returns, whatever the graph, the options and the world.
  pub invoke_with_total :
      (ctx : Ctx) (initial : S) (w : W)
      → (p : Final S X × W) × (invoke_with env r opts ctx initial w ≡ some p)
  unfolding invoke_with
  invoke_with_total ctx initial w = elim (Option-cases (validate_run_options env r opts)) [
    | inl e ↦ rw (e, invoke_with) (run_loop_total ctx initial r.entry (pos 0) false w)
    | inr (x, e) ↦ ((final initial x, w), rw (e, invoke_with))
  ]

  resume_loaded_total :
      (ctx : Ctx) (zero_state : S) (l : Loaded S X × W)
      → (p : Final S X × W) × (resume_loaded env r opts ctx zero_state l ≡ some p)
  resume_loaded_total ctx zero_state (load_error x, w) = (_, refl)
  resume_loaded_total ctx zero_state (not_found, w) = (_, refl)
  resume_loaded_total ctx zero_state (found ck, w) =
      run_loop_total ctx (state_or env r opts opts.override_state ck.state) ck.node (pred_ℤ ck.step)
        true w

  resume_from_total :
      (ctx : Ctx) (zero_state : S) (w : W) (c : Option (Checkpointer S W X))
      → (p : Final S X × W) × (resume_from env r opts ctx zero_state w c ≡ some p)
  resume_from_total ctx zero_state w none =
      ((final zero_state resume_missing_checkpointer, w), refl)
  resume_from_total ctx zero_state w (some c) = elim (Bool-cases (opts.run_id == "")) [
    | inl i ↦ ((final zero_state resume_missing_run_id, w), rw i)
    | inr i ↦ rw i (resume_loaded_total ctx zero_state (c.load opts.run_id w))
  ]

  -- `resume` returns, whatever the checkpointer holds.
  pub resume_total :
      (ctx : Ctx) (zero_state : S) (w : W)
      → (p : Final S X × W) × (resume env r opts ctx zero_state w ≡ some p)
  unfolding resume
  resume_total ctx zero_state w = resume_from_total ctx zero_state w opts.checkpointer
