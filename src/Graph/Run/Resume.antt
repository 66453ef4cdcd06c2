-- ===== src/Graph/Run/Resume.antt =====
-- A run of pkg/graph/runnable.go that pauses at an interrupt gate, over `MemoryCheckpointer`, and
-- its continuation by `Resume`.
use galdor.Prelude.{
  Result, ok, err, Result-cases, ℕ, zero, suc, ℤ, pos, suc_ℤ, pred_ℤ, reaches, String, Bool, true,
  false, Bool-cases, Option, none, some, Option-cases, is_some, Exit, exit, go_on, Exit-cases, ◌≡◌,
  inl, inr, refl, sym, ap, ◌∙◌, subst, subst₂, ◌==◌, not, ◌&&◌, lookup, contains, arith,
  is_positive,
}
use galdor.Graph.Core.{
  checkpointer_missing_run_id, end_node, RunErr, interrupted, NodeErr, NodeFunc, Router, Runnable,
  Checkpoint, CheckpointReason, at_step, at_interrupt, at_end, found, RunOptions, Env, Routed,
  routed, router_panicked,
}
use galdor.Graph.Checkpoint.{MemoryCheckpointer, memory_checkpointer, load, save}
use galdor.Graph.Checkpoint.History.{load-save}
use galdor.Graph.Run.Saves.{save_checkpoint-fails}
use galdor.Graph.Run.Total.{rounds_total}
use galdor.Graph.Hooks.{run_before}
use native.Mathlib.Nat.{le_refl}
use galdor.Graph.Run.{
  bound, close_run, step_limit, rounds_left, resume_from, invoke_with, Hop, Final, final,
  resolve_next, route, finish, interrupt, advance, after_node_call, execute, enter, dispatch, round,
  rounds, run_loop, save_checkpoint, context_error, resume, state_or,
}

module _ {S X N : Type 0} (r : Runnable N (Router S X)) where
  route-not_paused : (n m : String) (x : Routed X) → route r n x ≡ err (interrupted m) → ⊥
  route-not_paused n m (router_panicked x) h = cc
  route-not_paused n m (routed out) h = ground arith

  -- No resolution of a next node reports an interrupt.
  resolve_next-not_paused : (n m : String) (s : S) → resolve_next r n s ≡ err (interrupted m) → ⊥
  unfolding resolve_next
  resolve_next-not_paused n m s h = elim (Option-cases (lookup n r.static_edges)) [
    | inr (next, e) ↦ cc (rw (e, resolve_next) at h)
    | inl e ↦ elim (Option-cases (lookup n r.conditional_edges)) [
      | inr (router, c) ↦ route-not_paused n m (router s) (rw (e, c, resolve_next) at h)
      | inl c ↦ cc (rw (e, c, resolve_next) at h)
    ]
  ]

module _ {S V Ctx X : Type 0} (clone : S → Result X S) (env : Env Ctx (MemoryCheckpointer S × V) X)
    (r : Runnable (NodeFunc S Ctx (MemoryCheckpointer S × V) X) (Router S X))
    (opts : RunOptions S Ctx (MemoryCheckpointer S × V) X)
    (stored : opts.checkpointer ≡ some (memory_checkpointer clone)) where
  -- The store holds the checkpoint of a pause at node `n` with the copied state.
  abbrev Saved : S → String → MemoryCheckpointer S → Type 0
  Saved s n m =
      (ck : Checkpoint S) × (load {X = X} opts.run_id m ≡ found ck)
      × (ck.node ≡ n)
      × (clone s ≡ ok ck.state)
      × (ck.reason ≡ at_interrupt)

  abbrev Paused : Final S X → MemoryCheckpointer S × V → Type 0
  Paused f w = (n : String) → f.error ≡ some (interrupted n) → Saved f.state n w.0

  abbrev Ends : Exit (Final S X) (Hop S) × (MemoryCheckpointer S × V) → Type 0
  Ends (exit f, w) = Paused f w
  Ends (go_on h, w) = Unit

  failed_save-Ends :
      (step : ℤ) (node : String) (s s' : S) (reason : CheckpointReason)
      (w w' : MemoryCheckpointer S × V) (e : RunErr X)
      → (save_checkpoint env opts step node s reason w).0 ≡ some e
      → Paused (final s' e) w'
  failed_save-Ends step node s s' reason w w' e h n p =
      let (x, q) = save_checkpoint-fails env opts step node s reason w e h in cc (q, p)

  advance-Ends :
      (h : Hop S) (out : S) (w : MemoryCheckpointer S × V) → Ends (advance env r opts h out w)
  advance-Ends h out w = elim (Result-cases (resolve_next r h.next out)) [
    | inl (next, e) ↦ rw (e, Ends) tt
    | inr (x, e) ↦ rw (e, Ends) (λ n p. absurd (resolve_next-not_paused r h.next n out (e ∙ cc p)))
  ]

  after_node_call-Ends :
      (h : Hop S) (o : S × Option (NodeErr X)) (w : MemoryCheckpointer S × V)
      → Ends (after_node_call env r opts h o w)
  after_node_call-Ends h (out, some e) w = λ n p. cc
  after_node_call-Ends h (out, none) w = advance-Ends h out w

  execute-Ends :
      (fn : NodeFunc S Ctx (MemoryCheckpointer S × V) X) (ctx : Ctx) (h : Hop S)
      (w : MemoryCheckpointer S × V)
      → Ends (execute env r opts fn ctx h w)
  unfolding execute
  execute-Ends fn ctx h w =
      elim (Option-cases (save_checkpoint env opts (suc_ℤ h.step) h.next h.state at_step w).0) [
        | inl e ↦ rw (e, execute) (after_node_call-Ends h _ _)
        | inr (x, e) ↦
            rw (e, execute)
              (failed_save-Ends (suc_ℤ h.step) h.next h.state h.state at_step w
                (save_checkpoint env opts (suc_ℤ h.step) h.next h.state at_step w).1 x e)
      ]

  finish-Ends : (h : Hop S) (w : MemoryCheckpointer S × V) → Ends (finish env r opts h w)
  unfolding finish
  finish-Ends h w =
      elim (Option-cases (save_checkpoint env opts h.step end_node h.state at_end w).0) [
        | inl e ↦ rw (e, finish) (λ n p. cc)
        | inr (x, e) ↦
            rw (e, finish)
              (failed_save-Ends h.step end_node h.state h.state at_end w
                (save_checkpoint env opts h.step end_node h.state at_end w).1 x e)
      ]

  Saved-at_gate :
      (h : Hop S) (w : MemoryCheckpointer S × V)
      → (save_checkpoint env opts (suc_ℤ h.step) h.next h.state at_interrupt w).0 ≡ none
      → Saved h.state h.next
          (save_checkpoint env opts (suc_ℤ h.step) h.next h.state at_interrupt w).1.0
  unfolding save_checkpoint memory_checkpointer save
  Saved-at_gate h w p = elim (Result-cases (clone h.state)) [
    | inr (x, c) ↦ cc (rw (stored, c, save_checkpoint, memory_checkpointer, save) at p)
    | inl (s, c) ↦
        let (t, w1) = env.now w in
        let ck : Checkpoint S = record {
          run_id = opts.run_id;
          step = suc_ℤ h.step;
          node = h.next;
          state = h.state;
          reason = at_interrupt;
          created_at = t;
        } in
        rw (stored, save_checkpoint)
          (record ck { state = s }, load-save clone ck s w1.0 c, refl, c, refl)
  ]

  interrupt-Ends : (h : Hop S) (w : MemoryCheckpointer S × V) → Ends (interrupt env r opts h w)
  unfolding interrupt
  interrupt-Ends h w =
      elim (Option-cases
        (save_checkpoint env opts (suc_ℤ h.step) h.next h.state at_interrupt w).0) [
          | inl e ↦
              rw (e, interrupt)
                (λ n p.
                  let same : h.next ≡ n = cc p in
                  subst
                    (λ m.
                      Saved h.state m
                        (save_checkpoint env opts (suc_ℤ h.step) h.next h.state at_interrupt w).1.0)
                    same (Saved-at_gate h w e))
          | inr (x, e) ↦
              rw (e, interrupt)
                (failed_save-Ends (suc_ℤ h.step) h.next h.state h.state at_interrupt w
                  (save_checkpoint env opts (suc_ℤ h.step) h.next h.state at_interrupt w).1 x e)
        ]

  enter-Ends :
      (ctx : Ctx) (h : Hop S) (w : MemoryCheckpointer S × V) → Ends (enter env r opts ctx h w)
  unfolding enter
  enter-Ends ctx h w =
      elim (Bool-cases (contains h.next r.interrupt_before && not h.bypass_interrupt)) [
        | inl g ↦ rw (g, enter) (interrupt-Ends h w)
        | inr g ↦ elim (Option-cases (lookup h.next r.nodes)) [
          | inl n ↦ rw (g, n, enter) (λ m p. cc)
          | inr (fn, n) ↦ rw (g, n, enter) (execute-Ends fn ctx h w)
        ]
      ]

  dispatch-Ends :
      (limit : ℕ) (ctx : Ctx) (h : Hop S) (w : MemoryCheckpointer S × V)
      → Ends (dispatch env r opts limit ctx h w)
  unfolding dispatch
  dispatch-Ends limit ctx h w = elim (Bool-cases (h.next == end_node)) [
    | inl e ↦ rw (e, dispatch) (finish-Ends h w)
    | inr e ↦ elim (Bool-cases (reaches limit h.step)) [
      | inl l ↦ rw (e, l, dispatch) (λ m p. cc)
      | inr l ↦ rw (e, l, dispatch) (enter-Ends ctx h w)
    ]
  ]

  context_error-Ends :
      (s : S) (x : X) (w : MemoryCheckpointer S × V)
      → Paused (final s (context_error env r opts x)) w
  context_error-Ends s x w =
      elim (Bool-cases (is_positive opts.timeout && env.is_deadline_exceeded x)) [
        | inl e ↦ rw e (λ n p. cc)
        | inr e ↦ rw e (λ n p. cc)
      ]

  round-Ends :
      (limit : ℕ) (ctx : Ctx) (h : Hop S) (w : MemoryCheckpointer S × V)
      → Ends (round env r opts limit ctx h w)
  unfolding round
  round-Ends limit ctx h w = elim (Option-cases (env.ctx_err ctx w).0) [
    | inl e ↦ rw (e, round) (dispatch-Ends limit ctx h _)
    | inr (x, e) ↦ rw (e, round) (context_error-Ends h.state x (env.ctx_err ctx w).1)
  ]

  rounds-Paused :
      (fuel limit : ℕ) (ctx : Ctx) (h : Hop S) (w w' : MemoryCheckpointer S × V) (f : Final S X)
      → rounds env r opts fuel limit ctx h w ≡ some (f, w')
      → Paused f w'
  unfolding rounds
  rounds-Paused zero limit ctx h w w' f p = cc
  rounds-Paused (suc fuel) limit ctx h w w' f p =
      let ends = round-Ends limit ctx h w in
      elim (Exit-cases (round env r opts limit ctx h w)) [
        | inl (f', w1, e) ↦
            let same : (f', w1) ≡ (f, w') = cc (rw e at p) in
            subst (λ (q : Final S X × (MemoryCheckpointer S × V)). Paused q.0 q.1) same
              (rw e at ends)
        | inr (h', w1, e) ↦ rounds-Paused fuel limit ctx h' w1 w' f (rw e at p)
      ]

  run_loop-Paused :
      ((run_ctx hook_ctx : Ctx) (f : Final S X) (w : MemoryCheckpointer S × V)
        → (close_run env r opts run_ctx hook_ctx (f, w)).1.0 ≡ w.0)
      → (ctx : Ctx) (initial : S) (node : String) (step : ℤ) (bypass : Bool)
        (w w' : MemoryCheckpointer S × V) (f : Final S X)
      → run_loop env r opts ctx initial node step bypass w ≡ some (f, w')
      → Paused f w'
  unfolding run_loop
  run_loop-Paused quiet ctx initial node step bypass w w' f p n q =
      let (run_ctx, w1) = bound env opts.timeout ctx w in
      let (hook_ctx, w2) = run_before opts.hooks opts.logger run_ctx opts.run_id initial w1 in
      let limit = step_limit env r opts in
      let h : Hop S = record {
        state = initial;
        next = node;
        step = step;
        bypass_interrupt = bypass;
      } in
      let ((f', w3), e) =
        rounds_total env r opts (rounds_left env r opts limit step) limit hook_ctx h w2
          (le_refl _) in
      let same : close_run env r opts run_ctx hook_ctx (f', w3) ≡ (f, w') =
        cc (rw (e, run_loop) at p) in
      let states : f' ≡ f = ap (λ (x : Final S X × (MemoryCheckpointer S × V)). x.0) same in
      let stores : w3.0 ≡ w'.0 =
        sym (quiet run_ctx hook_ctx f' w3)
        ∙ ap (λ (x : Final S X × (MemoryCheckpointer S × V)). x.1.0) same in
      let at_exit =
        rounds-Paused (rounds_left env r opts limit step) limit hook_ctx h w2 w3 f' e n
          (ap (λ (x : Final S X). x.error) states ∙ q) in
      subst₂ (λ (x : Final S X) m. Saved x.state n m) states stores at_exit

  -- `Resume` with a checkpoint in the store.
  resume-found :
      (ctx : Ctx) (zero_state : S) (w : MemoryCheckpointer S × V) (ck : Checkpoint S)
      → (opts.run_id == "") ≡ false
      → load {X = X} opts.run_id w.0 ≡ found ck
      → resume env r opts ctx zero_state w
        ≡ run_loop env r opts ctx
            (state_or env r opts opts.override_state ck.state)
            ck.node
            (pred_ℤ ck.step)
            true
            w
  unfolding resume memory_checkpointer
  resume-found ctx zero_state w ck named loaded =
      ap (resume_from env r opts ctx zero_state w) stored ∙ rw (named, loaded) refl

-- A run over `MemoryCheckpointer` that returns ErrInterrupted at a node has left a checkpoint of
-- that node with a copy of the returned state, and `Resume` on it runs the loop from that node and
-- the copy (or the override state), one step before the checkpoint's and past the gate. The
-- AfterRun hook and the cancel function are assumed to leave the store alone.
pub resume-after-interrupt :
    {S V Ctx X : Type 0} (clone : S → Result X S) (env : Env Ctx (MemoryCheckpointer S × V) X)
    (r : Runnable (NodeFunc S Ctx (MemoryCheckpointer S × V) X) (Router S X))
    (opts : RunOptions S Ctx (MemoryCheckpointer S × V) X) (ctx ctx' : Ctx) (initial zero_state : S)
    (w w' : MemoryCheckpointer S × V) (f : Final S X) (n : String)
    → opts.checkpointer ≡ some (memory_checkpointer clone)
    → ((run_ctx hook_ctx : Ctx) (g : Final S X) (v : MemoryCheckpointer S × V)
        → (close_run env r opts run_ctx hook_ctx (g, v)).1.0 ≡ v.0)
    → invoke_with env r opts ctx initial w ≡ some (f, w')
    → f.error ≡ some (interrupted n)
    → (ck : Checkpoint S) × (load {X = X} opts.run_id w'.0 ≡ found ck)
      × (ck.node ≡ n)
      × (clone f.state ≡ ok ck.state)
      × (resume env r opts ctx' zero_state w'
          ≡ run_loop env r opts ctx'
              (state_or env r opts opts.override_state ck.state)
              n
              (pred_ℤ ck.step)
              true
              w')
unfolding invoke_with
resume-after-interrupt clone env r opts ctx ctx' initial zero_state w w' f n stored quiet p q =
    elim (Bool-cases (is_some opts.checkpointer && opts.run_id == "")) [
      | inl e ↦
          let refused : final initial checkpointer_missing_run_id ≡ f =
            cc (rw (e, invoke_with) at p) in
          cc (ap (λ (x : Final _ _). x.error) refused, q)
      | inr e ↦
          let saved =
            run_loop-Paused clone env r opts stored quiet ctx initial r.entry (pos 0) false w w' f
              (rw (e, invoke_with) at p) n q in
          let named : (opts.run_id == "") ≡ false = rw stored at e in
          let (ck, loaded, at_node, copied, reason) = saved in
          (
            ck,
            loaded,
            at_node,
            copied,
            resume-found clone env r opts stored ctx' zero_state w' ck named loaded
                ∙ ap
                    (λ m.
                      run_loop env r opts ctx' (state_or env r opts opts.override_state ck.state) m
                        (pred_ℤ ck.step) true w')
                    at_node,
          )
    ]
