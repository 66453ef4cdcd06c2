-- ===== src/Graph/Run/Invariant.antt =====
-- The rule for an invariant of a run of pkg/graph/runnable.go: what holds at the entry and is kept
-- by each node with the choice of the next one holds where the run ends.
use galdor.Prelude.{
  Result-cases, ok, err, ℕ, zero, suc, negsuc, ℤ, pos, suc_ℤ, reaches, is_some, is_positive, ◌⊎◌,
  String, true, false, Option, none, some, Option-cases, Exit-cases, Bool-cases, ◌≡◌, inl, inr,
  refl, sym, ap, subst, ◌∙◌, ◌==◌, arith, eq_iff, lookup, contains, not, ◌&&◌, Post,
}
use native.Mathlib.Nat.{le_refl}
use galdor.Graph.Core.{
  end_node, Runnable, Router, RunErr, max_steps_exceeded, node_failed, no_outgoing_edge,
  checkpointer_missing_run_id, Routed, routed, NodeFunc, RunOptions, Env, NodeErr, CheckpointReason,
  at_end, at_step, at_interrupt, Outcome, returned, failed, panicked,
}
use galdor.Graph.Hooks.{run_before, safe_call_node, node_end}
use galdor.Graph.Run.Total.{rounds_total}
use galdor.Graph.Run.Saves.{save_checkpoint-fails}
use galdor.Graph.Run.{
  positive_or, default_max_steps, max_steps_or_default, bound, Hop, Final, final, resolve_next,
  route, run_node, finish, interrupt, advance, after_node_call, execute, enter, dispatch, round,
  rounds, step_limit, rounds_left, run_loop, invoke_with, save_checkpoint, context_error,
}

-- Without a limit in the options a run has the limit of its runnable.
pub step_limit-set :
    {S N : Type 0} (z : ℤ) (most : ℕ) (r : Runnable N S)
    → is_positive z ≡ false
    → r.max_steps ≡ pos (suc most)
    → positive_or z (max_steps_or_default (λ (x : Runnable _ _). x.max_steps) r) ≡ suc most
unfolding max_steps_or_default
step_limit-set z most r h e = limited z (r.max_steps) h e
  where
    limited :
        (z steps : ℤ)
        → is_positive z ≡ false
        → steps ≡ pos (suc most)
        → positive_or z (positive_or steps default_max_steps) ≡ suc most
    limited (pos zero) steps h e = ap (λ k. positive_or k default_max_steps) e
    limited (pos (suc n)) steps h e = cc
    limited (negsuc n) steps h e = ap (λ k. positive_or k default_max_steps) e

-- A router without a branch map names the next node itself.
pub route-plain :
    {S X N : Type 0} (r : Runnable N (Router S X)) (n out next : String)
    → lookup n r.branch_maps ≡ none
    → route r n (routed out) ≡ ok next
    → next ≡ out
route-plain r n out next e h = ground arith

module _ {S Ctx W X : Type 0} (r : Runnable (NodeFunc S Ctx W X) (Router S X)) where
  -- A node's call that ended with this error.
  abbrev pub Raised : String → S → NodeErr X → Type 0
  Raised n s e =
      (fn : NodeFunc S Ctx W X) × (lookup n r.nodes ≡ some fn)
      × (ctx : Ctx) × (w : W) × ((safe_call_node fn ctx s w).0.1 ≡ some e)

  -- Each node keeps `P` for the node that is chosen after it.
  abbrev pub Keeps : (P : String → ℤ → S → Type 0) → Type 0
  Keeps P =
      (n : String) (fn : NodeFunc S Ctx W X) (i : ℤ) (ctx : Ctx) (s out : S) (w : W) (next : String)
      → lookup n r.nodes ≡ some fn
      → P n i s
      → (fn ctx s w).0 ≡ returned out
      → resolve_next r n out ≡ ok next
      → P next (suc_ℤ i) out

  module _ (P : String → ℤ → S → Type 0) (most : ℕ) where
    -- What is known of the last state of a run of at most `most` steps, by its error.
    abbrev pub EndsWith : S → Option (RunErr X) → Type 0
    EndsWith s none = (i : ℤ) × P end_node i s
    EndsWith s (some (max_steps_exceeded limit)) =
        (limit ≡ most) × (n : String) × (i : ℤ) × P n i s × (reaches limit i ≡ true)
    EndsWith s (some (node_failed n e)) = (i : ℤ) × P n i s × Raised n s e
    EndsWith s (some _) = Unit

    route-fails :
        (n : String) (s : S) (x : Routed X) (e : RunErr X)
        → route r n x ≡ err e
        → EndsWith s (some e)
    route-fails n s x e h = ground arith

    resolve_next-fails :
        (n : String) (s : S) (e : RunErr X) → resolve_next r n s ≡ err e → EndsWith s (some e)
    unfolding resolve_next
    resolve_next-fails n s e h = elim (Option-cases (lookup n r.static_edges)) [
      | inr (next, t) ↦ cc (rw (t, resolve_next) at h)
      | inl t ↦ elim (Option-cases (lookup n r.conditional_edges)) [
        | inr (router, c) ↦ route-fails n s (router s) e (rw (t, c, resolve_next) at h)
        | inl c ↦
            let same : no_outgoing_edge n ≡ e = cc (rw (t, c, resolve_next) at h) in
            subst (λ y. EndsWith s (some y)) same tt
      ]
    ]

  -- A node's call either raises an error or returns the new state.
  node_end-inv :
      (s : S) (o : Outcome X S) (w : W)
      → ((e : NodeErr X) × ((node_end s o w).0.1 ≡ some e))
        ⊎ ((out : S) × (o ≡ returned out) × ((node_end s o w).0 ≡ (out, none)))
  node_end-inv s (returned out) w = inr (out, refl, refl)
  node_end-inv s (failed out x) w = inl (_, refl)
  node_end-inv s (panicked x) w = inl (_, refl)

module _ {S Ctx W X : Type 0} (env : Env Ctx W X) (r : Runnable (NodeFunc S Ctx W X) (Router S X))
    (opts : RunOptions S Ctx W X) (P : String → ℤ → S → Type 0) (keeps : Keeps r P) where
  abbrev most : ℕ
  most = step_limit env r opts

  abbrev Ends : Final S X → Type 0
  Ends f = EndsWith r P most f.state f.error

  abbrev Holds : Hop S → Type 0
  Holds h = P h.next h.step h.state

  -- The call of the node that `run_node` makes between the hooks.
  run_node-calls :
      (ctx : Ctx) (fn : NodeFunc S Ctx W X) (node : String) (step : ℤ) (s : S) (w : W)
      → (c : Ctx) × (v : W) × ((run_node env opts ctx fn node step s w).0
          ≡ (safe_call_node fn c s v).0)
  unfolding run_node
  run_node-calls ctx fn node step s w = (_, _, refl)

  advance-Ends :
      (fn : NodeFunc S Ctx W X) (ctx : Ctx) (h : Hop S) (out : S) (v w : W)
      → lookup h.next r.nodes ≡ some fn
      → Holds h
      → (fn ctx h.state v).0 ≡ returned out
      → Post Ends Holds (advance env r opts h out w).0
  advance-Ends fn ctx h out v w known p ran = elim (Result-cases (resolve_next r h.next out)) [
    | inl (next, e) ↦ rw (e, advance) (keeps h.next fn h.step ctx h.state out v next known p ran e)
    | inr (x, e) ↦ rw (e, advance) (resolve_next-fails r P most h.next out x e)
  ]

  after_node_call-Ends :
      (fn : NodeFunc S Ctx W X) (ctx : Ctx) (h : Hop S) (o : S × Option (NodeErr X)) (v w : W)
      → lookup h.next r.nodes ≡ some fn
      → Holds h
      → o ≡ (safe_call_node fn ctx h.state v).0
      → Post Ends Holds (after_node_call env r opts h o w).0
  unfolding safe_call_node
  after_node_call-Ends fn ctx h (out, some e) v w known p ran =
      (h.step, p, (fn, known, ctx, v, sym (ap (λ (x : S × Option (NodeErr X)). x.1) ran)))
  after_node_call-Ends fn ctx h (out, none) v w known p ran =
      elim (node_end-inv r h.state (fn ctx h.state v).0 (fn ctx h.state v).1) [
        | inl (e, q) ↦ cc (ap (λ (x : S × Option (NodeErr X)). x.1) ran, q)
        | inr (out', q, same) ↦
            let here : out' ≡ out = ap (λ (x : S × Option (NodeErr X)). x.0) (sym (ran ∙ same)) in
            advance-Ends fn ctx h out v w known p (q ∙ ap returned here)
      ]

  save_checkpoint-Ends :
      (step : ℤ) (node : String) (s : S) (reason : CheckpointReason) (w : W) (e : RunErr X)
      → (save_checkpoint env opts step node s reason w).0 ≡ some e
      → EndsWith r P most s (some e)
  save_checkpoint-Ends step node s reason w e h =
      let (x, p) = save_checkpoint-fails env opts step node s reason w e h in
      subst (λ y. EndsWith r P most s (some y)) p tt

  execute-Ends :
      (fn : NodeFunc S Ctx W X) (ctx : Ctx) (h : Hop S) (w : W)
      → lookup h.next r.nodes ≡ some fn
      → Holds h
      → Post Ends Holds (execute env r opts fn ctx h w).0
  unfolding execute
  execute-Ends fn ctx h w known p =
      elim (Option-cases (save_checkpoint env opts (suc_ℤ h.step) h.next h.state at_step w).0) [
        | inl e ↦
            let (c, v, same) =
              run_node-calls ctx fn h.next (suc_ℤ h.step) h.state
                (save_checkpoint env opts (suc_ℤ h.step) h.next h.state at_step w).1 in
            rw (e, execute) (after_node_call-Ends fn c h _ v _ known p same)
        | inr (x, e) ↦
            rw (e, execute) (save_checkpoint-Ends (suc_ℤ h.step) h.next h.state at_step w x e)
      ]

  finish-Ends :
      (h : Hop S) (w : W) → P end_node h.step h.state → Post Ends Holds (finish env r opts h w).0
  unfolding finish
  finish-Ends h w p =
      elim (Option-cases (save_checkpoint env opts h.step end_node h.state at_end w).0) [
        | inl e ↦ rw (e, finish) (h.step, p)
        | inr (x, e) ↦ rw (e, finish) (save_checkpoint-Ends h.step end_node h.state at_end w x e)
      ]

  interrupt-Ends : (h : Hop S) (w : W) → Post Ends Holds (interrupt env r opts h w).0
  unfolding interrupt
  interrupt-Ends h w =
      elim (Option-cases
        (save_checkpoint env opts (suc_ℤ h.step) h.next h.state at_interrupt w).0) [
          | inl e ↦ rw (e, interrupt) tt
          | inr (x, e) ↦
              rw (e, interrupt)
                (save_checkpoint-Ends (suc_ℤ h.step) h.next h.state at_interrupt w x e)
        ]

  enter-Ends :
      (ctx : Ctx) (h : Hop S) (w : W) → Holds h → Post Ends Holds (enter env r opts ctx h w).0
  unfolding enter
  enter-Ends ctx h w p =
      elim (Bool-cases (contains h.next r.interrupt_before && not h.bypass_interrupt)) [
        | inl g ↦ rw (g, enter) (interrupt-Ends h w)
        | inr g ↦ elim (Option-cases (lookup h.next r.nodes)) [
          | inl n ↦ rw (g, n, enter) tt
          | inr (fn, n) ↦ rw (g, n, enter) (execute-Ends fn ctx h w n p)
        ]
      ]

  dispatch-Ends :
      (ctx : Ctx) (h : Hop S) (w : W)
      → Holds h
      → Post Ends Holds (dispatch env r opts most ctx h w).0
  unfolding dispatch
  dispatch-Ends ctx h w p = elim (Bool-cases (h.next == end_node)) [
    | inl e ↦
        rw (e, dispatch)
          (finish-Ends h w (subst (λ n. P n h.step h.state) ((eq_iff h.next end_node).0 e) p))
    | inr e ↦ elim (Bool-cases (reaches most h.step)) [
      | inl l ↦ rw (e, l, dispatch) (refl, h.next, h.step, p, l)
      | inr l ↦ rw (e, l, dispatch) (enter-Ends ctx h w p)
    ]
  ]

  context_error-Ends : (s : S) (x : X) → EndsWith r P most s (some (context_error env r opts x))
  context_error-Ends s x =
      elim (Bool-cases (is_positive opts.timeout && env.is_deadline_exceeded x)) [
        | inl e ↦ rw e tt
        | inr e ↦ rw e tt
      ]

  round-Ends :
      (ctx : Ctx) (h : Hop S) (w : W) → Holds h → Post Ends Holds (round env r opts most ctx h w).0
  unfolding round
  round-Ends ctx h w p = elim (Option-cases (env.ctx_err ctx w).0) [
    | inl e ↦ rw (e, round) (dispatch-Ends ctx h _ p)
    | inr (x, e) ↦ rw (e, round) (context_error-Ends h.state x)
  ]

  rounds-Ends :
      (fuel : ℕ) (ctx : Ctx) (h : Hop S) (w w' : W) (f : Final S X)
      → Holds h
      → rounds env r opts fuel most ctx h w ≡ some (f, w')
      → Ends f
  unfolding rounds
  rounds-Ends zero ctx h w w' f p q = cc
  rounds-Ends (suc fuel) ctx h w w' f p q =
      let post = round-Ends ctx h w p in
      elim (Exit-cases (round env r opts most ctx h w)) [
        | inl (f', w1, e) ↦ let same : f' ≡ f = cc (rw e at q) in subst Ends same (rw e at post)
        | inr (h', w1, e) ↦ rounds-Ends fuel ctx h' w1 w' f (rw e at post) (rw e at q)
      ]

  -- If `P` holds of the entry at step 0 with the initial state, and each node with the choice of the
  -- next one keeps it, then a run that returns without an error ends at END where `P` holds, one that
  -- ends at the step limit ends where `P` holds at a step that reaches the limit, and one that ends with
  -- a node's error ends at a node where `P` holds and that raised this error.
  pub invoke_with-Ends :
      (ctx : Ctx) (initial : S) (w w' : W) (f : Final S X)
      → P r.entry (pos 0) initial
      → invoke_with env r opts ctx initial w ≡ some (f, w')
      → EndsWith r P (step_limit env r opts) f.state f.error
  unfolding invoke_with run_loop
  invoke_with-Ends ctx initial w w' f p q =
      let (run_ctx, w1) = bound env opts.timeout ctx w in
      let (hook_ctx, w2) = run_before opts.hooks opts.logger run_ctx opts.run_id initial w1 in
      let limit = step_limit env r opts in
      let h : Hop S = record {
        state = initial;
        next = r.entry;
        step = pos 0;
        bypass_interrupt = false;
      } in
      elim (Bool-cases (is_some opts.checkpointer && opts.run_id == "")) [
        | inl e ↦
            let same : final initial checkpointer_missing_run_id ≡ f =
              cc (rw (e, invoke_with) at q) in
            subst Ends same tt
        | inr e ↦
            let ((f', w3), t) =
              rounds_total env r opts (rounds_left env r opts limit (pos 0)) limit hook_ctx h w2
                (le_refl _) in
            let same : f' ≡ f = cc (rw (e, t, invoke_with, run_loop) at q) in
            subst Ends same
              (rounds-Ends (rounds_left env r opts limit (pos 0)) hook_ctx h w2 w3 f' p t)
      ]
