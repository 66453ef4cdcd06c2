-- ===== src/Graph/Run/Safety.antt =====
-- A run of a compiled graph never leaves the graph: the loop and the router's resolution of
-- pkg/graph/runnable.go.
use galdor.Prelude.{
  refl, Result, ok, err, ℕ, zero, suc, ℤ, pos, suc_ℤ, reaches, is_some, is_positive, String, true,
  false, Option, none, some, Option-cases, Exit-cases, Bool-cases, ◌≡◌, inl, inr, subst, ◌==◌,
  arith, eq_iff, exit, go_on, Exit, lookup, has, has-is_some, contains, not, ◌&&◌, Post,
}
use galdor.Graph.Core.{
  end_node, Runnable, Router, RunErr, unknown_node, no_outgoing_edge, checkpointer_missing_run_id,
  Routed, routed, router_panicked, NodeFunc, RunOptions, Env, NodeErr, CheckpointReason, at_end,
  at_step, at_interrupt,
}
use native.Mathlib.Nat.{le_refl}
use galdor.Graph.Builder.{Graph}
use galdor.Graph.Compile.{compile, compiled}
use galdor.Graph.Hooks.{run_before}
use galdor.Graph.Run.Total.{rounds_total, invoke_with_total}
use galdor.Graph.Compile.Sound.{compile-IsSound, IsSound, IsKnown}
use galdor.Graph.Run.Saves.{save_checkpoint-fails}
use galdor.Graph.Run.{
  bound, Hop, Final, final, resolve_next, route, known_or, finish, interrupt, advance,
  after_node_call, execute, enter, dispatch, round, rounds, step_limit, rounds_left, run_loop,
  invoke_with, save_checkpoint, context_error,
}

-- A name that a plain router of the node `from` returned, and that is neither a node nor END.
abbrev pub IsMisrouted : {S X N : Type 0} → Runnable N (Router S X) → String → String → Type 0
IsMisrouted r n from =
    (router : Router _ _) × (s : _) × (lookup from r.conditional_edges ≡ some router)
    × (router s ≡ routed n)
    × (lookup from r.branch_maps ≡ none)
    × (has n r.nodes ≡ false)
    × ((n == end_node) ≡ false)

-- The errors that a run may end with: at a name that is no node only by such a router, and not at
-- a node with no way out.
abbrev pub IsAllowed : {S X N : Type 0} → Runnable N (Router S X) → RunErr X → Type 0
IsAllowed r (unknown_node n none) = ⊥
IsAllowed r (unknown_node n (some from)) = IsMisrouted r n from
IsAllowed r (no_outgoing_edge n) = ⊥
IsAllowed r _ = Unit

abbrev pub EndsInside : {S X N : Type 0} → Runnable N (Router S X) → Option (RunErr X) → Type 0
EndsInside r none = Unit
EndsInside r (some e) = IsAllowed r e

-- What a resolution may answer.
abbrev pub Resolves : {S X N : Type 0} → Runnable N (Router S X) → Result (RunErr X) String → Type 0
Resolves r (ok next) = IsKnown r next
Resolves r (err e) = IsAllowed r e

module _ {S X N : Type 0} (r : Runnable N (Router S X)) (sound : IsSound r) where
  known_or-Resolves :
      (n out : String) (router : Router S X) (s : S)
      → lookup n r.conditional_edges ≡ some router
      → lookup n r.branch_maps ≡ none
      → router s ≡ routed out
      → Resolves r (known_or r n out)
  known_or-Resolves n out router s c b q = elim (Bool-cases (out == end_node)) [
    | inl e ↦ rw e (inl ((eq_iff out end_node).0 e))
    | inr e ↦ elim (Bool-cases (has out r.nodes)) [
      | inl h ↦ rw (e, h) (inr h)
      | inr h ↦ rw (e, h) (router, s, c, q, b, h, e)
    ]
  ]

  route-Resolves :
      (n : String) (router : Router S X) (s : S) (x : Routed X)
      → lookup n r.conditional_edges ≡ some router
      → router s ≡ x
      → Resolves r (route r n x)
  route-Resolves n router s (router_panicked x) c q = tt
  route-Resolves n router s (routed out) c q = elim (Bool-cases (out == "")) [
    | inl e ↦ rw e tt
    | inr e ↦ elim (Option-cases (lookup n r.branch_maps)) [
      | inl b ↦ rw (e, b) (known_or-Resolves n out router s c b q)
      | inr (branches, b) ↦ elim (Option-cases (lookup out branches)) [
        | inl l ↦ rw (e, b, l) tt
        | inr (next, l) ↦ rw (e, b, l) (sound.branch_known n out next branches b l)
      ]
    ]
  ]

  -- In a sound graph, the resolution from a node gives a node or END, or an error of the router,
  -- that of an unknown node only where a plain router returned a name that is neither: it never
  -- fails for want of an edge.
  pub resolve_next-Resolves :
      (n : String) (s : S) → has n r.nodes ≡ true → Resolves r (resolve_next r n s)
  unfolding resolve_next
  resolve_next-Resolves n s known = elim (Option-cases (lookup n r.static_edges)) [
    | inr (next, e) ↦ rw (e, resolve_next) (sound.static_known n next e)
    | inl e ↦ elim (Option-cases (lookup n r.conditional_edges)) [
      | inr (router, c) ↦ rw (e, c, resolve_next) (route-Resolves n router s (router s) c refl)
      | inl c ↦ ground (
        arith,
        sound.has_exit n known,
        has-is_some n r.static_edges,
        has-is_some n r.conditional_edges,
      )
    ]
  ]

module _ {S Ctx W X : Type 0} (env : Env Ctx W X) (r : Runnable (NodeFunc S Ctx W X) (Router S X))
    (opts : RunOptions S Ctx W X) (sound : IsSound r) where
  abbrev Stays : Final S X → Type 0
  Stays f = EndsInside r f.error

  abbrev Inside : Hop S → Type 0
  Inside h = IsKnown r h.next

  advance-Stays :
      (h : Hop S) (out : S) (w : W)
      → has h.next r.nodes ≡ true
      → Post Stays Inside (advance env r opts h out w).0
  advance-Stays h out w known =
      answer (resolve_next r h.next out) (resolve_next-Resolves r sound h.next out known)
    where
      answer :
          (x : Result (RunErr X) String)
          → Resolves r x
          → Post Stays Inside (
              let y : Exit (Final S X) (Hop S) × W = elim x [
                | err e ↦ (exit (final out e), w)
                | ok next ↦ (
                  go_on (record {
                    state = out;
                    next = next;
                    step = suc_ℤ h.step;
                    bypass_interrupt = false;
                  }),
                  w,
                )
              ] in
              y.0)
      answer (ok next) k = k
      answer (err e) k = k

  after_node_call-Stays :
      (h : Hop S) (o : S × Option (NodeErr X)) (w : W)
      → has h.next r.nodes ≡ true
      → Post Stays Inside (after_node_call env r opts h o w).0
  after_node_call-Stays h (out, some e) w known = tt
  after_node_call-Stays h (out, none) w known = advance-Stays h out w known

  save_checkpoint-IsAllowed :
      (step : ℤ) (node : String) (s : S) (reason : CheckpointReason) (w : W) (e : RunErr X)
      → (save_checkpoint env opts step node s reason w).0 ≡ some e
      → IsAllowed r e
  save_checkpoint-IsAllowed step node s reason w e h =
      let (x, p) = save_checkpoint-fails env opts step node s reason w e h in
      subst (λ y. IsAllowed r y) p tt

  execute-Stays :
      (fn : NodeFunc S Ctx W X) (ctx : Ctx) (h : Hop S) (w : W)
      → has h.next r.nodes ≡ true
      → Post Stays Inside (execute env r opts fn ctx h w).0
  unfolding execute
  execute-Stays fn ctx h w known =
      elim (Option-cases (save_checkpoint env opts (suc_ℤ h.step) h.next h.state at_step w).0) [
        | inl e ↦ rw (e, execute) (after_node_call-Stays h _ _ known)
        | inr (x, e) ↦
            rw (e, execute) (save_checkpoint-IsAllowed (suc_ℤ h.step) h.next h.state at_step w x e)
      ]

  finish-Stays : (h : Hop S) (w : W) → Post Stays Inside (finish env r opts h w).0
  unfolding finish
  finish-Stays h w =
      elim (Option-cases (save_checkpoint env opts h.step end_node h.state at_end w).0) [
        | inl e ↦ rw (e, finish) tt
        | inr (x, e) ↦
            rw (e, finish) (save_checkpoint-IsAllowed h.step end_node h.state at_end w x e)
      ]

  interrupt-Stays : (h : Hop S) (w : W) → Post Stays Inside (interrupt env r opts h w).0
  unfolding interrupt
  interrupt-Stays h w =
      elim (Option-cases
        (save_checkpoint env opts (suc_ℤ h.step) h.next h.state at_interrupt w).0) [
          | inl e ↦ rw (e, interrupt) tt
          | inr (x, e) ↦
              rw (e, interrupt)
                (save_checkpoint-IsAllowed (suc_ℤ h.step) h.next h.state at_interrupt w x e)
        ]

  enter-Stays :
      (ctx : Ctx) (h : Hop S) (w : W)
      → has h.next r.nodes ≡ true
      → Post Stays Inside (enter env r opts ctx h w).0
  unfolding enter
  enter-Stays ctx h w known =
      elim (Bool-cases (contains h.next r.interrupt_before && not h.bypass_interrupt)) [
        | inl g ↦ rw (g, enter) (interrupt-Stays h w)
        | inr g ↦ elim (Option-cases (lookup h.next r.nodes)) [
          | inl n ↦ cc (rw n at (has-is_some h.next r.nodes))
          | inr (fn, n) ↦ rw (g, n, enter) (execute-Stays fn ctx h w known)
        ]
      ]

  dispatch-Stays :
      (limit : ℕ) (ctx : Ctx) (h : Hop S) (w : W)
      → Inside h
      → Post Stays Inside (dispatch env r opts limit ctx h w).0
  unfolding dispatch
  dispatch-Stays limit ctx h w inside = elim (Bool-cases (h.next == end_node)) [
    | inl e ↦ rw (e, dispatch) (finish-Stays h w)
    | inr e ↦ elim (Bool-cases (reaches limit h.step)) [
      | inl l ↦ rw (e, l, dispatch) tt
      | inr l ↦ rw (e, l, dispatch) (enter-Stays ctx h w (ground (arith, eq_iff h.next end_node)))
    ]
  ]

  context_error-IsAllowed : (x : X) → IsAllowed r (context_error env r opts x)
  context_error-IsAllowed x =
      elim (Bool-cases (is_positive opts.timeout && env.is_deadline_exceeded x)) [
        | inl e ↦ rw e tt
        | inr e ↦ rw e tt
      ]

  round-Stays :
      (limit : ℕ) (ctx : Ctx) (h : Hop S) (w : W)
      → Inside h
      → Post Stays Inside (round env r opts limit ctx h w).0
  unfolding round
  round-Stays limit ctx h w inside = elim (Option-cases (env.ctx_err ctx w).0) [
    | inl e ↦ rw (e, round) (dispatch-Stays limit ctx h _ inside)
    | inr (x, e) ↦ rw (e, round) (context_error-IsAllowed x)
  ]

  rounds-Stays :
      (fuel limit : ℕ) (ctx : Ctx) (h : Hop S) (w w' : W) (f : Final S X)
      → Inside h
      → rounds env r opts fuel limit ctx h w ≡ some (f, w')
      → Stays f
  unfolding rounds
  rounds-Stays zero limit ctx h w w' f inside p = cc
  rounds-Stays (suc fuel) limit ctx h w w' f inside p =
      let post = round-Stays limit ctx h w inside in
      elim (Exit-cases (round env r opts limit ctx h w)) [
        | inl (f', w1, e) ↦ let same : f' ≡ f = cc (rw e at p) in subst Stays same (rw e at post)
        | inr (h', w1, e) ↦ rounds-Stays fuel limit ctx h' w1 w' f (rw e at post) (rw e at p)
      ]

  invoke_with-Stays :
      (ctx : Ctx) (initial : S) (w w' : W) (f : Final S X)
      → invoke_with env r opts ctx initial w ≡ some (f, w')
      → Stays f
  unfolding invoke_with run_loop
  invoke_with-Stays ctx initial w w' f p =
      let (run_ctx, w1) = bound env opts.timeout ctx w in
      let (hook_ctx, w2) = run_before opts.hooks opts.logger run_ctx opts.run_id initial w1 in
      let limit = step_limit env r opts in
      let h : Hop S = record {
        state = initial;
        next = r.entry;
        step = pos 0;
        bypass_interrupt = false;
      } in
      elim (Bool-cases (is_some opts.checkpointer && opts.run_id == "")) [
        | inl e ↦
            let same : final initial checkpointer_missing_run_id ≡ f =
              cc (rw (e, invoke_with) at p) in
            subst Stays same tt
        | inr e ↦
            let ((f', w3), q) =
              rounds_total env r opts (rounds_left env r opts limit (pos 0)) limit hook_ctx h w2
                (le_refl _) in
            let same : f' ≡ f = cc (rw (e, q, invoke_with, run_loop) at p) in
            subst Stays same (
              rounds-Stays (rounds_left env r opts limit (pos 0)) limit hook_ctx h w2 w3 f'
                sound.entry_known q)
      ]

-- A run of a compiled graph, at any step limit, options and world, returns. It never fails at a node
-- with no way out, and fails at a name that is neither a node nor END only if the router of a node
-- without a branch map returned that name for some state.
pub run-stays-inside :
    {S Ctx W X : Type 0} (env : Env Ctx W X) (g : Graph (NodeFunc S Ctx W X) (Router S X))
    (r : Runnable (NodeFunc S Ctx W X) (Router S X)) (limit : ℤ) (opts : RunOptions S Ctx W X)
    (ctx : Ctx) (initial : S) (w : W)
    → compile g ≡ compiled r
    → (p : Final S X × W) × (invoke_with env (record r { max_steps = limit }) opts ctx initial w
        ≡ some p)
      × EndsInside r p.0.error
run-stays-inside env g r limit opts ctx initial w h =
    let s = compile-IsSound g r h in
    let r' : Runnable _ _ = record r { max_steps = limit } in
    let sound : IsSound r' = record {
      entry_known = s.entry_known;
      static_known = s.static_known;
      branch_known = s.branch_known;
      has_exit = s.has_exit;
      gates_known = s.gates_known;
    } in
    let ((f, w'), q) = invoke_with_total env r' opts ctx initial w in
    ((f, w'), q, invoke_with-Stays env r' opts sound ctx initial w w' f q)
