-- ===== src/Council/Supervisor/Answer.antt =====
-- What a run of the supervisor that `NewSupervisor` of pkg/council/supervisor.go makes returns.
use galdor.Schema.{Message, text}
use galdor.Provider.{Provider, Reply, crashed, refused, replied}
use galdor.Council.Supervisor.Payload.{WorkerInvocation}
use galdor.Council.Supervisor.Ends.{
  keeps, no_end, node-supervisor, node-trap, node-worker, At, Here, worker-IsWorkerName,
}
use galdor.Council.Supervisor.Turns.{IsClosed, IsHistory}
use galdor.Council.Supervisor.Setup.{
  new_supervisor-IsSupervisor, IsSupervisor, contains-seen, names_of,
}
use galdor.Council.Supervisor.Build.{new_supervisor, Supervisor}
use galdor.Council.Supervisor.{
  Decision, DecisionErr, Services, SupervisorConfig, SupervisorErr, SupervisorState, Worker,
  after_decision, after_generate, after_worker, max_hops_exceeded, hop_limit, parse_decision,
  run_worker, supervisor_node, supervisor_request, unknown_worker, worker_failed, worker_node,
}
use galdor.Prelude.{
  FitsInt, wrap_int-pos, ap, is_positive, length, lookup, negsuc, pos, refl, suc, zero, ◌<◌,
  Bool-cases, List, Option, Result, String, [], arith, contains, err, false, inl, inr, leb→le, none,
  ok, reaches, some, subst, sym, true, ℕ, ℤ, ◌*◌, ◌+◌, ◌==◌, ◌∙◌, ◌∷◌, ◌≡◌, ◌≤◌,
}
use galdor.Graph.Core.{
  end_node, Outcome, returned, failed, panicked, NodeFunc, RunErr, node_failed, max_steps_exceeded,
  NodeErr, node_error, node_panic, RunOptions, Env,
}
use galdor.Graph.Hooks.{safe_call_node, node_end}
use galdor.Graph.Run.{Final, invoke_with, step_limit, positive_or}
use galdor.Graph.Run.Total.{invoke_with_total}
use galdor.Graph.Run.Invariant.{EndsWith, Raised, invoke_with-Ends, step_limit-set}

-- An error of a node of a supervisor with these workers.
abbrev pub IsSupervisorErr : {X : Type 0} → List String → ℕ → SupervisorErr X → Type 0
IsSupervisorErr names max_hops (max_hops_exceeded hops) = hops ≡ max_hops
IsSupervisorErr names max_hops (unknown_worker name) = contains name names ≡ false
IsSupervisorErr names max_hops (worker_failed name x) = contains name names ≡ true
IsSupervisorErr names max_hops e = Unit

abbrev pub IsNodeErr : {X : Type 0} → List String → ℕ → NodeErr (SupervisorErr X) → Type 0
IsNodeErr names max_hops (node_error e) = IsSupervisorErr names max_hops e
IsNodeErr names max_hops (node_panic e) = IsSupervisorErr names max_hops e

-- How a run of a supervisor can end.
abbrev pub EndsWell :
    {X : Type 0} → List String → ℕ → SupervisorState → Option (RunErr (SupervisorErr X)) → Type 0
EndsWell names max_hops s none = IsClosed names max_hops s
EndsWell names max_hops s (some (max_steps_exceeded limit)) = ⊥
EndsWell names max_hops s (some (node_failed n e)) =
    IsHistory names s.history × IsNodeErr names max_hops e
EndsWell names max_hops s (some e) = Unit

-- How a node's call can fail.
abbrev Fails : {X : Type 0} → List String → ℕ → Outcome (SupervisorErr X) SupervisorState → Type 0
Fails names max_hops (returned out) = Unit
Fails names max_hops (failed out x) = IsSupervisorErr names max_hops x
Fails names max_hops (panicked x) = IsSupervisorErr names max_hops x

Fails-IsNodeErr :
    {W X : Type 0} (names : List String) (max_hops : ℕ) (s : SupervisorState) (w : W)
    (o : Outcome (SupervisorErr X) SupervisorState) (e : NodeErr (SupervisorErr X))
    → Fails names max_hops o
    → (node_end s o w).0.1 ≡ some e
    → IsNodeErr names max_hops e
Fails-IsNodeErr names max_hops s w (returned out) e f h = cc h
Fails-IsNodeErr names max_hops s w (failed out x) e f h =
    let same : node_error x ≡ e = cc h in subst (IsNodeErr names max_hops) same f
Fails-IsNodeErr names max_hops s w (panicked x) e f h =
    let same : node_panic x ≡ e = cc h in subst (IsNodeErr names max_hops) same f

IsHistory-names :
    (seen names : List String) (h : List WorkerInvocation)
    → ((n : String) → contains n seen ≡ contains n names)
    → IsHistory seen h
    → IsHistory names h
IsHistory-names seen names [] same a = tt
IsHistory-names seen names (i ∷ h) same a =
    (sym (same i.worker) ∙ a.0, IsHistory-names seen names h same a.1)

renamed :
    {X : Type 0} (seen names : List String) (max_hops : ℕ) (e : SupervisorErr X)
    → ((n : String) → contains n seen ≡ contains n names)
    → IsSupervisorErr seen max_hops e
    → IsSupervisorErr names max_hops e
renamed seen names max_hops (max_hops_exceeded hops) same h = h
renamed seen names max_hops (unknown_worker name) same h = sym (same name) ∙ h
renamed seen names max_hops (worker_failed name x) same h = sym (same name) ∙ h
renamed seen names max_hops e same h = tt

node-renamed :
    {X : Type 0} (seen names : List String) (max_hops : ℕ) (e : NodeErr (SupervisorErr X))
    → ((n : String) → contains n seen ≡ contains n names)
    → IsNodeErr seen max_hops e
    → IsNodeErr names max_hops e
node-renamed seen names max_hops (node_error e) same h = renamed seen names max_hops e same h
node-renamed seen names max_hops (node_panic e) same h = renamed seen names max_hops e same h

module _ {Ctx W X : Type 0} (sv : Services) (cfg : SupervisorConfig Ctx W X) where
  supervisor_node-Fails :
      (seen : List String) (p : Provider Ctx W X) (ctx : Ctx) (s : SupervisorState) (w : W)
      → Fails seen (hop_limit cfg) (supervisor_node sv cfg seen p ctx s w).0
  unfolding supervisor_node
  supervisor_node-Fails seen p ctx s w =
      replied-Fails
        (p.generate ctx (supervisor_request sv cfg seen (record s { hops = s.hops + 1 })) w)
    where
      decision-Fails :
          (d : Result DecisionErr Decision)
          → Fails {X = X} seen
              (hop_limit cfg)
              (after_decision sv cfg seen (record s { hops = s.hops + 1 }) d)
      decision-Fails (err e) = tt
      decision-Fails (ok d) = elim (Bool-cases (d.final == "")) [
        | inr f ↦ rw f tt
        | inl f ↦ elim (Bool-cases (contains d.worker seen)) [
          | inr c ↦ rw (f, c) c
          | inl c ↦ rw (f, c) tt
        ]
      ]

      replied-Fails :
          (o : Reply X Message × W)
          → Fails seen
              (hop_limit cfg)
              (after_generate sv cfg seen (record s { hops = s.hops + 1 }) o).0
      replied-Fails (refused x, v) = tt
      replied-Fails (crashed x, v) = tt
      replied-Fails (replied m, v) = decision-Fails (parse_decision sv (text m))

  worker_node-Fails :
      (seen : List String) (a : Worker Ctx W X) (ctx : Ctx) (s : SupervisorState) (w : W)
      → contains a.name seen ≡ true
      → Fails seen (hop_limit cfg) (worker_node a ctx s w).0
  worker_node-Fails seen a ctx s w known = ran a.run
    where
      answered : (o : Reply X String × W) → Fails seen (hop_limit cfg) (after_worker a.name s o).0
      answered (refused x, v) = known
      answered (crashed x, v) = tt
      answered (replied output, v) = tt

      ran :
          (run : Option (Ctx → String → W → Reply X String × W))
          → Fails seen (hop_limit cfg) (run_worker a.name run ctx s w).0
      ran none = tt
      ran (some run) = answered (run ctx s.next_task w)

  abbrev Node : Type 0
  Node = NodeFunc SupervisorState Ctx W (SupervisorErr X)

  module _ (r : Supervisor Ctx W X) (is : IsSupervisor sv cfg r) where
    few_steps :
        (n : String) (i : ℤ) (s : SupervisorState)
        → Here sv cfg r is n i s
        → reaches (hop_limit cfg * 3 + 4) i ≡ true
        → ⊥
    few_steps n i s (j, step, at) h = near at (
        leb→le (hop_limit cfg * 3 + 4) j
          (subst (λ k. reaches (hop_limit cfg * 3 + 4) k ≡ true) step h))
      where
        near : At sv cfg r is n j s → hop_limit cfg * 3 + 4 ≤ j → ⊥
        near (inl (a, even, count, less, f, rows)) far = omega arith
        near (inr (inl (a, odd, count, less, f, rows))) far = omega arith
        near (inr (inr (inl (a, odd, count, full, rows)))) far = omega arith
        near (inr (inr (inr (a, count, (said, rows, odd, low))))) far = omega arith

    same_names : (n : String) → contains n is.seen ≡ contains n (names_of cfg.workers)
    unfolding contains
    same_names n = contains-seen n cfg.workers [] is.seen is.listed

    at_end :
        (i : ℤ) (s : SupervisorState)
        → Here sv cfg r is end_node i s
        → IsClosed is.seen (hop_limit cfg) s
    at_end i s (j, step, inl (at, a, b, c, d, rows)) = cc at
    at_end i s (j, step, inr (inl (at, a, b, c, d, rows))) =
        let (x, y, end, z, t) = worker-IsWorkerName sv cfg r is end_node at in cc end
    at_end i s (j, step, inr (inr (inl (at, a, b, c, rows)))) = cc at
    at_end i s (j, step, inr (inr (inr (at, count, closed)))) = closed

    fault_of :
        (n : String) (i : ℤ) (s : SupervisorState) (e : NodeErr (SupervisorErr X))
        → Here sv cfg r is n i s
        → Raised r n s e
        → IsHistory is.seen s.history × IsNodeErr is.seen (hop_limit cfg) e
    unfolding safe_call_node
    fault_of n i s e (j, step, inl (at, even, count, less, f, rows)) (fn, known, ctx, w, h) =
        let k = node-supervisor sv cfg r is fn (subst (λ k. lookup k r.nodes ≡ some fn) at known) in
        (
          rows,
          Fails-IsNodeErr is.seen (hop_limit cfg) s (fn ctx s w).1 (fn ctx s w).0 e
              (subst (λ (f : Node). Fails is.seen (hop_limit cfg) (f ctx s w).0) (sym k)
                (supervisor_node-Fails is.seen is.provider ctx s w))
              h,
        )
    fault_of n i s e (j, step, inr (inl (at, odd, count, less, f, rows))) (fn, known, ctx, w, h) =
        let (a, same, k) =
          node-worker sv cfg r is n fn (worker-IsWorkerName sv cfg r is n at) known in
        (
          rows,
          Fails-IsNodeErr is.seen (hop_limit cfg) s (fn ctx s w).1 (fn ctx s w).0 e
              (subst (λ (f : Node). Fails is.seen (hop_limit cfg) (f ctx s w).0) (sym k)
                (worker_node-Fails is.seen a ctx s w
                  (subst (λ t. contains t is.seen ≡ true) same at)))
              h,
        )
    fault_of n i s e (j, step, inr (inr (inl (at, odd, count, full, rows))))
          (fn, known, ctx, w, h) =
        let k = node-trap sv cfg r is fn (subst (λ k. lookup k r.nodes ≡ some fn) at known) in
        (
          rows,
          Fails-IsNodeErr is.seen (hop_limit cfg) s (fn ctx s w).1 (fn ctx s w).0 e
              (subst (λ (f : Node). Fails is.seen (hop_limit cfg) (f ctx s w).0) (sym k) full) h,
        )
    fault_of n i s e (j, step, inr (inr (inr (at, count, closed)))) (fn, known, ctx, w, h) =
        absurd (no_end sv cfg r is fn (subst (λ k. lookup k r.nodes ≡ some fn) at known))

    ends :
        (most : ℕ) (s : SupervisorState) (e : Option (RunErr (SupervisorErr X)))
        → most ≡ hop_limit cfg * 3 + 4
        → EndsWith r (Here sv cfg r is) most s e
        → EndsWell (names_of cfg.workers) (hop_limit cfg) s e
    ends most s none same (i, h) =
        let (said, rows, odd, low) = at_end i s h in
        (said, IsHistory-names is.seen (names_of cfg.workers) s.history same_names rows, odd, low)
    ends most s (some (max_steps_exceeded limit)) same (l, n, i, h, far) =
        few_steps n i s h (subst (λ k. reaches k i ≡ true) (l ∙ same) far)
    ends most s (some (node_failed n e)) same (i, h, fault) =
        let (rows, is_err) = fault_of n i s e h fault in
        (
          IsHistory-names is.seen (names_of cfg.workers) s.history same_names rows,
          node-renamed is.seen (names_of cfg.workers) (hop_limit cfg) e same_names is_err,
        )
    ends most s (some e) same h = tt

  -- Take a supervisor that `NewSupervisor` returns, whose step limit is an `int` without overflow,
  -- options that set no step limit, and an initial state
  -- without hops, history or a final text. Then a run returns and does not end at the step limit. If it
  -- ends without an error, the final text is not empty, each row of the history is of a configured
  -- worker, and there is one hop for each row and one more, within the largest number. If it ends with
  -- a node's error, the rows are again of configured workers; the error of too many hops comes
  -- exactly at the largest number, that of an unknown worker names none of the workers, and that of a
  -- worker names one of them.
  pub supervisor-ends-well :
      (env : Env Ctx W (SupervisorErr X))
      (opts : RunOptions SupervisorState Ctx W (SupervisorErr X)) (r : Supervisor Ctx W X)
      (ctx : Ctx) (initial : SupervisorState) (w : W)
      → FitsInt (hop_limit cfg * 3 + 4)
      → new_supervisor sv cfg ≡ ok r
      → initial.history ≡ []
      → initial.hops ≡ 0
      → initial.final ≡ ""
      → is_positive opts.max_steps ≡ false
      → (f : Final SupervisorState (SupervisorErr X)) × (w' : W) × (invoke_with env r opts ctx
            initial w
          ≡ some (f, w'))
        × EndsWell (names_of cfg.workers) (hop_limit cfg) f.state f.error
  supervisor-ends-well env opts r ctx initial w small made empty fresh open_run free =
      let is = new_supervisor-IsSupervisor sv cfg r made in
      let ((f, w'), ran) = invoke_with_total env r opts ctx initial w in
      let limit =
        step_limit-set opts.max_steps (hop_limit cfg * 3 + 3) r free
          (is.limit ∙ wrap_int-pos (hop_limit cfg * 3 + 4) small ∙ ap pos (omega arith)) in
      let none_yet : length initial.history ≡ 0 = ap length empty in
      (
        f,
        w',
        ran,
        ends r is (step_limit env r opts) f.state f.error (limit ∙ omega arith) (
            invoke_with-Ends env r opts (Here sv cfg r is) (keeps sv cfg r is) ctx initial w w' f
              (
                0,
                refl,
                inl (
                  is.entries.entry,
                  omega arith,
                  omega arith,
                  subst (λ k. k < hop_limit cfg) (sym fresh) (some_hop cfg.max_hops),
                  open_run,
                  subst (IsHistory is.seen) (sym empty) tt,
                ),
              )
              ran),
      )
    where
      some_hop : (z : ℤ) → 0 < positive_or z 8
      some_hop (pos zero) = omega arith
      some_hop (pos (suc n)) = omega arith
      some_hop (negsuc n) = omega arith
