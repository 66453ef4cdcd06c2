-- ===== src/Council/Supervisor/Ends.antt =====
-- Where a run of a supervisor of pkg/council/supervisor.go is, and goes.
use galdor.Council.Supervisor.Turns.{
  IsDecided, IsHistory-snoc, IsWorked, length-snoc, supervisor_node-IsDecided, worker_node-IsWorked,
  IsClosed, IsHistory,
}
use galdor.Council.Supervisor.Setup.{IsEdge, IsNode, IsRouter, IsSupervisor, IsWorkerName}
use galdor.Council.Supervisor.Build.{Supervisor}
use galdor.Council.Supervisor.{
  Services, SupervisorConfig, SupervisorErr, SupervisorState, Worker, hop_limit, supervisor_node,
  supervisor_route, supervisor_trap, worker_node,
}
use galdor.Prelude.{
  Bool-cases, arith, false, leb, leb-false→lt, leb→le, refl, subst, suc, suc_ℤ, ◌==◌, ◌∙◌, ◌≢◌,
  All-contains, All-lookup, String, ap, contains, eq_iff, inl, inr, length, lookup, ok, pos, some,
  sym, true, ℕ, ℤ, ◌+◌, ◌<◌, ◌≡◌, ◌⊎◌,
}
use galdor.Graph.Core.{end_node, returned, NodeFunc, Router}
use galdor.Graph.Run.{resolve_next}
use galdor.Graph.Run.Invariant.{Keeps}
use galdor.Graph.Run.Next.{resolve_next-routed, resolve_next-static}
use galdor.Council.Supervisor.Payload.{supervisor_trap_node}

module _ {Ctx W X : Type 0} (sv : Services) (cfg : SupervisorConfig Ctx W X)
    (r : Supervisor Ctx W X) (is : IsSupervisor sv cfg r) where
  -- Where a run is after `j` nodes: at the supervisor, at a worker, at the trap, or at END.
  abbrev pub At : String → ℕ → SupervisorState → Type 0
  At n j s =
      ((n ≡ "supervisor")
        × (s.hops ≡ length s.history)
        × (j ≡ length s.history + length s.history)
        × (s.hops < hop_limit cfg)
        × (s.final ≡ "")
        × IsHistory is.seen s.history)
      ⊎ ((contains n is.seen ≡ true)
          × (s.hops ≡ length s.history + 1)
          × (j ≡ length s.history + length s.history + 1)
          × (s.hops < hop_limit cfg)
          × (s.final ≡ "")
          × IsHistory is.seen s.history)
      ⊎ ((n ≡ supervisor_trap_node)
          × (s.hops ≡ length s.history + 1)
          × (j ≡ length s.history + length s.history + 1)
          × (s.hops ≡ hop_limit cfg)
          × IsHistory is.seen s.history)
      ⊎ ((n ≡ end_node)
          × (j ≡ length s.history + length s.history + 1)
          × IsClosed is.seen (hop_limit cfg) s)

  abbrev pub Here : String → ℤ → SupervisorState → Type 0
  Here n i s = (j : ℕ) × (i ≡ pos j) × At n j s

  abbrev Node : Type 0
  Node = NodeFunc SupervisorState Ctx W (SupervisorErr X)

  pub worker-IsWorkerName : (n : String) → contains n is.seen ≡ true → IsWorkerName n
  worker-IsWorkerName n h = All-contains IsWorkerName n is.seen is.names h

  held :
      (n : String) (fn : Node)
      → lookup n r.nodes ≡ some fn
      → IsNode sv cfg is.provider is.seen (n, fn)
  held n fn known =
      All-lookup (IsNode sv cfg is.provider is.seen) n fn r.nodes is.entries.nodes known

  -- The nodes by their names.
  pub node-supervisor :
      (fn : Node)
      → lookup "supervisor" r.nodes ≡ some fn
      → fn ≡ supervisor_node sv cfg is.seen is.provider
  node-supervisor fn known = chosen (held "supervisor" fn known)
    where
      chosen :
          IsNode sv cfg is.provider is.seen ("supervisor", fn)
          → fn ≡ supervisor_node sv cfg is.seen is.provider
      chosen (inl (e, f)) = f
      chosen (inr (inl (e, f))) = cc e
      chosen (inr (inr (a, e, ((b, c, d, own, t), k), f))) =
          cc (own, (eq_iff a.name "supervisor").1 (sym e))

  pub node-worker :
      (n : String) (fn : Node)
      → IsWorkerName n
      → lookup n r.nodes ≡ some fn
      → (a : Worker Ctx W X) × (n ≡ a.name) × (fn ≡ worker_node a)
  node-worker n fn (b, c, d, own, trap) known = chosen (held n fn known)
    where
      chosen :
          IsNode sv cfg is.provider is.seen (n, fn)
          → (a : Worker Ctx W X) × (n ≡ a.name) × (fn ≡ worker_node a)
      chosen (inl (e, f)) = cc (own, (eq_iff n "supervisor").1 e)
      chosen (inr (inl (e, f))) = cc (trap, (eq_iff n supervisor_trap_node).1 e)
      chosen (inr (inr (a, e, k, f))) = (a, e, f)

  pub node-trap : (fn : Node) → lookup supervisor_trap_node r.nodes ≡ some fn → fn ≡ supervisor_trap
  node-trap fn known = chosen (held supervisor_trap_node fn known)
    where
      chosen : IsNode sv cfg is.provider is.seen (supervisor_trap_node, fn) → fn ≡ supervisor_trap
      chosen (inl (e, f)) = cc e
      chosen (inr (inl (e, f))) = f
      chosen (inr (inr (a, e, ((b, c, d, own, trap), k), f))) =
          cc (trap, (eq_iff a.name supervisor_trap_node).1 (sym e))

  pub no_end : (fn : Node) → lookup end_node r.nodes ≡ some fn → ⊥
  no_end fn known = chosen (held end_node fn known)
    where
      chosen : IsNode sv cfg is.provider is.seen (end_node, fn) → ⊥
      chosen (inl (e, f)) = cc e
      chosen (inr (inl (e, f))) = cc e
      chosen (inr (inr (a, e, ((b, c, end, own, trap), k), f))) =
          cc (end, (eq_iff a.name end_node).1 (sym e))

  IsEdge-of :
      (n t : String) → lookup n r.static_edges ≡ some t → IsEdge sv cfg is.provider is.seen (n, t)
  IsEdge-of n t known =
      All-lookup (IsEdge sv cfg is.provider is.seen) n t r.static_edges is.entries.edges known

  resolve-supervisor :
      (next : String) (s : SupervisorState)
      → resolve_next r "supervisor" s ≡ ok next
      → next ≡ supervisor_route (hop_limit cfg) s
  resolve-supervisor next s h =
      resolve_next-routed r "supervisor" next s (supervisor_route (hop_limit cfg))
        is.entries.no_branches (λ t e. no_edge t (IsEdge-of "supervisor" t e))
        (λ router e.
          ap (λ (k : Router SupervisorState (SupervisorErr X)). k s)
            (All-lookup (IsRouter sv cfg is.provider is.seen) "supervisor" router
              r.conditional_edges is.entries.routers e).1)
        h
    where
      no_edge : (t : String) → IsEdge sv cfg is.provider is.seen ("supervisor", t) → ⊥
      no_edge t (inl e) = cc e
      no_edge t (inr (inl (e, f))) = cc e
      no_edge t (inr (inr ((b, c, d, own, trap), f))) = cc own

  resolve-worker :
      (n next : String) (s : SupervisorState)
      → IsWorkerName n
      → resolve_next r n s ≡ ok next
      → next ≡ "supervisor"
  resolve-worker n next s (b, start, d, own, trap) h =
      resolve_next-static r n next s "supervisor" (λ t e. goes t (IsEdge-of n t e))
        (λ router e. cc (
          own,
          (eq_iff n "supervisor").1 (
              (All-lookup (IsRouter sv cfg is.provider is.seen) n router r.conditional_edges
                is.entries.routers e).0),
        ))
        h
    where
      goes : (t : String) → IsEdge sv cfg is.provider is.seen (n, t) → t ≡ "supervisor"
      goes t (inl e) = cc (trap, (eq_iff n supervisor_trap_node).1 e)
      goes t (inr (inl (e, f))) = f
      goes t (inr (inr (e, f))) = f

  -- Where the supervisor's decision sends a run.
  routed-At :
      (j : ℕ) (s out : SupervisorState)
      → s.hops ≡ length s.history
      → j ≡ length s.history + length s.history
      → s.hops < hop_limit cfg
      → s.final ≡ ""
      → IsHistory is.seen s.history
      → IsDecided is.seen s out
      → At (supervisor_route (hop_limit cfg) out) (suc j) out
  unfolding supervisor_route
  routed-At j s out even count less fresh rows (same, more, inl said) = inr (
      inr (
        inr (
          rw (not_blank said, supervisor_route),
          subst (λ h. suc j ≡ length h + length h + 1) (sym same) (omega arith),
          (
            said,
            subst (IsHistory is.seen) (sym same) rows,
            subst (λ h. out.hops ≡ length h + 1) (sym same) (omega arith),
            omega arith,
          ),
        )))
    where
      not_blank : {t : String} → t ≢ "" → (t == "") ≡ false
      not_blank {t} ne = elim (Bool-cases (t == "")) [
        | inl e ↦ absurd (ne ((eq_iff t "").0 e))
        | inr e ↦ e
      ]
  routed-At j s out even count less fresh rows (same, more, inr (kept, known)) =
      let (empty, start, end, own, trap) = worker-IsWorkerName out.next known in
      let blank = (eq_iff out.final "").1 (kept ∙ fresh) in
      let history = subst (IsHistory is.seen) (sym same) rows in
      let hops = subst (λ h. out.hops ≡ length h + 1) (sym same) (omega arith) in
      let steps = subst (λ h. suc j ≡ length h + length h + 1) (sym same) (omega arith) in
      elim (Bool-cases (leb (hop_limit cfg) out.hops)) [
        | inl full ↦ inr (
            inr (
              inl (
                rw (blank, full, supervisor_route),
                hops,
                steps,
                omega (arith, leb→le (hop_limit cfg) out.hops full),
                history,
              )))
        | inr room ↦
            let here : supervisor_route (hop_limit cfg) out ≡ out.next =
              rw (blank, room, empty, supervisor_route) in
            inr (
              inl (
                subst (λ k. contains k is.seen ≡ true) (sym here) known,
                hops,
                steps,
                leb-false→lt (hop_limit cfg) out.hops room,
                kept ∙ fresh,
                history,
              ))
      ]

  -- A worker sends a run back to the supervisor.
  worked-At :
      (j : ℕ) (name : String) (s out : SupervisorState)
      → contains name is.seen ≡ true
      → s.hops ≡ length s.history + 1
      → j ≡ length s.history + length s.history + 1
      → s.hops < hop_limit cfg
      → s.final ≡ ""
      → IsHistory is.seen s.history
      → IsWorked name s out
      → At "supervisor" (suc j) out
  worked-At j name s out known odd count less fresh rows (output, row, same, kept) =
      let longer = ap length row ∙ length-snoc s.history _ in
      inl (
        refl,
        omega arith,
        omega arith,
        omega arith,
        kept ∙ fresh,
        subst (IsHistory is.seen) (sym row) (IsHistory-snoc is.seen s.history _ rows known),
      )

  pub keeps : Keeps r Here
  unfolding suc_ℤ
  keeps n fn i ctx s out w next known (j, step, inl (at, even, count, less, fresh, rows)) ran
        chosen =
      let f = node-supervisor fn (subst (λ k. lookup k r.nodes ≡ some fn) at known) in
      let decided =
        supervisor_node-IsDecided sv cfg is.seen is.provider ctx s out w
          (subst (λ (k : Node). (k ctx s w).0 ≡ returned out) f ran) in
      (
        suc j,
        ap suc_ℤ step,
        subst (λ k. At k (suc j) out)
            (sym
              (resolve-supervisor next out (subst (λ k. resolve_next r k out ≡ ok next) at chosen)))
            (routed-At j s out even count less fresh rows decided),
      )
  keeps n fn i ctx s out w next known (j, step, inr (inl (at, odd, count, less, fresh, rows))) ran
        chosen =
      let named = worker-IsWorkerName n at in
      let (a, same, f) = node-worker n fn named known in
      let worked =
        worker_node-IsWorked a ctx s out w
          (subst (λ (k : Node). (k ctx s w).0 ≡ returned out) f ran) in
      (
        suc j,
        ap suc_ℤ step,
        subst (λ k. At k (suc j) out) (sym (resolve-worker n next out named chosen))
            (worked-At j n s out at odd count less fresh rows
              (subst (λ k. IsWorked k s out) (sym same) worked)),
      )
  keeps n fn i ctx s out w next known (j, step, inr (inr (inl (at, odd, count, full, rows)))) ran
        chosen =
      let f = node-trap fn (subst (λ k. lookup k r.nodes ≡ some fn) at known) in
      cc (subst (λ (k : Node). (k ctx s w).0 ≡ returned out) f ran)
  keeps n fn i ctx s out w next known (j, step, inr (inr (inr (at, count, closed)))) ran chosen =
      absurd (no_end fn (subst (λ k. lookup k r.nodes ≡ some fn) at known))
