-- ===== src/Council/Swarm/Ends.antt =====
-- Where a run of a swarm of pkg/council/swarm.go ends.
use galdor.Prelude.{
  ℕ, suc, ◌+◌, ◌≤◌, ◌<◌, ℤ, pos, suc_ℤ, String, true, Bool-cases, some, Option-cases, ok, ◌≡◌, ◌⊎◌,
  inl, inr, sym, ap, subst, ◌∙◌, ◌==◌, eq_iff, All-lookup, lookup, has, leb, leb→le, leb-false→lt,
  arith,
}
use galdor.Graph.Core.{start_node, end_node, returned, failed, NodeFunc, Router}
use galdor.Graph.Run.{resolve_next}
use galdor.Graph.Run.Invariant.{Keeps}
use galdor.Graph.Run.Next.{resolve_next-routed}
use galdor.Council.Names.{swarm_trap_node}
use galdor.Council.Swarm.{
  SwarmAgent, SwarmConfig, SwarmState, SwarmErr, Services, max_hops_of, max_hops_exceeded,
  swarm_route, swarm_trap,
}
use galdor.Council.Swarm.Build.{Swarm, node_of}
use galdor.Council.Swarm.Setup.{IsSwarm, IsAgentName, TargetsKnown, IsNode, IsRouter, IsEdge}
use galdor.Council.Swarm.Turns.{IsAnswered, IsActivation, node_of-IsActivation}

module _ {Ctx W X : Type 0} (sv : Services Ctx W X) (cfg : SwarmConfig Ctx W X) (r : Swarm sv)
    (sw : IsSwarm sv cfg r) where
  abbrev pub max_hops : ℕ
  max_hops = max_hops_of cfg

  -- Where a run is after `j` nodes: at an agent, at the trap, or at END.
  abbrev pub At : String → ℕ → SwarmState → Type 0
  At n j s =
      ((has n sw.by_name ≡ true) × (s.active ≡ n) × (s.hops ≡ j) × (s.final ≡ "") × (j < max_hops))
      ⊎ ((n ≡ swarm_trap_node) × (has s.active sw.by_name ≡ true) × (s.hops ≡ j) × (j ≡ max_hops))
      ⊎ ((n ≡ end_node) × IsAnswered s × (s.hops ≡ j) × (1 ≤ j) × (j ≤ max_hops))

  abbrev pub Here : String → ℤ → SwarmState → Type 0
  Here n i s = (j : ℕ) × (i ≡ pos j) × At n j s

  pub has-IsAgentName : (n : String) → has n sw.by_name ≡ true → IsAgentName n
  unfolding has
  has-IsAgentName n h = elim (Option-cases (lookup n sw.by_name)) [
    | inl e ↦ cc (rw (e, has) at h)
    | inr (a, e) ↦ All-lookup (λ x. IsAgentName x.0) n a sw.by_name sw.names e
  ]

  -- The node of an agent's name is an agent's, and that of the trap the trap.
  pub node-agent :
      (n : String) (fn : NodeFunc SwarmState Ctx W (SwarmErr X))
      → IsAgentName n
      → lookup n r.nodes ≡ some fn
      → (a : SwarmAgent Ctx W X) × TargetsKnown sw.by_name a
        × (fn ≡ node_of sv a sw.by_name a.provider)
  node-agent n fn (empty, start, end, trap) known =
      chosen (All-lookup (IsNode sv max_hops sw.by_name cfg.start) n fn r.nodes sw.nodes known)
    where
      chosen :
          IsNode sv max_hops sw.by_name cfg.start (n, fn)
          → (a : SwarmAgent Ctx W X) × TargetsKnown sw.by_name a
            × (fn ≡ node_of sv a sw.by_name a.provider)
      chosen (inl (at, f)) = cc (trap, (eq_iff n swarm_trap_node).1 at)
      chosen (inr (a, named, targets, f)) = (a, targets, f)

  pub node-trap :
      (fn : NodeFunc SwarmState Ctx W (SwarmErr X))
      → lookup swarm_trap_node r.nodes ≡ some fn
      → fn ≡ swarm_trap sw.by_name
  node-trap fn known = chosen (
      All-lookup (IsNode sv max_hops sw.by_name cfg.start) swarm_trap_node fn r.nodes sw.nodes
        known)
    where
      chosen :
          IsNode sv max_hops sw.by_name cfg.start (swarm_trap_node, fn) → fn ≡ swarm_trap sw.by_name
      chosen (inl (at, f)) = f
      chosen (inr (a, (empty, start, end, trap), targets, f)) = cc trap

  pub no_end : (fn : NodeFunc SwarmState Ctx W (SwarmErr X)) → lookup end_node r.nodes ≡ some fn → ⊥
  no_end fn known =
      chosen
        (All-lookup (IsNode sv max_hops sw.by_name cfg.start) end_node fn r.nodes sw.nodes known)
    where
      chosen : IsNode sv max_hops sw.by_name cfg.start (end_node, fn) → ⊥
      chosen (inl (at, f)) = cc at
      chosen (inr (a, (empty, start, end, trap), targets, f)) = cc end

  -- After an agent a run goes where the router says.
  resolve-agent :
      (n next : String) (s : SwarmState)
      → IsAgentName n
      → resolve_next r n s ≡ ok next
      → next ≡ swarm_route max_hops sw.by_name s
  resolve-agent n next s (empty, start, end, trap) h =
      resolve_next-routed r n next s (swarm_route max_hops sw.by_name) sw.no_branches
        (λ t e.
          edge (All-lookup (IsEdge sv max_hops sw.by_name cfg.start) n t r.static_edges sw.edges e))
        (λ router c.
          ap (λ (k : Router SwarmState (SwarmErr X)). k s)
            (All-lookup (IsRouter sv max_hops sw.by_name cfg.start) n router r.conditional_edges
              sw.routers c))
        h
    where
      edge : {t : String} → IsEdge sv max_hops sw.by_name cfg.start (n, t) → ⊥
      edge (inl e) = cc (trap, (eq_iff n swarm_trap_node).1 e)
      edge (inr (e, t)) = cc (start, (eq_iff n start_node).1 e)

  -- Where the router sends a run after an activation.
  routed-At :
      (j : ℕ) (s out : SwarmState) (a : SwarmAgent Ctx W X)
      → TargetsKnown sw.by_name a
      → s.hops ≡ j
      → s.final ≡ ""
      → j < max_hops
      → IsActivation sv a (s.hops + 1) s.final (returned out)
      → At (swarm_route max_hops sw.by_name out) (suc j) out
  unfolding swarm_route
  routed-At j s out a targets e fresh room (count, inl (m, last, calls, said, idle)) =
      inr (inr (to_end, (m, last, calls, said, idle), omega arith, omega arith, omega arith))
    where
      to_end : swarm_route max_hops sw.by_name out ≡ end_node
      to_end = elim (Bool-cases (out.final == "")) [
        | inr f ↦ rw (f, swarm_route)
        | inl f ↦ rw (f, (eq_iff out.active "").1 idle, swarm_route)
      ]
  routed-At j s out a targets e fresh room (count, inr (kept, permitted)) =
      let known = targets out.active permitted in
      let (empty, start, end, trap) = has-IsAgentName out.active known in
      let open_run = (eq_iff out.final "").1 (kept ∙ fresh) in
      elim (Bool-cases (leb max_hops out.hops)) [
        | inl full ↦ inr (
            inl (
              rw (open_run, empty, known, full, swarm_route),
              known,
              omega arith,
              omega (arith, leb→le max_hops out.hops full),
            ))
        | inr less ↦
            let here : swarm_route max_hops sw.by_name out ≡ out.active =
              rw (open_run, empty, known, less, swarm_route) in
            inl (
              subst (λ k. has k sw.by_name ≡ true) (sym here) known,
              sym here,
              omega arith,
              kept ∙ fresh,
              omega (arith, leb-false→lt max_hops out.hops less),
            )
      ]

  pub trap-fails :
      (ctx : Ctx) (s : SwarmState) (w : W)
      → has s.active sw.by_name ≡ true
      → (swarm_trap sw.by_name ctx s w).0 ≡ failed s (max_hops_exceeded s.hops)
  unfolding swarm_trap
  trap-fails ctx s w known = elim (Bool-cases (s.active == "")) [
    | inl e ↦ rw (e, swarm_trap)
    | inr e ↦ rw (e, known, swarm_trap)
  ]

  pub keeps : Keeps r Here
  unfolding suc_ℤ
  keeps n fn i ctx s out w next known (j, step, inl (agent, active, count, fresh, room)) ran
        chosen =
      let named = has-IsAgentName n agent in
      let (a, targets, is) = node-agent n fn named known in
      let returns : (node_of sv a sw.by_name a.provider ctx s w).0 ≡ returned out =
        subst (λ (k : NodeFunc SwarmState Ctx W (SwarmErr X)). (k ctx s w).0 ≡ returned out) is
          ran in
      let act =
        subst (IsActivation sv a (s.hops + 1) s.final) returns
          (node_of-IsActivation sv a sw.by_name a.provider ctx s w) in
      (
        suc j,
        ap suc_ℤ step,
        subst (λ k. At k (suc j) out) (sym (resolve-agent n next out named chosen))
            (routed-At j s out a targets count fresh room act),
      )
  keeps n fn i ctx s out w next known (j, step, inr (inl (at, active, count, full))) ran chosen =
      let is = node-trap fn (subst (λ k. lookup k r.nodes ≡ some fn) at known) in
      cc (
        trap-fails ctx s w active,
        subst (λ (k : NodeFunc SwarmState Ctx W (SwarmErr X)). (k ctx s w).0 ≡ returned out) is ran,
      )
  keeps n fn i ctx s out w next known (j, step, inr (inr (at, b, c, d, e))) ran chosen =
      absurd (no_end fn (subst (λ k. lookup k r.nodes ≡ some fn) at known))
