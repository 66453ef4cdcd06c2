-- ===== src/Council/Swarm/Setup.antt =====
-- What `NewSwarm` of pkg/council/swarm.go checks, and the graph that it compiles.
use galdor.Prelude.{
  wrap_int, both_false, is_true, not_empty, passed, is_empty, ℕ, ◌+◌, ◌*◌, String, true, false, not,
  Bool-cases, Option, none, some, Option-cases, List, [], ◌∷◌, ok, Result-cases, ◌≡◌, ◌⊎◌, inl, inr,
  refl, sym, ap, subst, ◌∙◌, ◌==◌, eq_iff, Assoc, All, All-insert, has, insert, contains, is_some,
  if◌then◌else◌,
}
use galdor.Graph.Core.{start_node, end_node, NodeFunc, Router}
use galdor.Graph.Compile.Entry.{compile-HoldsEntries}
use galdor.Graph.Builder.{build, new}
use galdor.Graph.Builder.Entries.{Adds}
use galdor.Graph.Compile.{compile, Compiled, compiled, rejected}
use galdor.Council.Names.{swarm_trap_node}
use galdor.Council.Swarm.{
  SwarmAgent, SwarmConfig, SwarmState, SwarmErr, Services, check_agent, check_agents, check_targets,
  check_handoffs, present, max_hops_of, swarm_router, swarm_trap, start_required, unknown_start,
  nil_provider, empty_model, reserved_name, duplicate_agent, reserved_tool, collides,
}
use galdor.Council.Swarm.Build.{
  Swarm, check_start, node_of, swarm_calls, new_swarm, build_swarm, with_steps,
}

-- A name that is none of the graph's own.
abbrev pub IsAgentName : String → Type 0
IsAgentName n =
    ((n == "") ≡ false)
    × ((n == start_node) ≡ false)
    × ((n == end_node) ≡ false)
    × ((n == swarm_trap_node) ≡ false)

module _ {Ctx W X : Type 0} where
  check_agent-IsAgentName :
      (a : SwarmAgent Ctx W X) (by_name : Assoc (SwarmAgent Ctx W X))
      → check_agent a by_name ≡ none
      → IsAgentName a.name
  unfolding check_agent
  check_agent-IsAgentName a by_name h =
      let (safe, h1) = passed _ _ _ h in
      let (reserved, h2) = passed _ _ _ h1 in
      let (given, h3) = passed (not (is_some a.provider)) (nil_provider a.name) _ h2 in
      let (model, h4) = passed (a.model == "") (empty_model a.name) _ h3 in
      let (trap, h5) =
        passed (a.name == swarm_trap_node) (reserved_name a.name)
          (if has a.name by_name
            then some (duplicate_agent a.name)
            else if collides a.tools
            then some (reserved_tool a.name)
            else none)
          h4 in
      let (start, end) = both_false _ _ reserved in (not_empty _ _ safe, start, end, trap)

  check_agents-IsAgentName :
      (agents : List (Option (SwarmAgent Ctx W X))) (before by_name : Assoc (SwarmAgent Ctx W X))
      → All (λ e. IsAgentName e.0) before
      → check_agents agents before ≡ ok by_name
      → All (λ e. IsAgentName e.0) by_name
  unfolding check_agents
  check_agents-IsAgentName [] before by_name a h =
      let same : before ≡ by_name = cc h in subst (All (λ e. IsAgentName e.0)) same a
  check_agents-IsAgentName (none ∷ agents) before by_name a h = cc
  check_agents-IsAgentName (some agent ∷ agents) before by_name a h =
      elim (Option-cases (check_agent agent before)) [
        | inr (e, c) ↦ cc (rw (c, check_agents) at h)
        | inl c ↦
            check_agents-IsAgentName agents (insert agent.name agent before) by_name
              (All-insert (λ e. IsAgentName e.0) agent.name agent before
                (check_agent-IsAgentName agent before c) a)
              (rw (c, check_agents) at h)
      ]

  check_agents-present :
      (agents : List (Option (SwarmAgent Ctx W X))) (before by_name : Assoc (SwarmAgent Ctx W X))
      → check_agents agents before ≡ ok by_name
      → All (λ a. IsAgentName a.name) (present agents)
  unfolding check_agents
  check_agents-present [] before by_name h = tt
  check_agents-present (none ∷ agents) before by_name h = cc
  check_agents-present (some agent ∷ agents) before by_name h =
      elim (Option-cases (check_agent agent before)) [
        | inr (e, c) ↦ cc (rw (c, check_agents) at h)
        | inl c ↦ (
          check_agent-IsAgentName agent before c,
          check_agents-present agents (insert agent.name agent before) by_name
              (rw (c, check_agents) at h),
        )
      ]

  -- The targets of an agent are agents.
  abbrev pub TargetsKnown : Assoc (SwarmAgent Ctx W X) → SwarmAgent Ctx W X → Type 0
  TargetsKnown by_name a = (t : String) → contains t a.handoffs ≡ true → has t by_name ≡ true

  check_targets-known :
      (name : String) (targets : List String) (by_name : Assoc (SwarmAgent Ctx W X)) (t : String)
      → check_targets name targets by_name ≡ none
      → contains t targets ≡ true
      → has t by_name ≡ true
  unfolding check_targets contains
  check_targets-known name [] by_name t h c = cc
  check_targets-known name (target ∷ targets) by_name t h c =
      let (known, h1) = passed _ _ _ h in
      let (other, h2) = passed _ _ _ h1 in
      elim (Bool-cases (target == t)) [
        | inl e ↦ subst (λ k. has k by_name ≡ true) ((eq_iff target t).0 e) (is_true _ known)
        | inr e ↦ check_targets-known name targets by_name t h2 (rw e at c)
      ]

  check_handoffs-known :
      (agents : List (SwarmAgent Ctx W X)) (by_name : Assoc (SwarmAgent Ctx W X))
      → check_handoffs agents by_name ≡ none
      → All (TargetsKnown by_name) agents
  unfolding check_handoffs
  check_handoffs-known [] by_name h = tt
  check_handoffs-known (a ∷ agents) by_name h =
      elim (Option-cases (check_targets a.name a.handoffs by_name)) [
        | inr (e, c) ↦ cc (rw (c, check_handoffs) at h)
        | inl c ↦ (
          (λ t. check_targets-known a.name a.handoffs by_name t c),
          check_handoffs-known agents by_name (rw (c, check_handoffs) at h),
        )
      ]

module _ {Ctx W X : Type 0} (sv : Services Ctx W X) where
  module _ (max_hops : ℕ) (by_name : Assoc (SwarmAgent Ctx W X)) (start : String) where
    -- The entries of the graph of a swarm.
    abbrev pub IsNode : String × NodeFunc SwarmState Ctx W (SwarmErr X) → Type 0
    IsNode e =
        ((e.0 ≡ swarm_trap_node) × (e.1 ≡ swarm_trap by_name))
        ⊎ ((a : SwarmAgent Ctx W X) × IsAgentName e.0
            × TargetsKnown by_name a
            × (e.1 ≡ node_of sv a by_name a.provider))

    abbrev pub IsRouter : String × Router SwarmState (SwarmErr X) → Type 0
    IsRouter e = e.1 ≡ swarm_router max_hops by_name

    abbrev pub IsEdge : String × String → Type 0
    IsEdge e = (e.0 ≡ swarm_trap_node) ⊎ ((e.0 ≡ start_node) × (e.1 ≡ start))

    swarm_calls-Adds :
        (agents : List (SwarmAgent Ctx W X))
        → All (λ a. IsAgentName a.name) agents
        → All (TargetsKnown by_name) agents
        → All (Adds IsNode IsRouter IsEdge) (swarm_calls sv max_hops by_name start agents)
    unfolding swarm_calls
    swarm_calls-Adds [] names known = (inl (refl, refl), (inl refl, (inr (refl, refl), tt)))
    swarm_calls-Adds (a ∷ agents) names known =
        (inr (a, names.0, known.0, refl), (refl, swarm_calls-Adds agents names.1 known.1))

    start-edge : (t : String) → IsEdge (start_node, t) → t ≡ start
    start-edge t (inl e) = cc e
    start-edge t (inr (e, same)) = same

  -- What is known of the runnable of a swarm.
  pub record IsSwarm (cfg : SwarmConfig Ctx W X) (r : Swarm sv) : Type 0 where
    pub by_name : Assoc (SwarmAgent Ctx W X)
    pub names : All (λ e. IsAgentName e.0) by_name
    pub start_known : has cfg.start by_name ≡ true
    pub nodes : All (IsNode (max_hops_of cfg) by_name cfg.start) r.nodes
    pub routers : All (IsRouter (max_hops_of cfg) by_name cfg.start) r.conditional_edges
    pub edges : All (IsEdge (max_hops_of cfg) by_name cfg.start) r.static_edges
    pub no_branches : r.branch_maps ≡ []
    pub entry : r.entry ≡ cfg.start
    pub limit : r.max_steps ≡ wrap_int (max_hops_of cfg * 4 + 4)

  build_swarm-IsSwarm :
      (cfg : SwarmConfig Ctx W X) (by_name : Assoc (SwarmAgent Ctx W X)) (r : Swarm sv)
      → All (λ e. IsAgentName e.0) by_name
      → has cfg.start by_name ≡ true
      → All (λ a. IsAgentName a.name) (present cfg.agents)
      → All (TargetsKnown by_name) (present cfg.agents)
      → build_swarm sv cfg by_name none ≡ ok r
      → IsSwarm cfg r
  unfolding compile
  build_swarm-IsSwarm cfg by_name r names start named targets h =
      made
        (compile
          (build (swarm_calls sv (max_hops_of cfg) by_name cfg.start (present cfg.agents)) new))
        refl h
    where
      made :
          (c : Compiled (NodeFunc SwarmState Ctx W (SwarmErr X)) (Router SwarmState (SwarmErr X)))
          → compile
              (build (swarm_calls sv (max_hops_of cfg) by_name cfg.start (present cfg.agents)) new)
            ≡ c
          → with_steps sv (max_hops_of cfg) c ≡ ok r
          → IsSwarm cfg r
      made (rejected ps) e h = cc
      made (compiled q) e h =
          let calls = swarm_calls sv (max_hops_of cfg) by_name cfg.start (present cfg.agents) in
          let held =
            compile-HoldsEntries (IsNode (max_hops_of cfg) by_name cfg.start)
              (IsRouter (max_hops_of cfg) by_name cfg.start)
              (IsEdge (max_hops_of cfg) by_name cfg.start) cfg.start calls q
              (swarm_calls-Adds (max_hops_of cfg) by_name cfg.start (present cfg.agents) named
                targets)
              (start-edge (max_hops_of cfg) by_name cfg.start) e in
          let same : record q { max_steps = wrap_int (max_hops_of cfg * 4 + 4) } ≡ r = cc h in
          subst (IsSwarm cfg) same (record {
            by_name = by_name;
            names = names;
            start_known = start;
            nodes = held.nodes;
            routers = held.routers;
            edges = held.edges;
            no_branches = held.no_branches;
            entry = held.entry;
            limit = refl;
          })

  -- A swarm that `NewSwarm` returns.
  pub new_swarm-IsSwarm :
      (cfg : SwarmConfig Ctx W X) (r : Swarm sv) → new_swarm sv cfg ≡ ok r → IsSwarm cfg r
  unfolding new_swarm
  new_swarm-IsSwarm cfg r h = elim (Bool-cases (is_empty cfg.agents)) [
    | inl e ↦ cc (rw (e, new_swarm) at h)
    | inr e ↦ elim (Result-cases (check_agents cfg.agents [])) [
      | inr (x, c) ↦ cc (rw (e, c, new_swarm) at h)
      | inl (by_name, c) ↦ started by_name c (rw (e, c, new_swarm) at h)
    ]
  ]
    where
      started :
          (by_name : Assoc (SwarmAgent Ctx W X))
          → check_agents cfg.agents [] ≡ ok by_name
          → build_swarm sv cfg by_name (check_start sv cfg by_name) ≡ ok r
          → IsSwarm cfg r
      started by_name c h = elim (Option-cases (check_start sv cfg by_name)) [
        | inr (x, s) ↦ cc (ap (build_swarm sv cfg by_name) s, h)
        | inl s ↦
            let (named, s1) = passed (cfg.start == "") start_required _ s in
            let (known, s2) = passed (not (has cfg.start by_name)) (unknown_start cfg.start) _ s1 in
            build_swarm-IsSwarm cfg by_name r (check_agents-IsAgentName cfg.agents [] by_name tt c)
              (is_true (has cfg.start by_name) known) (check_agents-present cfg.agents [] by_name c)
              (check_handoffs-known (present cfg.agents) by_name s2)
              (sym (ap (build_swarm sv cfg by_name) s) ∙ h)
      ]
