-- ===== src/Council/Supervisor/Setup.antt =====
-- What `NewSupervisor` of pkg/council/supervisor.go checks, and the graph that it compiles.
use galdor.Provider.{Provider}
use galdor.Council.Names.{is_safe_worker_name}
use galdor.Council.Supervisor.Build.{
  Supervisor, new_supervisor, supervisor_calls, with_provider, with_steps, worker_calls,
}
use galdor.Council.Supervisor.{
  Services, SupervisorConfig, SupervisorErr, SupervisorState, Worker, check_worker, check_workers,
  hop_limit, supervisor_node, supervisor_router, supervisor_trap, unsafe_name, worker_node,
}
use galdor.Prelude.{
  wrap_int, both_false, passed, ◌∙◌, ==_refl, All, Bool, Bool-cases, Option-cases, Result-cases, [],
  ap, contains, inl, inr, is_empty, none, not, ok, refl, subst, true, ◌*◌, ◌+◌, ◌||◌, ◌∷◌, ◌⊎◌,
  false, ◌≡◌, ◌==◌, String, List,
}
use galdor.Graph.Core.{start_node, end_node, NodeFunc, Router}
use galdor.Graph.Builder.{build, new}
use galdor.Graph.Builder.Entries.{Adds}
use galdor.Graph.Compile.{compile, Compiled, compiled, rejected}
use galdor.Graph.Compile.Entry.{HoldsEntries, compile-HoldsEntries}
use galdor.Council.Supervisor.Payload.{supervisor_trap_node}

-- A name that is none of the graph's own.
abbrev pub IsWorkerName : String → Type 0
IsWorkerName n =
    ((n == "") ≡ false)
    × ((n == start_node) ≡ false)
    × ((n == end_node) ≡ false)
    × ((n == "supervisor") ≡ false)
    × ((n == supervisor_trap_node) ≡ false)

module _ {Ctx W X : Type 0} where
  check_worker-IsWorkerName :
      (a : Worker Ctx W X) (seen : List String) → check_worker a seen ≡ none → IsWorkerName a.name
  unfolding check_worker
  check_worker-IsWorkerName a seen h =
      let (empty, h1) = passed _ _ _ h in
      let (safe, h2) = passed (not (is_safe_worker_name a.name)) (unsafe_name a.name) _ h1 in
      let (reserved, h3) = passed _ _ _ h2 in
      let (start, others) = both_false _ _ reserved in
      let (end, last) = both_false _ _ others in
      let (own, trap) = both_false _ _ last in (empty, start, end, own, trap)

  -- Each worker's name is among the names of an accepted list, and all these are fit for nodes.
  check_workers-names :
      (ws : List (Worker Ctx W X)) (before seen : List String)
      → All IsWorkerName before
      → check_workers ws before ≡ ok seen
      → All IsWorkerName seen
  unfolding check_workers
  check_workers-names [] before seen a h =
      let same : before ≡ seen = cc h in subst (All IsWorkerName) same a
  check_workers-names (w ∷ ws) before seen a h = elim (Option-cases (check_worker w before)) [
    | inr (e, c) ↦ cc (rw (c, check_workers) at h)
    | inl c ↦
        check_workers-names ws (w.name ∷ before) seen (check_worker-IsWorkerName w before c, a)
          (rw (c, check_workers) at h)
  ]

  check_workers-contains :
      (n : String) (ws : List (Worker Ctx W X)) (before seen : List String)
      → contains n before ≡ true
      → check_workers ws before ≡ ok seen
      → contains n seen ≡ true
  unfolding check_workers contains
  check_workers-contains n [] before seen a h =
      let same : before ≡ seen = cc h in subst (λ k. contains n k ≡ true) same a
  check_workers-contains n (w ∷ ws) before seen a h = elim (Option-cases (check_worker w before)) [
    | inr (e, c) ↦ cc (rw (c, check_workers) at h)
    | inl c ↦
        check_workers-contains n ws (w.name ∷ before) seen (later (w.name == n))
          (rw (c, check_workers) at h)
  ]
    where
      later : (b : Bool) → (b || contains n before) ≡ true
      later true = refl
      later false = a

  abbrev pub names_of : List (Worker Ctx W X) → List String
  names_of [] = []
  names_of (w ∷ ws) = w.name ∷ names_of ws

  -- The accepted names are those of the workers.
  pub contains-seen :
      (n : String) (ws : List (Worker Ctx W X)) (before seen : List String)
      → check_workers ws before ≡ ok seen
      → contains n seen ≡ (contains n before || contains n (names_of ws))
  unfolding check_workers contains
  contains-seen n [] before seen h =
      let same : before ≡ seen = cc h in
      subst (λ k. contains n k ≡ (contains n before || false)) same (or_false (contains n before))
    where
      or_false : (b : Bool) → b ≡ (b || false)
      or_false true = refl
      or_false false = refl
  contains-seen n (w ∷ ws) before seen h = elim (Option-cases (check_worker w before)) [
    | inr (e, c) ↦ cc (rw (c, check_workers) at h)
    | inl c ↦
        contains-seen n ws (w.name ∷ before) seen (rw (c, check_workers) at h)
        ∙ swapped (w.name == n) (contains n before) (contains n (names_of ws))
  ]
    where
      swapped : (a b c : Bool) → ((a || b) || c) ≡ (b || (a || c))
      swapped true true c = refl
      swapped true false c = refl
      swapped false b c = refl

  abbrev pub IsWorkerOf : List String → Worker Ctx W X → Type 0
  IsWorkerOf seen w = IsWorkerName w.name × (contains w.name seen ≡ true)

  check_workers-IsWorkerOf :
      (ws : List (Worker Ctx W X)) (before seen : List String)
      → check_workers ws before ≡ ok seen
      → All (IsWorkerOf seen) ws
  unfolding check_workers contains
  check_workers-IsWorkerOf [] before seen h = tt
  check_workers-IsWorkerOf (w ∷ ws) before seen h = elim (Option-cases (check_worker w before)) [
    | inr (e, c) ↦ cc (rw (c, check_workers) at h)
    | inl c ↦
        let rest = rw (c, check_workers) at h in
        (
          (
            check_worker-IsWorkerName w before c,
            check_workers-contains w.name ws (w.name ∷ before) seen (rw (==_refl w.name, contains))
                rest,
          ),
          check_workers-IsWorkerOf ws (w.name ∷ before) seen rest,
        )
  ]

module _ {Ctx W X : Type 0} (sv : Services) (cfg : SupervisorConfig Ctx W X) where
  module _ (p : Provider Ctx W X) (seen : List String) where
    -- The entries of the graph of a supervisor.
    abbrev pub IsNode : String × NodeFunc SupervisorState Ctx W (SupervisorErr X) → Type 0
    IsNode e =
        ((e.0 ≡ "supervisor") × (e.1 ≡ supervisor_node sv cfg seen p))
        ⊎ ((e.0 ≡ supervisor_trap_node) × (e.1 ≡ supervisor_trap))
        ⊎ ((a : Worker Ctx W X) × (e.0 ≡ a.name) × IsWorkerOf seen a × (e.1 ≡ worker_node a))

    abbrev pub IsRouter : String × Router SupervisorState (SupervisorErr X) → Type 0
    IsRouter e = (e.0 ≡ "supervisor") × (e.1 ≡ supervisor_router (hop_limit cfg))

    abbrev pub IsEdge : String × String → Type 0
    IsEdge e =
        (e.0 ≡ supervisor_trap_node)
        ⊎ ((e.0 ≡ start_node) × (e.1 ≡ "supervisor"))
        ⊎ (IsWorkerName e.0 × (e.1 ≡ "supervisor"))

    worker_calls-Adds :
        (ws : List (Worker Ctx W X))
        → All (IsWorkerOf seen) ws
        → All (Adds IsNode IsRouter IsEdge) (worker_calls ws)
    unfolding worker_calls
    worker_calls-Adds [] known = tt
    worker_calls-Adds (a ∷ ws) known = (
      inr (inr (a, refl, known.0, refl)),
      (inr (inr (known.0.0, refl)), worker_calls-Adds ws known.1),
    )

    supervisor_calls-Adds :
        All (IsWorkerOf seen) cfg.workers
        → All (Adds IsNode IsRouter IsEdge) (supervisor_calls sv cfg p seen)
    unfolding supervisor_calls
    supervisor_calls-Adds known = (
      inl (refl, refl),
      (
        inr (inl (refl, refl)),
        (inl refl, (inr (inl (refl, refl)), ((refl, refl), worker_calls-Adds cfg.workers known))),
      ),
    )

    start-supervisor : (t : String) → IsEdge (start_node, t) → t ≡ "supervisor"
    start-supervisor t (inl e) = cc e
    start-supervisor t (inr (inl (e, same))) = same
    start-supervisor t (inr (inr (own, same))) = same

  -- What is known of the runnable of a supervisor.
  pub record IsSupervisor (r : Supervisor Ctx W X) : Type 0 where
    pub provider : Provider Ctx W X
    pub seen : List String
    pub listed : check_workers cfg.workers [] ≡ ok seen
    pub names : All IsWorkerName seen
    pub entries :
        HoldsEntries
          (IsNode provider seen)
          (IsRouter provider seen)
          (IsEdge provider seen)
          "supervisor"
          r
    pub limit : r.max_steps ≡ wrap_int (hop_limit cfg * 3 + 4)

  -- A supervisor that `NewSupervisor` returns.
  pub new_supervisor-IsSupervisor :
      (r : Supervisor Ctx W X) → new_supervisor sv cfg ≡ ok r → IsSupervisor r
  unfolding new_supervisor
  new_supervisor-IsSupervisor r h = elim (Option-cases cfg.provider) [
    | inl e ↦ cc (ap (with_provider sv cfg) e, h)
    | inr (p, e) ↦ elim (Bool-cases (cfg.model == "")) [
      | inl m ↦ cc (rw (e, m, with_provider) at h)
      | inr m ↦ elim (Bool-cases (is_empty cfg.workers)) [
        | inl n ↦ cc (rw (e, m, n, with_provider) at h)
        | inr n ↦ elim (Result-cases (check_workers cfg.workers [])) [
          | inr (x, c) ↦ cc (rw (e, m, n, c, with_provider) at h)
          | inl (seen, c) ↦
              made p seen c (compile (build (supervisor_calls sv cfg p seen) new)) refl
                (rw (e, m, n, c, with_provider) at h)
        ]
      ]
    ]
  ]
    where
      made :
          (p : Provider Ctx W X) (seen : List String)
          → check_workers cfg.workers [] ≡ ok seen
          → (c : Compiled
              (NodeFunc SupervisorState Ctx W (SupervisorErr X))
              (Router SupervisorState (SupervisorErr X)))
          → compile (build (supervisor_calls sv cfg p seen) new) ≡ c
          → with_steps (hop_limit cfg) c ≡ ok r
          → IsSupervisor r
      made p seen c (rejected ps) e h = cc
      made p seen c (compiled q) e h =
          let known = check_workers-IsWorkerOf cfg.workers [] seen c in
          let held =
            compile-HoldsEntries (IsNode p seen) (IsRouter p seen) (IsEdge p seen) "supervisor"
              (supervisor_calls sv cfg p seen) q (supervisor_calls-Adds p seen known)
              (start-supervisor p seen) e in
          let same : record q { max_steps = wrap_int (hop_limit cfg * 3 + 4) } ≡ r = cc h in
          subst IsSupervisor same (record {
            provider = p;
            seen = seen;
            listed = c;
            names = check_workers-names cfg.workers [] seen tt c;
            entries = record {
              nodes = held.nodes;
              routers = held.routers;
              edges = held.edges;
              no_branches = held.no_branches;
              entry = held.entry;
            };
            limit = refl;
          })
