-- ===== src/Council/Supervisor/Turns.antt =====
-- What the nodes of a supervisor of pkg/council/supervisor.go return.
use galdor.Schema.{Message, text}
use galdor.Provider.{Provider, Reply, crashed, refused, replied}
use galdor.Council.Supervisor.{
  Decision, DecisionErr, Services, SupervisorConfig, SupervisorState, Worker, after_decision,
  after_generate, after_worker, parse_decision, run_worker, supervisor_node, supervisor_request,
  worker_node,
}
use galdor.Prelude.{
  All, Bool-cases, List, Option, Result, String, [], ap, contains, eq_iff, err, inl, inr, length,
  none, ok, refl, some, subst, suc, true, ℕ, ◌++◌, ◌+◌, ◌==◌, ◌∷◌, ◌≡◌, ◌≢◌, ◌≤◌, ◌⊎◌,
}
use galdor.Graph.Core.{returned}
use galdor.Council.Supervisor.Payload.{WorkerInvocation}

module _ (seen : List String) where
  -- Each row of the history is of a worker.
  abbrev pub IsHistory : List WorkerInvocation → Type 0
  IsHistory = All (λ i. contains i.worker seen ≡ true)

  -- The supervisor ends with a final text after one answer of a worker for each hop but the last.
  abbrev pub IsClosed : ℕ → SupervisorState → Type 0
  IsClosed max_hops s =
      (s.final ≢ "") × IsHistory s.history × (s.hops ≡ length s.history + 1) × (s.hops ≤ max_hops)

pub IsHistory-snoc :
    (seen : List String) (h : List WorkerInvocation) (i : WorkerInvocation)
    → IsHistory seen h
    → contains i.worker seen ≡ true
    → IsHistory seen (h ++ i ∷ [])
IsHistory-snoc seen [] i a c = (c, tt)
IsHistory-snoc seen (j ∷ h) i a c = (a.0, IsHistory-snoc seen h i a.1 c)

pub length-snoc : {A : Type 0} (xs : List A) (x : A) → length (xs ++ x ∷ []) ≡ suc (length xs)
length-snoc [] x = refl
length-snoc (y ∷ xs) x = ap suc (length-snoc xs x)

-- What the supervisor's node returns: a final text, or a worker to ask next.
abbrev pub IsDecided : List String → SupervisorState → SupervisorState → Type 0
IsDecided seen s out =
    (out.history ≡ s.history)
    × (out.hops ≡ s.hops + 1)
    × ((out.final ≢ "") ⊎ ((out.final ≡ s.final) × (contains out.next seen ≡ true)))

-- What a worker's node returns.
abbrev pub IsWorked : String → SupervisorState → SupervisorState → Type 0
IsWorked name s out =
    (output : String) × (out.history
      ≡ s.history ++ record { worker = name; task = s.next_task; output = output } ∷ [])
    × (out.hops ≡ s.hops)
    × (out.final ≡ s.final)

module _ {Ctx W X : Type 0} (sv : Services) (cfg : SupervisorConfig Ctx W X) where
  after_decision-IsDecided :
      (seen : List String) (s out : SupervisorState) (d : Result DecisionErr Decision)
      → after_decision sv cfg seen (record s { hops = s.hops + 1 }) d ≡ returned out
      → IsDecided seen s out
  after_decision-IsDecided seen s out (err e) h = cc
  after_decision-IsDecided seen s out (ok d) h = elim (Bool-cases (d.final == "")) [
    | inr f ↦
        let same : record s { hops = s.hops + 1; final = d.final; next = ""; next_task = "" }
            ≡ out =
          cc (rw f at h) in
        subst (IsDecided seen s) same (refl, refl, inl (λ e. cc (f, (eq_iff d.final "").1 e)))
    | inl f ↦ elim (Bool-cases (contains d.worker seen)) [
      | inr c ↦ cc (rw (f, c) at h)
      | inl c ↦
          let same : record s { hops = s.hops + 1; next = d.worker; next_task = d.task } ≡ out =
            cc (rw (f, c) at h) in
          subst (IsDecided seen s) same (refl, refl, inr (refl, c))
    ]
  ]

  pub supervisor_node-IsDecided :
      (seen : List String) (p : Provider Ctx W X) (ctx : Ctx) (s out : SupervisorState) (w : W)
      → (supervisor_node sv cfg seen p ctx s w).0 ≡ returned out
      → IsDecided seen s out
  unfolding supervisor_node
  supervisor_node-IsDecided seen p ctx s out w h =
      replied-IsDecided
        (p.generate ctx (supervisor_request sv cfg seen (record s { hops = s.hops + 1 })) w) h
    where
      replied-IsDecided :
          (o : Reply X Message × W)
          → (after_generate sv cfg seen (record s { hops = s.hops + 1 }) o).0 ≡ returned out
          → IsDecided seen s out
      replied-IsDecided (refused x, v) h = cc
      replied-IsDecided (crashed x, v) h = cc
      replied-IsDecided (replied m, v) h =
          after_decision-IsDecided seen s out (parse_decision sv (text m)) h

pub worker_node-IsWorked :
    {Ctx W X : Type 0} (a : Worker Ctx W X) (ctx : Ctx) (s out : SupervisorState) (w : W)
    → (worker_node a ctx s w).0 ≡ returned out
    → IsWorked a.name s out
worker_node-IsWorked {Ctx} {W} {X} a ctx s out w h = ran a.run h
  where
    answered :
        (o : Reply X String × W)
        → (after_worker a.name s o).0 ≡ returned out
        → IsWorked a.name s out
    answered (refused x, v) h = cc
    answered (crashed x, v) h = cc
    answered (replied output, v) h =
        let same : record s {
          history =
              s.history ++ record { worker = a.name; task = s.next_task; output = output } ∷ [];
          next = "";
          next_task = "";
        }
            ≡ out =
          cc h in
        subst (IsWorked a.name s) same (output, refl, refl, refl)

    ran :
        (run : Option (Ctx → String → W → Reply X String × W))
        → (run_worker a.name run ctx s w).0 ≡ returned out
        → IsWorked a.name s out
    ran none h = cc
    ran (some run) h = answered (run ctx s.next_task w) h
