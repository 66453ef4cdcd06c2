-- ===== src/Agent/PlanExecute/Answer.antt =====
-- What a run of the plan-execute agent of pkg/agent/planexecute.go returns.
use galdor.Agent.PlanExecute.Turns.{
  IsExecuted, IsPlanErr, IsPlanned, IsReplanned, IsTurn, execute_node-IsTurn, plan_node-IsTurn,
  replan_node-IsTurn, validate_config-HasProviders,
}
use galdor.Agent.PlanExecute.Setup.{IsPlanner, new_plan_and_execute-IsPlanner}
use galdor.Agent.PlanExecute.Build.{Planner, new_plan_and_execute}
use galdor.Agent.PlanExecute.{
  PlanErr, PlanExecuteConfig, PlanExecuteState, PlanServices, empty_plan, max_iter_of, nil_provider,
  unfinished,
}
use galdor.Agent.PlanExecute.Ends.{
  At, Here, Stops, differ, keeps, no_end, node-execute, node-plan, node-replan,
}
use galdor.Prelude.{
  FitsInt, wrap_int-pos, Option, String, [], ap, arith, false, inl, inr, is_positive, leb→le,
  length, lookup, negsuc, none, ok, pos, reaches, refl, some, subst, suc, sym, true, zero, ℕ, ℤ,
  ◌*◌, ◌+◌, ◌<◌, ◌∙◌, ◌≡◌, ◌≤◌,
}
use galdor.Graph.Core.{
  end_node, Outcome, returned, failed, panicked, NodeFunc, RunErr, node_failed, max_steps_exceeded,
  NodeErr, node_error, node_panic, RunOptions, Env,
}
use galdor.Graph.Hooks.{safe_call_node, node_end}
use galdor.Graph.Run.{Final, invoke_with, step_limit, positive_or}
use galdor.Graph.Run.Total.{invoke_with_total}
use galdor.Graph.Run.Invariant.{EndsWith, Raised, invoke_with-Ends, step_limit-set}

-- An error at a node: no plan is only met at the first step, and no provider or result is missing.
abbrev pub IsPlanNodeErr : {X : Type 0} → String → PlanExecuteState → NodeErr (PlanErr X) → Type 0
IsPlanNodeErr n s (node_error e) = IsPlanErr ((n ≡ "execute") × (s.plan ≡ []) × (s.iter ≡ 0)) e
IsPlanNodeErr n s (node_panic e) = IsPlanErr ((n ≡ "execute") × (s.plan ≡ []) × (s.iter ≡ 0)) e

-- How a run can end.
abbrev pub EndsPlanned : {X : Type 0} → ℕ → PlanExecuteState → Option (RunErr (PlanErr X)) → Type 0
EndsPlanned max_iter s none =
    Stops max_iter s × (length s.past ≡ s.iter) × (1 ≤ s.iter) × (s.iter ≤ max_iter)
EndsPlanned max_iter s (some (max_steps_exceeded limit)) = ⊥
EndsPlanned max_iter s (some (node_failed n e)) = IsPlanNodeErr n s e × (s.iter < max_iter)
EndsPlanned max_iter s (some e) = Unit

weaker : {X : Type 0} (E F : Type 0) (e : PlanErr X) → (E → F) → IsPlanErr E e → IsPlanErr F e
weaker E F empty_plan to h = to h
weaker E F nil_provider to h = h
weaker E F unfinished to h = h
weaker E F e to h = tt

turn-IsPlanNodeErr :
    {W X : Type 0} (n : String) (s : PlanExecuteState) (w : W) (P : PlanExecuteState → Type 0)
    (E : Type 0) (o : Outcome (PlanErr X) PlanExecuteState) (e : NodeErr (PlanErr X))
    → (E → (n ≡ "execute") × (s.plan ≡ []) × (s.iter ≡ 0))
    → IsTurn P E o
    → (node_end s o w).0.1 ≡ some e
    → IsPlanNodeErr n s e
turn-IsPlanNodeErr n s w P E (returned out) e to f h = cc h
turn-IsPlanNodeErr n s w P E (failed out x) e to f h =
    let same : node_error x ≡ e = cc h in subst (IsPlanNodeErr n s) same (weaker _ _ x to f)
turn-IsPlanNodeErr n s w P E (panicked x) e to f h =
    let same : node_panic x ≡ e = cc h in subst (IsPlanNodeErr n s) same (weaker _ _ x to f)

module _ {Ctx W X : Type 0} (sv : PlanServices Ctx W X) (cfg : PlanExecuteConfig Ctx W X) where
  abbrev Node : Type 0
  Node = NodeFunc PlanExecuteState Ctx W (PlanErr X)

  module _ (r : Planner Ctx W X) (is : IsPlanner sv cfg r) where
    few_steps :
        (n : String) (i : ℤ) (s : PlanExecuteState)
        → Here sv cfg r is n i s
        → reaches (max_iter_of cfg * 4 + 6) i ≡ true
        → ⊥
    few_steps n i s (j, step, at) h = near at (
        leb→le (max_iter_of cfg * 4 + 6) j
          (subst (λ k. reaches (max_iter_of cfg * 4 + 6) k ≡ true) step h))
      where
        near : At sv cfg r is n j s → max_iter_of cfg * 4 + 6 ≤ j → ⊥
        near (inl (a, b, c, d, e, f)) far = omega arith
        near (inr (inl (a, b, c, d, e, f))) far = omega arith
        near (inr (inr (inl (a, b, c, d, e)))) far = omega arith
        near (inr (inr (inr (a, b, c, d, e, f)))) far = omega arith

    at_end :
        (i : ℤ) (s : PlanExecuteState)
        → Here sv cfg r is end_node i s
        → Stops (max_iter_of cfg) s
          × (length s.past ≡ s.iter)
          × (1 ≤ s.iter)
          × (s.iter ≤ max_iter_of cfg)
    at_end i s (j, step, inl (at, b, c, d, e, f)) = absurd (differ end_node "plan" refl at)
    at_end i s (j, step, inr (inl (at, b, c, d, e, f))) = absurd (differ end_node "execute" refl at)
    at_end i s (j, step, inr (inr (inl (at, b, c, d, e)))) =
        absurd (differ end_node "replan" refl at)
    at_end i s (j, step, inr (inr (inr (at, count, low, high, len, why)))) = (why, len, low, high)

    fault_of :
        (n : String) (i : ℤ) (s : PlanExecuteState) (e : NodeErr (PlanErr X))
        → Here sv cfg r is n i s
        → Raised r n s e
        → IsPlanNodeErr n s e × (s.iter < max_iter_of cfg)
    unfolding safe_call_node
    fault_of n i s e (j, step, inl (at, b, zeroth, d, f, room)) (fn, known, ctx, w, h) =
        let k = node-plan sv cfg r is fn (subst (λ k. lookup k r.nodes ≡ some fn) at known) in
        (
          turn-IsPlanNodeErr n s (fn ctx s w).1 (IsPlanned s) ⊥ (fn ctx s w).0 e (λ x. absurd x)
              (subst (λ (f : Node). IsTurn (IsPlanned s) ⊥ (f ctx s w).0) (sym k)
                (plan_node-IsTurn sv cfg ctx s w (validate_config-HasProviders cfg is.accepted).0))
              h,
          omega arith,
        )
    fault_of n i s e (j, step, inr (inl (at, b, room, d, f, first))) (fn, known, ctx, w, h) =
        let k = node-execute sv cfg r is fn (subst (λ k. lookup k r.nodes ≡ some fn) at known) in
        (
          turn-IsPlanNodeErr n s (fn ctx s w).1 (IsExecuted s) (s.plan ≡ []) (fn ctx s w).0 e
              (λ x. (at, x, first x))
              (subst (λ (f : Node). IsTurn (IsExecuted s) (s.plan ≡ []) (f ctx s w).0) (sym k)
                (execute_node-IsTurn sv cfg ctx s w))
              h,
          room,
        )
    fault_of n i s e (j, step, inr (inr (inl (at, b, room, d, f)))) (fn, known, ctx, w, h) =
        let k = node-replan sv cfg r is fn (subst (λ k. lookup k r.nodes ≡ some fn) at known) in
        (
          turn-IsPlanNodeErr n s (fn ctx s w).1 (IsReplanned s) ⊥ (fn ctx s w).0 e (λ x. absurd x)
              (subst (λ (f : Node). IsTurn (IsReplanned s) ⊥ (f ctx s w).0) (sym k)
                (replan_node-IsTurn sv cfg ctx s w
                  (validate_config-HasProviders cfg is.accepted).2))
              h,
          room,
        )
    fault_of n i s e (j, step, inr (inr (inr (at, b, c, d, f, g)))) (fn, known, ctx, w, h) =
        absurd (no_end sv cfg r is fn (subst (λ k. lookup k r.nodes ≡ some fn) at known))

    ends :
        (most : ℕ) (s : PlanExecuteState) (e : Option (RunErr (PlanErr X)))
        → most ≡ max_iter_of cfg * 4 + 6
        → EndsWith r (Here sv cfg r is) most s e
        → EndsPlanned (max_iter_of cfg) s e
    ends most s none same (i, h) = at_end i s h
    ends most s (some (max_steps_exceeded limit)) same (l, n, i, h, far) =
        few_steps n i s h (subst (λ k. reaches k i ≡ true) (l ∙ same) far)
    ends most s (some (node_failed n e)) same (i, h, fault) = fault_of n i s e h fault
    ends most s (some e) same h = tt

  -- Take a plan-execute agent that `NewPlanAndExecute` returns, whose step limit is an `int` without overflow,
  -- options that set no step limit, and an
  -- initial state without executed steps, cycles or a final text. Then a run returns and does not end
  -- at the step limit. If it ends without an error, one step was executed in each of at least one and
  -- at most the largest number of cycles, and the run stopped with a final text, at that number, or as
  -- no plan was left. If it ends with a node's error, fewer cycles than that number had ended, the
  -- error of an empty plan comes only before the first cycle, and no provider is missing.
  pub plan_and_execute-ends-well :
      (env : Env Ctx W (PlanErr X)) (opts : RunOptions PlanExecuteState Ctx W (PlanErr X))
      (r : Planner Ctx W X) (ctx : Ctx) (initial : PlanExecuteState) (w : W)
      → FitsInt (max_iter_of cfg * 4 + 6)
      → new_plan_and_execute sv cfg ≡ ok r
      → initial.past ≡ []
      → initial.iter ≡ 0
      → initial.final ≡ ""
      → is_positive opts.max_steps ≡ false
      → (f : Final PlanExecuteState (PlanErr X)) × (w' : W) × (invoke_with env r opts ctx initial w
          ≡ some (f, w'))
        × EndsPlanned (max_iter_of cfg) f.state f.error
  plan_and_execute-ends-well env opts r ctx initial w small made empty fresh open_run free =
      let is = new_plan_and_execute-IsPlanner sv cfg r made in
      let ((f, w'), ran) = invoke_with_total env r opts ctx initial w in
      let limit =
        step_limit-set opts.max_steps (max_iter_of cfg * 4 + 5) r free
          (is.limit ∙ wrap_int-pos (max_iter_of cfg * 4 + 6) small ∙ ap pos (omega arith)) in
      (
        f,
        w',
        ran,
        ends r is (step_limit env r opts) f.state f.error (limit ∙ omega arith) (
            invoke_with-Ends env r opts (Here sv cfg r is) (keeps sv cfg r is) ctx initial w w' f
              (
                0,
                refl,
                inl (is.entries.entry, refl, fresh, empty, open_run, some_cycle cfg.max_iterations),
              )
              ran),
      )
    where
      some_cycle : (z : ℤ) → 0 < positive_or z 8
      some_cycle (pos zero) = omega arith
      some_cycle (pos (suc n)) = omega arith
      some_cycle (negsuc n) = omega arith
