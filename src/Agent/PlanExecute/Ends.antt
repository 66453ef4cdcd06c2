-- ===== src/Agent/PlanExecute/Ends.antt =====
-- Where a run of the plan-execute agent of pkg/agent/planexecute.go is, and goes.
use galdor.Agent.PlanExecute.Turns.{
  IsExecuted, IsPlanned, IsReplanned, IsTurn, execute_node-IsTurn, plan_node-IsTurn,
  replan_node-IsTurn, validate_config-HasProviders,
}
use galdor.Agent.PlanExecute.Setup.{
  IsNode, IsPlanner, IsNode-held, resolve-execute, resolve-plan, resolve-replan,
}
use galdor.Agent.PlanExecute.Build.{Planner}
use galdor.Agent.PlanExecute.Nodes.{execute_node, plan_node, replan_node}
use galdor.Agent.PlanExecute.{
  PlanErr, PlanExecuteConfig, PlanExecuteState, PlanServices, max_iter_of, plan_route,
}
use galdor.Prelude.{
  Bool, Bool-cases, List, String, [], ap, arith, eq_iff, false, inl, inr, is_empty, leb,
  leb-false→lt, leb→le, length, lookup, ok, pos, refl, some, subst, suc, suc_ℤ, sym, true, ℕ, ℤ,
  ◌++◌, ◌+◌, ◌<◌, ◌==◌, ◌∙◌, ◌∷◌, ◌≡◌, ◌≢◌, ◌≤◌, ◌⊎◌,
}
use galdor.Graph.Core.{end_node, returned, NodeFunc}
use galdor.Graph.Run.{resolve_next}
use galdor.Graph.Run.Invariant.{Keeps}

-- Why a run stops: a final text, the cap on cycles, or an empty plan.
abbrev pub Stops : ℕ → PlanExecuteState → Type 0
Stops max_iter s =
    ((s.final ≢ "") × (s.plan ≡ [])) ⊎ ((s.final ≡ "") × ((s.iter ≡ max_iter) ⊎ (s.plan ≡ [])))

length-snoc : {A : Type 0} (xs : List A) (x : A) → length (xs ++ x ∷ []) ≡ suc (length xs)
length-snoc [] x = refl
length-snoc (y ∷ xs) x = ap suc (length-snoc xs x)

pub differ : (s t : String) → (s == t) ≡ false → s ≡ t → ⊥
differ s t h e = cc (h, (eq_iff s t).1 e)

module _ {Ctx W X : Type 0} (sv : PlanServices Ctx W X) (cfg : PlanExecuteConfig Ctx W X)
    (r : Planner Ctx W X) (is : IsPlanner sv cfg r) where
  -- Where a run is after `j` nodes, by the cycles that have ended.
  abbrev pub At : String → ℕ → PlanExecuteState → Type 0
  At n j s =
      ((n ≡ "plan")
        × (j ≡ 0)
        × (s.iter ≡ 0)
        × (s.past ≡ [])
        × (s.final ≡ "")
        × (0 < max_iter_of cfg))
      ⊎ ((n ≡ "execute")
          × (j ≡ s.iter + s.iter + 1)
          × (s.iter < max_iter_of cfg)
          × (length s.past ≡ s.iter)
          × (s.final ≡ "")
          × (s.plan ≡ [] → s.iter ≡ 0))
      ⊎ ((n ≡ "replan")
          × (j ≡ s.iter + s.iter + 2)
          × (s.iter < max_iter_of cfg)
          × (length s.past ≡ s.iter + 1)
          × (s.final ≡ ""))
      ⊎ ((n ≡ end_node)
          × (j ≡ s.iter + s.iter + 1)
          × (1 ≤ s.iter)
          × (s.iter ≤ max_iter_of cfg)
          × (length s.past ≡ s.iter)
          × Stops (max_iter_of cfg) s)

  abbrev pub Here : String → ℤ → PlanExecuteState → Type 0
  Here n i s = (j : ℕ) × (i ≡ pos j) × At n j s

  abbrev Node : Type 0
  Node = NodeFunc PlanExecuteState Ctx W (PlanErr X)

  -- The nodes by their names.
  pub node-plan : (fn : Node) → lookup "plan" r.nodes ≡ some fn → fn ≡ plan_node sv cfg
  node-plan fn known = chosen (IsNode-held sv cfg r is "plan" fn known)
    where
      chosen : IsNode sv cfg ("plan", fn) → fn ≡ plan_node sv cfg
      chosen (inl (e, f)) = f
      chosen (inr (inl (e, f))) = cc e
      chosen (inr (inr (e, f))) = cc e

  pub node-execute : (fn : Node) → lookup "execute" r.nodes ≡ some fn → fn ≡ execute_node sv cfg
  node-execute fn known = chosen (IsNode-held sv cfg r is "execute" fn known)
    where
      chosen : IsNode sv cfg ("execute", fn) → fn ≡ execute_node sv cfg
      chosen (inl (e, f)) = cc e
      chosen (inr (inl (e, f))) = f
      chosen (inr (inr (e, f))) = cc e

  pub node-replan : (fn : Node) → lookup "replan" r.nodes ≡ some fn → fn ≡ replan_node sv cfg
  node-replan fn known = chosen (IsNode-held sv cfg r is "replan" fn known)
    where
      chosen : IsNode sv cfg ("replan", fn) → fn ≡ replan_node sv cfg
      chosen (inl (e, f)) = cc e
      chosen (inr (inl (e, f))) = cc e
      chosen (inr (inr (e, f))) = f

  pub no_end : (fn : Node) → lookup end_node r.nodes ≡ some fn → ⊥
  no_end fn known = chosen (IsNode-held sv cfg r is end_node fn known)
    where
      chosen : IsNode sv cfg (end_node, fn) → ⊥
      chosen (inl (e, f)) = differ end_node "plan" refl e
      chosen (inr (inl (e, f))) = differ end_node "execute" refl e
      chosen (inr (inr (e, f))) = differ end_node "replan" refl e

  planned-At :
      (s out : PlanExecuteState)
      → s.iter ≡ 0
      → s.past ≡ []
      → s.final ≡ ""
      → 0 < max_iter_of cfg
      → IsPlanned s out
      → At "execute" 1 out
  planned-At s out zeroth empty fresh room (past, iter, final) = inr (
      inl (
        refl,
        omega arith,
        omega arith,
        ap length (past ∙ empty) ∙ sym zeroth ∙ sym iter,
        final ∙ fresh,
        λ none_left. iter ∙ zeroth,
      ))

  executed-At :
      (j : ℕ) (s out : PlanExecuteState)
      → j ≡ s.iter + s.iter + 1
      → s.iter < max_iter_of cfg
      → length s.past ≡ s.iter
      → s.final ≡ ""
      → IsExecuted s out
      → At "replan" (suc j) out
  executed-At j s out step room count fresh (first, result, plan, past, iter, final) =
      let longer = ap length past ∙ length-snoc s.past _ in
      inr (inr (inl (refl, omega arith, omega arith, omega arith, final ∙ fresh)))

  replanned-At :
      (j : ℕ) (s out : PlanExecuteState)
      → j ≡ s.iter + s.iter + 2
      → s.iter < max_iter_of cfg
      → length s.past ≡ s.iter + 1
      → s.final ≡ ""
      → IsReplanned s out
      → At (plan_route (max_iter_of cfg) out) (suc j) out
  unfolding plan_route
  replanned-At j s out step room count fresh (past, iter, inl (said, plan)) =
      let same = ap length past in
      inr (
        inr (
          inr (
            routed (out.final == "") refl,
            omega arith,
            omega arith,
            omega arith,
            omega arith,
            inl (said, plan),
          )))
    where
      routed : (b : Bool) → (out.final == "") ≡ b → plan_route (max_iter_of cfg) out ≡ end_node
      routed true e = absurd (said ((eq_iff out.final "").0 e))
      routed false e = rw (e, plan_route)
  replanned-At j s out step room count fresh (past, iter, inr final) =
      let same = ap length past in
      let blank = (eq_iff out.final "").1 (final ∙ fresh) in
      elim (Bool-cases (leb (max_iter_of cfg) out.iter)) [
        | inl full ↦ inr (
            inr (
              inr (
                rw (blank, full, plan_route),
                omega arith,
                omega arith,
                omega arith,
                omega arith,
                inr (final ∙ fresh, inl (omega (arith, leb→le (max_iter_of cfg) out.iter full))),
              )))
        | inr less ↦ elim (Bool-cases (is_empty out.plan)) [
          | inl e ↦ inr (
              inr (
                inr (
                  rw (blank, less, e, plan_route),
                  omega arith,
                  omega arith,
                  omega arith,
                  omega arith,
                  inr (final ∙ fresh, inr (empty_plan out.plan e)),
                )))
          | inr e ↦ inr (
              inl (
                rw (blank, less, e, plan_route),
                omega arith,
                omega (arith, leb-false→lt (max_iter_of cfg) out.iter less),
                omega arith,
                final ∙ fresh,
                λ none_left. cc (e, ap is_empty none_left),
              ))
        ]
      ]
    where
      empty_plan : (l : List String) → is_empty l ≡ true → l ≡ []
      empty_plan [] h = refl
      empty_plan (x ∷ l) h = cc h

  pub keeps : Keeps r Here
  unfolding suc_ℤ
  keeps n fn i ctx s out w next known (j, step, inl (at, first, zeroth, empty, fresh, room)) ran
        chosen =
      let f = node-plan fn (subst (λ k. lookup k r.nodes ≡ some fn) at known) in
      let planned =
        subst (IsTurn (IsPlanned s) ⊥) (subst (λ (k : Node). (k ctx s w).0 ≡ returned out) f ran)
          (plan_node-IsTurn sv cfg ctx s w (validate_config-HasProviders cfg is.accepted).0) in
      let there =
        resolve-plan sv cfg r is next out (subst (λ k. resolve_next r k out ≡ ok next) at chosen) in
      (
        1,
        ap suc_ℤ (step ∙ ap pos first),
        subst (λ k. At k 1 out) (sym there) (planned-At s out zeroth empty fresh room planned),
      )
  keeps n fn i ctx s out w next known (j, step, inr (inl (at, count, room, len, fresh, some_step)))
        ran chosen =
      let f = node-execute fn (subst (λ k. lookup k r.nodes ≡ some fn) at known) in
      let executed =
        subst (IsTurn (IsExecuted s) (s.plan ≡ []))
          (subst (λ (k : Node). (k ctx s w).0 ≡ returned out) f ran)
          (execute_node-IsTurn sv cfg ctx s w) in
      let there =
        resolve-execute sv cfg r is next out
          (subst (λ k. resolve_next r k out ≡ ok next) at chosen) in
      (
        suc j,
        ap suc_ℤ step,
        subst (λ k. At k (suc j) out) (sym there)
            (executed-At j s out count room len fresh executed),
      )
  keeps n fn i ctx s out w next known (j, step, inr (inr (inl (at, count, room, len, fresh)))) ran
        chosen =
      let f = node-replan fn (subst (λ k. lookup k r.nodes ≡ some fn) at known) in
      let replanned =
        subst (IsTurn (IsReplanned s) ⊥) (subst (λ (k : Node). (k ctx s w).0 ≡ returned out) f ran)
          (replan_node-IsTurn sv cfg ctx s w (validate_config-HasProviders cfg is.accepted).2) in
      let there =
        resolve-replan sv cfg r is next out
          (subst (λ k. resolve_next r k out ≡ ok next) at chosen) in
      (
        suc j,
        ap suc_ℤ step,
        subst (λ k. At k (suc j) out) (sym there)
            (replanned-At j s out count room len fresh replanned),
      )
  keeps n fn i ctx s out w next known (j, step, inr (inr (inr (at, a, b, c, d, e)))) ran chosen =
      absurd (no_end fn (subst (λ k. lookup k r.nodes ≡ some fn) at known))
