-- ===== src/Agent/PlanExecute/Setup.antt =====
-- The graph that `NewPlanAndExecute` of pkg/agent/planexecute.go compiles.
use galdor.Agent.PlanExecute.Build.{
  Planner, build_planner, new_plan_and_execute, plan_calls, with_limit,
}
use galdor.Agent.PlanExecute.Nodes.{execute_node, plan_node, replan_node}
use galdor.Agent.PlanExecute.{
  PlanErr, PlanExecuteConfig, PlanExecuteState, PlanServices, max_iter_of, plan_route, plan_router,
  validate_config,
}
use galdor.Prelude.{
  wrap_int, All, All-lookup, Option-cases, String, ap, inl, inr, lookup, none, ok, refl, some,
  subst, sym, ◌*◌, ◌+◌, ◌∙◌, ◌≡◌, ◌⊎◌,
}
use galdor.Graph.Core.{start_node, NodeFunc, Router}
use galdor.Graph.Builder.{build, new}
use galdor.Graph.Builder.Entries.{Adds}
use galdor.Graph.Compile.{compile, Compiled, compiled, rejected}
use galdor.Graph.Compile.Entry.{HoldsEntries, compile-HoldsEntries}
use galdor.Graph.Run.{resolve_next}
use galdor.Graph.Run.Next.{resolve_next-routed, resolve_next-static}

module _ {Ctx W X : Type 0} (sv : PlanServices Ctx W X) (cfg : PlanExecuteConfig Ctx W X) where
  -- The entries of the graph.
  abbrev pub IsNode : String × NodeFunc PlanExecuteState Ctx W (PlanErr X) → Type 0
  IsNode e =
      ((e.0 ≡ "plan") × (e.1 ≡ plan_node sv cfg))
      ⊎ ((e.0 ≡ "execute") × (e.1 ≡ execute_node sv cfg))
      ⊎ ((e.0 ≡ "replan") × (e.1 ≡ replan_node sv cfg))

  abbrev pub IsRouter : String × Router PlanExecuteState (PlanErr X) → Type 0
  IsRouter e = (e.0 ≡ "replan") × (e.1 ≡ plan_router (max_iter_of cfg))

  abbrev pub IsEdge : String × String → Type 0
  IsEdge e =
      ((e.0 ≡ start_node) × (e.1 ≡ "plan"))
      ⊎ ((e.0 ≡ "plan") × (e.1 ≡ "execute"))
      ⊎ ((e.0 ≡ "execute") × (e.1 ≡ "replan"))

  plan_calls-Adds : All (Adds IsNode IsRouter IsEdge) (plan_calls sv cfg)
  unfolding plan_calls
  plan_calls-Adds = (
    inl (refl, refl),
    (
      inr (inl (refl, refl)),
      (
        inr (inr (refl, refl)),
        (inl (refl, refl), (inr (inl (refl, refl)), (inr (inr (refl, refl)), ((refl, refl), tt)))),
      ),
    ),
  )

  start-plan : (t : String) → IsEdge (start_node, t) → t ≡ "plan"
  start-plan t (inl (e, same)) = same
  start-plan t (inr (inl (e, same))) = cc e
  start-plan t (inr (inr (e, same))) = cc e

  -- What is known of the runnable.
  pub record IsPlanner (r : Planner Ctx W X) : Type 0 where
    pub accepted : validate_config cfg ≡ none
    pub entries : HoldsEntries IsNode IsRouter IsEdge "plan" r
    pub limit : r.max_steps ≡ wrap_int (max_iter_of cfg * 4 + 6)

  -- A runnable that `NewPlanAndExecute` returns.
  pub new_plan_and_execute-IsPlanner :
      (r : Planner Ctx W X) → new_plan_and_execute sv cfg ≡ ok r → IsPlanner r
  unfolding new_plan_and_execute
  new_plan_and_execute-IsPlanner r h = elim (Option-cases (validate_config cfg)) [
    | inr (x, e) ↦ cc (ap (build_planner sv cfg) e, h)
    | inl e ↦
        made e (compile (build (plan_calls sv cfg) new)) refl
          (sym (ap (build_planner sv cfg) e) ∙ h)
  ]
    where
      made :
          validate_config cfg ≡ none
          → (c : Compiled
              (NodeFunc PlanExecuteState Ctx W (PlanErr X))
              (Router PlanExecuteState (PlanErr X)))
          → compile (build (plan_calls sv cfg) new) ≡ c
          → with_limit (max_iter_of cfg) c ≡ ok r
          → IsPlanner r
      made v (rejected ps) e h = cc
      made v (compiled q) e h =
          let held =
            compile-HoldsEntries IsNode IsRouter IsEdge "plan" (plan_calls sv cfg) q plan_calls-Adds
              start-plan e in
          let same : record q { max_steps = wrap_int (max_iter_of cfg * 4 + 6) } ≡ r = cc h in
          subst IsPlanner same (record {
            accepted = v;
            entries = record {
              nodes = held.nodes;
              routers = held.routers;
              edges = held.edges;
              no_branches = held.no_branches;
              entry = held.entry;
            };
            limit = refl;
          })

  module _ (r : Planner Ctx W X) (is : IsPlanner r) where
    pub IsNode-held :
        (n : String) (fn : NodeFunc PlanExecuteState Ctx W (PlanErr X))
        → lookup n r.nodes ≡ some fn
        → IsNode (n, fn)
    IsNode-held n fn known = All-lookup IsNode n fn r.nodes is.entries.nodes known

    IsEdge-held : (n t : String) → lookup n r.static_edges ≡ some t → IsEdge (n, t)
    IsEdge-held n t known = All-lookup IsEdge n t r.static_edges is.entries.edges known

    IsRouter-held :
        (n : String) (router : Router PlanExecuteState (PlanErr X))
        → lookup n r.conditional_edges ≡ some router
        → IsRouter (n, router)
    IsRouter-held n router known =
        All-lookup IsRouter n router r.conditional_edges is.entries.routers known

    -- Where a run goes after each node.
    pub resolve-plan :
        (next : String) (s : PlanExecuteState)
        → resolve_next r "plan" s ≡ ok next
        → next ≡ "execute"
    resolve-plan next s =
        resolve_next-static r "plan" next s "execute" (λ t e. goes t (IsEdge-held "plan" t e))
          (λ router e. cc ((IsRouter-held "plan" router e).0))
      where
        goes : (t : String) → IsEdge ("plan", t) → t ≡ "execute"
        goes t (inl (e, same)) = cc e
        goes t (inr (inl (e, same))) = same
        goes t (inr (inr (e, same))) = cc e

    pub resolve-execute :
        (next : String) (s : PlanExecuteState)
        → resolve_next r "execute" s ≡ ok next
        → next ≡ "replan"
    resolve-execute next s =
        resolve_next-static r "execute" next s "replan" (λ t e. goes t (IsEdge-held "execute" t e))
          (λ router e. cc ((IsRouter-held "execute" router e).0))
      where
        goes : (t : String) → IsEdge ("execute", t) → t ≡ "replan"
        goes t (inl (e, same)) = cc e
        goes t (inr (inl (e, same))) = cc e
        goes t (inr (inr (e, same))) = same

    pub resolve-replan :
        (next : String) (s : PlanExecuteState)
        → resolve_next r "replan" s ≡ ok next
        → next ≡ plan_route (max_iter_of cfg) s
    resolve-replan next s =
        resolve_next-routed r "replan" next s (plan_route (max_iter_of cfg)) is.entries.no_branches
          (λ t e. no_edge t (IsEdge-held "replan" t e))
          (λ router e.
            ap (λ (k : Router PlanExecuteState (PlanErr X)). k s)
              (IsRouter-held "replan" router e).1)
      where
        no_edge : (t : String) → IsEdge ("replan", t) → ⊥
        no_edge t (inl (e, same)) = cc e
        no_edge t (inr (inl (e, same))) = cc e
        no_edge t (inr (inr (e, same))) = cc e
