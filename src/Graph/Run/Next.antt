-- ===== src/Graph/Run/Next.antt =====
-- `resolveNext` of pkg/graph/runnable.go in a graph without branch maps.
use galdor.Prelude.{
  String, ok, Option-cases, none, some, [], ◌≡◌, inl, inr, ap, subst, Assoc, lookup,
}
use galdor.Graph.Core.{Router, routed, Runnable}
use galdor.Graph.Run.{resolve_next, route}
use galdor.Graph.Run.Invariant.{route-plain}

lookup-none : {V : Type 0} (n : String) (m : Assoc V) → m ≡ [] → lookup n m ≡ none
unfolding lookup
lookup-none n m e = ap (lookup n) e

module _ {N S X : Type 0} (r : Runnable N (Router S X)) (n next : String) (s : S) where
  -- After a node without an edge a run goes where the node's router says.
  pub resolve_next-routed :
      (f : S → String)
      → r.branch_maps ≡ []
      → ((t : String) → lookup n r.static_edges ≡ some t → ⊥)
      → ((router : Router S X)
          → lookup n r.conditional_edges ≡ some router
          → router s ≡ routed (f s))
      → resolve_next r n s ≡ ok next
      → next ≡ f s
  unfolding resolve_next
  resolve_next-routed f plain no_edge is h = elim (Option-cases (lookup n r.static_edges)) [
    | inr (t, e) ↦ absurd (no_edge t e)
    | inl e ↦ elim (Option-cases (lookup n r.conditional_edges)) [
      | inl c ↦ cc (rw (e, c, resolve_next) at h)
      | inr (router, c) ↦
          route-plain r n (f s) next (lookup-none n r.branch_maps plain)
            (subst (λ k. route r n k ≡ ok next) (is router c) (rw (e, c, resolve_next) at h))
    ]
  ]

  -- After a node without a router it goes along the node's edge.
  pub resolve_next-static :
      (target : String)
      → ((t : String) → lookup n r.static_edges ≡ some t → t ≡ target)
      → ((router : Router S X) → lookup n r.conditional_edges ≡ some router → ⊥)
      → resolve_next r n s ≡ ok next
      → next ≡ target
  unfolding resolve_next
  resolve_next-static target is no_router h = elim (Option-cases (lookup n r.static_edges)) [
    | inr (t, e) ↦ cc (is t e, rw (e, resolve_next) at h)
    | inl e ↦ elim (Option-cases (lookup n r.conditional_edges)) [
      | inl c ↦ cc (rw (e, c, resolve_next) at h)
      | inr (router, c) ↦ absurd (no_router router c)
    ]
  ]
