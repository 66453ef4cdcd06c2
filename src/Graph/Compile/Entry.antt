-- ===== src/Graph/Compile/Entry.antt =====
-- What `Compile` of pkg/graph/runnable.go makes of a chain of builder calls that it accepts.
use galdor.Prelude.{
  String, some, Option-cases, List, [], ◌≡◌, refl, sym, inl, inr, ap, subst, ◌∙◌, All, All-lookup,
  lookup,
}
use galdor.Graph.Core.{start_node, Runnable}
use galdor.Graph.Builder.{Graph, Call, build, new}
use galdor.Graph.Builder.Entries.{Adds, build-Entries}
use galdor.Graph.Builder.Invariant.{IsBuilt, build-IsBuilt}
use galdor.Graph.Compile.{compile, compiled, problems, runnable_of, entry_or_empty}
use galdor.Graph.Compile.Sound.{verdict-inv, IsKnown, IsSound, compile-IsSound}

-- If each edge out of START goes to one node, that node is the entry.
entry_of-eq :
    {N R : Type 0} (start : String) (g : Graph N R)
    → IsBuilt g
    → ((t : String) → lookup start_node g.static_edges ≡ some t → t ≡ start)
    → IsKnown
        (runnable_of g (entry_or_empty (lookup start_node g.static_edges)))
        (entry_or_empty (lookup start_node g.static_edges))
    → entry_or_empty (lookup start_node g.static_edges) ≡ start
entry_of-eq start g built goes known = elim (Option-cases (lookup start_node g.static_edges)) [
  | inl e ↦ absurd (no_name (subst (IsKnown (runnable_of g "")) (ap entry_or_empty e) known))
  | inr (t, e) ↦ ap entry_or_empty e ∙ goes t e
]
  where
    no_name : IsKnown (runnable_of g "") "" → ⊥
    no_name (inl e) = cc e
    no_name (inr h) = cc (built.nodes_named "" h)

module _ {N R : Type 0} (PN : String × N → Type 0) (PR : String × R → Type 0)
    (PE : String × String → Type 0) (start : String) where
  -- A runnable without branch maps that begins at `start` and whose entries satisfy the predicates.
  pub record HoldsEntries (q : Runnable N R) : Type 0 where
    pub nodes : All PN q.nodes
    pub routers : All PR q.conditional_edges
    pub edges : All PE q.static_edges
    pub no_branches : q.branch_maps ≡ []
    pub entry : q.entry ≡ start

  -- The entries of the calls are those of the runnable.
  pub compile-HoldsEntries :
      (calls : List (Call N R)) (q : Runnable N R)
      → All (Adds PN PR PE) calls
      → ((t : String) → PE (start_node, t) → t ≡ start)
      → compile (build calls new) ≡ compiled q
      → HoldsEntries q
  unfolding compile new
  compile-HoldsEntries calls q adds goes h =
      let g = build calls new in
      let (nodes, routers, edges, no_branches) =
        build-Entries PN PR PE calls new adds (tt, tt, tt, refl) in
      let (clear, is) = verdict-inv g (problems g) q h in
      let sound : IsSound q = compile-IsSound g q h in
      let entry =
        entry_of-eq start g (build-IsBuilt calls)
          (λ t e. goes t (All-lookup PE start_node t g.static_edges edges e))
          (subst (λ k. IsKnown k k.entry) is sound.entry_known) in
      subst HoldsEntries (sym is) (record {
        nodes = nodes;
        routers = routers;
        edges = edges;
        no_branches = no_branches;
        entry = entry;
      })
