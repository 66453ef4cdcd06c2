-- ===== src/Graph/Compile/Sound.antt =====
-- What a compiled graph of pkg/graph guarantees to its run loop, and when `Compile` accepts.
use galdor.Prelude.{
  String, true, false, ◌||◌, some, List, [], ◌∷◌, ◌++◌, ◌≡◌, ◌⊎◌, inl, inr, refl, ◌==◌, arith,
  eq_iff, Assoc, lookup, has, has-is_some, All, All-lookup, All-contains, Bool-cases, Option-cases,
  subst, sym, contains,
}
use galdor.Graph.Core.{start_node, end_node, Runnable}
use galdor.Graph.Builder.{Graph, Problem}
use galdor.Graph.Compile.{
  report_each, verdict, entry_or_empty, compiled, entry_problems, static_problems,
  conditional_problems, branch_problems, branch_map_problems, node_problems, entry_target_problems,
  gate_problems, problems, runnable_of, compile,
}

-- A place that a run can go to: a node, or END.
abbrev pub IsKnown : {N R : Type 0} → Runnable N R → String → Type 0
IsKnown r n = (n ≡ end_node) ⊎ (has n r.nodes ≡ true)

pub record IsSound {N R : Type 0} (r : Runnable N R) : Type 0 where
  pub entry_known : IsKnown r r.entry
  pub static_known : (f t : String) → lookup f r.static_edges ≡ some t → IsKnown r t
  pub branch_known :
      (f l t : String) (branches : Assoc String)
      → lookup f r.branch_maps ≡ some branches
      → lookup l branches ≡ some t
      → IsKnown r t
  pub has_exit :
      (n : String)
      → has n r.nodes ≡ true
      → (has n r.static_edges || has n r.conditional_edges) ≡ true
  pub gates_known : (n : String) → contains n r.interrupt_before ≡ true → has n r.nodes ≡ true

append-nil-left {ℓ} : {A : Type ℓ} (xs ys : List A) → xs ++ ys ≡ [] → (xs ≡ []) × (ys ≡ [])
append-nil-left [] ys h = (refl, h)
append-nil-left (x ∷ xs) ys h = cc

report_each-nil {ℓ} :
    {A : Type ℓ} (f : A → List Problem) (l : List A) → report_each f l ≡ [] → All (λ a. f a ≡ []) l
unfolding report_each
report_each-nil f [] h = tt
report_each-nil f (a ∷ l) h =
    let (here, there) = append-nil-left (f a) (report_each f l) h in
    (here, report_each-nil f l there)

-- The problems of a graph, group by group.
record IsClear {N R : Type 0} (g : Graph N R) : Type 0 where
  entry_clear : entry_problems g ≡ []
  static_clear : All (λ e. static_problems g e ≡ []) g.static_edges
  branch_clear : All (λ e. branch_map_problems g e ≡ []) g.branch_maps
  node_clear : All (λ e. node_problems g e ≡ []) g.nodes
  target_clear : entry_target_problems g ≡ []
  gate_clear : All (λ n. gate_problems g n ≡ []) g.interrupt_before

module _ {N R : Type 0} (g : Graph N R) where
  pub verdict-inv :
      (ps : List Problem) (r : Runnable N R)
      → verdict g ps ≡ compiled r
      → (ps ≡ []) × (r ≡ runnable_of g (entry_or_empty (lookup start_node g.static_edges)))
  verdict-inv [] r h = (refl, cc)
  verdict-inv (p ∷ ps) r h = cc

  problems-IsClear : problems g ≡ [] → IsClear g
  unfolding problems
  problems-IsClear h =
      let (_, h1) = append-nil-left g.errs _ h in
      let (entry, h2) = append-nil-left (entry_problems g) _ h1 in
      let (statics, h3) = append-nil-left (report_each (static_problems g) g.static_edges) _ h2 in
      let (_, h4) =
        append-nil-left (report_each (conditional_problems g) g.conditional_edges) _ h3 in
      let (branches, h5) =
        append-nil-left (report_each (branch_map_problems g) g.branch_maps) _ h4 in
      let (nodes, h6) = append-nil-left (report_each (node_problems g) g.nodes) _ h5 in
      let (target, gates) = append-nil-left (entry_target_problems g) _ h6 in
      record {
        entry_clear = entry;
        static_clear = report_each-nil (static_problems g) g.static_edges statics;
        branch_clear = report_each-nil (branch_map_problems g) g.branch_maps branches;
        node_clear = report_each-nil (node_problems g) g.nodes nodes;
        target_clear = target;
        gate_clear = report_each-nil (gate_problems g) g.interrupt_before gates;
      }

  entry_clear-IsKnown :
      entry_problems g ≡ []
      → entry_target_problems g ≡ []
      → IsKnown (runnable_of g "") (entry_or_empty (lookup start_node g.static_edges))
  unfolding entry_problems entry_target_problems
  entry_clear-IsKnown h k =
      ground (arith, eq_iff (entry_or_empty (lookup start_node g.static_edges)) end_node)

  static_clear-IsKnown :
      (f t : String)
      → static_problems g (f, t) ≡ []
      → (f == start_node) ≡ false
      → IsKnown (runnable_of g "") t
  unfolding static_problems
  static_clear-IsKnown f t h s = ground (arith, eq_iff t end_node)

  branch_clear-IsKnown :
      (f l t : String) → branch_problems g f (l, t) ≡ [] → IsKnown (runnable_of g "") t
  unfolding branch_problems
  branch_clear-IsKnown f l t h = ground (arith, eq_iff t end_node)

  node_clear-exit :
      (n : String) (fn : N)
      → node_problems g (n, fn) ≡ []
      → (has n g.static_edges || has n g.conditional_edges) ≡ true
  unfolding node_problems
  node_clear-exit n fn h = ground arith

  -- The edge out of START is checked with the entry, any other by the loop over the edges.
  static_edge-IsKnown :
      IsClear g → (f t : String) → lookup f g.static_edges ≡ some t → IsKnown (runnable_of g "") t
  static_edge-IsKnown c f t h = elim (Bool-cases (f == start_node)) [
    | inl s ↦
        let start : lookup start_node g.static_edges ≡ some t =
          subst (λ x. lookup x g.static_edges ≡ some t) ((eq_iff f start_node).0 s) h in
        rw start at (entry_clear-IsKnown c.entry_clear c.target_clear)
    | inr s ↦
        static_clear-IsKnown f t
          (All-lookup (λ e. static_problems g e ≡ []) f t g.static_edges c.static_clear h) s
  ]

  branch-IsKnown :
      IsClear g
      → (f l t : String) (branches : Assoc String) → lookup f g.branch_maps ≡ some branches
      → lookup l branches ≡ some t
      → IsKnown (runnable_of g "") t
  branch-IsKnown c f l t branches h k =
      let clear =
        All-lookup (λ e. branch_map_problems g e ≡ []) f branches g.branch_maps c.branch_clear h in
      branch_clear-IsKnown f l t (
        All-lookup (λ e. branch_problems g f e ≡ []) l t branches
          (report_each-nil (branch_problems g f) branches (unfold branch_map_problems in clear)) k)

  node-has_exit :
      IsClear g
      → (n : String) → has n g.nodes ≡ true
      → (has n g.static_edges || has n g.conditional_edges) ≡ true
  node-has_exit c n h = elim (Option-cases (lookup n g.nodes)) [
    | inl e ↦ cc (rw e at (has-is_some n g.nodes))
    | inr (fn, e) ↦
        node_clear-exit n fn (All-lookup (λ e. node_problems g e ≡ []) n fn g.nodes c.node_clear e)
  ]

  gate_clear-known : (n : String) → gate_problems g n ≡ [] → has n g.nodes ≡ true
  unfolding gate_problems
  gate_clear-known n h = ground arith

  runnable_of-IsSound :
      IsClear g → IsSound (runnable_of g (entry_or_empty (lookup start_node g.static_edges)))
  runnable_of-IsSound c = record {
    entry_known = entry_clear-IsKnown c.entry_clear c.target_clear;
    static_known = static_edge-IsKnown c;
    branch_known = branch-IsKnown c;
    has_exit = node-has_exit c;
    gates_known = λ n h.
        gate_clear-known n
          (All-contains (λ m. gate_problems g m ≡ []) n g.interrupt_before c.gate_clear h);
  }

  -- A graph that compiles is sound: the entry, every edge's and every branch's target is a node or
  -- END, every node has an edge or a router, and every interrupt gate is a node.
  pub compile-IsSound : (r : Runnable N R) → compile g ≡ compiled r → IsSound r
  unfolding compile
  compile-IsSound r h =
      let (clear, e) = verdict-inv (problems g) r h in
      subst IsSound (sym e) (runnable_of-IsSound (problems-IsClear clear))
