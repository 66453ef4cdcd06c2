-- ===== src/Graph/Builder/Invariant.antt =====
-- What every chain of builder calls of pkg/graph/graph.go keeps.
use galdor.Prelude.{
  String, true, false, ◌||◌, Option, none, some, List, [], ◌∷◌, ◌≡◌, ◌==◌, arith, eq_iff, Assoc,
  lookup, has, lookup-insert, has-insert, has-is_some,
}
use galdor.Graph.Core.{start_node, end_node}
use galdor.Graph.Builder.{
  Graph, new, gate_name, interrupt_before_names, add_node, add_edge, add_conditional_edge,
  add_conditional_edges, is_reserved, Call, build_call, build, call_interrupt_before, call_add_node,
  call_add_edge, call_add_conditional_edge, call_add_conditional_edges,
}

pub record IsBuilt {N R : Type 0} (g : Graph N R) : Type 0 where
  -- No node has an empty or reserved name.
  pub nodes_named : (n : String) → has n g.nodes ≡ true → ((n == "") || is_reserved n) ≡ false
  -- No name has both an edge and a router.
  pub exclusive : (n : String) → has n g.static_edges ≡ true → has n g.conditional_edges ≡ false
  -- A branch map belongs to a router.
  pub branches_routed : (n : String) → has n g.branch_maps ≡ true → has n g.conditional_edges ≡ true
  -- Nothing leaves END.
  pub end_is_sink :
      (n : String)
      → (has n g.static_edges || has n g.conditional_edges) ≡ true
      → (n == end_node) ≡ false
  -- No edge enters START.
  pub start_is_source :
      (f t : String) → lookup f g.static_edges ≡ some t → (t == start_node) ≡ false

module _ {N R : Type 0} where
  new-IsBuilt : IsBuilt (new {N = N} {R = R})
  unfolding new has
  new-IsBuilt = record {
    nodes_named = λ n h. cc;
    exclusive = λ n h. cc;
    branches_routed = λ n h. cc;
    end_is_sink = λ n h. cc;
    start_is_source = λ f t h. cc;
  }

  gate_name-IsBuilt : (name : String) (g : Graph N R) → IsBuilt g → IsBuilt (gate_name name g)
  unfolding gate_name
  gate_name-IsBuilt name g b = record {
    nodes_named = λ n h. ground (arith, b.nodes_named n);
    exclusive = λ n h. ground (arith, b.exclusive n);
    branches_routed = λ n h. ground (arith, b.branches_routed n);
    end_is_sink = λ n h. ground (arith, b.end_is_sink n);
    start_is_source = λ f t h. ground (arith, b.start_is_source f t);
  }

  add_node-IsBuilt :
      (name : String) (fn : Option N) (g : Graph N R) → IsBuilt g → IsBuilt (add_node name fn g)
  unfolding add_node
  add_node-IsBuilt name none g b = record {
    nodes_named = λ n h. ground (arith, b.nodes_named n);
    exclusive = λ n h. ground (arith, b.exclusive n);
    branches_routed = λ n h. ground (arith, b.branches_routed n);
    end_is_sink = λ n h. ground (arith, b.end_is_sink n);
    start_is_source = λ f t h. ground (arith, b.start_is_source f t);
  }
  add_node-IsBuilt name (some fn) g b = record {
    nodes_named =
        λ n h. ground (arith, b.nodes_named n, has-insert name n fn g.nodes, eq_iff name n);
    exclusive = λ n h. ground (arith, b.exclusive n);
    branches_routed = λ n h. ground (arith, b.branches_routed n);
    end_is_sink = λ n h. ground (arith, b.end_is_sink n);
    start_is_source = λ f t h. ground (arith, b.start_is_source f t);
  }

  add_edge-IsBuilt : (from to : String) (g : Graph N R) → IsBuilt g → IsBuilt (add_edge from to g)
  unfolding add_edge
  add_edge-IsBuilt from to g b = record {
    nodes_named = λ n h. ground (arith, b.nodes_named n);
    exclusive =
        λ n h. ground (arith, b.exclusive n, has-insert from n to g.static_edges, eq_iff from n);
    branches_routed = λ n h. ground (arith, b.branches_routed n);
    end_is_sink =
        λ n h. ground (arith, b.end_is_sink n, has-insert from n to g.static_edges, eq_iff from n);
    start_is_source = λ f t h.
        ground
          (arith, b.start_is_source f t, lookup-insert from f to g.static_edges, eq_iff from f);
  }

  add_conditional_edge-IsBuilt :
      (from : String) (router : Option R) (g : Graph N R)
      → IsBuilt g
      → IsBuilt (add_conditional_edge from router g)
  unfolding add_conditional_edge
  add_conditional_edge-IsBuilt from none g b = record {
    nodes_named = λ n h. ground (arith, b.nodes_named n);
    exclusive = λ n h. ground (arith, b.exclusive n);
    branches_routed = λ n h. ground (arith, b.branches_routed n);
    end_is_sink = λ n h. ground (arith, b.end_is_sink n);
    start_is_source = λ f t h. ground (arith, b.start_is_source f t);
  }
  add_conditional_edge-IsBuilt from (some f) g b = record {
    nodes_named = λ n h. ground (arith, b.nodes_named n);
    exclusive = λ n h. ground (
      arith,
      b.exclusive n,
      has-insert from n f g.conditional_edges,
      eq_iff from n,
      has-is_some n g.static_edges,
    );
    branches_routed = λ n h.
        ground (arith, b.branches_routed n, has-insert from n f g.conditional_edges, eq_iff from n);
    end_is_sink = λ n h.
        ground (arith, b.end_is_sink n, has-insert from n f g.conditional_edges, eq_iff from n);
    start_is_source = λ f t h. ground (arith, b.start_is_source f t);
  }

  add_conditional_edges-IsBuilt :
      (from : String) (router : Option R) (branches : Assoc String) (g : Graph N R)
      → IsBuilt g
      → IsBuilt (add_conditional_edges from router branches g)
  unfolding add_conditional_edges
  add_conditional_edges-IsBuilt from none branches g b = record {
    nodes_named = λ n h. ground (arith, b.nodes_named n);
    exclusive = λ n h. ground (arith, b.exclusive n);
    branches_routed = λ n h. ground (arith, b.branches_routed n);
    end_is_sink = λ n h. ground (arith, b.end_is_sink n);
    start_is_source = λ f t h. ground (arith, b.start_is_source f t);
  }
  add_conditional_edges-IsBuilt from (some f) [] g b = record {
    nodes_named = λ n h. ground (arith, b.nodes_named n);
    exclusive = λ n h. ground (arith, b.exclusive n);
    branches_routed = λ n h. ground (arith, b.branches_routed n);
    end_is_sink = λ n h. ground (arith, b.end_is_sink n);
    start_is_source = λ f t h. ground (arith, b.start_is_source f t);
  }
  add_conditional_edges-IsBuilt from (some f) (x ∷ xs) g b = record {
    nodes_named = λ n h. ground (arith, b.nodes_named n);
    exclusive = λ n h. ground (
      arith,
      b.exclusive n,
      has-insert from n f g.conditional_edges,
      eq_iff from n,
      has-is_some n g.static_edges,
    );
    branches_routed = λ n h. ground (
      arith,
      b.branches_routed n,
      has-insert from n f g.conditional_edges,
      has-insert from n (x ∷ xs) g.branch_maps,
      eq_iff from n,
    );
    end_is_sink = λ n h.
        ground (arith, b.end_is_sink n, has-insert from n f g.conditional_edges, eq_iff from n);
    start_is_source = λ f t h. ground (arith, b.start_is_source f t);
  }

  interrupt_before_names-IsBuilt :
      (names : List String) (g : Graph N R) → IsBuilt g → IsBuilt (interrupt_before_names names g)
  unfolding interrupt_before_names
  interrupt_before_names-IsBuilt [] g b = b
  interrupt_before_names-IsBuilt (name ∷ names) g b =
      interrupt_before_names-IsBuilt names (gate_name name g) (gate_name-IsBuilt name g b)

  build_call-IsBuilt : (c : Call N R) (g : Graph N R) → IsBuilt g → IsBuilt (build_call c g)
  build_call-IsBuilt (call_interrupt_before names) g b = interrupt_before_names-IsBuilt names g b
  build_call-IsBuilt (call_add_node name fn) g b = add_node-IsBuilt name fn g b
  build_call-IsBuilt (call_add_edge from to) g b = add_edge-IsBuilt from to g b
  build_call-IsBuilt (call_add_conditional_edge from router) g b =
      add_conditional_edge-IsBuilt from router g b
  build_call-IsBuilt (call_add_conditional_edges from router branches) g b =
      add_conditional_edges-IsBuilt from router branches g b

  build_from-IsBuilt : (cs : List (Call N R)) (g : Graph N R) → IsBuilt g → IsBuilt (build cs g)
  unfolding build
  build_from-IsBuilt [] g b = b
  build_from-IsBuilt (c ∷ cs) g b =
      build_from-IsBuilt cs (build_call c g) (build_call-IsBuilt c g b)

  -- Any chain of builder calls on a new graph gives a graph in which node names are not empty or
  -- reserved, no name has both an edge and a router, branch maps belong to routers, nothing leaves
  -- END and no edge enters START, whatever problems the calls recorded.
  pub build-IsBuilt : (cs : List (Call N R)) → IsBuilt (build cs (new {N = N} {R = R}))
  build-IsBuilt cs = build_from-IsBuilt cs new new-IsBuilt
