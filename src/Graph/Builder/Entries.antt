-- ===== src/Graph/Builder/Entries.antt =====
-- What the maps of a builder of pkg/graph/graph.go hold after a chain of calls: the entries of the calls.
use galdor.Prelude.{
  String, ◌||◌, Bool-cases, Option, none, some, Option-cases, List, [], ◌∷◌, ◌≡◌, inl, inr, All,
  All-insert, lookup, has, ◌==◌,
}
use galdor.Graph.Core.{start_node, end_node}
use galdor.Graph.Builder.{
  Graph, Call, call_interrupt_before, call_add_node, call_add_edge, call_add_conditional_edge,
  call_add_conditional_edges, build_call, build, is_reserved, gate_name, interrupt_before_names,
  add_node, add_edge, add_conditional_edge, install_router,
}

module _ {N R : Type 0} (PN : String × N → Type 0) (PR : String × R → Type 0)
    (PE : String × String → Type 0) where
  -- A builder without branch maps whose entries satisfy the predicates.
  abbrev pub Entries : Graph N R → Type 0
  Entries g =
      All PN g.nodes × All PR g.conditional_edges × All PE g.static_edges × (g.branch_maps ≡ [])

  -- A call whose entry does.
  abbrev pub Adds : Call N R → Type 0
  Adds (call_interrupt_before names) = Unit
  Adds (call_add_node name none) = Unit
  Adds (call_add_node name (some fn)) = PN (name, fn)
  Adds (call_add_edge from to) = PE (from, to)
  Adds (call_add_conditional_edge from none) = Unit
  Adds (call_add_conditional_edge from (some router)) = PR (from, router)
  Adds (call_add_conditional_edges from router branches) = ⊥

  gates-Entries :
      (names : List String) (g : Graph N R) → Entries g → Entries (interrupt_before_names names g)
  unfolding interrupt_before_names gate_name
  gates-Entries [] g h = h
  gates-Entries (name ∷ names) g h = gates-Entries names (gate_name name g) (gated name g h)
    where
      gated : (name : String) (g : Graph N R) → Entries g → Entries (gate_name name g)
      gated name g h = elim (Bool-cases (name == "")) [
        | inl e ↦ rw (e, gate_name) h
        | inr e ↦ elim (Bool-cases (is_reserved name)) [
          | inl r ↦ rw (e, r, gate_name) h
          | inr r ↦ rw (e, r, gate_name) h
        ]
      ]

  add_node-Entries :
      (name : String) (fn : Option N) (g : Graph N R)
      → Adds (call_add_node name fn)
      → Entries g
      → Entries (add_node name fn g)
  unfolding add_node
  add_node-Entries name none g p h = elim (Bool-cases (name == "")) [
    | inl e ↦ rw (e, add_node) h
    | inr e ↦ elim (Bool-cases (is_reserved name)) [
      | inl r ↦ rw (e, r, add_node) h
      | inr r ↦ rw (e, r, add_node) h
    ]
  ]
  add_node-Entries name (some fn) g p h = elim (Bool-cases (name == "")) [
    | inl e ↦ rw (e, add_node) h
    | inr e ↦ elim (Bool-cases (is_reserved name)) [
      | inl r ↦ rw (e, r, add_node) h
      | inr r ↦ elim (Bool-cases (has name g.nodes)) [
        | inl d ↦ rw (e, r, d, add_node) h
        | inr d ↦ rw (e, r, d, add_node) (All-insert PN name fn g.nodes p h.0, h.1, h.2, h.3)
      ]
    ]
  ]

  add_edge-Entries :
      (from to : String) (g : Graph N R) → PE (from, to) → Entries g → Entries (add_edge from to g)
  unfolding add_edge
  add_edge-Entries from to g p h = elim (Bool-cases (from == "" || to == "")) [
    | inl e ↦ rw (e, add_edge) h
    | inr e ↦ elim (Bool-cases (from == end_node)) [
      | inl f ↦ rw (e, f, add_edge) h
      | inr f ↦ elim (Bool-cases (to == start_node)) [
        | inl t ↦ rw (e, f, t, add_edge) h
        | inr t ↦ elim (Option-cases (lookup from g.static_edges)) [
          | inr (x, s) ↦ rw (e, f, t, s, add_edge) h
          | inl s ↦ elim (Bool-cases (has from g.conditional_edges)) [
            | inl c ↦ rw (e, f, t, s, c, add_edge) h
            | inr c ↦
                rw (e, f, t, s, c, add_edge)
                  (h.0, h.1, All-insert PE from to g.static_edges p h.2, h.3)
          ]
        ]
      ]
    ]
  ]

  install_router-Entries :
      (from : String) (router : R) (g : Graph N R)
      → PR (from, router)
      → Entries g
      → Entries (install_router from router g)
  install_router-Entries from router g p h = elim (Option-cases (lookup from g.static_edges)) [
    | inr (x, s) ↦ rw (s, install_router) h
    | inl s ↦ elim (Bool-cases (has from g.conditional_edges)) [
      | inl c ↦ rw (s, c, install_router) h
      | inr c ↦
          rw (s, c, install_router)
            (h.0, All-insert PR from router g.conditional_edges p h.1, h.2, h.3)
    ]
  ]

  add_router-Entries :
      (from : String) (router : Option R) (g : Graph N R)
      → Adds (call_add_conditional_edge from router)
      → Entries g
      → Entries (add_conditional_edge from router g)
  unfolding add_conditional_edge
  add_router-Entries from none g p h = elim (Bool-cases (from == "")) [
    | inl e ↦ rw (e, add_conditional_edge) h
    | inr e ↦ elim (Bool-cases (from == end_node)) [
      | inl f ↦ rw (e, f, add_conditional_edge) h
      | inr f ↦ rw (e, f, add_conditional_edge) h
    ]
  ]
  add_router-Entries from (some router) g p h = elim (Bool-cases (from == "")) [
    | inl e ↦ rw (e, add_conditional_edge) h
    | inr e ↦ elim (Bool-cases (from == end_node)) [
      | inl f ↦ rw (e, f, add_conditional_edge) h
      | inr f ↦ rw (e, f, add_conditional_edge) (install_router-Entries from router g p h)
    ]
  ]

  build_call-Entries :
      (c : Call N R) (g : Graph N R) → Adds c → Entries g → Entries (build_call c g)
  build_call-Entries (call_interrupt_before names) g p h = gates-Entries names g h
  build_call-Entries (call_add_node name fn) g p h = add_node-Entries name fn g p h
  build_call-Entries (call_add_edge from to) g p h = add_edge-Entries from to g p h
  build_call-Entries (call_add_conditional_edge from router) g p h =
      add_router-Entries from router g p h
  build_call-Entries (call_add_conditional_edges from router branches) g p h = absurd p

  -- After a chain of such calls the builder has only such entries.
  pub build-Entries :
      (cs : List (Call N R)) (g : Graph N R) → All Adds cs → Entries g → Entries (build cs g)
  unfolding build
  build-Entries [] g p h = h
  build-Entries (c ∷ cs) g p h =
      build-Entries cs (build_call c g) p.1 (build_call-Entries c g p.0 h)
