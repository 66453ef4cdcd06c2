-- ===== src/Graph/Builder.antt =====
-- pkg/graph/graph.go: the chainable builder. A problem is recorded and surfaces at `compile`.
-- `N` is the type of node bodies and `R` that of routers; a nil function is `none`.
pub mod Invariant
pub mod Entries
use galdor.Prelude.{
  String, Bool, ◌||◌, Option, none, some, List, [], ◌∷◌, ◌++◌, ◌==◌, if◌then◌else◌, Assoc, lookup,
  has, insert,
}
use galdor.Graph.Core.{start_node, end_node}

-- The errors that the builder and `compile` collect, one constructor for each message.
pub data Problem : Type 0 where
  interrupt_before_empty : Problem
  interrupt_before_reserved : String → Problem
  add_node_empty : Problem
  add_node_reserved : String → Problem
  add_node_nil : String → Problem
  add_node_duplicate : String → Problem
  add_edge_empty : Problem
  add_edge_from_end : Problem
  add_edge_into_start : Problem
  add_edge_has_static : String → String → Problem
  add_edge_has_conditional : String → Problem
  add_router_empty : Problem
  add_router_on_end : Problem
  add_router_nil : String → Problem
  add_router_empty_branches : String → Problem
  add_router_has_static : String → String → Problem
  add_router_has_router : String → Problem
  conditional_entry : Problem
  missing_entry : Problem
  edge_from_unknown : String → Problem
  edge_to_unknown : String → String → Problem
  conditional_from_unknown : String → Problem
  branch_empty_target : String → String → Problem
  branch_unknown_target : String → String → String → Problem
  both_edges : String → Problem
  no_edge : String → Problem
  unknown_entry : String → Problem
  unknown_gate : String → Problem

pub record Graph (N R : Type 0) : Type 0 where
  pub nodes : Assoc N
  pub static_edges : Assoc String
  pub conditional_edges : Assoc R
  pub branch_maps : Assoc (Assoc String)
  pub interrupt_before : List String
  pub errs : List Problem

abbrev pub is_reserved : String → Bool
is_reserved name = name == start_node || name == end_node

module _ {N R : Type 0} where
  unfoldable pub new : Graph N R
  new = record {
    nodes = [];
    static_edges = [];
    conditional_edges = [];
    branch_maps = [];
    interrupt_before = [];
    errs = [];
  }

  abbrev pub report : Graph N R → Problem → Graph N R
  report g p = record g { errs = g.errs ++ p ∷ [] }

  -- One round of the loop of `InterruptBefore`.
  unfoldable pub gate_name : String → Graph N R → Graph N R
  gate_name name g =
      if name == ""
      then report g interrupt_before_empty
      else if is_reserved name
      then report g (interrupt_before_reserved name)
      else record g { interrupt_before = name ∷ g.interrupt_before }

  unfoldable pub interrupt_before_names : List String → Graph N R → Graph N R
  interrupt_before_names [] g = g
  interrupt_before_names (name ∷ names) g = interrupt_before_names names (gate_name name g)

  abbrev register : String → N → Graph N R → Graph N R
  register name fn g =
      if has name g.nodes
      then report g (add_node_duplicate name)
      else record g { nodes = insert name fn g.nodes }

  unfoldable pub add_node : String → Option N → Graph N R → Graph N R
  add_node name fn g =
      if name == ""
      then report g add_node_empty
      else if is_reserved name
      then report g (add_node_reserved name)
      else elim fn [ none ↦ report g (add_node_nil name) | some f ↦ register name f g ]

  unfoldable pub add_edge : String → String → Graph N R → Graph N R
  add_edge from to g =
      if from == "" || to == ""
      then report g add_edge_empty
      else if from == end_node
      then report g add_edge_from_end
      else if to == start_node
      then report g add_edge_into_start
      else elim (lookup from g.static_edges) [
        | some existing ↦ report g (add_edge_has_static from existing)
        | none ↦
            if has from g.conditional_edges
            then report g (add_edge_has_conditional from)
            else record g { static_edges = insert from to g.static_edges }
      ]

  abbrev install_router : String → R → Graph N R → Graph N R
  install_router from router g = elim (lookup from g.static_edges) [
    | some existing ↦ report g (add_router_has_static from existing)
    | none ↦
        if has from g.conditional_edges
        then report g (add_router_has_router from)
        else record g { conditional_edges = insert from router g.conditional_edges }
  ]

  unfoldable pub add_conditional_edge : String → Option R → Graph N R → Graph N R
  add_conditional_edge from router g =
      if from == ""
      then report g add_router_empty
      else if from == end_node
      then report g add_router_on_end
      else elim router [ none ↦ report g (add_router_nil from) | some f ↦ install_router from f g ]

  abbrev install_branches : String → R → Assoc String → Graph N R → Graph N R
  install_branches from router [] g = report g (add_router_empty_branches from)
  install_branches from router (b ∷ bs) g = elim (lookup from g.static_edges) [
    | some existing ↦ report g (add_router_has_static from existing)
    | none ↦
        if has from g.conditional_edges then report g (add_router_has_router from) else record g {
          conditional_edges = insert from router g.conditional_edges;
          branch_maps = insert from (b ∷ bs) g.branch_maps;
        }
  ]

  unfoldable pub add_conditional_edges : String → Option R → Assoc String → Graph N R → Graph N R
  add_conditional_edges from router branches g =
      if from == ""
      then report g add_router_empty
      else if from == end_node
      then report g add_router_on_end
      else elim router [
        | none ↦ report g (add_router_nil from)
        | some f ↦ install_branches from f branches g
      ]

-- A call in a chain on a builder.
pub data Call (N R : Type 0) : Type 0 where
  call_interrupt_before : List String → Call N R
  call_add_node : String → Option N → Call N R
  call_add_edge : String → String → Call N R
  call_add_conditional_edge : String → Option R → Call N R
  call_add_conditional_edges : String → Option R → Assoc String → Call N R

module _ {N R : Type 0} where
  abbrev pub build_call : Call N R → Graph N R → Graph N R
  build_call (call_interrupt_before names) g = interrupt_before_names names g
  build_call (call_add_node name fn) g = add_node name fn g
  build_call (call_add_edge from to) g = add_edge from to g
  build_call (call_add_conditional_edge from router) g = add_conditional_edge from router g
  build_call (call_add_conditional_edges from router branches) g =
      add_conditional_edges from router branches g

  -- The graph after a chain of calls on `g`.
  unfoldable pub build : List (Call N R) → Graph N R → Graph N R
  build [] g = g
  build (c ∷ cs) g = build cs (build_call c g)
