-- ===== src/Graph/Compile.antt =====
-- pkg/graph/runnable.go: `Compile`. Go ranges over its maps in no fixed order; the model takes the
-- order of the association lists, so only which problems there are is meaningful.
pub mod Sound
pub mod Entry
use galdor.Prelude.{
  String, Bool, true, false, Option, none, some, List, [], ◌∷◌, ◌++◌, ◌==◌, if◌then◌else◌, Assoc,
  lookup, has, pos,
}
use galdor.Graph.Core.{start_node, end_node, Runnable}
use galdor.Graph.Builder.{
  Graph, Problem, conditional_entry, missing_entry, edge_from_unknown, edge_to_unknown,
  conditional_from_unknown, branch_empty_target, branch_unknown_target, both_edges, no_edge,
  unknown_entry, unknown_gate,
}

-- The problems of each item of a range loop, appended.
unfoldable pub report_each {ℓ} : {A : Type ℓ} → (A → List Problem) → List A → List Problem
report_each f [] = []
report_each f (a ∷ l) = f a ++ report_each f l

abbrev pub unless : Bool → Problem → List Problem
unless true p = []
unless false p = p ∷ []

abbrev pub entry_or_empty : Option String → String
entry_or_empty none = ""
entry_or_empty (some entry) = entry

pub data Compiled (N R : Type 0) : Type 0 where
  rejected : List Problem → Compiled N R
  compiled : Runnable N R → Compiled N R

module _ {N R : Type 0} (g : Graph N R) where
  unfoldable pub entry_problems : List Problem
  entry_problems = elim (lookup start_node g.static_edges) [
    | some entry ↦ []
    | none ↦
        if has start_node g.conditional_edges then conditional_entry ∷ [] else missing_entry ∷ []
  ]

  unfoldable pub static_problems : String × String → List Problem
  static_problems (from, to) =
      if from == start_node
      then []
      else unless (has from g.nodes) (edge_from_unknown from)
        ++ (if to == end_node then [] else unless (has to g.nodes) (edge_to_unknown from to))

  unfoldable pub conditional_problems : String × R → List Problem
  conditional_problems (from, router) =
      if from == start_node then [] else unless (has from g.nodes) (conditional_from_unknown from)

  unfoldable pub branch_problems : String → String × String → List Problem
  branch_problems from (label, target) =
      if target == ""
      then branch_empty_target from label ∷ []
      else if target == end_node
      then []
      else unless (has target g.nodes) (branch_unknown_target from label target)

  unfoldable pub branch_map_problems : String × Assoc String → List Problem
  branch_map_problems (from, branches) = report_each (branch_problems from) branches

  abbrev pub outgoing_problems : String → Bool → Bool → List Problem
  outgoing_problems name true true = both_edges name ∷ []
  outgoing_problems name false false = no_edge name ∷ []
  outgoing_problems name _ _ = []

  unfoldable pub node_problems : String × N → List Problem
  node_problems (name, fn) =
      outgoing_problems name (has name g.static_edges) (has name g.conditional_edges)

  unfoldable pub entry_target_problems : List Problem
  entry_target_problems = elim (lookup start_node g.static_edges) [
    | none ↦ []
    | some entry ↦
        if entry == end_node then [] else unless (has entry g.nodes) (unknown_entry entry)
  ]

  unfoldable pub gate_problems : String → List Problem
  gate_problems name = unless (has name g.nodes) (unknown_gate name)

  unfoldable pub problems : List Problem
  problems =
      g.errs
      ++ (entry_problems
          ++ (report_each static_problems g.static_edges
              ++ (report_each conditional_problems g.conditional_edges
                  ++ (report_each branch_map_problems g.branch_maps
                      ++ (report_each node_problems g.nodes
                          ++ (entry_target_problems
                              ++ report_each gate_problems g.interrupt_before))))))

  -- The clones of the maps are copies of values here. `MaxSteps` is left at its zero value.
  abbrev pub runnable_of : String → Runnable N R
  runnable_of entry = record {
    nodes = g.nodes;
    static_edges = g.static_edges;
    conditional_edges = g.conditional_edges;
    branch_maps = g.branch_maps;
    interrupt_before = g.interrupt_before;
    entry = entry;
    max_steps = pos 0;
  }

  abbrev pub verdict : List Problem → Compiled N R
  verdict [] = compiled (runnable_of (entry_or_empty (lookup start_node g.static_edges)))
  verdict (p ∷ ps) = rejected (p ∷ ps)

  unfoldable pub compile : Compiled N R
  unfolding problems
  compile = verdict problems
