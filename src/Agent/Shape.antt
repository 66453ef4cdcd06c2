-- ===== src/Agent/Shape.antt =====
-- The graph that `NewReAct` of pkg/agent/react.go compiles.
use galdor.Prelude.{
  wrap_int, ◌+◌, ◌*◌, String, Bool, true, false, Option, none, some, Option-cases, List, [], ◌∷◌,
  Result, ok, err, ◌≡◌, inl, inr, refl, sym, ap, ◌∙◌, is_some, lookup, has, insert, remove, Assoc,
}
use galdor.Schema.{ToolDef}
use galdor.Provider.{Provider}
use galdor.Graph.Core.{start_node, NodeFunc, Router, Runnable}
use galdor.Graph.Builder.{build, new, add_node, add_edge, add_conditional_edge}
use galdor.Graph.Compile.{
  compile, report_each, entry_problems, static_problems, conditional_problems, branch_problems,
  branch_map_problems, node_problems, entry_target_problems, gate_problems, problems,
}
use galdor.Agent.{
  State, Config, Services, AgentErr, iteration_cap, react_router, model_node, tools_node,
  react_calls, with_steps, defs_or_none, build_react, new_react_with, new_react, validate,
  validate_of, checked_react, ConfigErr, validate_with,
}

module _ {Ctx W X : Type 0} (sv : Services Ctx W X) (cfg : Config Ctx W X) where
  abbrev pub Agent : Type 0
  Agent = Runnable (NodeFunc State Ctx W (AgentErr X)) (Router State (AgentErr X))

  abbrev pub model_entry :
      Provider Ctx W X → List ToolDef → String × NodeFunc State Ctx W (AgentErr X)
  model_entry p defs = ("model", model_node sv cfg p (iteration_cap cfg.max_iterations) defs)

  abbrev pub react_nodes :
      Bool → Provider Ctx W X → List ToolDef → Assoc (NodeFunc State Ctx W (AgentErr X))
  react_nodes true p defs = ("tools", tools_node sv cfg) ∷ model_entry p defs ∷ []
  react_nodes false p defs = model_entry p defs ∷ []

  abbrev pub react_edges : Bool → Assoc String
  react_edges true = ("tools", "model") ∷ (start_node, "model") ∷ []
  react_edges false = (start_node, "model") ∷ []

  -- The runnable of an agent with tools, or without.
  abbrev pub react_runnable : Bool → Provider Ctx W X → List ToolDef → Agent
  react_runnable has_tools p defs = record {
    nodes = react_nodes has_tools p defs;
    static_edges = react_edges has_tools;
    conditional_edges = ("model", react_router (iteration_cap cfg.max_iterations)) ∷ [];
    branch_maps = [];
    interrupt_before = [];
    entry = "model";
    max_steps = wrap_int (iteration_cap cfg.max_iterations * 3 + 4);
  }

  react_calls-compile :
      (has_tools : Bool) (p : Provider Ctx W X) (defs : List ToolDef)
      → with_steps sv cfg (iteration_cap cfg.max_iterations) (
          compile
            (build (react_calls sv cfg has_tools p (iteration_cap cfg.max_iterations) defs) new))
        ≡ ok (react_runnable has_tools p defs)
  unfolding build new add_node add_edge add_conditional_edge react_calls compile report_each
      entry_problems static_problems conditional_problems branch_problems branch_map_problems
      node_problems entry_target_problems gate_problems problems lookup has insert remove
  react_calls-compile true p defs = refl
  react_calls-compile false p defs = refl

  -- For a configuration that validates and whose tool definitions can be built, `NewReAct` returns the
  -- runnable of the model node and, with tools, the tools node, with a limit of three steps for each
  -- iteration and four more.
  pub new_react-compiles :
      (p : Provider Ctx W X) (defs : List ToolDef)
      → cfg.provider ≡ some p
      → validate sv cfg ≡ none
      → defs_or_none sv cfg cfg.tools ≡ ok defs
      → new_react sv cfg ≡ ok (react_runnable (is_some cfg.tools) p defs)
  unfolding new_react validate
  new_react-compiles p defs e v d =
      let checked : validate_with sv cfg p ≡ none = sym (ap (validate_of sv cfg) e) ∙ v in
      ap (new_react_with sv cfg) e
      ∙ ap (checked_react sv cfg p) checked
      ∙ ap (build_react sv cfg p) d
      ∙ react_calls-compile (is_some cfg.tools) p defs

  -- What `NewReAct` returns.
  pub new_react-inv :
      (r : Agent)
      → new_react sv cfg ≡ ok r
      → (p : Provider Ctx W X) × (defs : List ToolDef) × (cfg.provider ≡ some p)
        × (r ≡ react_runnable (is_some cfg.tools) p defs)
  unfolding new_react
  new_react-inv r h = elim (Option-cases cfg.provider) [
    | inl e ↦ cc (ap (new_react_with sv cfg) e, h)
    | inr (p, e) ↦
        let (defs, q) =
          checked p (validate_with sv cfg p) (sym (ap (new_react_with sv cfg) e) ∙ h) in
        (p, defs, e, q)
  ]
    where
      built :
          (p : Provider Ctx W X) (ds : Result X (List ToolDef))
          → build_react sv cfg p ds ≡ ok r
          → (defs : List ToolDef) × (r ≡ react_runnable (is_some cfg.tools) p defs)
      built p (err x) h = cc
      built p (ok defs) h = (defs, cc (react_calls-compile (is_some cfg.tools) p defs, h))

      checked :
          (p : Provider Ctx W X) (o : Option ConfigErr)
          → checked_react sv cfg p o ≡ ok r
          → (defs : List ToolDef) × (r ≡ react_runnable (is_some cfg.tools) p defs)
      checked p (some e) h = cc
      checked p none h = built p (defs_or_none sv cfg cfg.tools) h
