-- ===== src/Agent/Answer.antt =====
-- How a run of the agent that `NewReAct` of pkg/agent/react.go makes can end.
use galdor.Prelude.{
  FitsInt, wrap_int-pos, ℕ, suc, ◌+◌, ◌*◌, ◌≤◌, ◌≡◌, ◌⊎◌, inl, inr, refl, ap, subst, ◌∙◌, ℤ, pos,
  negsuc, is_positive, reaches, String, Bool, true, false, Option, none, some, List, [], ok, leb→le,
  is_some, arith, zero,
}
use galdor.Schema.{ToolDef}
use galdor.Provider.{Provider}
use galdor.Tool.Calls.{unanswered}
use galdor.Graph.Core.{end_node, max_steps_exceeded, RunErr, RunOptions, Env}
use galdor.Graph.Run.{Final, invoke_with, step_limit}
use galdor.Graph.Run.Total.{invoke_with_total}
use galdor.Graph.Run.Invariant.{EndsWith, invoke_with-Ends, step_limit-set}
use galdor.Agent.{State, Config, Services, AgentErr, iteration_cap, new_react}
use galdor.Agent.Shape.{Agent, react_runnable, new_react-inv}
use galdor.Agent.Nodes.{RepliesAssistant}
use galdor.Agent.Ends.{Finished, At, Here, keeps}

-- The cap that a configuration sets on the turns of the model.
abbrev pub cap_of : {Ctx W X : Type 0} → Config Ctx W X → ℕ
cap_of cfg = iteration_cap cfg.max_iterations

-- The provider of a configuration answers with messages of the assistant.
abbrev pub AnswersAssistant : {Ctx W X : Type 0} → Config Ctx W X → Type 0
AnswersAssistant cfg = (p : Provider _ _ _) → cfg.provider ≡ some p → RepliesAssistant p

iteration_cap_positive : (z : ℤ) → 1 ≤ iteration_cap z
unfolding iteration_cap
iteration_cap_positive (pos zero) = omega arith
iteration_cap_positive (pos (suc n)) = omega arith
iteration_cap_positive (negsuc n) = omega arith

-- How a run of an agent of this cap, of a state with `begun` iterations, can end.
abbrev pub EndsWell : {X : Type 0} → ℕ → ℕ → State → Option (RunErr (AgentErr X)) → Type 0
EndsWell cap begun s none = Finished cap s × ((s.iterations ≡ suc begun) ⊎ (s.iterations ≤ cap))
EndsWell cap begun s (some (max_steps_exceeded limit)) = ⊥
EndsWell cap begun s (some e) = Unit

module _ {Ctx W X : Type 0} (sv : Services Ctx W X) (cfg : Config Ctx W X)
    (env : Env Ctx W (AgentErr X)) (opts : RunOptions State Ctx W (AgentErr X)) where
  module _ (p : Provider Ctx W X) (defs : List ToolDef) (has_tools : Bool)
      (assistant : RepliesAssistant p) (begun : ℕ) where
    -- Between the nodes of a run there are fewer steps than the agent's limit.
    few_steps :
        (n : String) (i : ℤ) (s : State)
        → Here sv cfg p defs has_tools assistant begun n i s
        → reaches (cap_of cfg * 3 + 4) i ≡ true
        → ⊥
    few_steps n i s (j, turns, e, at) h =
        let far : cap_of cfg * 3 + 4 ≤ j =
          leb→le (cap_of cfg * 3 + 4) j (subst (λ k. reaches (cap_of cfg * 3 + 4) k ≡ true) e h) in
        near (iteration_cap_positive cfg.max_iterations) far at
      where
        near :
            1 ≤ cap_of cfg
            → cap_of cfg * 3 + 4 ≤ j
            → At sv cfg p defs has_tools assistant begun n j s turns
            → ⊥
        near one far (inl (a, c, t, f, u, inl z)) = omega arith
        near one far (inl (a, c, t, f, u, inr l)) = omega arith
        near one far (inr (inl (a, c, t, f, u, l))) = omega arith
        near one far (inr (inr (a, c, t, f, inl z))) = omega arith
        near one far (inr (inr (a, c, t, f, inr l))) = omega arith

    at_end :
        (i : ℤ) (s : State)
        → Here sv cfg p defs has_tools assistant begun end_node i s
        → Finished (cap_of cfg) s × ((s.iterations ≡ suc begun) ⊎ (s.iterations ≤ cap_of cfg))
    at_end i s (j, turns, e, inl (a, b, c, d, u, g)) = cc a
    at_end i s (j, turns, e, inr (inl (a, b, c, d, u, g))) = cc a
    at_end i s (j, turns, e, inr (inr (a, c, t, f, inl z))) = (f, inl (omega arith))
    at_end i s (j, turns, e, inr (inr (a, c, t, f, inr l))) = (f, inr l)

    ends :
        (most : ℕ) (s : State) (e : Option (RunErr (AgentErr X)))
        → most ≡ cap_of cfg * 3 + 4
        → EndsWith
            (react_runnable sv cfg has_tools p defs)
            (Here sv cfg p defs has_tools assistant begun)
            most
            s
            e
        → EndsWell (cap_of cfg) begun s e
    ends most s none same (i, h) = at_end i s h
    ends most s (some (max_steps_exceeded limit)) same (l, n, i, h, r) =
        few_steps n i s h (subst (λ k. reaches k i ≡ true) (l ∙ same) r)
    ends most s (some e) same h = tt

  pub react-ends-well :
      (r : Agent sv cfg) (ctx : Ctx) (initial : State) (w : W)
      → AnswersAssistant cfg
      → FitsInt (cap_of cfg * 3 + 4)
      → new_react sv cfg ≡ ok r
      → initial.stopped_at_iteration_cap ≡ false
      → unanswered [] initial.messages ≡ some []
      → is_positive opts.max_steps ≡ false
      → (f : Final State (AgentErr X)) × (w' : W) × (invoke_with env r opts ctx initial w
          ≡ some (f, w'))
        × EndsWell (cap_of cfg) initial.iterations f.state f.error
  react-ends-well r ctx initial w assistant small made fresh done unset =
      let (p, defs, given, same) = new_react-inv sv cfg r made in
      let ((f, w'), ran) = invoke_with_total env r opts ctx initial w in
      (
        f,
        w',
        ran,
        of_runnable p defs f w' (assistant p given)
            (subst (λ k. invoke_with env k opts ctx initial w ≡ some (f, w')) same ran),
      )
    where
      of_runnable :
          (p : Provider Ctx W X) (defs : List ToolDef) (f : Final State (AgentErr X)) (w' : W)
          → RepliesAssistant p
          → invoke_with env (react_runnable sv cfg (is_some cfg.tools) p defs) opts ctx initial w
            ≡ some (f, w')
          → EndsWell (cap_of cfg) initial.iterations f.state f.error
      of_runnable p defs f w' a ran =
          let has_tools = is_some cfg.tools in
          let agent = react_runnable sv cfg has_tools p defs in
          let limit =
            step_limit-set opts.max_steps (cap_of cfg * 3 + 3) agent unset
              (wrap_int-pos (cap_of cfg * 3 + 4) small ∙ ap pos (omega arith)) in
          ends p defs has_tools a initial.iterations (step_limit env agent opts) f.state f.error
            (limit ∙ omega arith)
            (invoke_with-Ends env agent opts (Here sv cfg p defs has_tools a initial.iterations)
              (keeps sv cfg p defs has_tools a initial.iterations) ctx initial w w' f
              (0, 0, refl, inl (refl, refl, omega arith, fresh, done, inl refl)) ran)
