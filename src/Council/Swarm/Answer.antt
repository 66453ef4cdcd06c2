-- ===== src/Council/Swarm/Answer.antt =====
-- What a run of the swarm that `NewSwarm` of pkg/council/swarm.go makes returns.
use galdor.Prelude.{
  err, get_last?, ◌⊎◌, FitsInt, wrap_int-pos, ℕ, zero, suc, ◌+◌, ◌*◌, ◌≤◌, ◌<◌, ℤ, pos, negsuc,
  is_positive, reaches, String, true, false, Option, none, some, [], ◌∷◌, ok, ◌≡◌, inl, inr, refl,
  sym, ap, subst, ◌∙◌, lookup, has, leb→le, arith, Result-cases,
}
use mathlib.Core.Option
use galdor.Schema.{Message, text, user_message}
use galdor.Graph.Core.{
  end_node, Outcome, returned, failed, panicked, NodeFunc, RunErr, node_failed, max_steps_exceeded,
  NodeErr, node_error, node_panic, RunOptions, Env,
}
use galdor.Graph.Hooks.{safe_call_node, node_end}
use galdor.Graph.Run.{final, Final, invoke_with, step_limit, no_options, positive_or}
use galdor.Graph.Run.Total.{invoke_with_total}
use galdor.Graph.Run.Invariant.{EndsWith, Raised, invoke_with-Ends, step_limit-set}
use galdor.Council.Swarm.{
  NewErr, SwarmAgent, SwarmConfig, SwarmState, SwarmErr, Services, max_hops_of, max_hops_exceeded,
  unknown_handoff_target, OnceErr, not_built, not_finished, not_finished_if,
}
use galdor.Council.Swarm.Build.{Swarm, new_swarm, swarm_answer, run_built, run_swarm}
use galdor.Council.Swarm.Setup.{IsSwarm, new_swarm-IsSwarm}
use galdor.Council.Swarm.Turns.{IsOwn, IsAnswered, IsActivation, node_of-IsActivation}
use galdor.Council.Swarm.Ends.{
  At, Here, keeps, node-agent, node-trap, trap-fails, no_end, has-IsAgentName,
}

-- An error of a node of a swarm: the cap on hops is met exactly, and no hand-off goes astray.
abbrev pub IsSwarmErr : {X : Type 0} → ℕ → SwarmErr X → Type 0
IsSwarmErr max_hops (max_hops_exceeded hops) = hops ≡ max_hops
IsSwarmErr max_hops (unknown_handoff_target target) = ⊥
IsSwarmErr max_hops e = Unit

abbrev pub IsNodeErr : {X : Type 0} → ℕ → NodeErr (SwarmErr X) → Type 0
IsNodeErr max_hops (node_error e) = IsSwarmErr max_hops e
IsNodeErr max_hops (node_panic e) = IsSwarmErr max_hops e

own-IsSwarmErr : {X : Type 0} (max_hops : ℕ) (e : SwarmErr X) → IsOwn e → IsSwarmErr max_hops e
own-IsSwarmErr max_hops (max_hops_exceeded hops) h = absurd h
own-IsSwarmErr max_hops (unknown_handoff_target target) h = h
own-IsSwarmErr max_hops e h = tt

-- How a run of a swarm can end.
abbrev pub EndsWell : {X : Type 0} → ℕ → SwarmState → Option (RunErr (SwarmErr X)) → Type 0
EndsWell max_hops s none = IsAnswered s × (1 ≤ s.hops) × (s.hops ≤ max_hops)
EndsWell max_hops s (some (max_steps_exceeded limit)) = ⊥
EndsWell max_hops s (some (node_failed n e)) = IsNodeErr max_hops e
EndsWell max_hops s (some e) = Unit

activation-IsNodeErr :
    {Ctx W X : Type 0} (sv : Services Ctx W X) (a : SwarmAgent Ctx W X) (hops max_hops : ℕ)
    (final : String) (s : SwarmState) (w : W) (o : Outcome (SwarmErr X) SwarmState)
    (e : NodeErr (SwarmErr X))
    → IsActivation sv a hops final o
    → (node_end s o w).0.1 ≡ some e
    → IsNodeErr max_hops e
activation-IsNodeErr sv a hops max_hops final s w (returned out) e act h = cc
activation-IsNodeErr sv a hops max_hops final s w (failed out x) e act h =
    let same : node_error x ≡ e = cc h in
    subst (IsNodeErr max_hops) same (own-IsSwarmErr max_hops x act)
activation-IsNodeErr sv a hops max_hops final s w (panicked x) e act h =
    let same : node_panic x ≡ e = cc h in
    subst (IsNodeErr max_hops) same (own-IsSwarmErr max_hops x act)

trap-IsNodeErr :
    {W X : Type 0} (max_hops : ℕ) (s : SwarmState) (w : W) (o : Outcome (SwarmErr X) SwarmState)
    (e : NodeErr (SwarmErr X))
    → o ≡ failed s (max_hops_exceeded s.hops)
    → s.hops ≡ max_hops
    → (node_end s o w).0.1 ≡ some e
    → IsNodeErr max_hops e
trap-IsNodeErr max_hops s w o e p count h =
    let same : node_error (max_hops_exceeded s.hops) ≡ e =
      cc (subst (λ k. (node_end s k w).0.1 ≡ some e) p h) in
    subst (IsNodeErr max_hops) same count

module _ {Ctx W X : Type 0} (sv : Services Ctx W X) (cfg : SwarmConfig Ctx W X) where
  module _ (r : Swarm sv) (sw : IsSwarm sv cfg r) where
    few_steps :
        (n : String) (i : ℤ) (s : SwarmState)
        → Here sv cfg r sw n i s
        → reaches (max_hops_of cfg * 4 + 4) i ≡ true
        → ⊥
    few_steps n i s (j, step, at) h = near at (
        leb→le (max_hops_of cfg * 4 + 4) j
          (subst (λ k. reaches (max_hops_of cfg * 4 + 4) k ≡ true) step h))
      where
        near : At sv cfg r sw n j s → max_hops_of cfg * 4 + 4 ≤ j → ⊥
        near (inl (a, b, c, d, less)) far = omega arith
        near (inr (inl (a, b, c, d))) far = omega arith
        near (inr (inr (a, b, c, d, e))) far = omega arith

    at_end :
        (i : ℤ) (s : SwarmState)
        → Here sv cfg r sw end_node i s
        → IsAnswered s × (1 ≤ s.hops) × (s.hops ≤ max_hops_of cfg)
    at_end i s (j, step, inl (agent, b, c, d, e)) =
        let (x, y, end, z) = has-IsAgentName sv cfg r sw end_node agent in cc end
    at_end i s (j, step, inr (inl (at, b, c, d))) = cc at
    at_end i s (j, step, inr (inr (at, answered, c, d, e))) = (answered, omega arith, omega arith)

    failure-IsNodeErr :
        (n : String) (i : ℤ) (s : SwarmState) (e : NodeErr (SwarmErr X))
        → Here sv cfg r sw n i s
        → Raised r n s e
        → IsNodeErr (max_hops_of cfg) e
    unfolding safe_call_node
    failure-IsNodeErr n i s e (j, step, inl (agent, b, c, d, less)) (fn, known, ctx, w, h) =
        let (a, targets, is) =
          node-agent sv cfg r sw n fn (has-IsAgentName sv cfg r sw n agent) known in
        activation-IsNodeErr sv a (s.hops + 1) (max_hops_of cfg) s.final s (fn ctx s w).1
          (fn ctx s w).0 e
          (subst
            (λ (k : NodeFunc SwarmState Ctx W (SwarmErr X)).
              IsActivation sv a (s.hops + 1) s.final (k ctx s w).0)
            (sym is) (node_of-IsActivation sv a sw.by_name a.provider ctx s w))
          h
    failure-IsNodeErr n i s e (j, step, inr (inl (at, active, c, d))) (fn, known, ctx, w, h) =
        let is = node-trap sv cfg r sw fn (subst (λ k. lookup k r.nodes ≡ some fn) at known) in
        let fails : (fn ctx s w).0 ≡ failed s (max_hops_exceeded s.hops) =
          ap (λ (k : NodeFunc SwarmState Ctx W (SwarmErr X)). (k ctx s w).0) is
          ∙ trap-fails sv cfg r sw ctx s w active in
        trap-IsNodeErr (max_hops_of cfg) s (fn ctx s w).1 (fn ctx s w).0 e fails (c ∙ d) h
    failure-IsNodeErr n i s e (j, step, inr (inr (at, b, c, d, l))) (fn, known, ctx, w, h) =
        absurd (no_end sv cfg r sw fn (subst (λ k. lookup k r.nodes ≡ some fn) at known))

    ends :
        (most : ℕ) (s : SwarmState) (e : Option (RunErr (SwarmErr X)))
        → most ≡ max_hops_of cfg * 4 + 4
        → EndsWith r (Here sv cfg r sw) most s e
        → EndsWell (max_hops_of cfg) s e
    ends most s none same (i, h) = at_end i s h
    ends most s (some (max_steps_exceeded limit)) same (l, n, i, h, far) =
        few_steps n i s h (subst (λ k. reaches k i ≡ true) (l ∙ same) far)
    ends most s (some (node_failed n e)) same (i, h, fault) = failure-IsNodeErr n i s e h fault
    ends most s (some e) same h = tt

  -- Take a swarm that `NewSwarm` returns, whose step limit is an `int` without overflow,
  -- options that set no step limit, and an initial state without
  -- hops or a final text whose active agent is the start. Then a run returns and does not end at the
  -- step limit. If it ends without an error, its last message asks for no tools, the final text is that
  -- message's, no agent is active, and there were at least one hop and at most the largest number. If
  -- it ends with a node's error, this is not that of an unknown hand-off target, and that of too many
  -- hops comes exactly at the largest number.
  pub swarm-ends-well :
      (env : Env Ctx W (SwarmErr X)) (opts : RunOptions SwarmState Ctx W (SwarmErr X))
      (r : Swarm sv) (ctx : Ctx) (initial : SwarmState) (w : W)
      → FitsInt (max_hops_of cfg * 4 + 4)
      → new_swarm sv cfg ≡ ok r
      → initial.active ≡ cfg.start
      → initial.hops ≡ 0
      → initial.final ≡ ""
      → is_positive opts.max_steps ≡ false
      → (f : Final SwarmState (SwarmErr X)) × (w' : W) × (invoke_with env r opts ctx initial w
          ≡ some (f, w'))
        × EndsWell (max_hops_of cfg) f.state f.error
  swarm-ends-well env opts r ctx initial w small made active fresh open_run unset =
      let sw = new_swarm-IsSwarm sv cfg r made in
      let ((f, w'), ran) = invoke_with_total env r opts ctx initial w in
      let limit =
        step_limit-set opts.max_steps (max_hops_of cfg * 4 + 3) r unset
          (sw.limit ∙ wrap_int-pos (max_hops_of cfg * 4 + 4) small ∙ ap pos (omega arith)) in
      (
        f,
        w',
        ran,
        ends r sw (step_limit env r opts) f.state f.error (limit ∙ omega arith) (
            invoke_with-Ends env r opts (Here sv cfg r sw) (keeps sv cfg r sw) ctx initial w w' f
              (
                0,
                refl,
                inl (
                  subst (λ k. has k sw.by_name ≡ true) (sym sw.entry) sw.start_known,
                  active ∙ sym sw.entry,
                  fresh,
                  open_run,
                  some_hop cfg.max_hops,
                ),
              )
              ran),
      )
    where
      some_hop : (z : ℤ) → 0 < positive_or z 8
      some_hop (pos zero) = omega arith
      some_hop (pos (suc n)) = omega arith
      some_hop (negsuc n) = omega arith

  -- How the answer of `RunSwarm` comes from the end of the run of the swarm.
  abbrev pub IsAnswer : Final SwarmState (SwarmErr X) → String × Option (OnceErr X) → Type 0
  IsAnswer f (t, none) =
      (f.error ≡ none)
      × (m : Message) × (get_last? f.state.messages ≡ some m)
      × (t ≡ text m)
      × (m.tool_calls ≡ [])
  IsAnswer f (t, some (not_built e)) = ⊥
  IsAnswer f (t, some (not_finished (max_steps_exceeded limit))) = ⊥
  IsAnswer f (t, some (not_finished (node_failed n e))) =
      (f.error ≡ some (node_failed n e)) × (t ≡ f.state.final) × IsNodeErr (max_hops_of cfg) e
  IsAnswer f (t, some (not_finished e)) = (f.error ≡ some e) × (t ≡ f.state.final)

  -- The state that `RunSwarm` starts with.
  abbrev pub first_state : String → SwarmState
  first_state input = record {
    messages = user_message input ∷ [];
    active = cfg.start;
    hops = 0;
    final = "";
  }

  -- What `RunSwarm` answers: an error of `NewSwarm`, or what the run of the swarm ends with.
  abbrev pub IsRun :
      Env Ctx W (SwarmErr X) → Ctx → String → W → String × Option (OnceErr X) → W → Type 0
  IsRun env ctx input w a w' =
      ((e : NewErr) × (new_swarm sv cfg ≡ err e) × (a ≡ ("", some (not_built e))))
      ⊎ ((r : Swarm sv) × (f : Final SwarmState (SwarmErr X)) × (new_swarm sv cfg ≡ ok r)
          × (invoke_with env r no_options ctx (first_state input) w ≡ some (f, w'))
          × IsAnswer f a)

  ended-IsAnswer :
      (f : Final SwarmState (SwarmErr X)) (e : Option (RunErr (SwarmErr X)))
      → f.error ≡ e
      → EndsWell (max_hops_of cfg) f.state e
      → IsAnswer f (f.state.final, not_finished_if e)
  ended-IsAnswer f none same ((m, last, calls, said, idle), low, high) =
      (same, m, last, said, calls)
  ended-IsAnswer f (some (max_steps_exceeded limit)) same h = h
  ended-IsAnswer f (some (node_failed n e)) same h = (same, refl, h)
  ended-IsAnswer f (some e) same h = (same, refl)

  -- If the step limit is an `int` without overflow, `RunSwarm` returns: the error of `NewSwarm`, or what
  -- the run of the swarm on the input ends with. Without an error the answer is the text of the last
  -- message of that run, which asks for no tools; an error is that of the run, neither the step limit's
  -- nor that of an unknown hand-off target, and that of too many hops comes exactly at the largest
  -- number.
  pub run_swarm-IsAnswer :
      (env : Env Ctx W (SwarmErr X)) (ctx : Ctx) (input : String) (w : W)
      → FitsInt (max_hops_of cfg * 4 + 4)
      → (a : String × Option (OnceErr X)) × (w' : W) × (run_swarm sv env ctx cfg input w
          ≡ some (a, w'))
        × IsRun env ctx input w a w'
  unfolding run_swarm
  run_swarm-IsAnswer env ctx input w small = elim (Result-cases (new_swarm sv cfg)) [
    | inr (e, q) ↦ (_, w, ap (run_built sv env ctx cfg.start input w) q, inl (e, q, refl))
    | inl (r, q) ↦
        let (f, w', ran, well) =
          swarm-ends-well env no_options r ctx (first_state input) w small q refl refl refl refl in
        (
          _,
          w',
          ap (run_built sv env ctx cfg.start input w) q ∙ ap (Option.map (swarm_answer sv)) ran,
          inr (r, f, q, ran, ended-IsAnswer f f.error refl well),
        )
  ]
