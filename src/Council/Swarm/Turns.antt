-- ===== src/Council/Swarm/Turns.antt =====
-- How an activation of an agent in pkg/council/swarm.go can end.
use galdor.Prelude.{
  ℕ, zero, suc, ◌+◌, String, true, Bool-cases, Option, none, some, Option-cases, List, [], ◌∷◌,
  ◌++◌, Result, ok, err, ◌≡◌, ◌⊎◌, inl, inr, refl, subst, subst₂, Assoc, contains, get_last?,
  get_last?-snoc,
}
use galdor.Schema.{Message, ToolCall, ToolDef, text}
use galdor.Provider.{Provider, Reply, replied, refused, crashed}
use galdor.Graph.Core.{Outcome, returned, failed, panicked}
use galdor.Council.Names.{handoff_target_of}
use galdor.Council.Swarm.{
  SwarmAgent, SwarmState, SwarmErr, Services, max_hops_exceeded, unknown_handoff_target,
}
use galdor.Council.Swarm.Node.{
  detect_handoff, answer_calls, add_messages, Body, after_results, after_detect, after_reply,
  after_generate, turns, activated, swarm_agent_node, domain_defs, swarm_request,
}
use galdor.Council.Swarm.Build.{node_of}

-- An error of an activation: neither of those of the trap node.
abbrev pub IsOwn : {X : Type 0} → SwarmErr X → Type 0
IsOwn (max_hops_exceeded hops) = ⊥
IsOwn (unknown_handoff_target target) = ⊥
IsOwn e = Unit

-- The last message asks for no tools, and its text is the final answer.
abbrev pub IsAnswered : SwarmState → Type 0
IsAnswered s =
    (m : Message) × (get_last? s.messages ≡ some m)
    × (m.tool_calls ≡ [])
    × (s.final ≡ text m)
    × (s.active ≡ "")

module _ {Ctx W X : Type 0} (sv : Services Ctx W X) (a : SwarmAgent Ctx W X) where
  -- An activation with this count of hops and this final text answers, or hands over to one of the
  -- targets of the agent, or fails with an error of its own.
  abbrev pub IsActivation : ℕ → String → Outcome (SwarmErr X) SwarmState → Type 0
  IsActivation hops final (returned out) =
      (out.hops ≡ hops)
      × (IsAnswered out ⊎ ((out.final ≡ final) × (contains out.active a.handoffs ≡ true)))
  IsActivation hops final (failed out e) = IsOwn e
  IsActivation hops final (panicked e) = IsOwn e

  detect_handoff-permitted :
      (calls : List ToolCall) (allowed : List String) (target task : String)
      → detect_handoff sv calls allowed ≡ some (target, task)
      → contains target allowed ≡ true
  unfolding detect_handoff
  detect_handoff-permitted [] allowed target task h = cc
  detect_handoff-permitted (c ∷ cs) allowed target task h =
      elim (Option-cases (handoff_target_of c.name)) [
        | inl n ↦ detect_handoff-permitted cs allowed target task (rw (n, detect_handoff) at h)
        | inr (t, n) ↦ elim (Bool-cases (contains t allowed)) [
          | inr p ↦ detect_handoff-permitted cs allowed target task (rw (n, p, detect_handoff) at h)
          | inl p ↦
              let same : t ≡ target = cc (rw (n, p, detect_handoff) at h) in
              subst (λ k. contains k allowed ≡ true) same p
        ]
      ]

  -- What the loop goes on with.
  abbrev Goes : ℕ → String → (List Message → SwarmState → W → Body sv) → Type 0
  Goes hops final next =
      (msgs : List Message) (s : SwarmState) (w : W)
      → s.hops ≡ hops
      → s.final ≡ final
      → IsActivation hops final (next msgs s w).0

  after_generate-IsActivation :
      (next : List Message → SwarmState → W → Body sv) (ctx : Ctx) (msgs : List Message)
      (s : SwarmState) (x : Reply X Message × W)
      → Goes s.hops s.final next
      → IsActivation s.hops s.final (after_generate sv next a ctx msgs s x).0
  after_generate-IsActivation next ctx msgs s (refused x, w) goes = tt
  after_generate-IsActivation next ctx msgs s (crashed x, w) goes = tt
  after_generate-IsActivation next ctx msgs s (replied m, w) goes = said m.tool_calls refl
    where
      detected :
          (calls : List ToolCall) (o : Option (String × String))
          → detect_handoff sv calls a.handoffs ≡ o
          → IsActivation s.hops s.final
              (after_detect sv next a ctx (msgs ++ m ∷ []) (add_messages sv s (m ∷ [])) calls w o).0
      detected calls (some (target, task)) e =
          (refl, inr (refl, detect_handoff-permitted calls a.handoffs target task e))
      detected calls none e = resulted (answer_calls sv a.tools ctx calls w)
        where
          resulted :
              (o : Option (List Message × W))
              → IsActivation s.hops s.final
                  (after_results sv next (msgs ++ m ∷ []) (add_messages sv s (m ∷ [])) w o).0
          resulted none = tt
          resulted (some (results, v)) = goes _ _ v refl refl

      said :
          (calls : List ToolCall)
          → m.tool_calls ≡ calls
          → IsActivation s.hops s.final
              (after_reply sv next a ctx (msgs ++ m ∷ []) (add_messages sv s (m ∷ [])) m calls w).0
      said [] e = (refl, inl (m, get_last?-snoc s.messages m, e, refl, refl))
      said (c ∷ cs) e = detected (c ∷ cs) (detect_handoff sv (c ∷ cs) a.handoffs) refl

  turns-IsActivation :
      (p : Provider Ctx W X) (defs : List ToolDef) (ctx : Ctx) (left : ℕ) (msgs : List Message)
      (s : SwarmState) (w : W)
      → IsActivation s.hops s.final (turns sv a p defs ctx left msgs s w).0
  unfolding turns
  turns-IsActivation p defs ctx zero msgs s w = tt
  turns-IsActivation p defs ctx (suc left) msgs s w =
      after_generate-IsActivation (turns sv a p defs ctx left) ctx msgs s
        (p.generate ctx (swarm_request sv a defs msgs) w)
        (λ msgs' s' w' h f.
          subst₂ (λ hops final. IsActivation hops final (turns sv a p defs ctx left msgs' s' w').0)
            h f (turns-IsActivation p defs ctx left msgs' s' w'))

  -- An agent's node, with or without a provider.
  pub node_of-IsActivation :
      (by_name : Assoc (SwarmAgent Ctx W X)) (o : Option (Provider Ctx W X)) (ctx : Ctx)
      (s : SwarmState) (w : W)
      → IsActivation (s.hops + 1) s.final (node_of sv a by_name o ctx s w).0
  unfolding swarm_agent_node
  node_of-IsActivation by_name none ctx s w = tt
  node_of-IsActivation by_name (some p) ctx s w = ready (domain_defs sv a.tools)
    where
      ready :
          (d : Result X (List ToolDef))
          → IsActivation
              (s.hops + 1)
              s.final
              (activated sv a by_name p ctx (record s { hops = s.hops + 1 }) w d).0
      ready (err x) = tt
      ready (ok defs) = turns-IsActivation p _ ctx _ _ (record s { hops = s.hops + 1 }) w
