-- ===== src/Agent/Ends.antt =====
-- Where a run of the agent of pkg/agent/react.go ends.
use galdor.Prelude.{
  ℕ, suc, ◌+◌, ◌≤◌, ◌<◌, ℤ, pos, suc_ℤ, String, Bool, true, false, Bool-cases, not, ◌&&◌, Option,
  some, List, [], ok, ◌≡◌, ◌⊎◌, inl, inr, refl, sym, ap, subst, ◌∙◌, leb, leb→le, leb-false→lt,
  if◌then◌else◌, lookup, get_last?, get_last?-snoc, arith,
}
use galdor.Schema.{Message, ToolCall, ToolDef, text, is_assistant}
use galdor.Provider.{Provider}
use galdor.Tool.Calls.{unanswered, unanswered-say, unanswered-reply}
use galdor.Graph.Core.{end_node, returned, NodeFunc}
use galdor.Graph.Run.{resolve_next}
use galdor.Graph.Run.Invariant.{Keeps}
use galdor.Agent.{
  State, Config, Services, AgentErr, iteration_cap, has_calls, react_route, model_node, tools_node,
}
use galdor.Agent.Shape.{Agent, react_runnable, react_nodes}
use galdor.Agent.Nodes.{
  Answered, RepliesAssistant, model_node-returns, tools_node-returns, resolve-model, resolve-tools,
}

-- The last message is the answer, or it asks for tools and the run is marked as stopped at the cap.
abbrev pub Finished : ℕ → State → Type 0
Finished cap s =
    (m : Message) × (get_last? s.messages ≡ some m)
    × (s.final_text ≡ text m)
    × (s.stopped_at_iteration_cap ≡ has_calls m.tool_calls)
    × ((has_calls m.tool_calls ≡ false) ⊎ (cap ≤ s.iterations))
    × (unanswered [] s.messages ≡ some m.tool_calls)

full_last : (b c : Bool) → c ≡ true → b && not c ≡ false
full_last true c h = rw h refl
full_last false c h = refl

marked_by : (b c x : Bool) → c ≡ false → x ≡ (if b then true else c) → x ≡ b
marked_by true c x h e = e
marked_by false c x h e = e ∙ h

module _ {Ctx W X : Type 0} (sv : Services Ctx W X) (cfg : Config Ctx W X) (p : Provider Ctx W X)
    (defs : List ToolDef) (has_tools : Bool) (assistant : RepliesAssistant p) (begun : ℕ) where
  -- The calls that wait are those of the last message.
  abbrev pub AllCalled : List Message → Type 0
  AllCalled ms = (m : Message) × (get_last? ms ≡ some m) × (unanswered [] ms ≡ some m.tool_calls)

  called :
      (m m' : Message)
      → m ≡ m'
      → ◌≡◌ {A = Option (List ToolCall)} (some m.tool_calls) (some m'.tool_calls)
  called m m' e = ap (λ (x : Message). some x.tool_calls) e

  abbrev pub cap : ℕ
  cap = iteration_cap cfg.max_iterations

  abbrev pub agent : Agent sv cfg
  agent = react_runnable sv cfg has_tools p defs

  -- Where a run is after `j` nodes, `turns` of them turns of the model.
  abbrev pub At : String → ℕ → State → ℕ → Type 0
  At n j s turns =
      ((n ≡ "model")
        × (j ≡ turns + turns)
        × (s.iterations ≡ begun + turns)
        × (s.stopped_at_iteration_cap ≡ false)
        × (unanswered [] s.messages ≡ some [])
        × ((turns ≡ 0) ⊎ (s.iterations < cap)))
      ⊎ ((n ≡ "tools")
          × (suc j ≡ turns + turns)
          × (s.iterations ≡ begun + turns)
          × (s.stopped_at_iteration_cap ≡ false)
          × AllCalled s.messages
          × (s.iterations < cap))
      ⊎ ((n ≡ end_node)
          × (suc j ≡ turns + turns)
          × (s.iterations ≡ begun + turns)
          × Finished cap s
          × ((turns ≡ 1) ⊎ (s.iterations ≤ cap)))

  abbrev pub Here : String → ℤ → State → Type 0
  Here n i s = (j : ℕ) × (turns : ℕ) × (i ≡ pos j) × At n j s turns

  node-model :
      (b : Bool) (fn : NodeFunc State Ctx W (AgentErr X))
      → lookup "model" (react_nodes sv cfg b p defs) ≡ some fn
      → fn ≡ model_node sv cfg p cap defs
  unfolding lookup
  node-model true fn h = cc h
  node-model false fn h = cc h

  node-tools :
      (b : Bool) (fn : NodeFunc State Ctx W (AgentErr X))
      → lookup "tools" (react_nodes sv cfg b p defs) ≡ some fn
      → (fn ≡ tools_node sv cfg) × (b ≡ true)
  unfolding lookup
  node-tools true fn h = (cc h, refl)
  node-tools false fn h = cc h

  node-end :
      (b : Bool) (fn : NodeFunc State Ctx W (AgentErr X))
      → lookup end_node (react_nodes sv cfg b p defs) ≡ some fn
      → ⊥
  unfolding lookup
  node-end true fn h = cc h
  node-end false fn h = cc h

  -- Where the router sends a run after a turn.
  routed-At :
      (j turns : ℕ) (s out : State) (m : Message)
      → j ≡ turns + turns
      → s.iterations ≡ begun + turns
      → s.stopped_at_iteration_cap ≡ false
      → unanswered [] s.messages ≡ some []
      → ((turns ≡ 0) ⊎ (s.iterations < cap))
      → is_assistant m.role ≡ true
      → Answered cap s m out
      → At (react_route cap out) (suc j) out (suc turns)
  unfolding react_route
  routed-At j turns s out m e it fresh done room role a =
      let waits : unanswered [] out.messages ≡ some m.tool_calls =
        ap (unanswered []) a.appended ∙ unanswered-say [] s.messages m done role in
      let last : get_last? out.messages ≡ some m =
        ap get_last? a.appended ∙ get_last?-snoc s.messages m in
      elim (Bool-cases (leb cap out.iterations)) [
        | inl full ↦
            let (said, marked) =
              a.recorded (full_last (has_calls m.tool_calls) (leb cap out.iterations) full) in
            inr (
              inr (
                rw full refl,
                omega arith,
                omega (arith, a.counted),
                (
                  m,
                  last,
                  said,
                  marked_by (has_calls m.tool_calls) s.stopped_at_iteration_cap
                      out.stopped_at_iteration_cap fresh marked,
                  inr (leb→le cap out.iterations full),
                  waits,
                ),
                room_left room a.counted,
              ))
        | inr less ↦ elim (Bool-cases (has_calls m.tool_calls)) [
          | inl calls ↦ inr (
              inl (
                rw (less, last, role, calls) refl,
                omega arith,
                omega (arith, a.counted),
                a.unmarked (rw (calls, less) refl) ∙ fresh,
                (m, last, waits),
                leb-false→lt cap out.iterations less,
              ))
          | inr answer ↦
              let (said, marked) = a.recorded (rw answer refl) in
              inr (
                inr (
                  rw (less, last, role, answer) refl,
                  omega arith,
                  omega (arith, a.counted),
                  (
                    m,
                    last,
                    said,
                    marked_by (has_calls m.tool_calls) s.stopped_at_iteration_cap
                        out.stopped_at_iteration_cap fresh marked,
                    inl answer,
                    waits,
                  ),
                  room_left room a.counted,
                ))
        ]
      ]
    where
      room_left :
          ((turns ≡ 0) ⊎ (s.iterations < cap))
          → out.iterations ≡ s.iterations + 1
          → (suc turns ≡ 1) ⊎ (out.iterations ≤ cap)
      room_left (inl z) c = inl (omega arith)
      room_left (inr l) c = inr (omega arith)

  pub keeps : Keeps agent Here
  unfolding suc_ℤ
  keeps n fn i ctx s out w next known (j, turns, e, inl (at, count, it, fresh, done, room)) ran
        chosen =
      let fn_model =
        node-model has_tools fn
          (subst (λ k. lookup k (react_nodes sv cfg has_tools p defs) ≡ some fn) at known) in
      let ran_model =
        subst (λ (f : NodeFunc State Ctx W (AgentErr X)). (f ctx s w).0 ≡ returned out) fn_model
          ran in
      let (m, role, a) = model_node-returns sv cfg p defs ctx s out w assistant ran_model in
      let to_next =
        resolve-model sv cfg p defs has_tools out next
          (subst (λ k. resolve_next agent k out ≡ ok next) at chosen) in
      let here = routed-At j turns s out m count it fresh done room role a in
      (suc j, suc turns, ap suc_ℤ e, subst (λ k. At k (suc j) out (suc turns)) (sym to_next) here)
  keeps n fn i ctx s out w next known
        (j, turns, e, inr (inl (at, count, it, fresh, (m, last, waits), room))) ran chosen =
      let (fn_tools, tools) =
        node-tools has_tools fn
          (subst (λ k. lookup k (react_nodes sv cfg has_tools p defs) ≡ some fn) at known) in
      let ran_tools =
        subst (λ (f : NodeFunc State Ctx W (AgentErr X)). (f ctx s w).0 ≡ returned out) fn_tools
          ran in
      let (reg, m', last', same) = tools_node-returns sv cfg p defs ctx s out w ran_tools in
      let from_tools =
        subst (λ b. resolve_next (react_runnable sv cfg b p defs) "tools" out ≡ ok next) tools
          (subst (λ k. resolve_next agent k out ≡ ok next) at chosen) in
      (
        suc j,
        turns,
        ap suc_ℤ e,
        inl (
          cc (from_tools, resolve-tools sv cfg p defs out),
          count,
          cc (same, it),
          cc (same, fresh),
          ap (λ (o : State). unanswered [] o.messages) same
              ∙ unanswered-reply sv.ctx_err sv.error_text (some reg) ctx [] m'.tool_calls s.messages
                  w (waits ∙ called m m' (cc (last, last'))),
          inr (subst (λ o. o.iterations < cap) (sym same) room),
        ),
      )
  keeps n fn i ctx s out w next known (j, turns, e, inr (inr (at, a, b, c, d))) ran chosen =
      absurd (
        node-end has_tools fn
          (subst (λ k. lookup k (react_nodes sv cfg has_tools p defs) ≡ some fn) at known))
