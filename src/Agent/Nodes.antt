-- ===== src/Agent/Nodes.antt =====
-- What the two nodes and the router of pkg/agent/react.go do to the state.
use galdor.Prelude.{
  ℕ, ◌+◌, String, Bool, true, false, Bool-cases, not, ◌&&◌, Option, none, some, Option-cases, List,
  [], ◌∷◌, ◌++◌, ok, ◌≡◌, inl, inr, refl, subst, leb, if◌then◌else◌, drop, lookup, get_last?, arith,
}
use galdor.Schema.{Message, ToolDef, text, is_assistant}
use galdor.Provider.{Provider, Request, Reply, replied, refused, crashed}
use galdor.Guardrail.{GuardErr, check_guards}
use galdor.Tool.{Registry, as_tool_result_messages, execute_calls}
use galdor.Graph.Core.{returned}
use galdor.Graph.Run.{resolve_next}
use galdor.Graph.Run.Invariant.{route-plain}
use galdor.Agent.{
  State, Config, Services, iteration_cap, has_calls, record_reply, react_route, react_router, vet,
  after_output, after_generate, call_model, has_guards, mark_guarded, mark_digest, after_vet,
  guarded_from, model_node, run_calls, run_pending, tools_node, request,
}
use galdor.Agent.Shape.{react_runnable}

-- The state `out` is `s` with the reply `m`, under the cap on iterations.
pub record Answered (cap : ℕ) (s : State) (m : Message) (out : State) : Type 0 where
  pub appended : out.messages ≡ s.messages ++ m ∷ []
  pub counted : out.iterations ≡ s.iterations + 1
  -- A turn that is the last one has its text recorded, and is marked if calls are pending.
  pub recorded :
      has_calls m.tool_calls && not (leb cap out.iterations) ≡ false
      → (out.final_text ≡ text m)
        × (out.stopped_at_iteration_cap
            ≡ (if has_calls m.tool_calls then true else s.stopped_at_iteration_cap))
  pub unmarked :
      has_calls m.tool_calls && not (leb cap out.iterations) ≡ true
      → out.stopped_at_iteration_cap ≡ s.stopped_at_iteration_cap

pub record_reply-Answered :
    (cap : ℕ) (m : Message) (s : State) → Answered cap s m (record_reply cap m s)
unfolding record_reply
record_reply-Answered cap m s = record {
  appended = ground arith;
  counted = ground arith;
  recorded = λ h. ground arith;
  unmarked = λ h. ground arith;
}

-- The provider answers with messages of the assistant.
abbrev pub RepliesAssistant : {Ctx W X : Type 0} → Provider Ctx W X → Type 0
RepliesAssistant {Ctx = Ctx} {W = W} p =
    (ctx : Ctx) (q : Request) (w : W) (m : Message)
    → (p.generate ctx q w).0 ≡ replied m
    → is_assistant m.role ≡ true

module _ {Ctx W X : Type 0} (sv : Services Ctx W X) (cfg : Config Ctx W X) (p : Provider Ctx W X)
    (defs : List ToolDef) where
  -- The state with the results of the calls of `m`.
  abbrev pub with_results : Registry Ctx W X → Ctx → State → Message → W → State
  with_results reg ctx s m w = record s {
    messages =
        s.messages
        ++ as_tool_result_messages sv.error_text
            (execute_calls sv.ctx_err (some reg) ctx m.tool_calls w).0;
  }

  after_generate-returns :
      (cap : ℕ) (ctx : Ctx) (s out : State) (x : Reply X Message × W)
      → (after_generate sv cfg cap ctx s x).0 ≡ returned out
      → (m : Message) × (x.0 ≡ replied m) × Answered cap s m out
  after_generate-returns cap ctx s out (refused x, w) h = cc
  after_generate-returns cap ctx s out (crashed x, w) h = cc
  after_generate-returns cap ctx s out (replied m, w) h =
      checked (check_guards sv.is_eval_failed cfg.output_guards ctx m w) h
    where
      checked :
          (y : Option (GuardErr X) × W)
          → (after_output sv cfg cap s m y).0 ≡ returned out
          → (m' : Message) × (◌≡◌ {A = Reply X Message} (replied m) (replied m'))
            × Answered cap s m' out
      checked (some e, w) h = cc
      checked (none, w) h =
          let same : record_reply cap m s ≡ out = cc h in
          (m, refl, subst (λ o. Answered cap s m o) same (record_reply-Answered cap m s))

  -- A turn of the model that succeeds appends one reply of the provider.
  pub model_node-returns :
      (ctx : Ctx) (s out : State) (w : W)
      → RepliesAssistant p
      → (model_node sv cfg p (iteration_cap cfg.max_iterations) defs ctx s w).0 ≡ returned out
      → (m : Message) × (is_assistant m.role ≡ true)
        × Answered (iteration_cap cfg.max_iterations) s m out
  unfolding model_node
  model_node-returns ctx s out w assistant h =
      elim (Bool-cases (has_guards sv cfg cfg.input_guards)) [
        | inr g ↦
            called (mark_guarded sv cfg s) w
              (λ m a. record {
                appended = a.appended;
                counted = a.counted;
                recorded = a.recorded;
                unmarked = a.unmarked;
              })
              (rw (g, model_node) at h)
        | inl g ↦
            vetted (vet sv cfg (drop (guarded_from sv cfg s) s.messages) ctx w)
              (rw (g, model_node) at h)
      ]
    where
      called :
          (s' : State) (v : W)
          → ((m : Message)
              → Answered (iteration_cap cfg.max_iterations) s' m out
              → Answered (iteration_cap cfg.max_iterations) s m out)
          → (call_model sv cfg p (iteration_cap cfg.max_iterations) defs ctx s' v).0 ≡ returned out
          → (m : Message) × (is_assistant m.role ≡ true)
            × Answered (iteration_cap cfg.max_iterations) s m out
      called s' v back h =
          let (m, q, a) =
            after_generate-returns (iteration_cap cfg.max_iterations) ctx s' out
              (p.generate ctx (request sv cfg defs s') v) h in
          (m, assistant ctx (request sv cfg defs s') v m q, back m a)

      vetted :
          (y : Option (GuardErr X) × W)
          → (after_vet sv cfg p (iteration_cap cfg.max_iterations) defs ctx s y).0 ≡ returned out
          → (m : Message) × (is_assistant m.role ≡ true)
            × Answered (iteration_cap cfg.max_iterations) s m out
      vetted (some e, v) h = cc
      vetted (none, v) h =
          called (mark_guarded sv cfg (mark_digest sv cfg s)) v
            (λ m a. record {
              appended = a.appended;
              counted = a.counted;
              recorded = a.recorded;
              unmarked = a.unmarked;
            })
            h

  -- The tools node appends the results of the calls of the last message, and does no more.
  pub tools_node-returns :
      (ctx : Ctx) (s out : State) (w : W)
      → (tools_node sv cfg ctx s w).0 ≡ returned out
      → (reg : Registry Ctx W X) × (m : Message) × (get_last? s.messages ≡ some m)
        × (out ≡ with_results reg ctx s m w)
  unfolding tools_node
  tools_node-returns ctx s out w h = elim (Option-cases cfg.tools) [
    | inl e ↦ cc (rw (e, tools_node) at h)
    | inr (reg, e) ↦ elim (Option-cases (get_last? s.messages)) [
      | inl l ↦ cc (rw (e, l, tools_node) at h)
      | inr (m, l) ↦ (reg, m, l, pending reg m (rw (e, l, tools_node) at h))
    ]
  ]
    where
      pending :
          (reg : Registry Ctx W X) (m : Message)
          → (run_pending sv cfg reg ctx s w (some m)).0 ≡ returned out
          → out ≡ with_results reg ctx s m w
      pending reg m h = elim (Bool-cases (is_assistant m.role && has_calls m.tool_calls)) [
        | inr e ↦ cc (rw (e, run_pending) at h)
        | inl e ↦
            let ran : (run_calls sv cfg reg ctx s m.tool_calls w).0 ≡ returned out =
              rw (e, run_pending) at h in
            cc ran
      ]

  -- After the model node a run of the agent goes where the router says.
  pub resolve-model :
      (has_tools : Bool) (s : State) (next : String)
      → resolve_next (react_runnable sv cfg has_tools p defs) "model" s ≡ ok next
      → next ≡ react_route (iteration_cap cfg.max_iterations) s
  unfolding resolve_next lookup react_router
  resolve-model true s next h =
      route-plain (react_runnable sv cfg true p defs) "model"
        (react_route (iteration_cap cfg.max_iterations) s) next refl h
  resolve-model false s next h =
      route-plain (react_runnable sv cfg false p defs) "model"
        (react_route (iteration_cap cfg.max_iterations) s) next refl h

  pub resolve-tools :
      (s : State) → resolve_next (react_runnable sv cfg true p defs) "tools" s ≡ ok "model"
  unfolding resolve_next lookup
  resolve-tools s = refl
