-- ===== src/Tool/Calls.antt =====
-- The tool calls of a conversation and their results, as pkg/tool/executor.go makes them.
use galdor.Prelude.{
  String, Bool, true, false, ◌&&◌, Option, none, some, Option-cases, Bool-cases, inl, inr, List, [],
  ◌∷◌, ◌++◌, ◌≡◌, refl, ap, ◌∙◌, ◌==◌, eq_iff, if◌then◌else◌,
}
use galdor.Schema.{
  Message, ToolCall, Role, tool, assistant, user, system, is_assistant, tool_result_message,
}
use galdor.Tool.{
  Registry, Tool, ToolErr, ToolResult, as_tool_result_messages, execute_calls, execute_one,
  dispatch_call, reported, refuse_each, get, result_of, nil_registry,
}
use galdor.Provider.{Reply, replied, refused, crashed}

abbrev is_tool : Role → Bool
is_tool tool = true
is_tool _ = false

abbrev answers : ToolCall → Message → Bool
answers c m = is_tool m.role && m.tool_call_id == c.id

-- The calls of a conversation that wait for a result: `calls` wait before it. A message that is not
-- the next result in turn, or a result that no call waits for, is out of place: `none`.
unfoldable pub unanswered : List ToolCall → List Message → Option (List ToolCall)
unanswered calls [] = some calls
unanswered [] (m ∷ ms) = if is_tool m.role then none else unanswered m.tool_calls ms
unanswered (c ∷ cs) (m ∷ ms) = if answers c m then unanswered cs ms else none

pub unanswered-append :
    (calls waiting : List ToolCall) (ms ns : List Message)
    → unanswered calls ms ≡ some waiting
    → unanswered calls (ms ++ ns) ≡ unanswered waiting ns
unfolding unanswered
unanswered-append calls waiting [] ns h =
    let same : calls ≡ waiting = cc h in ap (λ cs. unanswered cs ns) same
unanswered-append [] waiting (m ∷ ms) ns h = elim (Bool-cases (is_tool m.role)) [
  | inl t ↦ cc (rw (t, unanswered) at h)
  | inr t ↦
      rw (t, unanswered) (unanswered-append m.tool_calls waiting ms ns (rw (t, unanswered) at h))
]
unanswered-append (c ∷ cs) waiting (m ∷ ms) ns h = elim (Bool-cases (answers c m)) [
  | inl t ↦ rw (t, unanswered) (unanswered-append cs waiting ms ns (rw (t, unanswered) at h))
  | inr t ↦ cc (rw (t, unanswered) at h)
]

-- A reply of the model after a conversation where no call waits.
pub unanswered-say :
    (calls : List ToolCall) (ms : List Message) (m : Message)
    → unanswered calls ms ≡ some []
    → is_assistant m.role ≡ true
    → unanswered calls (ms ++ m ∷ []) ≡ some m.tool_calls
unfolding unanswered
unanswered-say calls ms m h a = unanswered-append calls [] ms (m ∷ []) h ∙ said m.role a
  where
    said :
        (r : Role)
        → is_assistant r ≡ true
        → (if is_tool r then none else some m.tool_calls) ≡ some m.tool_calls
    said tool a = cc
    said assistant a = refl
    said user a = cc
    said system a = cc

answers-result :
    (c : ToolCall) (name body : String) → answers c (tool_result_message c.id body) ≡ true
answers-result c name body = (eq_iff c.id c.id).1 refl

module _ {Ctx W X : Type 0} (ctx_err : Ctx → W → Option X × W)
    (error_text : ToolErr X → String) where
  dispatch_call-id :
      (t : Option (Tool Ctx W X)) (ctx : Ctx) (c : ToolCall) (w : W)
      → (dispatch_call t ctx c w).0.id ≡ c.id
  dispatch_call-id none ctx c w = refl
  dispatch_call-id (some t) ctx c w = reported-id (t.execute_json ctx c.arguments w).0
    where
      reported-id : (x : Reply X String) → (reported t c x).id ≡ c.id
      reported-id (replied o) = refl
      reported-id (refused x) = refl
      reported-id (crashed x) = refl

  execute_one-id :
      (reg : Registry Ctx W X) (ctx : Ctx) (c : ToolCall) (w : W)
      → (execute_one ctx_err reg ctx c w).0.id ≡ c.id
  unfolding execute_one
  execute_one-id reg ctx c w = elim (Option-cases (ctx_err ctx w).0) [
    | inl e ↦ rw (e, execute_one) (dispatch_call-id (get reg c.name) ctx c (ctx_err ctx w).1)
    | inr (x, e) ↦ rw (e, execute_one)
  ]

  unanswered-result :
      (c : ToolCall) (cs : List ToolCall) (r : ToolResult X) (rs : List (ToolResult X))
      → r.id ≡ c.id
      → unanswered (c ∷ cs) (as_tool_result_messages error_text (r ∷ rs))
        ≡ unanswered cs (as_tool_result_messages error_text rs)
  unfolding unanswered as_tool_result_messages
  unanswered-result c cs r rs e = rw ((eq_iff r.id c.id).1 e)

  -- The result messages that the executor makes of the calls leave no call without its result, and
  -- none is out of place.
  pub execute_calls-answers :
      (reg : Option (Registry Ctx W X)) (ctx : Ctx) (cs : List ToolCall) (w : W)
      → unanswered cs (as_tool_result_messages error_text (execute_calls ctx_err reg ctx cs w).0)
        ≡ some []
  unfolding execute_calls unanswered as_tool_result_messages
  execute_calls-answers none ctx [] w = refl
  execute_calls-answers (some reg) ctx [] w = refl
  execute_calls-answers none ctx (c ∷ cs) w =
      unanswered-result c cs (result_of c "" (some nil_registry)) (refuse_each cs) refl
      ∙ execute_calls-answers none ctx cs w
  execute_calls-answers (some reg) ctx (c ∷ cs) w =
      unanswered-result c cs (execute_one ctx_err reg ctx c w).0 _ (execute_one-id reg ctx c w)
      ∙ execute_calls-answers (some reg) ctx cs (execute_one ctx_err reg ctx c w).1

  -- The results of all the calls that wait.
  pub unanswered-reply :
      (reg : Option (Registry Ctx W X)) (ctx : Ctx) (calls waiting : List ToolCall)
      (ms : List Message) (w : W)
      → unanswered calls ms ≡ some waiting
      → unanswered calls
          (ms ++ as_tool_result_messages error_text (execute_calls ctx_err reg ctx waiting w).0)
        ≡ some []
  unanswered-reply reg ctx calls waiting ms w h =
      unanswered-append calls waiting ms _ h ∙ execute_calls-answers reg ctx waiting w
