-- ===== src/Tool.antt =====
-- pkg/tool: the registry (registry.go) and the executor (executor.go). A tool's body acts on the world
-- `W`; `schema` is its JSON schema as `json.Marshal` gives it. The goroutines of `ExecuteCalls` run
-- here one after the other, in the order of the calls. `ctx_err` is `ctx.Err()`.
pub mod Calls
pub mod Names
mod Tests
use text.Mathlib.Text.{is_lt}
use Prim.Native.String.{compare}
use galdor.Prelude.{
  String, Bool, Option, none, some, List, [], ◌∷◌, Result, ok, err, Assoc, lookup, has, insert,
  ◌==◌, if◌then◌else◌, length, ℕ,
}
use galdor.Schema.{Message, ToolCall, ToolDef, tool_result_message}
use galdor.Provider.{Reply, replied, refused, crashed}

pub record Tool (Ctx W X : Type 0) : Type 0 where
  pub name : String
  pub description : String
  pub schema : Result X String
  pub execute_json : Ctx → String → W → Reply X String × W

pub data RegistryErr : Type 0 where
  nil_tool empty_name : RegistryErr
  duplicate_name : String → RegistryErr

pub record Registry (Ctx W X : Type 0) : Type 0 where
  pub tools : Assoc (Tool Ctx W X)

-- The error of a tool call.
pub data ToolErr (X : Type 0) : Type 0 where
  nil_registry : ToolErr X
  cancelled : X → ToolErr X
  unknown_tool : String → ToolErr X
  tool_failed : X → ToolErr X
  tool_panicked : String → X → ToolErr X

-- `Result` of executor.go.
pub record ToolResult (X : Type 0) : Type 0 where
  pub id : String
  pub name : String
  pub output : String
  pub error : Option (ToolErr X)

module _ {X : Type 0} where
  abbrev pub result_of : ToolCall → String → Option (ToolErr X) → ToolResult X
  result_of c output e = record { id = c.id; name = c.name; output = output; error = e }

  unfoldable pub refuse_each : List ToolCall → List (ToolResult X)
  refuse_each [] = []
  refuse_each (c ∷ cs) = result_of c "" (some nil_registry) ∷ refuse_each cs

  -- The body of a result message; `error_text` is `"error: " + err.Error()`.
  abbrev pub body_of : (ToolErr X → String) → Option (ToolErr X) → String → String
  body_of error_text (some e) output = error_text e
  body_of error_text none output = if output == "" then "null" else output

  unfoldable pub as_tool_result_messages : (ToolErr X → String) → List (ToolResult X) → List Message
  as_tool_result_messages error_text [] = []
  as_tool_result_messages error_text (r ∷ rs) =
      tool_result_message r.id (body_of error_text r.error r.output)
      ∷ as_tool_result_messages error_text rs

module _ {Ctx W X : Type 0} where
  abbrev pub add_named : Tool Ctx W X → Registry Ctx W X → Result RegistryErr (Registry Ctx W X)
  add_named t r =
      if t.name == ""
      then err empty_name
      else if has t.name r.tools
      then err (duplicate_name t.name)
      else ok (record r { tools = insert t.name t r.tools })

  unfoldable pub add :
      Option (Tool Ctx W X) → Registry Ctx W X → Result RegistryErr (Registry Ctx W X)
  add none r = err nil_tool
  add (some t) r = add_named t r

  unfoldable pub add_all :
      List (Option (Tool Ctx W X)) → Registry Ctx W X → Result RegistryErr (Registry Ctx W X)
  add_all [] r = ok r
  add_all (t ∷ ts) r = elim (add t r) [ ok r' ↦ add_all ts r' | err e ↦ err e ]

  unfoldable pub new_registry : List (Option (Tool Ctx W X)) → Result RegistryErr (Registry Ctx W X)
  unfolding add_all
  new_registry ts = add_all ts (record { tools = [] })

  unfoldable pub get : Registry Ctx W X → String → Option (Tool Ctx W X)
  get r name = lookup name r.tools

  -- `sort.Slice` by name.
  unfoldable pub place : Tool Ctx W X → List (Tool Ctx W X) → List (Tool Ctx W X)
  place t [] = t ∷ []
  place t (u ∷ us) = if is_lt (compare u.name t.name) then u ∷ place t us else t ∷ u ∷ us

  unfoldable pub sort_tools : Assoc (Tool Ctx W X) → List (Tool Ctx W X)
  unfolding place
  sort_tools [] = []
  sort_tools (e ∷ es) = place e.1 (sort_tools es)

  unfoldable pub tools_of : Registry Ctx W X → List (Tool Ctx W X)
  unfolding sort_tools
  tools_of r = sort_tools r.tools

  unfoldable pub defs_of : List (Tool Ctx W X) → Result X (List ToolDef)
  defs_of [] = ok []
  defs_of (t ∷ ts) = elim t.schema [
    | err x ↦ err x
    | ok raw ↦ elim (defs_of ts) [
      | err x ↦ err x
      | ok defs ↦ ok (record { name = t.name; description = t.description; schema = raw } ∷ defs)
    ]
  ]

  -- `ToolDefs`.
  unfoldable pub tool_defs : Registry Ctx W X → Result X (List ToolDef)
  unfolding tools_of defs_of
  tool_defs r = defs_of (tools_of r)

  -- `safeExecute`, and what `executeOne` makes of its answer.
  abbrev pub reported : Tool Ctx W X → ToolCall → Reply X String → ToolResult X
  reported t c (replied output) = result_of c output none
  reported t c (refused x) = result_of c "" (some (tool_failed x))
  reported t c (crashed x) = result_of c "" (some (tool_panicked t.name x))

  abbrev pub dispatch_call : Option (Tool Ctx W X) → Ctx → ToolCall → W → ToolResult X × W
  dispatch_call none ctx c w = (result_of c "" (some (unknown_tool c.name)), w)
  dispatch_call (some t) ctx c w =
      let (reply, w') = t.execute_json ctx c.arguments w in (reported t c reply, w')

  module _ (ctx_err : Ctx → W → Option X × W) where
    unfoldable pub execute_one : Registry Ctx W X → Ctx → ToolCall → W → ToolResult X × W
    unfolding get
    execute_one reg ctx c w =
        let (e, w') = ctx_err ctx w in
        elim e [
          | some x ↦ (result_of c "" (some (cancelled x)), w')
          | none ↦ dispatch_call (get reg c.name) ctx c w'
        ]

    unfoldable pub execute_each :
        Registry Ctx W X → Ctx → List ToolCall → W → List (ToolResult X) × W
    unfolding execute_one
    execute_each reg ctx [] w = ([], w)
    execute_each reg ctx (c ∷ cs) w =
        let (result, w1) = execute_one reg ctx c w in
        let (results, w2) = execute_each reg ctx cs w1 in (result ∷ results, w2)

  -- `ExecuteCalls`.
  unfoldable pub execute_calls :
      (Ctx → W → Option X × W)
      → Option (Registry Ctx W X)
      → Ctx
      → List ToolCall
      → W
      → List (ToolResult X) × W
  unfolding execute_each refuse_each
  execute_calls ctx_err none ctx cs w = (refuse_each cs, w)
  execute_calls ctx_err (some reg) ctx cs w = execute_each ctx_err reg ctx cs w
