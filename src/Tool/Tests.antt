-- ===== src/Tool/Tests.antt =====
-- A registry of one tool of pkg/tool, and calls of it and of a tool that is not there.
use galdor.Prelude.{String, none, some, [], ◌∷◌, ok, ◌≡◌, refl, insert, has, lookup}
use galdor.Schema.{ToolCall}
use galdor.Provider.{replied}
use galdor.Tool.{
  Tool, Registry, ToolErr, new_registry, add_all, add, get, as_tool_result_messages, execute_calls,
}
use galdor.Tool.Names.{get-new_registry, find_tool}
use galdor.Tool.Calls.{execute_calls-answers, unanswered}

abbrev echo : Tool Unit Unit Unit
echo = record {
  name = "echo";
  description = "";
  schema = ok "{}";
  execute_json = λ ctx args w. (replied args, w);
}

abbrev registry : Registry Unit Unit Unit
registry = record { tools = ("echo", echo) ∷ [] }

abbrev call_of : String → String → ToolCall
call_of id name = record { id = id; name = name; arguments = "1"; signature = "" }

made : new_registry (some echo ∷ []) ≡ ok registry
unfolding new_registry add_all add insert has lookup
made = refl

get-new_registry_example : get registry "echo" ≡ find_tool "echo" (some echo ∷ [])
get-new_registry_example = get-new_registry (some echo ∷ []) registry "echo" made

execute_calls-answers_example :
    unanswered (call_of "a" "echo" ∷ call_of "b" "other" ∷ []) (
      as_tool_result_messages
        (λ (e : ToolErr Unit). "error")
        (execute_calls
          (λ (ctx : Unit {0}) (w : Unit {0}). (none, w))
          (some registry)
          tt
          (call_of "a" "echo" ∷ call_of "b" "other" ∷ [])
          tt).0)
    ≡ some []
execute_calls-answers_example =
    execute_calls-answers (λ (ctx : Unit {0}) (w : Unit {0}). (none, w))
      (λ (e : ToolErr Unit). "error") (some registry) tt
      (call_of "a" "echo" ∷ call_of "b" "other" ∷ []) tt
