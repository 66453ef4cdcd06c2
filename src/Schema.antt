-- ===== src/Schema.antt =====
-- pkg/schema: the messages of a conversation (role.go, content.go, message.go, tool.go). JSON and the
-- opaque tokens are texts. A prompt-cache hint is left out.
use Prim.Native.String.{◌++◌}
use galdor.Prelude.{String, List, [], ◌∷◌, Bool, true, false}

pub data Role : Type 0 where
  system user assistant tool : Role

-- `T` is the type of texts. Images and redacted reasoning are other parts.
pub data ContentPart (T : Type 0) : Type 0 where
  text_part : T → ContentPart T
  thinking_part : T → ContentPart T
  other_part : T → ContentPart T

pub record ToolCall : Type 0 where
  pub id : String
  pub name : String
  pub arguments : String
  pub signature : String

pub record ToolDef : Type 0 where
  pub name : String
  pub description : String
  pub schema : String

pub record Message : Type 0 where
  pub role : Role
  pub content : List (ContentPart String)
  pub name : String
  pub tool_calls : List ToolCall
  pub tool_call_id : String

-- `Message.Text`.
abbrev pub text_of_parts : List (ContentPart String) → String
text_of_parts [] = ""
text_of_parts (text_part t ∷ ps) = t ++ text_of_parts ps
text_of_parts (thinking_part t ∷ ps) = text_of_parts ps
text_of_parts (other_part t ∷ ps) = text_of_parts ps

abbrev pub text : Message → String
text m = text_of_parts m.content

abbrev pub text_message : Role → String → Message
text_message role t = record {
  role = role;
  content = text_part t ∷ [];
  name = "";
  tool_calls = [];
  tool_call_id = "";
}

abbrev pub system_message : String → Message
system_message t = text_message system t

abbrev pub user_message : String → Message
user_message t = text_message user t

abbrev pub tool_result_message : String → String → Message
tool_result_message call_id result = record (text_message tool result) { tool_call_id = call_id }

abbrev pub is_system : Role → Bool
is_system system = true
is_system _ = false

abbrev pub is_user : Role → Bool
is_user user = true
is_user _ = false

abbrev pub is_assistant : Role → Bool
is_assistant assistant = true
is_assistant _ = false
