-- ===== src/Council/Names.antt =====
-- The names and the texts of pkg/council/swarm.go, and `isSafeWorkerName` of supervisor.go.
-- `quote` is fmt's `%q`.
use Prim.Native.Char.{Char, code}
use Prim.Native.String.{len, slice, ◌++◌, ◌∷◌, []}
use text.Mathlib.Text.{starts_with}
use galdor.Prelude.{
  ℕ, String, Bool, true, not, ◌&&◌, ◌||◌, Option, none, some, ◌==◌, if◌then◌else◌, ltb, leb,
}

abbrev pub is_between : ℕ → ℕ → Char → Bool
is_between low high c = leb low (code c) && leb (code c) high

abbrev pub is_safe_char : Char → Bool
is_safe_char c =
    is_between b'a' b'z' c
    || is_between b'A' b'Z' c
    || is_between b'0' b'9' c
    || is_between b'_' b'_' c
    || is_between b'-' b'-' c

abbrev pub are_safe : String → Bool
are_safe [] = true
are_safe (c ∷ s) = is_safe_char c && are_safe s

-- `isSafeWorkerName`.
abbrev pub is_safe_worker_name : String → Bool
is_safe_worker_name s = not (s == "") && are_safe s

abbrev pub handoff_prefix : String
handoff_prefix = "handoff_to_"

abbrev pub swarm_trap_node : String
swarm_trap_node = "__swarm_trap__"

abbrev pub handoff_tool_name : String → String
handoff_tool_name target = handoff_prefix ++ target

-- `handoffTargetOf`.
abbrev pub handoff_target_of : String → Option String
handoff_target_of name =
    if ltb (len handoff_prefix) (len name) && starts_with name handoff_prefix
    then some (slice name (len handoff_prefix) (len name))
    else none

abbrev pub handoff_description : String → String
handoff_description target =
    "Hand off control of the conversation to agent " ++ target ++ ". Use when " ++ target
    ++ " is better suited to the next step."

abbrev pub handed_off : String → String → String
handed_off target task =
    let body = "Control handed off to " ++ target ++ "." in
    if task == "" then body else body ++ " Task: " ++ task

abbrev pub skipped : (String → String) → String → String → String
skipped quote name target =
    "Tool "
    ++ quote name
    ++ " skipped because control was handed off to "
    ++ target
    ++ " in the same turn."

abbrev pub not_permitted : (String → String) → String → String
not_permitted quote target = "Error: you are not permitted to hand off to " ++ quote target ++ "."

abbrev pub agent_prompt : String → String → String
agent_prompt name description =
    "You are agent " ++ name ++ " — " ++ description
    ++ ".\nCollaborate with the other agents in the swarm. Use the available tools when helpful."

abbrev pub peer_line : String → Option String → String
peer_line target none = "\n  - " ++ target
peer_line target (some description) =
    "\n  - " ++ target ++ (if description == "" then "" else ": " ++ description)

abbrev pub followed_by : String → String → String
followed_by a b = a ++ b

abbrev pub with_peers : String → String → String
with_peers body peers =
    body ++ "\n\nYou may hand off to:" ++ peers
    ++ "\n\nTo hand off, call the corresponding handoff_to_<name> tool. Once you hand off you cannot speak again until you are handed back to."

-- `handoffSchema`.
abbrev pub handoff_schema : String
handoff_schema =
    "{\n  \"type\": \"object\",\n  \"properties\": {\n    \"task\": {\n      \"type\": \"string\",\n      \"description\": \"Optional brief description of what the receiving agent should do next.\"\n    }\n  },\n  \"additionalProperties\": false\n}"
