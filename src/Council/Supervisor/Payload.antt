-- ===== src/Council/Supervisor/Payload.antt =====
-- The texts of pkg/council/supervisor.go. `quote` is fmt's `%q` and `decimal` its `%d`.
use Prim.Native.String.{◌++◌}
use galdor.Prelude.{ℕ, ◌+◌, String, List, [], ◌∷◌}

-- One row of the history.
pub record WorkerInvocation : Type 0 where
  pub worker : String
  pub task : String
  pub output : String

abbrev pub supervisor_trap_node : String
supervisor_trap_node = "__supervisor_trap__"

-- `defaultSupervisorPrompt`.
abbrev pub default_supervisor_prompt : String
default_supervisor_prompt =
    "You are a routing supervisor coordinating specialized workers.\n\nEach turn, decide one of:\n1. Delegate to a worker: respond with {\"worker\": \"name\", \"task\": \"what to do\"}.\n   The worker's answer will come back to you next turn.\n2. Finish: respond with {\"final\": \"your final answer to the user\"}.\n\nPick the worker whose Description best matches the next step. Keep \"task\"\nshort and specific — the worker only sees that string, not the full history.\nIf the user's request is fully addressed, finish.\n\nRespond with ONLY a JSON object. No prose, no markdown, no code fences."

-- The names and descriptions of the workers.
unfoldable pub worker_lines : List (String × String) → String
worker_lines [] = ""
worker_lines ((name, description) ∷ ws) =
    "  - " ++ name ++ ": " ++ description ++ "\n" ++ worker_lines ws

unfoldable pub history_lines : (String → String) → (ℕ → String) → ℕ → List WorkerInvocation → String
history_lines quote decimal i [] = ""
history_lines quote decimal i (h ∷ hs) =
    "  "
    ++ decimal (i + 1)
    ++ ". ["
    ++ h.worker
    ++ "] task="
    ++ quote h.task
    ++ " -> "
    ++ h.output
    ++ "\n"
    ++ history_lines quote decimal (i + 1) hs

abbrev pub history_text : (String → String) → (ℕ → String) → List WorkerInvocation → String
history_text quote decimal [] = "  (none)\n"
history_text quote decimal (h ∷ hs) = history_lines quote decimal 0 (h ∷ hs)

-- `buildSupervisorPayload`, for the names and descriptions of the workers.
unfoldable pub build_supervisor_payload :
    (String → String)
    → (ℕ → String)
    → String
    → List WorkerInvocation
    → List (String × String)
    → String
unfolding worker_lines history_lines
build_supervisor_payload quote decimal input history workers =
    "Workers available:\n"
    ++ worker_lines workers
    ++ "\nUser request:\n"
    ++ input
    ++ "\n\nWork completed so far:\n"
    ++ history_text quote decimal history
