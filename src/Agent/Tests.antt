-- ===== src/Agent/Tests.antt =====
-- Runs of the agent of pkg/agent/react.go with one tool. The world counts the calls of the provider:
-- the first reply asks for the tool, the next one answers.
use galdor.Prelude.{
  arith, ℕ, zero, suc, pos, String, true, false, Option, none, some, List, [], ◌∷◌, ok, ◌≡◌, refl,
  ap, sym, subst, ◌∙◌,
}
use galdor.Schema.{Message, ToolDef, assistant, text_message, is_assistant}
use galdor.Provider.{Provider, Reply, replied}
use galdor.Tool.{Tool, Registry}
use galdor.Graph.Core.{Env}
use galdor.Agent.{Config, Services, AgentErr, iteration_cap}
use galdor.Agent.Shape.{Agent, react_runnable}
use galdor.Agent.Answer.{AnswersAssistant}
use galdor.Agent.Once.{run, IsRun, run-IsAnswer, OnceErr}

abbrev echo : Tool Unit ℕ Unit
echo = record {
  name = "echo";
  description = "";
  schema = ok "{}";
  execute_json = λ ctx args w. (replied args, w);
}

abbrev registry : Registry Unit ℕ Unit
registry = record { tools = ("echo", echo) ∷ [] }

abbrev asking : Message
asking = record (text_message assistant "") {
  tool_calls = record { id = "a"; name = "echo"; arguments = "1"; signature = "" } ∷ [];
}

abbrev answering : ℕ → Message
answering zero = asking
answering (suc n) = text_message assistant "done"

abbrev provider : Provider Unit ℕ Unit
provider = record {
  name = "p";
  tool_calling = true;
  generate = λ ctx q w. (replied (answering w), suc w);
}

abbrev services : Services Unit ℕ Unit
services = record {
  ctx_err = λ ctx w. (none, w);
  is_eval_failed = λ x. false;
  messages_digest = λ ms. "digest";
  error_text = λ e. "error";
}

abbrev config : Config Unit ℕ Unit
config = record {
  provider = some provider;
  tools = some registry;
  model = "m";
  max_iterations = pos 3;
  force_tool_use = false;
  input_guards = [];
  output_guards = [];
}

abbrev env : Env Unit ℕ (AgentErr Unit)
env = record {
  ctx_err = λ ctx w. (none, w);
  is_deadline_exceeded = λ x. false;
  wrapped_panic = λ x. none;
  with_timeout = λ limit ctx w. (ctx, w);
  cancel = λ ctx w. w;
  now = λ w. (0, w);
}

abbrev defs : List ToolDef
defs = record { name = "echo"; description = ""; schema = "{}" } ∷ []

abbrev agent : Agent services config
agent = react_runnable services config true provider defs

assistant_role : (n : ℕ) → is_assistant (answering n).role ≡ true
assistant_role zero = refl
assistant_role (suc n) = refl

answers_as_assistant : AnswersAssistant config
answers_as_assistant p given ctx q w m h =
    let same : (p.generate ctx q w).0 ≡ replied (answering w) =
      ap (λ (k : Provider Unit ℕ Unit). (k.generate ctx q w).0) (some_inv given) in
    subst (λ (k : Message). is_assistant k.role ≡ true) (replied_inv (sym same ∙ h))
      (assistant_role w)
  where
    some_inv : some provider ≡ some p → p ≡ provider
    some_inv e = cc e

    replied_inv : ◌≡◌ {A = Reply Unit Message} (replied (answering w)) (replied m) → answering w ≡ m
    replied_inv e = cc e

run-IsAnswer_example :
    (a : String × Option (OnceErr Unit)) × (w' : ℕ) × (run services config env tt "hi" [] 0
      ≡ some (a, w'))
    × IsRun services config env tt "hi" [] 0 a w'
unfolding iteration_cap
run-IsAnswer_example =
    run-IsAnswer services config env tt "hi" [] 0 answers_as_assistant (omega arith)
