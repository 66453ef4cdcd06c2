-- ===== src/Council/Supervisor.antt =====
-- pkg/council/supervisor.go: a model that routes a request to workers until it answers. `X` holds the
-- errors and panic values of the provider and the workers; a worker is a function that acts on a world.
pub mod Payload
pub mod Build
pub mod Setup
pub mod Turns
pub mod Ends
pub mod Answer
mod Tests
use mathlib.Core.Option
use galdor.Prelude.{
  ℕ, ◌+◌, ℤ, String, Bool, true, false, not, ◌&&◌, ◌||◌, Option, none, some, List, [], ◌∷◌, ◌++◌,
  Result, ok, err, contains, is_some, ◌==◌, if◌then◌else◌, leb, map,
}
use galdor.Fences.{json_body}
use galdor.Schema.{Message, text, system_message, user_message}
use galdor.Provider.{Provider, Request, Reply, replied, refused, crashed, unset}
use galdor.Graph.Core.{
  start_node, end_node, NodeFunc, Outcome, returned, failed, panicked, Router, routed, RunErr,
}
use galdor.Graph.Builder.{Problem}
use galdor.Graph.Run.{positive_or}
use galdor.Council.Names.{is_safe_worker_name}
use galdor.Council.Supervisor.Payload.{
  WorkerInvocation, supervisor_trap_node, default_supervisor_prompt, build_supervisor_payload,
}

pub record Worker (Ctx W X : Type 0) : Type 0 where
  pub name : String
  pub description : String
  pub run : Option (Ctx → String → W → Reply X String × W)

pub record SupervisorConfig (Ctx W X : Type 0) : Type 0 where
  pub provider : Option (Provider Ctx W X)
  pub model : String
  pub workers : List (Worker Ctx W X)
  pub max_hops : ℤ
  pub system_prompt : String

pub record SupervisorState : Type 0 where
  pub input : String
  pub history : List WorkerInvocation
  pub final : String
  pub hops : ℕ
  pub next : String
  pub next_task : String

-- `supervisorDecision`.
pub record Decision : Type 0 where
  pub worker : String
  pub task : String
  pub final : String

-- fmt's `%q` and `%d`, and `json.Unmarshal` into a `supervisorDecision`.
pub record Services : Type 0 where
  pub quote : String → String
  pub decimal : ℕ → String
  pub decode_decision : String → Option Decision

pub data DecisionErr : Type 0 where
  empty_response not_an_object neither_worker_nor_final : DecisionErr

pub data SupervisorErr (X : Type 0) : Type 0 where
  model_failed : X → SupervisorErr X
  bad_decision : DecisionErr → SupervisorErr X
  unknown_worker : String → SupervisorErr X
  worker_failed : String → X → SupervisorErr X
  max_hops_exceeded : ℕ → SupervisorErr X
  raised : X → SupervisorErr X
  nil_run : SupervisorErr X

pub data ConfigErr : Type 0 where
  provider_required model_required no_workers empty_name : ConfigErr
  unsafe_name reserved_name nil_worker duplicate_worker : String → ConfigErr

pub data NewErr : Type 0 where
  invalid : ConfigErr → NewErr
  not_compiled : List Problem → NewErr

-- The errors of `RunSupervisor`.
pub data OnceErr (X : Type 0) : Type 0 where
  not_built : NewErr → OnceErr X
  not_finished : RunErr (SupervisorErr X) → OnceErr X

abbrev pub unfinished_if : {X : Type 0} → Option (RunErr (SupervisorErr X)) → Option (OnceErr X)
unfinished_if none = none
unfinished_if (some e) = some (not_finished e)

module _ {Ctx W X : Type 0} where
  -- The checks of one worker, against the names before it.
  unfoldable pub check_worker : Worker Ctx W X → List String → Option ConfigErr
  check_worker w seen =
      if w.name == ""
      then some empty_name
      else if not (is_safe_worker_name w.name)
      then some (unsafe_name w.name)
      else if w.name == start_node
          || (w.name == end_node || (w.name == "supervisor" || w.name == supervisor_trap_node))
      then some (reserved_name w.name)
      else if not (is_some w.run)
      then some (nil_worker w.name)
      else if contains w.name seen
      then some (duplicate_worker w.name)
      else none

  -- The names of the workers, `seen`.
  unfoldable pub check_workers :
      List (Worker Ctx W X) → List String → Result ConfigErr (List String)
  unfolding check_worker
  check_workers [] seen = ok seen
  check_workers (w ∷ ws) seen = elim (check_worker w seen) [
    | some e ↦ err e
    | none ↦ check_workers ws (w.name ∷ seen)
  ]

  abbrev pub hop_limit : SupervisorConfig Ctx W X → ℕ
  hop_limit cfg = positive_or cfg.max_hops 8

  abbrev pub prompt_of : SupervisorConfig Ctx W X → String
  prompt_of cfg = if cfg.system_prompt == "" then default_supervisor_prompt else cfg.system_prompt

  abbrev pub described : List (Worker Ctx W X) → List (String × String)
  described [] = []
  described (w ∷ ws) = (w.name, w.description) ∷ described ws

abbrev pub decided : Option Decision → Result DecisionErr Decision
decided none = err not_an_object
decided (some d) = if d.final == "" && d.worker == "" then err neither_worker_nor_final else ok d

-- `supervisorTrap`.
abbrev pub supervisor_trap : {Ctx W X : Type 0} → NodeFunc SupervisorState Ctx W (SupervisorErr X)
supervisor_trap ctx s w = (failed s (max_hops_exceeded s.hops), w)

unfoldable pub supervisor_route : ℕ → SupervisorState → String
supervisor_route max_hops s =
    if not (s.final == "")
    then end_node
    else if leb max_hops s.hops
    then supervisor_trap_node
    else if s.next == ""
    then end_node
    else s.next

abbrev pub supervisor_router : {X : Type 0} → ℕ → Router SupervisorState (SupervisorErr X)
supervisor_router max_hops s = routed (supervisor_route max_hops s)

module _ (sv : Services) where
  -- `parseSupervisorDecision`.
  unfoldable pub parse_decision : String → Result DecisionErr Decision
  parse_decision raw =
      let body = json_body b'{' b'}' raw in
      if body == "" then err empty_response else decided (sv.decode_decision body)

  module _ {Ctx W X : Type 0} (cfg : SupervisorConfig Ctx W X) (seen : List String) where
    abbrev pub supervisor_request : SupervisorState → Request
    supervisor_request s = record {
      model = cfg.model;
      messages =
          system_message (prompt_of cfg)
          ∷ user_message (
              build_supervisor_payload sv.quote sv.decimal s.input s.history
                (described cfg.workers))
          ∷ [];
      tools = [];
      tool_choice = unset;
    }

    abbrev pub after_decision :
        SupervisorState → Result DecisionErr Decision → Outcome (SupervisorErr X) SupervisorState
    after_decision s (err e) = failed s (bad_decision e)
    after_decision s (ok d) =
        if not (d.final == "")
        then returned (record s { final = d.final; next = ""; next_task = "" })
        else if not (contains d.worker seen)
        then failed s (unknown_worker d.worker)
        else returned (record s { next = d.worker; next_task = d.task })

    abbrev pub after_generate :
        SupervisorState → Reply X Message × W → Outcome (SupervisorErr X) SupervisorState × W
    after_generate s (refused x, w) = (failed s (model_failed x), w)
    after_generate s (crashed x, w) = (panicked (raised x), w)
    after_generate s (replied m, w) = (after_decision s (parse_decision (text m)), w)

    -- `supervisorNode`, with this provider.
    unfoldable pub supervisor_node :
        Provider Ctx W X → NodeFunc SupervisorState Ctx W (SupervisorErr X)
    unfolding parse_decision
    supervisor_node p ctx s w =
        let counted : SupervisorState = record s { hops = s.hops + 1 } in
        after_generate counted (p.generate ctx (supervisor_request counted) w)

abbrev pub after_worker :
    {W X : Type 0}
    → String
    → SupervisorState
    → Reply X String × W
    → Outcome (SupervisorErr X) SupervisorState × W
after_worker name s (refused x, w) = (failed s (worker_failed name x), w)
after_worker name s (crashed x, w) = (panicked (raised x), w)
after_worker name s (replied out, w) = (
  returned (record s {
    history = s.history ++ record { worker = name; task = s.next_task; output = out } ∷ [];
    next = "";
    next_task = "";
  }),
  w,
)

module _ {Ctx W X : Type 0} where
  -- The node of a worker; a nil function panics.
  abbrev pub run_worker :
      String
      → Option (Ctx → String → W → Reply X String × W)
      → NodeFunc SupervisorState Ctx W (SupervisorErr X)
  run_worker name none ctx s w = (panicked nil_run, w)
  run_worker name (some run) ctx s w = after_worker name s (run ctx s.next_task w)

  abbrev pub worker_node : Worker Ctx W X → NodeFunc SupervisorState Ctx W (SupervisorErr X)
  worker_node a = run_worker a.name a.run
