-- ===== src/Council/Supervisor/Build.antt =====
-- `NewSupervisor` and `RunSupervisor` of pkg/council/supervisor.go.
use mathlib.Core.Option
use galdor.Prelude.{
  wrap_int, is_empty, ℕ, ◌+◌, ◌*◌, ◌==◌, String, Option, none, some, List, [], ◌∷◌, Result, ok, err,
  if◌then◌else◌,
}
use galdor.Provider.{Provider}
use galdor.Graph.Core.{start_node, end_node, NodeFunc, Router, Runnable, Env}
use galdor.Graph.Builder.{Call, call_add_node, call_add_edge, call_add_conditional_edge, build, new}
use galdor.Graph.Compile.{compile, Compiled, compiled, rejected}
use galdor.Graph.Run.{Final, invoke_with, no_options}
use galdor.Council.Supervisor.Payload.{supervisor_trap_node}
use galdor.Council.Supervisor.{
  ConfigErr, Worker, SupervisorConfig, SupervisorState, SupervisorErr, Services, NewErr, OnceErr,
  invalid, not_compiled, provider_required, model_required, no_workers, not_built, unfinished_if,
  check_workers, hop_limit, supervisor_node, supervisor_router, supervisor_trap, worker_node,
}

abbrev pub SupervisorCall : (Ctx W X : Type 0) → Type 0
SupervisorCall Ctx W X =
    Call (NodeFunc SupervisorState Ctx W (SupervisorErr X))
      (Router SupervisorState (SupervisorErr X))

abbrev pub Supervisor : (Ctx W X : Type 0) → Type 0
Supervisor Ctx W X =
    Runnable (NodeFunc SupervisorState Ctx W (SupervisorErr X))
      (Router SupervisorState (SupervisorErr X))

-- The state that a request starts from.
abbrev pub asked : String → SupervisorState
asked input = record {
  input = input;
  history = [];
  final = "";
  hops = 0;
  next = "";
  next_task = "";
}

-- The result of a run that ended.
abbrev pub supervisor_answer :
    {W X : Type 0} → Final SupervisorState (SupervisorErr X) × W → (String × Option (OnceErr X)) × W
supervisor_answer (f, w) = ((f.state.final, unfinished_if f.error), w)

module _ {Ctx W X : Type 0} where
  unfoldable pub worker_calls : List (Worker Ctx W X) → List (SupervisorCall Ctx W X)
  worker_calls [] = []
  worker_calls (a ∷ others) =
      call_add_node a.name (some (worker_node a))
      ∷ call_add_edge a.name "supervisor"
      ∷ worker_calls others

  abbrev pub with_steps :
      ℕ
      → Compiled
          (NodeFunc SupervisorState Ctx W (SupervisorErr X))
          (Router SupervisorState (SupervisorErr X))
      → Result NewErr (Supervisor Ctx W X)
  with_steps max_hops (rejected ps) = err (not_compiled ps)
  with_steps max_hops (compiled r) = ok (record r { max_steps = wrap_int (max_hops * 3 + 4) })

  abbrev pub run_built :
      Env Ctx W (SupervisorErr X)
      → Ctx
      → String
      → W
      → Result NewErr (Supervisor Ctx W X)
      → Option ((String × Option (OnceErr X)) × W)
  run_built env ctx input w (err e) = some (("", some (not_built e)), w)
  run_built env ctx input w (ok r) =
      Option.map supervisor_answer (invoke_with env r no_options ctx (asked input) w)

module _ {Ctx W X : Type 0} (sv : Services) (cfg : SupervisorConfig Ctx W X) where
  -- The chain of builder calls.
  unfoldable pub supervisor_calls : Provider Ctx W X → List String → List (SupervisorCall Ctx W X)
  unfolding worker_calls
  supervisor_calls p seen =
      call_add_node "supervisor" (some (supervisor_node sv cfg seen p))
      ∷ call_add_node supervisor_trap_node (some supervisor_trap)
      ∷ call_add_edge supervisor_trap_node end_node
      ∷ call_add_edge start_node "supervisor"
      ∷ call_add_conditional_edge "supervisor" (some (supervisor_router (hop_limit cfg)))
      ∷ worker_calls cfg.workers

  abbrev pub build_supervisor :
      Provider Ctx W X → Result ConfigErr (List String) → Result NewErr (Supervisor Ctx W X)
  build_supervisor p (err e) = err (invalid e)
  build_supervisor p (ok seen) =
      with_steps (hop_limit cfg) (compile (build (supervisor_calls p seen) new))

  abbrev pub with_provider : Option (Provider Ctx W X) → Result NewErr (Supervisor Ctx W X)
  with_provider none = err (invalid provider_required)
  with_provider (some p) =
      if cfg.model == ""
      then err (invalid model_required)
      else if is_empty cfg.workers
      then err (invalid no_workers)
      else build_supervisor p (check_workers cfg.workers [])

  unfoldable pub new_supervisor : Result NewErr (Supervisor Ctx W X)
  unfolding check_workers supervisor_calls
  new_supervisor = with_provider cfg.provider

  -- `RunSupervisor`.
  unfoldable pub run_supervisor :
      Env Ctx W (SupervisorErr X) → Ctx → String → W → Option ((String × Option (OnceErr X)) × W)
  unfolding new_supervisor
  run_supervisor env ctx input w = run_built env ctx input w new_supervisor
