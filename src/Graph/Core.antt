-- ===== src/Graph/Core.antt =====
-- pkg/graph: the names, the errors and the function types that its files share (graph.go,
-- errors.go, panic.go, the types of checkpoint.go, hooks.go and runnable.go), and what the package
-- takes from Go's context and time packages, as a parameter.
use galdor.Prelude.{ℕ, ℤ, String, Bool, Option, Assoc, List}

abbrev pub start_node : String
start_node = "__start__"

abbrev pub end_node : String
end_node = "__end__"

-- How a call of a user function that the runtime guards by `recover` ends. `X` holds the error
-- and panic values, which the package does not look into.
pub data Outcome (X A : Type 0) : Type 0 where
  returned : A → Outcome X A
  failed : A → X → Outcome X A
  panicked : X → Outcome X A

-- The error of `safeCallNode`: the node's own, or a `PanicError`.
pub data NodeErr (X : Type 0) : Type 0 where
  node_error : X → NodeErr X
  node_panic : X → NodeErr X

-- The error that ends a run, with the sentinel of errors.go that it wraps.
pub data RunErr (X : Type 0) : Type 0 where
  context_done : X → RunErr X
  timed_out : X → RunErr X
  max_steps_exceeded : ℕ → RunErr X
  unknown_node : String → Option String → RunErr X
  interrupted : String → RunErr X
  node_failed : String → NodeErr X → RunErr X
  save_failed : X → RunErr X
  load_failed : X → RunErr X
  router_panic : String → X → RunErr X
  empty_router_result : String → RunErr X
  unknown_branch_label : String → String → RunErr X
  no_outgoing_edge : String → RunErr X
  resume_missing_checkpointer : RunErr X
  resume_missing_run_id : RunErr X
  checkpointer_missing_run_id : RunErr X
  checkpoint_not_found : String → RunErr X

abbrev pub NodeFunc : (S Ctx W X : Type 0) → Type 0
NodeFunc S Ctx W X = Ctx → S → W → Outcome X S × W

-- A router returns a name or a label, or panics.
pub data Routed (X : Type 0) : Type 0 where
  routed : String → Routed X
  router_panicked : X → Routed X

abbrev pub Router : (S X : Type 0) → Type 0
Router S X = S → Routed X

-- The compiled graph over node bodies `N` and routers `R`.
pub record Runnable (N R : Type 0) : Type 0 where
  pub nodes : Assoc N
  pub static_edges : Assoc String
  pub conditional_edges : Assoc R
  pub branch_maps : Assoc (Assoc String)
  pub interrupt_before : List String
  pub entry : String
  pub max_steps : ℤ

pub data CheckpointReason : Type 0 where
  at_step at_interrupt at_end : CheckpointReason

pub record Checkpoint (S : Type 0) : Type 0 where
  pub run_id : String
  pub step : ℤ
  pub node : String
  pub state : S
  pub reason : CheckpointReason
  pub created_at : ℕ

-- What `Checkpointer.Load` answers.
pub data Loaded (S X : Type 0) : Type 0 where
  load_error : X → Loaded S X
  not_found : Loaded S X
  found : Checkpoint S → Loaded S X

-- The interface `Checkpointer`, without its context arguments; the world `W` holds its store.
pub record Checkpointer (S W X : Type 0) : Type 0 where
  pub save : Checkpoint S → W → Option X × W
  pub load : String → W → Loaded S X × W

-- A hook returns, or panics. A context that a hook gives back may be nil.
pub data HookEnd (X A : Type 0) : Type 0 where
  hook_returned : A → HookEnd X A
  hook_panicked : X → HookEnd X A

pub record Hooks (S Ctx W X : Type 0) : Type 0 where
  pub before_run : Option (Option Ctx → String → S → W → HookEnd X (Option Ctx) × W)
  pub after_run : Option (Ctx → String → S → Option (RunErr X) → W → HookEnd X Unit × W)
  pub before_node : Option (Option Ctx → String → String → ℤ → S → W → HookEnd X (Option Ctx) × W)
  pub after_node :
      Option (Ctx → String → String → ℤ → S → Option (NodeErr X) → W → HookEnd X Unit × W)

-- The lines that the runtime logs: a recovered panic of a hook or of a node.
pub data LogLine (X : Type 0) : Type 0 where
  hook_panic : String → String → String → X → LogLine X
  recovered_node_panic : String → String → ℤ → X → LogLine X

pub record RunOptions (S Ctx W X : Type 0) : Type 0 where
  pub checkpointer : Option (Checkpointer S W X)
  pub run_id : String
  pub max_steps : ℤ
  pub override_state : Option S
  pub hooks : Hooks S Ctx W X
  pub timeout : ℤ
  pub node_timeout : ℤ
  pub logger : Option (LogLine X → W → W)

-- The context and time packages: `ctx.Err()`, `errors.Is(err, context.DeadlineExceeded)`,
-- `context.WithTimeout` with its cancel function, and `time.Now()`.
pub record Env (Ctx W X : Type 0) : Type 0 where
  pub ctx_err : Ctx → W → Option X × W
  pub is_deadline_exceeded : X → Bool
  pub wrapped_panic : X → Option X
  pub with_timeout : ℤ → Ctx → W → Ctx × W
  pub cancel : Ctx → W → W
  pub now : W → ℕ × W
