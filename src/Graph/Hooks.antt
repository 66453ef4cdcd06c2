-- ===== src/Graph/Hooks.antt =====
-- pkg/graph/hooks.go: the four lifecycle callbacks, contained by `recover`, and `MergeHooks`. Also
-- `safeCallNode` of panic.go and `logPanicIfAny` of runnable.go.
pub mod Merge
use galdor.Prelude.{
  ℤ, String, Bool, not, ◌||◌, Option, none, some, List, [], ◌∷◌, if◌then◌else◌, is_some,
}
use galdor.Graph.Core.{
  NodeFunc, Outcome, returned, failed, panicked, NodeErr, node_error, node_panic, RunErr, HookEnd,
  hook_returned, hook_panicked, Hooks, LogLine, hook_panic, recovered_node_panic,
}

module _ {W X : Type 0} where
  -- A nil logger swallows the line.
  unfoldable pub log : Option (LogLine X → W → W) → LogLine X → W → W
  log none line w = w
  log (some logger) line w = logger line w

  abbrev pub contain : Option (LogLine X → W → W) → (X → LogLine X) → HookEnd X Unit → W → W
  contain logger line (hook_returned u) w = w
  contain logger line (hook_panicked x) w = log logger (line x) w

  abbrev pub log_wrapped : Option (LogLine X → W → W) → String → String → ℤ → Option X → W → W
  log_wrapped logger run_id node step none w = w
  log_wrapped logger run_id node step (some x) w =
      log logger (recovered_node_panic run_id node step x) w

  -- `wrapped_panic` is `errors.As` on a node's error: the value of a panic that it wraps.
  unfoldable pub log_panic_if_any :
      (X → Option X) → Option (LogLine X → W → W) → String → String → ℤ → NodeErr X → W → W
  unfolding log
  log_panic_if_any wrapped_panic logger run_id node step (node_error x) w =
      log_wrapped logger run_id node step (wrapped_panic x) w
  log_panic_if_any wrapped_panic logger run_id node step (node_panic x) w =
      log logger (recovered_node_panic run_id node step x) w

module _ {Ctx W X : Type 0} where
  -- `recoverHook`, and the context that stays in place on a panic or a nil answer.
  abbrev pub keep_context :
      Option (LogLine X → W → W) → (X → LogLine X) → Ctx → HookEnd X (Option Ctx) → W → Ctx × W
  keep_context logger line ctx (hook_returned none) w = (ctx, w)
  keep_context logger line ctx (hook_returned (some next)) w = (next, w)
  keep_context logger line ctx (hook_panicked x) w = (ctx, log logger (line x) w)

module _ {S W X : Type 0} where
  -- `safeCallNode`: on a panic the state that went in comes out.
  abbrev pub node_end : S → Outcome X S → W → (S × Option (NodeErr X)) × W
  node_end state (returned out) w = ((out, none), w)
  node_end state (failed out x) w = ((out, some (node_error x)), w)
  node_end state (panicked x) w = ((state, some (node_panic x)), w)

module _ {S Ctx W X : Type 0} where
  unfoldable pub safe_call_node : NodeFunc S Ctx W X → Ctx → S → W → (S × Option (NodeErr X)) × W
  safe_call_node fn ctx state w = let (o, w') = fn ctx state w in node_end state o w'

  unfoldable pub run_before :
      Hooks S Ctx W X → Option (LogLine X → W → W) → Ctx → String → S → W → Ctx × W
  unfolding log
  run_before h logger ctx run_id initial w = elim h.before_run [
    | none ↦ (ctx, w)
    | some f ↦
        let (e, w') = f (some ctx) run_id initial w in
        keep_context logger (hook_panic "BeforeRun" run_id "") ctx e w'
  ]

  unfoldable pub run_after :
      Hooks S Ctx W X → Option (LogLine X → W → W) → Ctx → String → S → Option (RunErr X) → W → W
  unfolding log
  run_after h logger ctx run_id final e w = elim h.after_run [
    | none ↦ w
    | some f ↦
        let (end, w') = f ctx run_id final e w in
        contain logger (hook_panic "AfterRun" run_id "") end w'
  ]

  unfoldable pub node_before :
      Hooks S Ctx W X → Option (LogLine X → W → W) → Ctx → String → String → ℤ → S → W → Ctx × W
  unfolding log
  node_before h logger ctx run_id node step state w = elim h.before_node [
    | none ↦ (ctx, w)
    | some f ↦
        let (e, w') = f (some ctx) run_id node step state w in
        keep_context logger (hook_panic "BeforeNode" run_id node) ctx e w'
  ]

  unfoldable pub node_after :
      Hooks S Ctx W X
      → Option (LogLine X → W → W)
      → Ctx
      → String
      → String
      → ℤ
      → S
      → Option (NodeErr X)
      → W
      → W
  unfolding log
  node_after h logger ctx run_id node step state e w = elim h.after_node [
    | none ↦ w
    | some f ↦
        let (end, w') = f ctx run_id node step state e w in
        contain logger (hook_panic "AfterNode" run_id node) end w'
  ]

  abbrev pub no_hooks : Hooks S Ctx W X
  no_hooks = record { before_run = none; after_run = none; before_node = none; after_node = none }

  unfoldable pub is_zero : Hooks S Ctx W X → Bool
  is_zero h =
      not (
        is_some h.before_run
        || is_some h.after_run
        || is_some h.before_node
        || is_some h.after_node)

  unfoldable pub non_empty_hooks : List (Hooks S Ctx W X) → List (Hooks S Ctx W X)
  non_empty_hooks [] = []
  non_empty_hooks (h ∷ hs) = let rest = non_empty_hooks hs in if is_zero h then rest else h ∷ rest

  -- The closures of `MergeHooks`. A panic leaves the loop and reaches the `recover` around the
  -- merged hook. The context that a hook returns is passed on as it is, nil included.
  unfoldable pub merged_before_run :
      List (Hooks S Ctx W X) → Option Ctx → String → S → W → HookEnd X (Option Ctx) × W
  merged_before_run [] ctx run_id initial w = (hook_returned ctx, w)
  merged_before_run (h ∷ hs) ctx run_id initial w = elim h.before_run [
    | none ↦ merged_before_run hs ctx run_id initial w
    | some f ↦
        let (e, w') = f ctx run_id initial w in
        elim e [
          | hook_returned next ↦ merged_before_run hs next run_id initial w'
          | hook_panicked x ↦ (hook_panicked x, w')
        ]
  ]

  unfoldable pub merged_after_run :
      List (Hooks S Ctx W X) → Ctx → String → S → Option (RunErr X) → W → HookEnd X Unit × W
  merged_after_run [] ctx run_id final err w = (hook_returned tt, w)
  merged_after_run (h ∷ hs) ctx run_id final err w = elim h.after_run [
    | none ↦ merged_after_run hs ctx run_id final err w
    | some f ↦
        let (e, w') = f ctx run_id final err w in
        elim e [
          | hook_returned u ↦ merged_after_run hs ctx run_id final err w'
          | hook_panicked x ↦ (hook_panicked x, w')
        ]
  ]

  unfoldable pub merged_before_node :
      List (Hooks S Ctx W X) → Option Ctx → String → String → ℤ → S → W → HookEnd X (Option Ctx) × W
  merged_before_node [] ctx run_id node step state w = (hook_returned ctx, w)
  merged_before_node (h ∷ hs) ctx run_id node step state w = elim h.before_node [
    | none ↦ merged_before_node hs ctx run_id node step state w
    | some f ↦
        let (e, w') = f ctx run_id node step state w in
        elim e [
          | hook_returned next ↦ merged_before_node hs next run_id node step state w'
          | hook_panicked x ↦ (hook_panicked x, w')
        ]
  ]

  unfoldable pub merged_after_node :
      List (Hooks S Ctx W X)
      → Ctx
      → String
      → String
      → ℤ
      → S
      → Option (NodeErr X)
      → W
      → HookEnd X Unit × W
  merged_after_node [] ctx run_id node step state err w = (hook_returned tt, w)
  merged_after_node (h ∷ hs) ctx run_id node step state err w = elim h.after_node [
    | none ↦ merged_after_node hs ctx run_id node step state err w
    | some f ↦
        let (e, w') = f ctx run_id node step state err w in
        elim e [
          | hook_returned u ↦ merged_after_node hs ctx run_id node step state err w'
          | hook_panicked x ↦ (hook_panicked x, w')
        ]
  ]

  abbrev pub merge_non_empty : List (Hooks S Ctx W X) → Hooks S Ctx W X
  merge_non_empty [] = no_hooks
  merge_non_empty (h ∷ []) = h
  merge_non_empty (h ∷ k ∷ hs) = record {
    before_run = some (merged_before_run (h ∷ k ∷ hs));
    after_run = some (merged_after_run (h ∷ k ∷ hs));
    before_node = some (merged_before_node (h ∷ k ∷ hs));
    after_node = some (merged_after_node (h ∷ k ∷ hs));
  }

  unfoldable pub merge_hooks : List (Hooks S Ctx W X) → Hooks S Ctx W X
  unfolding non_empty_hooks is_zero
  merge_hooks hs = merge_non_empty (non_empty_hooks hs)
