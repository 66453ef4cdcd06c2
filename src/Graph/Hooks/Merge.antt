-- ===== src/Graph/Hooks/Merge.antt =====
-- `MergeHooks` of pkg/graph/hooks.go against calling the hooks one after the other.
use galdor.Prelude.{
  true, Bool-cases, String, Option, none, some, Option-cases, List, [], ◌∷◌, All, ◌≡◌, inl, inr,
  refl, ap, ◌∙◌, arith,
}
use galdor.Graph.Core.{HookEnd, hook_returned, hook_panic, Hooks, LogLine}
use galdor.Graph.Hooks.{
  keep_context, run_before, is_zero, non_empty_hooks, merged_before_run, merge_non_empty,
  merge_hooks,
}

module _ {S Ctx W X : Type 0} where
  -- The BeforeRun hooks of a list, each one called and contained by itself.
  abbrev pub run_before_each :
      List (Hooks S Ctx W X) → Option (LogLine X → W → W) → Ctx → String → S → W → Ctx × W
  run_before_each [] logger ctx run_id initial w = (ctx, w)
  run_before_each (h ∷ hs) logger ctx run_id initial w =
      let (ctx', w') = run_before h logger ctx run_id initial w in
      run_before_each hs logger ctx' run_id initial w'

  -- A BeforeRun hook that neither panics nor answers nil.
  abbrev pub Answers : Hooks S Ctx W X → Type 0
  Answers h =
      (f : Option Ctx → String → S → W → HookEnd X (Option Ctx) × W)
      → h.before_run ≡ some f
      → (ctx : Ctx) (run_id : String) (initial : S) (w : W)
      → (next : Ctx) × ((f (some ctx) run_id initial w).0 ≡ hook_returned (some next))

  merged-each :
      (hs : List (Hooks S Ctx W X)) (logger : Option (LogLine X → W → W)) (ctx : Ctx)
      (run_id : String) (initial : S) (w : W)
      → All Answers hs
      → (let (ctx', w') = run_before_each hs logger ctx run_id initial w in
          merged_before_run hs (some ctx) run_id initial w ≡ (hook_returned (some ctx'), w'))
  unfolding merged_before_run run_before
  merged-each [] logger ctx run_id initial w a = refl
  merged-each (h ∷ hs) logger ctx run_id initial w a = elim (Option-cases h.before_run) [
    | inl e ↦ rw (e, merged_before_run, run_before) (merged-each hs logger ctx run_id initial w a.1)
    | inr (f, e) ↦
        let (next, q) = a.0 f e ctx run_id initial w in
        simp (
          e,
          q,
          merged_before_run,
          run_before,
          run_before_each,
          merged-each hs logger next run_id initial (f (some ctx) run_id initial w).1 a.1,
        )
  ]

  zero-before_run : (h : Hooks S Ctx W X) → is_zero h ≡ true → h.before_run ≡ none
  unfolding is_zero
  zero-before_run h z = ground arith

  non_empty-each :
      (hs : List (Hooks S Ctx W X)) (logger : Option (LogLine X → W → W)) (ctx : Ctx)
      (run_id : String) (initial : S) (w : W)
      → run_before_each (non_empty_hooks hs) logger ctx run_id initial w
        ≡ run_before_each hs logger ctx run_id initial w
  unfolding non_empty_hooks run_before
  non_empty-each [] logger ctx run_id initial w = refl
  non_empty-each (h ∷ hs) logger ctx run_id initial w = elim (Bool-cases (is_zero h)) [
    | inl z ↦
        rw (z, non_empty_hooks, zero-before_run h z, run_before)
          (non_empty-each hs logger ctx run_id initial w)
    | inr z ↦ rw (z, non_empty_hooks) (non_empty-each hs logger _ run_id initial _)
  ]

  non_empty-All :
      (P : Hooks S Ctx W X → Type 0) (hs : List (Hooks S Ctx W X))
      → All P hs
      → All P (non_empty_hooks hs)
  unfolding non_empty_hooks
  non_empty-All P [] a = tt
  non_empty-All P (h ∷ hs) a = elim (Bool-cases (is_zero h)) [
    | inl z ↦ rw (z, non_empty_hooks) (non_empty-All P hs a.1)
    | inr z ↦ rw (z, non_empty_hooks) (a.0, non_empty-All P hs a.1)
  ]

  merge_non_empty-each :
      (hs : List (Hooks S Ctx W X)) (logger : Option (LogLine X → W → W)) (ctx : Ctx)
      (run_id : String) (initial : S) (w : W)
      → All Answers hs
      → run_before (merge_non_empty hs) logger ctx run_id initial w
        ≡ run_before_each hs logger ctx run_id initial w
  unfolding run_before
  merge_non_empty-each [] logger ctx run_id initial w a = refl
  merge_non_empty-each (h ∷ []) logger ctx run_id initial w a = refl
  merge_non_empty-each (h ∷ k ∷ hs) logger ctx run_id initial w a =
      ap (λ p. keep_context logger (hook_panic "BeforeRun" run_id "") ctx p.0 p.1)
        (merged-each (h ∷ k ∷ hs) logger ctx run_id initial w a)

  -- When no BeforeRun hook panics or answers nil, the merged hook gives the context and the world
  -- that the hooks give one after the other, each on the context of the one before it.
  pub merge_hooks-in-order :
      (hs : List (Hooks S Ctx W X)) (logger : Option (LogLine X → W → W)) (ctx : Ctx)
      (run_id : String) (initial : S) (w : W)
      → All Answers hs
      → run_before (merge_hooks hs) logger ctx run_id initial w
        ≡ run_before_each hs logger ctx run_id initial w
  unfolding merge_hooks
  merge_hooks-in-order hs logger ctx run_id initial w a =
      merge_non_empty-each (non_empty_hooks hs) logger ctx run_id initial w
        (non_empty-All Answers hs a)
      ∙ non_empty-each hs logger ctx run_id initial w
