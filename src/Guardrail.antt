-- ===== src/Guardrail.antt =====
-- pkg/guardrail/guardrail.go: guards that veto messages. `is_eval_failed` is `errors.Is` at
-- ErrEvalFailed. A guard that panics is not modelled.
use galdor.Prelude.{String, Bool, Option, none, some, List, [], ◌∷◌, if◌then◌else◌}
use galdor.Schema.{Message}

pub data Kind : Type 0 where
  deterministic llm : Kind

-- `InputGuard` and `OutputGuard`: `kind` is what `KindOf` finds.
pub record Guard (Ctx W X : Type 0) : Type 0 where
  pub name : String
  pub kind : Kind
  pub check : Ctx → Message → W → Option X × W

pub data GuardErr (X : Type 0) : Type 0 where
  block : String → Kind → X → GuardErr X
  eval_failed : String → X → GuardErr X

module _ {Ctx W X : Type 0} (is_eval_failed : X → Bool) where
  unfoldable pub wrap_guard_error : Guard Ctx W X → X → GuardErr X
  wrap_guard_error g x = if is_eval_failed x then eval_failed g.name x else block g.name g.kind x

  -- `CheckInput` and `CheckOutput`; a nil guard is `none`.
  unfoldable pub check_guards :
      List (Option (Guard Ctx W X)) → Ctx → Message → W → Option (GuardErr X) × W
  unfolding wrap_guard_error
  check_guards [] ctx m w = (none, w)
  check_guards (none ∷ gs) ctx m w = check_guards gs ctx m w
  check_guards (some g ∷ gs) ctx m w =
      let (e, w') = g.check ctx m w in
      elim e [ none ↦ check_guards gs ctx m w' | some x ↦ (some (wrap_guard_error g x), w') ]
