-- ===== src/Graph/Run/Saves.antt =====
-- How a checkpoint that is refused ends a run of pkg/graph/runnable.go.
use galdor.Prelude.{ℤ, String, Option, none, some, Option-cases, ◌≡◌, inl, inr}
use galdor.Graph.Core.{RunErr, save_failed, CheckpointReason, RunOptions, Env}
use galdor.Graph.Run.{as_save_failed, save_checkpoint}

as_save_failed-inv :
    {X : Type 0} (o : Option X) (e : RunErr X)
    → as_save_failed o ≡ some e
    → (x : X) × (save_failed x ≡ e)
as_save_failed-inv none e h = cc
as_save_failed-inv (some x) e h = (x, cc)

pub save_checkpoint-fails :
    {S Ctx W X : Type 0} (env : Env Ctx W X) (opts : RunOptions S Ctx W X) (step : ℤ)
    (node : String) (s : S) (reason : CheckpointReason) (w : W) (e : RunErr X)
    → (save_checkpoint env opts step node s reason w).0 ≡ some e
    → (x : X) × (save_failed x ≡ e)
unfolding save_checkpoint
save_checkpoint-fails env opts step node s reason w e h = elim (Option-cases opts.checkpointer) [
  | inl c ↦ cc (rw (c, save_checkpoint) at h)
  | inr (c, p) ↦ as_save_failed-inv _ e (rw (p, save_checkpoint) at h)
]
