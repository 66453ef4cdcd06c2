-- ===== src/Graph/Checkpoint.antt =====
-- pkg/graph/checkpoint.go: `MemoryCheckpointer`. `clone` stands for `cloneState`, which copies a
-- state by its own `Clone` method or by a gob round trip, and may refuse it. The mutex makes each
-- method one step.
pub mod History
use galdor.Prelude.{
  Result, ok, err, ℕ, ◌-◌, ℤ, pos, negsuc, ltb, ◌&&◌, String, Option, none, some, List, [], ◌∷◌,
  ◌++◌, if◌then◌else◌, Assoc, lookup, insert, remove, length, drop, get_last?,
}
use galdor.Graph.Core.{Checkpoint, Checkpointer, Loaded, not_found, found}

pub record MemoryCheckpointer (S : Type 0) : Type 0 where
  pub history : Assoc (List (Checkpoint S))
  pub limit : ℕ

abbrev pub clamp : ℤ → ℕ
clamp (pos n) = n
clamp (negsuc n) = 0

module _ {S : Type 0} where
  unfoldable pub new_memory_checkpointer : MemoryCheckpointer S
  new_memory_checkpointer = record { history = []; limit = 0 }

  unfoldable pub new_memory_checkpointer_with_limit : ℤ → MemoryCheckpointer S
  new_memory_checkpointer_with_limit limit = record { history = []; limit = clamp limit }

  abbrev pub or_empty : Option (List (Checkpoint S)) → List (Checkpoint S)
  or_empty none = []
  or_empty (some h) = h

  -- `History`: the saved checkpoints of a run, oldest first.
  unfoldable pub history_of : String → MemoryCheckpointer S → List (Checkpoint S)
  history_of run_id m = or_empty (lookup run_id m.history)

  -- The most recent `limit` checkpoints, if there is a limit.
  unfoldable pub trim : ℕ → List (Checkpoint S) → List (Checkpoint S)
  trim limit h = if ltb 0 limit && ltb limit (length h) then drop (length h - limit) h else h

  unfoldable pub save :
      {X : Type 0}
      → (S → Result X S)
      → Checkpoint S
      → MemoryCheckpointer S
      → Option X × MemoryCheckpointer S
  unfolding trim history_of
  save clone ck m = elim (clone ck.state) [
    | err x ↦ (some x, m)
    | ok cloned ↦ (
      none,
      record m {
        history =
            insert ck.run_id
              (trim m.limit (history_of ck.run_id m ++ record ck { state = cloned } ∷ []))
              m.history;
      },
    )
  ]

  abbrev pub last_saved : {X : Type 0} → Option (Checkpoint S) → Loaded S X
  last_saved none = not_found
  last_saved (some ck) = found ck

  unfoldable pub load : {X : Type 0} → String → MemoryCheckpointer S → Loaded S X
  unfolding history_of
  load run_id m = last_saved (get_last? (history_of run_id m))

  unfoldable pub reset : String → MemoryCheckpointer S → MemoryCheckpointer S
  reset run_id m = record m { history = remove run_id m.history }

-- The store as the `Checkpointer` of a world that holds it beside all else.
module _ {S V X : Type 0} where
  unfoldable pub memory_checkpointer :
      (S → Result X S) → Checkpointer S (MemoryCheckpointer S × V) X
  memory_checkpointer clone = record {
    save = λ ck w. let (e, m) = save clone ck w.0 in (e, (m, w.1));
    load = λ run_id w. (load run_id w.0, w);
  }
