-- ===== src/Memory/Store.antt =====
-- pkg/memory/inmem.go: `InMemoryStore`, a slice of chunks with an index by id, and the chunks of
-- types.go. `F` is the type of float32 values and `W` the world of the uuid package. A chunk is a value
-- here, so the copies of `cloneChunk` are the chunk itself. The mutex makes each operation atomic. A
-- write past the end of the slice, on which Go panics, is `none`.
pub mod Index
pub mod Find
pub mod Delete
pub mod Retrieve
pub mod Ranked
mod Tests
use galdor.Prelude.{
  ℕ, zero, suc, String, Bool, true, false, Option, none, some, List, [], ◌∷◌, ◌++◌, Result, ok, err,
  Assoc, lookup, insert, ◌==◌, if◌then◌else◌, length,
}

pub record Chunk (F : Type 0) : Type 0 where
  pub id : String
  pub document_id : String
  pub index : ℕ
  pub text : String
  pub embedding : List F
  pub metadata : Assoc String

pub record InMemoryStore (F : Type 0) : Type 0 where
  pub chunks : List (Chunk F)
  pub by_id : Assoc ℕ

pub data DeleteErr : Type 0 where
  empty_document_id : DeleteErr

-- `chunks[i]`.
unfoldable pub get_at : {A : Type 0} → ℕ → List A → Option A
get_at i [] = none
get_at zero (x ∷ xs) = some x
get_at (suc i) (x ∷ xs) = get_at i xs

abbrev pub after : {A : Type 0} → A → Option (List A) → Option (List A)
after x none = none
after x (some xs) = some (x ∷ xs)

-- `chunks[i] = y`.
unfoldable pub set_at : {A : Type 0} → ℕ → A → List A → Option (List A)
set_at i y [] = none
set_at zero y (x ∷ xs) = some (y ∷ xs)
set_at (suc i) y (x ∷ xs) = after x (set_at i y xs)

module _ {F : Type 0} where
  unfoldable pub new_in_memory_store : InMemoryStore F
  new_in_memory_store = record { chunks = []; by_id = [] }

  abbrev pub replaced : InMemoryStore F → Option (List (Chunk F)) → Option (InMemoryStore F)
  replaced s none = none
  replaced s (some cs) = some (record s { chunks = cs })

  abbrev pub place : Chunk F → InMemoryStore F → Option ℕ → Option (InMemoryStore F)
  place c s none =
      some (record { chunks = s.chunks ++ c ∷ []; by_id = insert c.id (length s.chunks) s.by_id })
  place c s (some i) = replaced s (set_at i c s.chunks)

  -- One round of the loop of `Add`, for a chunk with an id.
  unfoldable pub put : Chunk F → InMemoryStore F → Option (InMemoryStore F)
  unfolding set_at
  put c s = place c s (lookup c.id s.by_id)

  -- The loop of `Delete` over the chunks that are left.
  unfoldable pub keep_others : String → List (Chunk F) → InMemoryStore F → InMemoryStore F
  keep_others document_id [] kept = kept
  keep_others document_id (c ∷ cs) kept =
      if c.document_id == document_id
      then keep_others document_id cs kept
      else keep_others document_id cs (record {
        chunks = kept.chunks ++ c ∷ [];
        by_id = insert c.id (length kept.chunks) kept.by_id;
      })

  unfoldable pub delete : String → InMemoryStore F → Result DeleteErr (InMemoryStore F)
  unfolding keep_others
  delete document_id s =
      if document_id == ""
      then err empty_document_id
      else ok (keep_others document_id s.chunks (record { chunks = []; by_id = [] }))

  module _ {W : Type 0} (new_id : W → String × W) where
    abbrev pub with_id : Chunk F → W → Chunk F × W
    with_id c w =
        if c.id == "" then (let (id, w') = new_id w in (record c { id = id }, w')) else (c, w)

    abbrev pub then_add :
        (InMemoryStore F → W → Option (InMemoryStore F) × W)
        → Option (InMemoryStore F) × W
        → Option (InMemoryStore F) × W
    then_add next (none, w) = (none, w)
    then_add next (some s, w) = next s w

    -- `Add`.
    unfoldable pub add : List (Chunk F) → InMemoryStore F → W → Option (InMemoryStore F) × W
    unfolding put
    add [] s w = (some s, w)
    add (c ∷ cs) s w = let (c', w') = with_id c w in then_add (add cs) (put c' s, w')
