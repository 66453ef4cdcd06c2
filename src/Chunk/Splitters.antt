-- ===== src/Chunk/Splitters.antt =====
-- `Recursive` and `Sentence` of pkg/memory/chunk/chunk.go. A separator is its list of runes.
use galdor.Prelude.{
  Result, ok, err, ℕ, zero, suc, ℤ, pos, negsuc, Bool, true, false, ◌&&◌, List, [], ◌∷◌, ◌++◌, leb,
  eqb, if◌then◌else◌, length, is_empty,
}
use galdor.Chunk.{
  Text, Document, Chunk, chunk_of, ChunkErr, bad_size, bad_overlap, flush, closes, force_split,
  merge_pieces, split_sentences,
}

pub record Recursive : Type 0 where
  pub size : ℤ
  pub overlap : ℤ
  pub separators : List Text

abbrev pub default_separators : List Text
default_separators =
    (b'\n' ∷ b'\n' ∷ [])
    ∷ (b'\n' ∷ [])
    ∷ (b'.' ∷ b' ' ∷ [])
    ∷ (b'?' ∷ b' ' ∷ [])
    ∷ (b'!' ∷ b' ' ∷ [])
    ∷ (b' ' ∷ [])
    ∷ []
    ∷ []

unfoldable pub begins_with : Text → Text → Bool
begins_with text [] = true
begins_with [] (d ∷ sep) = false
begins_with (c ∷ text) (d ∷ sep) = eqb c d && begins_with text sep

-- `strings.Split` at a separator of `suc width` runes, `skip` runes of it still ahead.
unfoldable pub split_loop : ℕ → Text → ℕ → Text → Text → List Text
unfolding begins_with
split_loop width sep skip cur [] = cur ∷ []
split_loop width sep (suc skip) cur (r ∷ rest) = split_loop width sep skip cur rest
split_loop width sep zero cur (r ∷ rest) =
    let found = split_loop width sep width [] rest in
    let longer = split_loop width sep zero (cur ++ r ∷ []) rest in
    if begins_with (r ∷ rest) sep then cur ∷ found else longer

-- The separator is put back after each part but the last.
unfoldable pub reattach : Text → List Text → List Text
reattach sep [] = []
reattach sep (p ∷ []) = p ∷ []
reattach sep (p ∷ q ∷ ps) = (p ++ sep) ∷ reattach sep (q ∷ ps)

unfoldable pub parts_of : ℕ → Text → Text → List Text
unfolding split_loop reattach
parts_of size [] text = force_split text size
parts_of size (d ∷ sep) text = reattach (d ∷ sep) (split_loop (length sep) (d ∷ sep) 0 [] text)

-- The parts, those that are too long split again.
unfoldable pub split_each : ℕ → (Text → List Text) → List Text → List Text
split_each size again [] = []
split_each size again (p ∷ ps) =
    (if leb (length p) size then p ∷ [] else again p) ++ split_each size again ps

unfoldable pub recursive_split : ℕ → List Text → Text → List Text
unfolding parts_of split_each
recursive_split size [] text = if leb (length text) size then text ∷ [] else force_split text size
recursive_split size (sep ∷ seps) text =
    if leb (length text) size
    then text ∷ []
    else split_each size (recursive_split size seps) (parts_of size sep text)

abbrev pub separators_of : Recursive → List Text
separators_of r = if is_empty r.separators then default_separators else r.separators

-- The loop of `Sentence.Chunk`, with the sentences of the chunk under construction.
unfoldable pub pack : ℕ → Text → List Text → List Text
pack size cur [] = flush cur
pack size cur (s ∷ sentences) =
    let begun = pack size s sentences in
    let longer = pack size (cur ++ s) sentences in if closes size cur s then cur ∷ begun else longer

abbrev pub each_trimmed : (Text → Text) → List Text → List Text
each_trimmed trim_space [] = []
each_trimmed trim_space (t ∷ ts) = trim_space t ∷ each_trimmed trim_space ts

module _ {M : Type 0} (doc : Document M) where
  unfoldable pub numbered : ℕ → List Text → List (Chunk M)
  numbered i [] = []
  numbered i (t ∷ ts) = chunk_of doc i t ∷ numbered (suc i) ts

  abbrev pub recursive_chunks : List Text → ℕ → ℕ → Result ChunkErr (List (Chunk M))
  recursive_chunks seps size overlap =
      if leb size overlap
      then err bad_overlap
      else if is_empty doc.text
      then ok []
      else ok (numbered 0 (merge_pieces (recursive_split size seps doc.text) size overlap))

  abbrev pub recursive_of : List Text → ℤ → ℤ → Result ChunkErr (List (Chunk M))
  recursive_of seps (pos zero) overlap = err bad_size
  recursive_of seps (negsuc size) overlap = err bad_size
  recursive_of seps (pos (suc size)) (negsuc overlap) = err bad_overlap
  recursive_of seps (pos (suc size)) (pos overlap) = recursive_chunks seps (suc size) overlap

  -- `Recursive.Chunk`.
  unfoldable pub chunk_recursive : Recursive → Result ChunkErr (List (Chunk M))
  unfolding numbered recursive_split
  chunk_recursive r = recursive_of (separators_of r) r.size r.overlap

  -- `Sentence.Chunk`, over `unicode.IsSpace` and `strings.TrimSpace`.
  unfoldable pub chunk_sentences : (ℕ → Bool) → (Text → Text) → ℤ → Result ChunkErr (List (Chunk M))
  unfolding numbered pack
  chunk_sentences is_space trim_space (pos zero) = err bad_size
  chunk_sentences is_space trim_space (negsuc size) = err bad_size
  chunk_sentences is_space trim_space (pos (suc size)) =
      if is_empty doc.text
      then ok []
      else ok (
          numbered 0
            (each_trimmed trim_space (pack (suc size) [] (split_sentences is_space doc.text))))
