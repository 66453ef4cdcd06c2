-- ===== src/Provider/StripThinking/Blocks.antt =====
-- `stripMessage` and `extractMessage` of pkg/provider/strip_thinking.go. A round of the search for blocks
-- goes on by at least one byte, so fuel for each byte and one more is enough.
use galdor.Prelude.{
  ℕ, zero, suc, Bool, true, false, ◌||◌, ◌&&◌, not, Option, none, some, List, [], ◌∷◌, ◌++◌, drop,
  take, length, is_empty, if◌then◌else◌, leb,
}
use galdor.Schema.{ContentPart, text_part, thinking_part, other_part}
use galdor.Provider.StripThinking.Tags.{Bytes, is_byte, open_tag, close_tag}

-- `unicode.IsSpace`, in ASCII.
abbrev pub is_space : ℕ → Bool
is_space c = is_byte c 32 || (leb 9 c && leb c 13)

unfoldable pub trim_left : Bytes → Bytes
trim_left [] = []
trim_left (c ∷ s) = let rest = trim_left s in if is_space c then rest else c ∷ s

unfoldable pub trim_right : Bytes → Bytes
trim_right [] = []
trim_right (c ∷ s) = let rest = trim_right s in if is_space c && is_empty rest then [] else c ∷ rest

-- `strings.TrimSpace`.
abbrev pub trim_space : Bytes → Bytes
trim_space s = trim_right (trim_left s)

abbrev pub has_angle : Bytes → Bool
has_angle [] = false
has_angle (c ∷ s) = is_byte c b'<' || has_angle s

-- A block that a text begins with, `thinkBlockRe`: what is inside, and the text after it.
abbrev pub closed : Bytes → Option (ℕ × ℕ) → Option (Bytes × Bytes)
closed inner none = none
closed inner (some (i, j)) = some (take i inner, drop j inner)

abbrev pub opened : Bytes → Option ℕ → Option (Bytes × Bytes)
opened s none = none
opened s (some n) = closed (drop n s) (close_tag (drop n s))

unfoldable pub think_block : Bytes → Option (Bytes × Bytes)
think_block s = opened s (open_tag s)

-- The text without its blocks, `ReplaceAllString`.
unfoldable pub without_blocks : ℕ → Bytes → Bytes
unfolding think_block
without_blocks zero s = s
without_blocks (suc fuel) [] = []
without_blocks (suc fuel) (c ∷ s) = elim (think_block (c ∷ s)) [
  | none ↦ c ∷ without_blocks fuel s
  | some (inner, rest) ↦ without_blocks fuel rest
]

-- What is inside the blocks, `FindAllStringSubmatch`.
unfoldable pub blocks : ℕ → Bytes → List Bytes
unfolding think_block
blocks zero s = []
blocks (suc fuel) [] = []
blocks (suc fuel) (c ∷ s) = elim (think_block (c ∷ s)) [
  | none ↦ blocks fuel s
  | some (inner, rest) ↦ inner ∷ blocks fuel rest
]

abbrev pub fuel_for : Bytes → ℕ
fuel_for s = suc (length s)

abbrev pub same_bytes : Bytes → Bytes → Bool
same_bytes [] [] = true
same_bytes [] (d ∷ t) = false
same_bytes (c ∷ s) [] = false
same_bytes (c ∷ s) (d ∷ t) = is_byte c d && same_bytes s t

-- `stripText`: the text, and whether it was changed.
unfoldable pub strip_text : Bytes → Bytes × Bool
unfolding trim_left trim_right without_blocks
strip_text s =
    let out = without_blocks (fuel_for s) s in
    if not (has_angle s)
    then (s, false)
    else if same_bytes out s
    then (s, false)
    else (trim_space out, true)

-- `extractText`.
unfoldable pub extract_text : Bytes → Bytes × List Bytes × Bool
unfolding trim_left trim_right without_blocks blocks
extract_text s =
    let thinks = blocks (fuel_for s) s in
    if not (has_angle s)
    then (s, [], false)
    else if is_empty thinks
    then (s, [], false)
    else (trim_space (without_blocks (fuel_for s) s), thinks, true)

abbrev pub Parts : Type 0
Parts = List (ContentPart Bytes)

-- `stripMessage`, on the parts.
unfoldable pub strip_message : Parts → Parts
unfolding strip_text
strip_message [] = []
strip_message (text_part t ∷ ps) =
    let (cleaned, changed) = strip_text t in
    text_part (if changed then cleaned else t) ∷ strip_message ps
strip_message (thinking_part t ∷ ps) = thinking_part t ∷ strip_message ps
strip_message (other_part t ∷ ps) = other_part t ∷ strip_message ps

-- The text parts of `extractMessage`, and the reasoning of all blocks.
unfoldable pub extract_parts : Parts → Parts × List Bytes
unfolding extract_text
extract_parts [] = ([], [])
extract_parts (text_part t ∷ ps) =
    let (cleaned, found, changed) = extract_text t in
    let (rest, thinks) = extract_parts ps in
    if changed then (text_part cleaned ∷ rest, found ++ thinks) else (text_part t ∷ rest, thinks)
extract_parts (thinking_part t ∷ ps) =
    let (rest, thinks) = extract_parts ps in (thinking_part t ∷ rest, thinks)
extract_parts (other_part t ∷ ps) =
    let (rest, thinks) = extract_parts ps in (other_part t ∷ rest, thinks)

unfoldable pub thinking_parts : List Bytes → Parts
thinking_parts [] = []
thinking_parts (t ∷ ts) =
    let rest = thinking_parts ts in
    if is_empty (trim_space t) then rest else thinking_part (trim_space t) ∷ rest

-- `extractMessage`.
unfoldable pub extract_message : Parts → Parts
unfolding extract_parts thinking_parts
extract_message ps = let (kept, thinks) = extract_parts ps in kept ++ thinking_parts thinks
