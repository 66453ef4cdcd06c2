-- ===== src/Provider/StripThinking/Tags.antt =====
-- The searches for tags in pkg/provider/strip_thinking.go.
use Prim.Native.Char.{code}
use galdor.Prelude.{
  All, ◌≡◌, ◌<◌, ℕ, suc, ◌+◌, String, Bool, true, false, not, ◌&&◌, ◌||◌, Option, none, some, List,
  [], ◌∷◌, map, drop, if◌then◌else◌, leb, ltb,
}

abbrev pub Bytes : Type 0
Bytes = List ℕ

-- The bytes of an ASCII text.
abbrev pub codes : String → Bytes
codes String.[] = []
codes (String.◌∷◌ c s) = code c ∷ codes s

abbrev pub is_byte : ℕ → ℕ → Bool
is_byte a b = leb a b && leb b a

abbrev pub to_lower : ℕ → ℕ
to_lower c = if leb b'A' c && leb c b'Z' then c + 32 else c

abbrev pub IsAscii : ℕ → Type 0
IsAscii c = c < 128

-- ASCII letters in lower case. In a regular expression `(?i)` ignores the case of these; texts outside
-- ASCII, where it ignores that of two more, are not modelled there.
abbrev pub lower : Bytes → Bytes
lower = map to_lower

-- What is used of `strings.ToLower`: on an ASCII text it changes the letters. On others it may change
-- the number of bytes.
abbrev pub LowersAscii : (Bytes → Bytes) → Type 0
LowersAscii string_lower = (s : Bytes) → All IsAscii s → string_lower s ≡ lower s

-- `strings.HasPrefix(s, p)`.
unfoldable pub has_prefix : Bytes → Bytes → Bool
has_prefix s [] = true
has_prefix [] (d ∷ p) = false
has_prefix (c ∷ s) (d ∷ p) = is_byte c d && has_prefix s p

abbrev pub shifted : Option ℕ → Option ℕ
shifted none = none
shifted (some i) = some (suc i)

-- `strings.Index(s, p)`.
unfoldable pub index : Bytes → Bytes → Option ℕ
unfolding has_prefix
index [] p = if has_prefix [] p then some 0 else none
index (c ∷ s) p = let rest = shifted (index s p) in if has_prefix (c ∷ s) p then some 0 else rest

-- A character of a word in a regular expression.
abbrev pub is_word : ℕ → Bool
is_word c =
    (leb b'a' c && leb c b'z')
    || (leb b'A' c && leb c b'Z')
    || (leb b'0' c && leb c b'9')
    || is_byte c b'_'

-- `\b` after a word.
abbrev pub at_boundary : Bytes → Bool
at_boundary [] = true
at_boundary (c ∷ s) = not (is_word c)

abbrev pub plus : ℕ → Option ℕ → Option ℕ
plus n none = none
plus n (some i) = some (n + i)

abbrev pub think : Bytes
think = codes "<think"

abbrev pub thinking : Bytes
thinking = codes "<thinking"

abbrev pub close_think : Bytes
close_think = codes "</think>"

abbrev pub close_thinking : Bytes
close_thinking = codes "</thinking>"

abbrev pub greater : Bytes
greater = codes ">"

-- The length of the opening tag that a text begins with, `<(think|thinking)\b[^>]*>`.
unfoldable pub open_tag : Bytes → Option ℕ
unfolding index has_prefix
open_tag s =
    if has_prefix (lower s) think && at_boundary (drop 6 s)
    then plus 7 (index (drop 6 s) greater)
    else if has_prefix (lower s) thinking && at_boundary (drop 9 s)
    then plus 10 (index (drop 9 s) greater)
    else none

abbrev pub moved : Option (ℕ × ℕ) → Option (ℕ × ℕ)
moved none = none
moved (some (i, j)) = some (suc i, suc j)

abbrev pub tag_here : Option ℕ → Option (ℕ × ℕ) → Option (ℕ × ℕ)
tag_here none rest = rest
tag_here (some n) rest = some (0, n)

-- `openThinkRe.FindStringIndex`: the start and the end of the first opening tag.
unfoldable pub find_open : Bytes → Option (ℕ × ℕ)
unfolding open_tag
find_open [] = none
find_open (c ∷ s) = tag_here (open_tag (c ∷ s)) (moved (find_open s))

-- A candidate of `findClose` against the best one so far.
abbrev pub better : Option (ℕ × ℕ) → ℕ → Option ℕ → Option (ℕ × ℕ)
better best n none = best
better none n (some i) = some (i, i + n)
better (some (start, end)) n (some i) = if ltb i start then some (i, i + n) else some (start, end)

-- `findClose`, over `strings.ToLower`: the positions in the text in lower case are taken for positions
-- in the text.
unfoldable pub find_close : (Bytes → Bytes) → Bytes → Option (ℕ × ℕ)
unfolding index
find_close string_lower s =
    better (better none 8 (index (string_lower s) close_think)) 11
      (index (string_lower s) close_thinking)

-- The closing tag of `thinkBlockRe` that a text has first.
abbrev pub close_tag : Bytes → Option (ℕ × ℕ)
close_tag s = find_close lower s
