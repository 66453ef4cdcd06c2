-- ===== src/Fences.antt =====
-- The JSON value inside a reply of a model: `stripFences` and the trimming that `parsePlan` and
-- `parseReplan` of pkg/agent/planexecute.go and `parseSupervisorDecision` of pkg/council/supervisor.go
-- make before they decode. `trim_space` is strings.TrimSpace.
use Prim.Native.Char.{Char, code}
use Prim.Native.String.{len, slice, ◌∷◌, []}
use text.Mathlib.Text.{starts_with}
use galdor.Prelude.{
  ℕ, String, Bool, ◌&&◌, ◌||◌, Option, none, some, ◌==◌, ◌≡◌, refl, if◌then◌else◌, leb,
}

abbrev in_range : ℕ → ℕ → Char → Bool
in_range low high c = leb low (code c) && leb (code c) high

abbrev is_code : ℕ → Char → Bool
is_code n c = in_range n n c

-- `unicode.IsSpace`.
abbrev pub is_space : Char → Bool
is_space c =
    in_range 9 13 c
    || is_code 0x20 c
    || is_code 0x85 c
    || is_code 0xa0 c
    || is_code 0x1680 c
    || in_range 0x2000 0x200a c
    || in_range 0x2028 0x2029 c
    || is_code 0x202f c
    || is_code 0x205f c
    || is_code 0x3000 c

unfoldable pub trim_left : String → String
trim_left [] = []
trim_left (c ∷ s) = let rest = trim_left s in if is_space c then rest else c ∷ s

unfoldable pub trim_right : String → String
trim_right [] = []
trim_right (c ∷ s) = let rest = trim_right s in if is_space c && rest == "" then [] else c ∷ rest

abbrev pub trim_space : String → String
trim_space s = trim_right (trim_left s)

-- `s[i:]` for the first place `i` of the character.
unfoldable pub from_first : ℕ → String → Option String
from_first n [] = none
from_first n (c ∷ s) = let rest = from_first n s in if is_code n c then some (c ∷ s) else rest

-- `s[i+1:]` for that place.
unfoldable pub after_first : ℕ → String → Option String
after_first n [] = none
after_first n (c ∷ s) = let rest = after_first n s in if is_code n c then some s else rest

-- `s[:j+1]` for the last place `j` of the character.
unfoldable pub through_last : ℕ → String → Option String
through_last n [] = none
through_last n (c ∷ s) = elim (through_last n s) [
  | some t ↦ some (c ∷ t)
  | none ↦ if is_code n c then some (c ∷ []) else none
]

-- `s[:i]` for the last place `i` of the text.
unfoldable pub before_last : String → String → Option String
before_last mark [] = none
before_last mark (c ∷ s) = elim (before_last mark s) [
  | some t ↦ some (c ∷ t)
  | none ↦ if starts_with (c ∷ s) mark then some [] else none
]

abbrev pub or_all : String → Option String → String
or_all s none = s
or_all s (some t) = t

abbrev pub fence : String
fence = "```"

abbrev pub after_fence : String → String
after_fence t = or_all (slice t (len fence) (len t)) (after_first b'\n' t)

-- `stripFences`.
unfoldable pub strip_fences : String → String
unfolding trim_left trim_right after_first before_last
strip_fences s =
    let t = trim_space s in
    if starts_with t fence then or_all (after_fence t) (before_last fence (after_fence t)) else s

-- From the first opening bracket through the last closing one after it.
abbrev pub bracketed : ℕ → ℕ → String → String
bracketed opening close s =
    let body = or_all s (from_first opening s) in or_all body (through_last close body)

-- The text that is decoded as JSON, empty for an empty reply.
unfoldable pub json_body : ℕ → ℕ → String → String
unfolding strip_fences from_first through_last
json_body opening close raw =
    let body = trim_space (strip_fences raw) in
    if body == "" then "" else bracketed opening close body

fenced : json_body b'{' b'}' "```json\n{\"final\": \"x\"} \n```" ≡ "{\"final\": \"x\"}"
unfolding json_body
fenced = refl

prose : json_body b'[' b']' "Sure: [\"a\"], ok" ≡ "[\"a\"]"
unfolding json_body
prose = refl

blank : json_body b'[' b']' " \n" ≡ ""
unfolding json_body
blank = refl
