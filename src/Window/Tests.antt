-- ===== src/Window/Tests.antt =====
-- Small windows for pkg/memory/window.go.
use galdor.Prelude.{
  ◌+◌, ◌≤◌, pos, true, some, List, [], ◌∷◌, Result, ok, ◌≡◌, ◌⊎◌, refl, length, get_elem?,
}
use galdor.Schema.{text_part, system, user}
use galdor.Window.{Text, Message, Window, snapshot, tokens_of, leading}
use galdor.Window.Caps.{OnlyPinned, snapshot-max_messages, snapshot-max_tokens}
use galdor.Window.Keeps.{snapshot-keeps-instructions}

abbrev instructions : Message Unit
instructions = record {
  role = system;
  content = text_part (1 ∷ 2 ∷ []) ∷ [];
  name = "";
  extra = tt;
}

abbrev question : Message Unit
question = record {
  role = user;
  content = text_part (1 ∷ 2 ∷ 3 ∷ 4 ∷ 5 ∷ []) ∷ [];
  name = "";
  extra = tt;
}

abbrev window : Window Unit
window = record {
  max_messages = pos 3;
  max_tokens = pos 4;
  has_summarizer = true;
  messages = instructions ∷ question ∷ question ∷ question ∷ [];
  summary = [];
}

abbrev answer : List (Message Unit) → Result Unit Text
answer ms = ok (104 ∷ 105 ∷ [])

abbrev arrived : List (Message Unit)
arrived = question ∷ []

snapshot-max_messages_example :
    let (w2, out) = snapshot tt answer arrived window in
    (length out ≤ 3) ⊎ OnlyPinned tt w2.summary out
snapshot-max_messages_example = snapshot-max_messages tt answer arrived window 2 refl

snapshot-max_tokens_example :
    let (w2, out) = snapshot tt answer arrived window in
    (tokens_of out ≤ 4 + 8) ⊎ OnlyPinned tt w2.summary out
snapshot-max_tokens_example = snapshot-max_tokens tt answer arrived window 3 refl

snapshot-keeps-instructions_example :
    let (w2, out) = snapshot tt answer arrived window in
    (get_elem? out 0 ≡ some instructions) × (leading w2.messages ≡ some instructions)
snapshot-keeps-instructions_example =
    snapshot-keeps-instructions tt answer arrived window instructions refl
