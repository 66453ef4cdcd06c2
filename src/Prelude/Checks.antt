-- ===== src/Prelude/Checks.antt =====
-- How the checks of a configuration are read: a check that raised no error.
use mathlib.Core.Path.{◌≡◌, refl}
use mathlib.Core.Bool.{Bool, true, false, not, ◌&&◌, ◌||◌}
use mathlib.Core.Option.{Option, none, some}
use galdor.Prelude.Tests.{if◌then◌else◌}

-- A test that raised no error.
pub passed :
    {E : Type 0} (b : Bool) (e : E) (o : Option E)
    → (if b then some e else o) ≡ none
    → (b ≡ false) × (o ≡ none)
passed true e o h = cc
passed false e o h = (refl, h)

pub both_false : (b c : Bool) → (b || c) ≡ false → (b ≡ false) × (c ≡ false)
both_false true c h = cc
both_false false c h = (refl, h)

pub not_empty : (b c : Bool) → not (not b && c) ≡ false → b ≡ false
not_empty true c h = cc
not_empty false c h = refl

pub is_true : (b : Bool) → not b ≡ false → b ≡ true
is_true true h = refl
is_true false h = cc
