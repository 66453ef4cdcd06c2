-- ===== src/Prelude/Actions.antt =====
-- Statements of a function body that act on the world and may return early from that function.
use mathlib.Core.Path.{◌≡◌, refl}
use mathlib.Core.Logic.{◌⊎◌, inl, inr}
use mathlib.Core.Option.{Option, none, some}

-- How a statement ends: the enclosing function returns `R`, or goes on with an `A`.
pub data Exit {ℓ} (R A : Type ℓ) : Type ℓ where
  exit : R → Exit R A
  go_on : A → Exit R A

abbrev pub Act {ℓ} : Type ℓ → Type ℓ → Type ℓ → Type ℓ
Act W R A = W → Exit R A × W

module _ {ℓ} {W R A : Type ℓ} where
  abbrev pub pure : A → Act W R A
  pure a w = (go_on a, w)

  -- `return r`.
  abbrev pub stop : R → Act W R A
  stop r w = (exit r, w)

  -- A call that cannot make the function return.
  abbrev pub lift : (W → A × W) → Act W R A
  lift f w = let (a, w') = f w in (go_on a, w')

  -- `if err != nil { return r err }`.
  abbrev pub settle {κ} : {E : Type κ} → (E → R) → A → W → Option E → Exit R A × W
  settle r a w none = (go_on a, w)
  settle r a w (some e) = (exit (r e), w)

  abbrev pub stop_on {κ} : {E : Type κ} → (E → R) → A → Option E → Act W R A
  stop_on r a e w = settle r a w e

module _ {ℓ} {W R A B : Type ℓ} where
  abbrev pub continue : (A → Act W R B) → W → Exit R A → Exit R B × W
  continue f w (exit r) = (exit r, w)
  continue f w (go_on a) = f a w

  infixl 5 ◌>>=◌ ◌>>◌
  abbrev pub ◌>>=◌ : Act W R A → (A → Act W R B) → Act W R B
  ◌>>=◌ m f w = let (e, w') = m w in continue f w' e

  abbrev pub ◌>>◌ : Act W R A → Act W R B → Act W R B
  m >> n = m >>= λ _. n

-- To split on how a statement ended and keep the equation.
pub Exit-cases {ℓ} :
    {W R A : Type ℓ} (x : Exit R A × W)
    → ((r : R) × (w : W) × (x ≡ (exit r, w))) ⊎ ((a : A) × (w : W) × (x ≡ (go_on a, w)))
Exit-cases (exit r, w) = inl (r, w, refl)
Exit-cases (go_on a, w) = inr (a, w, refl)

-- A postcondition: `Q` of what the function returns, `P` of what the statement goes on with.
module _ {ℓ κ} {R A : Type ℓ} (Q : R → Type κ) (P : A → Type κ) where
  abbrev pub Post : Exit R A → Type κ
  Post (exit r) = Q r
  Post (go_on a) = P a
