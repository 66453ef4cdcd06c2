-- ===== src/Prelude/Maps.antt =====
-- Go maps with string keys, as association lists: the first entry of a key counts.
use Prim.Native.String.{String}
use mathlib.Core.Path.{◌≡◌, refl, subst, subst₂}
use mathlib.Core.Logic.{inl, inr}
use mathlib.Core.Bool.{Bool, true, false, ◌||◌}
use mathlib.Core.Option.{Option, none, some}
use mathlib.Core.List.{List, [], ◌∷◌}
use native.Mathlib.Omega.{arith}
use text.Mathlib.Text.{◌==◌}
use text.Mathlib.TextEquality.{eq_iff}
use galdor.Prelude.Tests.{if◌then◌else◌, is_some, Bool-cases}
use galdor.Prelude.Lists.{All}

abbrev pub Assoc {ℓ} : Type ℓ → Type ℓ
Assoc V = List (String × V)

-- Whether a set of names holds `k`.
unfoldable pub contains : String → List String → Bool
contains k [] = false
contains k (j ∷ l) = j == k || contains k l

module _ {ℓ} {V : Type ℓ} where
  -- `v, ok := m[key]`.
  unfoldable pub lookup : String → Assoc V → Option V
  lookup key [] = none
  lookup key ((name, value) ∷ entries) = if name == key then some value else lookup key entries

  -- `_, ok := m[key]`.
  unfoldable pub has : String → Assoc V → Bool
  unfolding lookup
  has key m = is_some (lookup key m)

  -- `delete(m, key)`.
  unfoldable pub remove : String → Assoc V → Assoc V
  remove key [] = []
  remove key (entry ∷ entries) =
      let others = remove key entries in if entry.0 == key then others else entry ∷ others

  -- `m[key] = value`.
  unfoldable pub insert : String → V → Assoc V → Assoc V
  unfolding remove
  insert key value m = (key, value) ∷ remove key m

  pub lookup-remove :
      (key other : String) (m : Assoc V)
      → lookup other (remove key m) ≡ (if key == other then none else lookup other m)
  unfolding remove lookup
  lookup-remove key other [] = ground arith
  lookup-remove key other ((name, value) ∷ entries) =
      let rest = lookup-remove key other entries in
      ground (arith, rest, eq_iff name key, eq_iff name other, eq_iff key other)

  pub lookup-insert :
      (key other : String) (value : V) (m : Assoc V)
      → lookup other (insert key value m) ≡ (if key == other then some value else lookup other m)
  unfolding insert lookup
  lookup-insert key other value m = ground (arith, lookup-remove key other m)

  pub has-insert : (k j : String) (v : V) (m : Assoc V) → has j (insert k v m) ≡ (k == j || has j m)
  unfolding has
  has-insert k j v m = ground (arith, lookup-insert k j v m)

pub ==_refl : (s : String) → (s == s) ≡ true
==_refl s = (eq_iff s s).1 refl

pub has-is_some {ℓ} : {V : Type ℓ} (k : String) (m : Assoc V) → has k m ≡ is_some (lookup k m)
unfolding has
has-is_some k m = refl

pub All-remove {ℓ κ} :
    {V : Type ℓ} (P : String × V → Type κ) (k : String) (m : Assoc V) → All P m → All P (remove k m)
unfolding remove
All-remove P k [] a = tt
All-remove P k (e ∷ m) a = elim (Bool-cases (e.0 == k)) [
  | inl q ↦ rw (q, remove) (All-remove P k m a.1)
  | inr q ↦ rw (q, remove) (a.0, All-remove P k m a.1)
]

pub All-insert {ℓ κ} :
    {V : Type ℓ} (P : String × V → Type κ) (k : String) (v : V) (m : Assoc V)
    → P (k, v)
    → All P m
    → All P (insert k v m)
unfolding insert
All-insert P k v m p a = (p, All-remove P k m a)

-- What holds of all entries of a map holds of the one that a lookup finds.
pub All-lookup {ℓ κ} :
    {V : Type ℓ} (P : String × V → Type κ) (k : String) (v : V) (m : Assoc V)
    → All P m
    → lookup k m ≡ some v
    → P (k, v)
unfolding lookup
All-lookup P k v [] a h = cc
All-lookup P k v ((j, w) ∷ m) a h = elim (Bool-cases (j == k)) [
  | inl e ↦
      let same : w ≡ v = cc (rw e at h) in subst₂ (λ x y. P (x, y)) ((eq_iff j k).0 e) same a.0
  | inr e ↦ All-lookup P k v m a.1 (rw e at h)
]

pub All-contains {κ} :
    (P : String → Type κ) (k : String) (l : List String) → All P l → contains k l ≡ true → P k
unfolding contains
All-contains P k [] a h = cc
All-contains P k (j ∷ l) a h = elim (Bool-cases (j == k)) [
  | inl e ↦ subst P ((eq_iff j k).0 e) a.0
  | inr e ↦ All-contains P k l a.1 (rw e at h)
]
