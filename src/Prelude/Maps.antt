-- ===== src/Prelude/Maps.antt =====
-- JavaScript's `Map`, which keeps its entries in the order of their first insertion: `set` of a
-- key that is there replaces the value in place. Keys come with a decidable equality.
use mathlib.Core.Path.{◌≡◌, refl}
use mathlib.Core.Logic.{◌↔◌, ◌≢◌}
use mathlib.Core.Bool.{Bool, true, false}
use mathlib.Core.Option.{Option, none, some}
use mathlib.Core.List.{List, [], ◌∷◌}
use native.Mathlib.Omega.{arith}
use text.Mathlib.Text.{◌==◌ as str_eq}
use text.Mathlib.TextEquality.{eq_iff}
use Prim.Native.Nat.{ℕ}
use Prim.Native.String.{String}
use keco.Prelude.Tests.{if◌then◌else◌, ==_iff}
use keco.Prelude.Tests.{◌==◌ as nat_eq}
use keco.Prelude.Text.{Text, text_eq, text_eq_iff}

pub record Eq {ℓ} (K : Type ℓ) : Type ℓ where
  pub beq : K → K → Bool
  pub beq_iff : (a b : K) → (beq a b ≡ true) ↔ (a ≡ b)

instance abbrev pub nat_key : Eq ℕ
nat_key = record { beq = nat_eq; beq_iff = ==_iff }

instance abbrev pub string_key : Eq String
string_key = record { beq = str_eq; beq_iff = eq_iff }

instance abbrev pub text_key : Eq Text
text_key = record { beq = text_eq; beq_iff = text_eq_iff }

abbrev pub Map {ℓ κ} : Type ℓ → Type κ → Type (ℓ ⊔ κ)
Map K V = List (K × V)

module _ {ℓ κ} {K : Type ℓ} {V : Type κ} ⦃e : Eq K⦄ where
  unfoldable pub get : Map K V → K → Option V
  get [] k = none
  get ((j, v) ∷ m) k = if e.beq j k then some v else get m k

  unfoldable pub has : Map K V → K → Bool
  has [] k = false
  has ((j, v) ∷ m) k = if e.beq j k then true else has m k

  unfoldable pub put : Map K V → K → V → Map K V
  put [] k v = (k, v) ∷ []
  put ((j, w) ∷ m) k v = if e.beq j k then (j, v) ∷ m else (j, w) ∷ put m k v

  -- `delete`
  unfoldable pub erase : Map K V → K → Map K V
  erase [] k = []
  erase ((j, v) ∷ m) k = let rest = erase m k in if e.beq j k then rest else (j, v) ∷ rest

  pub get-put :
      (m : Map K V) (k j : K) (v : V) → get (put m k v) j ≡ (if e.beq k j then some v else get m j)
  unfolding get put
  get-put [] k j v = refl
  get-put ((i, w) ∷ m) k j v =
      ground (arith, e.beq_iff i k, e.beq_iff i j, e.beq_iff k j, get-put m k j v)

  pub get-erase :
      (m : Map K V) (k j : K) → get (erase m k) j ≡ (if e.beq k j then none else get m j)
  unfolding get erase
  get-erase [] k j = ground arith
  get-erase ((i, w) ∷ m) k j =
      ground (arith, e.beq_iff i k, e.beq_iff i j, e.beq_iff k j, get-erase m k j)

  pub has-put :
      (m : Map K V) (k j : K) (v : V) → has (put m k v) j ≡ (if e.beq k j then true else has m j)
  unfolding has put
  has-put [] k j v = refl
  has-put ((i, w) ∷ m) k j v =
      ground (arith, e.beq_iff i k, e.beq_iff i j, e.beq_iff k j, has-put m k j v)

  pub has-get : (m : Map K V) (k : K) → (has m k ≡ true) ↔ (get m k ≢ none)
  unfolding has get
  has-get [] k = ground arith
  has-get ((i, w) ∷ m) k = ground (arith, has-get m k)

  pub get_of_not_has : (m : Map K V) (k : K) → has m k ≡ false → get m k ≡ none
  unfolding get has
  get_of_not_has [] k h = refl
  get_of_not_has ((i, w) ∷ m) k h = ground (arith, get_of_not_has m k)

  -- No key stands twice.
  abbrev pub HasUniqueKeys : Map K V → Type 0
  HasUniqueKeys [] = Unit
  HasUniqueKeys ((k, v) ∷ m) = (has m k ≡ false) × HasUniqueKeys m

  pub put-HasUniqueKeys :
      (m : Map K V) (k : K) (v : V) → HasUniqueKeys m → HasUniqueKeys (put m k v)
  unfolding put has
  put-HasUniqueKeys [] k v h = (refl, tt)
  put-HasUniqueKeys ((i, w) ∷ m) k v h =
      ground (arith, e.beq_iff i k, e.beq_iff k i, has-put m k i v, put-HasUniqueKeys m k v)
