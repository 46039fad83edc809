-- ===== src/Prelude/Text.antt =====
-- Texts that the program builds and compares are lists of code points, so that proofs can walk
-- them: literals, `String(n)` of a whole number, and `padStart(2, '0')`.
use Prim.Native.Nat.{ℕ, zero, suc, ◌+◌, ◌-◌, ◌*◌, ◌/◌, ◌%◌, ◌^◌, ◌≤◌, ◌<◌}
use Prim.Native.Char.{code}
use Prim.Native.String.{String}
use text.Mathlib.TextEquality.{Char-path}
use mathlib.Core.Path.{◌≡◌, refl, sym, ap, ap₂, ◌∙◌}
use mathlib.Core.Logic.{◌≢◌, ◌↔◌, inl, inr}
use mathlib.Core.Bool.{Bool, true, false, ◌&&◌}
use mathlib.Core.List.{List, [], ◌∷◌, ◌++◌}
use native.Mathlib.Omega.{arith}
use native.Mathlib.Nat.{pow-suc}
use keco.Prelude.Tests.{lt→ltb, Bool-cases, ltb, ◌==◌, if◌then◌else◌}
use keco.Prelude.Lists.{All, All-append, length, length-append}

abbrev pub Text : Type 0
Text = List ℕ

-- The code points of a literal. `String` has its own `[]` and `∷`.
abbrev pub codes : String → Text
codes String.[] = []
codes (String.◌∷◌ c s) = code c ∷ codes s

pub codes_injective : (s t : String) → codes s ≡ codes t → s ≡ t
codes_injective String.[] String.[] e = refl
codes_injective String.[] (String.◌∷◌ d t) e = cc
codes_injective (String.◌∷◌ c s) String.[] e = cc
codes_injective (String.◌∷◌ c s) (String.◌∷◌ d t) e =
    ap₂ String.◌∷◌ (Char-path c d (cc)) (codes_injective s t (cc))

unfoldable pub text_eq : Text → Text → Bool
text_eq [] [] = true
text_eq [] (y ∷ ys) = false
text_eq (x ∷ xs) [] = false
text_eq (x ∷ xs) (y ∷ ys) = x == y && text_eq xs ys

pub text_eq_iff : (a b : Text) → (text_eq a b ≡ true) ↔ (a ≡ b)
unfolding text_eq
text_eq_iff [] [] = ground arith
text_eq_iff [] (y ∷ ys) = ground arith
text_eq_iff (x ∷ xs) [] = ground arith
text_eq_iff (x ∷ xs) (y ∷ ys) = ground (arith, text_eq_iff xs ys)

-- The decimal digits of `n`, most significant first. One round for each digit: `fuel` above `n`
-- is enough.
unfoldable pub show_fuel : ℕ → ℕ → Text
show_fuel zero n = []
show_fuel (suc fuel) n =
    let more = show_fuel fuel (n / 10) in (if ltb n 10 then [] else more) ++ (48 + n % 10) ∷ []

-- `String(n)`
unfoldable pub show : ℕ → Text
unfolding show_fuel
show n = show_fuel (suc n) n

-- `String(n).padStart(2, '0')`
unfoldable pub pad : ℕ → Text
pad n = if ltb n 10 then b'0' ∷ show n else show n

abbrev pub IsDigit : ℕ → Type 0
IsDigit c = (48 ≤ c) × (c ≤ 57)

-- The number that a text of digits denotes.
unfoldable pub value_from : ℕ → Text → ℕ
value_from acc [] = acc
value_from acc (c ∷ cs) = value_from (acc * 10 + (c - 48)) cs

value_from-snoc :
    (acc : ℕ) (cs : Text) (c : ℕ)
    → value_from acc (cs ++ c ∷ []) ≡ value_from acc cs * 10 + (c - 48)
unfolding value_from
value_from-snoc acc [] c = refl
value_from-snoc acc (d ∷ cs) c = value_from-snoc (acc * 10 + (d - 48)) cs c

value-show_fuel : (fuel n : ℕ) → n < fuel → value_from 0 (show_fuel fuel n) ≡ n
unfolding show_fuel value_from
value-show_fuel zero n h = elim h [ ]
value-show_fuel (suc fuel) n h = elim (Bool-cases (ltb n 10)) [
  | inl small ↦ rw small (ground arith)
  | inr large ↦
      rw (large, value_from-snoc 0 (show_fuel fuel (n / 10)) (48 + n % 10))
        (ground (arith, value-show_fuel fuel (n / 10)))
]

value-show : (n : ℕ) → value_from 0 (show n) ≡ n
unfolding show
value-show n = value-show_fuel (suc n) n (omega arith)

pub show_injective : (m n : ℕ) → show m ≡ show n → m ≡ n
show_injective m n e = sym (value-show m) ∙ ap (value_from 0) e ∙ value-show n

value-pad : (n : ℕ) → value_from 0 (pad n) ≡ n
unfolding pad value_from
value-pad n = elim (Bool-cases (ltb n 10)) [
  | inl small ↦ rw small (value-show n)
  | inr large ↦ rw large (value-show n)
]

pub pad_injective : (m n : ℕ) → pad m ≡ pad n → m ≡ n
pad_injective m n e = sym (value-pad m) ∙ ap (value_from 0) e ∙ value-pad n

show_fuel-IsDigit : (fuel n : ℕ) → All IsDigit (show_fuel fuel n)
unfolding show_fuel
show_fuel-IsDigit zero n = tt
show_fuel-IsDigit (suc fuel) n = elim (Bool-cases (ltb n 10)) [
  | inl small ↦ rw small (omega arith)
  | inr large ↦ rw large (All-append IsDigit _ _ (show_fuel-IsDigit fuel (n / 10)) (omega arith))
]

pub show-IsDigit : (n : ℕ) → All IsDigit (show n)
unfolding show
show-IsDigit n = show_fuel-IsDigit (suc n) n

pub pad-IsDigit : (n : ℕ) → All IsDigit (pad n)
unfolding pad
pad-IsDigit n = elim (Bool-cases (ltb n 10)) [
  | inl small ↦ rw small ((omega arith, omega arith), show-IsDigit n)
  | inr large ↦ rw large (show-IsDigit n)
]

length-show_fuel : (k fuel n : ℕ) → n < 10 ^ suc k → length (show_fuel fuel n) ≤ suc k
unfolding show_fuel
length-show_fuel k zero n h = omega arith
length-show_fuel zero (suc fuel) n h =
    let small : ltb n 10 ≡ true = lt→ltb n 10 h in rw small (omega arith)
length-show_fuel (suc k) (suc fuel) n h =
    let power = pow-suc 10 (suc k) in
    elim (Bool-cases (ltb n 10)) [
      | inl small ↦ rw small (omega arith)
      | inr large ↦
          rw (large, length-append)
            (omega (arith, length-show_fuel k fuel (n / 10) (omega (arith, power))))
    ]

-- A number below a power of ten has at most that many digits.
pub length-show : (k n : ℕ) → n < 10 ^ suc k → length (show n) ≤ suc k
unfolding show
length-show k n h = length-show_fuel k (suc n) n h

-- A separator that neither head holds cuts two equal texts at the same place.
abbrev pub Lacks : ℕ → Text → Type 0
Lacks c = All (λ x. x ≢ c)

pub cut_unique :
    (c : ℕ) (xs xs' : Text) {ys ys' : Text}
    → Lacks c xs
    → Lacks c xs'
    → xs ++ c ∷ ys ≡ xs' ++ c ∷ ys'
    → (xs ≡ xs') × (ys ≡ ys')
cut_unique c [] [] h h' e = (refl, cc)
cut_unique c [] (x' ∷ xs') h h' e = absurd (h'.0 (cc))
cut_unique c (x ∷ xs) [] h h' e = absurd (h.0 (cc))
cut_unique c (x ∷ xs) (x' ∷ xs') {ys} {ys'} h h' e =
    let same = cut_unique c xs xs' {ys = ys} {ys' = ys'} h.1 h'.1 (cc) in (cc (same.0), same.1)

-- A text without the separator is not one with it.
pub Lacks-not_cut : (c : ℕ) (xs xs' ys : Text) → Lacks c xs → xs ≢ xs' ++ c ∷ ys
Lacks-not_cut c [] [] ys h = λ e. cc
Lacks-not_cut c [] (x' ∷ xs') ys h = λ e. cc
Lacks-not_cut c (x ∷ xs) [] ys h = λ e. h.0 (cc)
Lacks-not_cut c (x ∷ xs) (x' ∷ xs') ys h = λ e. Lacks-not_cut c xs xs' ys h.1 (cc)

pub Lacks-append : (c : ℕ) (xs ys : Text) → Lacks c xs → Lacks c ys → Lacks c (xs ++ ys)
Lacks-append c = All-append (λ x. x ≢ c)

pub Lacks-of_IsDigit : (c : ℕ) (xs : Text) → c < 48 → All IsDigit xs → Lacks c xs
Lacks-of_IsDigit c [] h k = tt
Lacks-of_IsDigit c (x ∷ xs) h k = (omega arith, Lacks-of_IsDigit c xs h k.1)

pub append_cancel_left : (p : Text) {xs ys : Text} → p ++ xs ≡ p ++ ys → xs ≡ ys
append_cancel_left [] e = e
append_cancel_left (c ∷ p) e = append_cancel_left p (cc)

show_year : show 2026 ≡ codes "2026"
unfolding show
show_year = refl

pad_month : (pad 7 ≡ codes "07") × (pad 12 ≡ codes "12")
unfolding pad show
pad_month = (refl, refl)
