-- ===== src/Github/Quota.antt =====
-- `QuotaGovernor` of packages/github/src/quota.ts. A share is a fraction `part / whole`; `none` is the
-- `Infinity` of a governor that has seen no header. Instants are milliseconds.
use keco.Prelude.{
  ℕ, ◌+◌, ◌-◌, ◌*◌, ◌/◌, ◌≤◌, ◌<◌, Bool, false, ◌&&◌, Option, none, some, arith, leb, ltb,
}
use native.Mathlib.Nat.{div-mul-le_self, mul-le-mul_right}

pub record Governor : Type 0 where
  pub part : ℕ
  pub whole : ℕ
  pub remaining : Option ℕ
  pub reset_at : ℕ

abbrev or_else : Option ℕ → Option ℕ → Option ℕ
or_else none old = old
or_else (some new) old = some new

-- `observe`: a header that is absent leaves what was known.
unfoldable pub observe : Governor → Option ℕ → Option ℕ → Governor
observe g remaining reset = record g {
  remaining = or_else remaining g.remaining;
  reset_at = elim reset [ none ↦ g.reset_at | some seconds ↦ seconds * 1000 ];
}

-- `Math.max(0, Math.floor(remaining - 5000 * (1 - share)))`
abbrev pub share_of : ℕ → ℕ → ℕ → ℕ
share_of remaining part whole = (remaining * whole - 5000 * (whole - part)) / whole

unfoldable pub budget : Governor → Option ℕ
budget g = elim g.remaining [
  | none ↦ none
  | some remaining ↦ some (share_of remaining g.part g.whole)
]

unfoldable pub exhausted : Governor → ℕ → Bool
unfolding budget
exhausted g now = elim (budget g) [
  | none ↦ false
  | some points ↦ leb points 0 && ltb now g.reset_at
]

unfoldable pub wait_ms : Governor → ℕ → ℕ
wait_ms g now = g.reset_at - now

cancel : (a b whole : ℕ) → 0 < whole → a * whole ≤ b * whole → a ≤ b
cancel a b whole h e = grind arith

-- Two consumers whose shares make up the whole, and that both see the same remainder of at most 5000
-- points, are never promised more than that remainder together.
pub share_of-sum :
    (remaining part whole : ℕ)
    → 0 < whole
    → part ≤ whole
    → remaining ≤ 5000
    → share_of remaining part whole + share_of remaining (whole - part) whole ≤ remaining
share_of-sum remaining part whole h p r =
    let mine = div-mul-le_self (remaining * whole - 5000 * (whole - part)) whole in
    let theirs = div-mul-le_self (remaining * whole - 5000 * (whole - (whole - part))) whole in
    let most = mul-le-mul_right whole r in
    cancel (share_of remaining part whole + share_of remaining (whole - part) whole) remaining whole
      h (omega (arith, mine, theirs, most))
