-- ===== src/Discovery/Windows/Identity.antt =====
-- The query text of a window, `queryOf` of apps/workers/src/discovery/windows.ts, is its identity
-- in the state that a sweep resumes from.
use keco.Prelude.{
  ◌≡◌, ◌≢◌, refl, sym, ◌∙◌, ap, ◌⊎◌, inl, inr, Option, none, some, ◌∷◌, ◌++◌, arith, append_assoc,
}
use mathlib.Core.Path.{subst}
use keco.Prelude.Text.{Text, codes, Lacks, cut_unique, Lacks-not_cut, append_cancel_left}
use keco.Discovery.Dates.{Date, iso_date, iso_injective, Lacks-iso}
use keco.Discovery.Windows.{
  Created, years, year, quarter, month, day, Window, between, range_of, query_of,
}
use keco.Discovery.Windows.Bounds.{span, IsWellFormed, range_of-span}

-- Two ranges with the same ends are the same range.
span_injective :
    (c c' : Created) (lo hi : Date)
    → IsWellFormed c
    → IsWellFormed c'
    → span c ≡ some (lo, hi)
    → span c' ≡ some (lo, hi)
    → c ≡ c'
span_injective (years f t) (years f' t') lo hi w w' e e' = ground arith
span_injective (years f t) (year y) lo hi w w' e e' = ground arith
span_injective (years f t) (quarter y q) lo hi w w' e e' = ground arith
span_injective (years f t) c' lo hi w w' e e' = ground arith
span_injective (year y) (years f' t') lo hi w w' e e' = ground arith
span_injective (year y) c' lo hi w w' e e' = ground arith
span_injective (quarter y q) (years f' t') lo hi w w' e e' = ground arith
span_injective (quarter y q) c' lo hi w w' e e' = ground arith
span_injective (month y m) (years f' t') lo hi w w' e e' = ground arith
span_injective (month y m) c' lo hi w w' e e' = ground arith
span_injective (day text) c' lo hi w w' e e' = cc

iso_date_injective : (a b : Date) → iso_date a ≡ iso_date b → a ≡ b
iso_date_injective a b e =
    let same = iso_injective a.year a.month a.day b.year b.month b.day e in
    λ i. record { year = same.0 i; month = same.1 i; day = same.2 i }

no_dot : (d : Date) → Lacks b'.' (iso_date d)
no_dot d = Lacks-iso b'.' d.year d.month d.day (omega arith) (omega arith)

between_injective :
    (lo hi lo' hi' : Date)
    → between (iso_date lo) (iso_date hi) ≡ between (iso_date lo') (iso_date hi')
    → (lo ≡ lo') × (hi ≡ hi')
between_injective lo hi lo' hi' e =
    let cut =
      cut_unique b'.' (iso_date lo) (iso_date lo') {ys = codes "." ++ iso_date hi}
        {ys' = codes "." ++ iso_date hi'} (no_dot lo) (no_dot lo') e in
    (
      iso_date_injective lo lo' cut.0,
      iso_date_injective hi hi' (append_cancel_left (codes ".") cut.1),
    )

ends :
    (c : Created)
    → ((text : Text) × (c ≡ day text)) ⊎ ((lo : Date) × (hi : Date) × (span c ≡ some (lo, hi)))
ends (years f t) = inr (_, _, refl)
ends (year y) = inr (_, _, refl)
ends (quarter y q) = inr (_, _, refl)
ends (month y m) = inr (_, _, refl)
ends (day text) = inl (text, refl)

-- A single day and a range of days have different texts.
day-ne-span :
    (text : Text) (c : Created) (lo hi : Date)
    → IsWellFormed (day text)
    → span c ≡ some (lo, hi)
    → range_of (day text) ≢ range_of c
unfolding range_of
day-ne-span text c lo hi (d, same) p = λ e.
    Lacks-not_cut b'.' (iso_date d) (iso_date lo) (codes "." ++ iso_date hi) (no_dot d)
      (sym same ∙ e ∙ range_of-span c lo hi p)

range_of-day : {c : Created} {text : Text} → c ≡ day text → range_of c ≡ text
unfolding range_of
range_of-day p = ap range_of p

range_of_injective :
    (c c' : Created) → IsWellFormed c → IsWellFormed c' → range_of c ≡ range_of c' → c ≡ c'
range_of_injective c c' w w' e = elim (ends c) [
  | inl (text, p) ↦ elim (ends c') [
    | inl (text', p') ↦ p ∙ ap day (sym (range_of-day p) ∙ e ∙ range_of-day p') ∙ sym p'
    | inr (lo', hi', p') ↦
        absurd (day-ne-span text c' lo' hi' (subst IsWellFormed p w) p' (sym (ap range_of p) ∙ e))
  ]
  | inr (lo, hi, p) ↦ elim (ends c') [
    | inl (text', p') ↦
        absurd
          (day-ne-span text' c lo hi (subst IsWellFormed p' w') p (sym (ap range_of p') ∙ sym e))
    | inr (lo', hi', p') ↦
        let same =
          between_injective lo hi lo' hi'
            (sym (range_of-span c lo hi p) ∙ e ∙ range_of-span c' lo' hi' p') in
        span_injective c c' lo hi w w' p (cc (same.0, same.1))
  ]
]

-- What follows `<base> stars:` in a query.
abbrev rest_of : Text → Option Created → Text
rest_of stars none = stars
rest_of stars (some c) = stars ++ 32 ∷ (codes "created:" ++ range_of c)

query_of-rest : (w : Window) → query_of w ≡ (w.base ++ codes " stars:") ++ rest_of w.stars w.created
unfolding query_of
query_of-rest w = go w.created
  where
    go :
        (c : Option Created)
        → query_of (record w { created = c }) ≡ (w.base ++ codes " stars:") ++ rest_of w.stars c
    go none = simp append_assoc
    go (some c) = simp append_assoc

abbrev pub IsRange : Option Created → Type 0
IsRange none = Unit
IsRange (some c) = IsWellFormed c

rest_of_injective :
    (s s' : Text) (c c' : Option Created)
    → Lacks 32 s
    → Lacks 32 s'
    → IsRange c
    → IsRange c'
    → rest_of s c ≡ rest_of s' c'
    → (s ≡ s') × (c ≡ c')
rest_of_injective s s' none none l l' w w' e = (e, refl)
rest_of_injective s s' none (some c') l l' w w' e =
    absurd (Lacks-not_cut 32 s s' (codes "created:" ++ range_of c') l e)
rest_of_injective s s' (some c) none l l' w w' e =
    absurd (Lacks-not_cut 32 s' s (codes "created:" ++ range_of c) l' (sym e))
rest_of_injective s s' (some c) (some c') l l' w w' e =
    let cut =
      cut_unique 32 s s' {ys = codes "created:" ++ range_of c}
        {ys' = codes "created:" ++ range_of c'} l l' e in
    (cut.0, ap some (range_of_injective c c' w w' (append_cancel_left (codes "created:") cut.1)))

-- Two windows of one base with the same query text are the same window, if no star band holds a
-- space and the ranges are well formed: a resumed sweep that looks a window up by its text finds
-- that window and no other.
pub query_of_injective :
    (v w : Window)
    → v.base ≡ w.base
    → Lacks 32 v.stars
    → Lacks 32 w.stars
    → IsRange v.created
    → IsRange w.created
    → query_of v ≡ query_of w
    → v ≡ w
query_of_injective v w b l l' r r' e =
    let tails : (v.base ++ codes " stars:") ++ rest_of v.stars v.created
        ≡ (v.base ++ codes " stars:") ++ rest_of w.stars w.created =
      sym (query_of-rest v)
      ∙ e
      ∙ query_of-rest w
      ∙ ap (λ t. (t ++ codes " stars:") ++ rest_of w.stars w.created) (sym b) in
    let same =
      rest_of_injective v.stars w.stars v.created w.created l l' r r'
        (append_cancel_left (v.base ++ codes " stars:") tails) in
    λ i. record { base = b i; stars = same.0 i; created = same.1 i }
