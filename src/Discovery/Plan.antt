-- ===== src/Discovery/Plan.antt =====
-- apps/workers/src/discovery/plan.ts: what to do with a window once its probe page is back.
use keco.Prelude.{
  ℕ, suc, ◌+◌, ◌-◌, ◌*◌, ◌/◌, ◌≤◌, ◌<◌, min, max, ◌≡◌, ◌≢◌, ◌⊎◌, inl, inr, refl, Bool, true, false,
  Option, none, some, List, [], ◌∷◌, arith, leb, Bool-cases, ap, map, zero, if◌then◌else◌, ◌%◌,
}
use native.Mathlib.Nat.{
  le_trans, mul-le-mul_right, div-mul-le_self, le-div_iff_mul-le, mod-lt, div-add-mod,
}
use native.Mathlib.Decide.{dec_le}
use keco.Discovery.Dates.{days_in_month, days_in_month_pos}
use keco.Discovery.Windows.{
  Created, years, year, quarter, month, day, Window, split_created, split, year_windows,
  day_windows,
}
use keco.Discovery.Windows.Identity.{IsRange}

abbrev pub max_results_per_query : ℕ
max_results_per_query = 1000

abbrev pub per_page_cap : ℕ
per_page_cap = 100

pub record WindowPlan : Type 0 where
  pub last_page : ℕ
  pub children : List Window
  pub truncated : Bool

-- `Math.ceil(count / perPage)` for a positive page size.
abbrev ceil_div : ℕ → ℕ → ℕ
ceil_div count per_page = (count + per_page - 1) / per_page

unfoldable pub pages_for : ℕ → ℕ → ℕ
pages_for count per_page = max 1 (min (ceil_div count per_page) (max_results_per_query / per_page))

-- The tail of `planWindow`, once the window is known to be over the cap.
plan_children : List Window → ℕ → WindowPlan
plan_children [] per_page = record {
  last_page = pages_for max_results_per_query per_page;
  children = [];
  truncated = true;
}
plan_children (w ∷ ws) per_page = record { last_page = 1; children = w ∷ ws; truncated = false }

-- `now` enters through its UTC year alone, as in `split`.
unfoldable pub plan_window : Window → ℕ → ℕ → ℕ → WindowPlan
unfolding plan_children
plan_window window total_count current_year per_page =
    if leb total_count max_results_per_query
    then record { last_page = pages_for total_count per_page; children = []; truncated = false }
    else plan_children (split window current_year) per_page

ceil_div-reach : (count p : ℕ) → 0 < p → count ≤ ceil_div count p * p
ceil_div-reach count p h = omega (arith, div-add-mod (count + p - 1) p, mod-lt (count + p - 1) h)

-- No page that a plan asks for reaches past the 1000 results that GitHub serves.
pages_for-cap : (count p : ℕ) → 0 < p → p ≤ 1000 → pages_for count p * p ≤ 1000
unfolding pages_for
pages_for-cap count p h k =
    let one_page : 1 ≤ 1000 / p = (le-div_iff_mul-le h).1 (omega arith) in
    le_trans (mul-le-mul_right p (omega arith)) (div-mul-le_self 1000 p)

pages_for-pos : (count p : ℕ) → 1 ≤ pages_for count p
unfolding pages_for
pages_for-pos count p = omega arith

pages_for-full : (p : ℕ) → 0 < p → 1000 / p ≤ pages_for 1000 p
unfolding pages_for
pages_for-full p h =
    let below : 1000 / p ≤ ceil_div 1000 p =
      (le-div_iff_mul-le h).1 (le_trans (div-mul-le_self 1000 p) (omega arith)) in
    omega arith

-- The pages hold all results, but for those past the last whole page under the cap, where the page
-- size does not divide the cap.
abbrev pub IsReadToEnd : ℕ → ℕ → ℕ → Type 0
IsReadToEnd total per_page last_page =
    (total ≤ last_page * per_page)
    ⊎ ((1000 % per_page ≢ 0) × (last_page ≡ 1000 / per_page) × (last_page * per_page < total))

pages_for-IsReadToEnd :
    (count p : ℕ) → 0 < p → p ≤ 1000 → count ≤ 1000 → IsReadToEnd count p (pages_for count p)
unfolding pages_for
pages_for-IsReadToEnd count p h k within = elim (dec_le (ceil_div count p) (1000 / p)) [
  | yes fits ↦ inl (le_trans (ceil_div-reach count p h) (mul-le-mul_right p (omega arith)))
  | no over ↦
      let one_page : 1 ≤ 1000 / p = (le-div_iff_mul-le h).1 (omega arith) in
      let last : pages_for count p ≡ 1000 / p = omega arith in
      let more : suc (1000 / p) * p ≤ count + p - 1 = (le-div_iff_mul-le h).0 (omega arith) in
      let past : 1000 / p * p < count = omega arith in
      rw last (inr ((λ e. omega (arith, e, past, within, div-add-mod 1000 p)), refl, past))
]

abbrev pub is_day : Option Created → Bool
is_day (some (day text)) = true
is_day _ = false

abbrev IsCons : List Created → Type 0
IsCons cs = (first : Created) × (rest : List Created) × (cs ≡ first ∷ rest)

year_windows-IsCons : (n first : ℕ) → 0 < n → IsCons (year_windows n first)
unfolding year_windows
year_windows-IsCons zero first h = elim h [ ]
year_windows-IsCons (suc n) first h = (_, _, refl)

day_windows-IsCons : (y m n first : ℕ) → 0 < n → IsCons (day_windows y m n first)
unfolding day_windows
day_windows-IsCons y m zero first h = elim h [ ]
day_windows-IsCons y m (suc n) first h = (_, _, refl)

split_created-IsCons :
    (c : Option Created) (k : ℕ) → IsRange c → is_day c ≡ false → IsCons (split_created c k)
unfolding split_created
split_created-IsCons none k h _ = (_, _, refl)
split_created-IsCons (some (years f t)) k h _ = year_windows-IsCons (t + 1 - f) f (omega arith)
split_created-IsCons (some (year y)) k h _ = (_, _, refl)
split_created-IsCons (some (quarter y q)) k h _ = (_, _, refl)
split_created-IsCons (some (month y m)) k h _ =
    day_windows-IsCons y m (days_in_month y m) 1 (omega (arith, days_in_month_pos y m))
split_created-IsCons (some (day text)) k h d = cc

split-day : (w : Window) (k : ℕ) → is_day w.created ≡ true → split w k ≡ []
unfolding split
split-day w k h = go w.created h
  where
    go : (c : Option Created) → is_day c ≡ true → split (record w { created = c }) k ≡ []
    go (some (day text)) e = refl
    go (some (years f t)) e = cc
    go (some (year y)) e = cc
    go (some (quarter y q)) e = cc
    go (some (month y m)) e = cc
    go none e = cc

split-range :
    (w : Window) (k : ℕ)
    → IsRange w.created
    → is_day w.created ≡ false
    → (first : Window) × (rest : List Window) × (split w k ≡ first ∷ rest)
unfolding split
split-range w k h d =
    let (first, rest, e) = split_created-IsCons w.created k h d in
    (_, _, ap (map (λ c. record w { created = some c })) e)

-- The three plans. A window under the cap is read to its end, or to the last whole page under the cap.
pub record Small (total per_page : ℕ) (plan : WindowPlan) : Type 0 where
  pub under : total ≤ 1000
  pub no_parts : plan.children ≡ []
  pub kept : plan.truncated ≡ false
  pub reads : IsReadToEnd total per_page plan.last_page

-- A larger range is split, and its probe page is all that is fetched of it.
pub record Divided (w : Window) (total : ℕ) (plan : WindowPlan) : Type 0 where
  pub over : 1000 < total
  pub range : is_day w.created ≡ false
  pub parts : plan.children ≢ []
  pub probe_only : plan.last_page ≡ 1
  pub kept : plan.truncated ≡ false

-- A single day over the cap gives up results, after every whole page under the cap.
pub record GivenUp (w : Window) (total per_page : ℕ) (plan : WindowPlan) : Type 0 where
  pub over : 1000 < total
  pub single_day : is_day w.created ≡ true
  pub no_parts : plan.children ≡ []
  pub flagged : plan.truncated ≡ true
  pub reads : 1000 / per_page ≤ plan.last_page

abbrev pub IsSound : Window → ℕ → ℕ → WindowPlan → Type 0
IsSound w total per_page plan =
    (1 ≤ plan.last_page)
    × (plan.last_page * per_page ≤ 1000)
    × (Small total per_page plan ⊎ (Divided w total plan ⊎ GivenUp w total per_page plan))

plan_small :
    (w : Window) (total k p : ℕ)
    → total ≤ 1000
    → 0 < p
    → p ≤ 1000
    → IsSound w total p (plan_window w total k p)
unfolding plan_window
plan_small w total k p fits h hp =
    let within : leb total 1000 ≡ true = ground arith in
    rw within (
      pages_for-pos total p,
      pages_for-cap total p h hp,
      inl (record {
        under = fits;
        no_parts = refl;
        kept = refl;
        reads = pages_for-IsReadToEnd total p h hp fits;
      }),
    )

plan_day :
    (w : Window) (total k p : ℕ)
    → 1000 < total
    → is_day w.created ≡ true
    → 0 < p
    → p ≤ 1000
    → IsSound w total p (plan_window w total k p)
unfolding plan_window
plan_day w total k p over d h hp =
    let beyond : leb total 1000 ≡ false = ground arith in
    rw (beyond, split-day w k d)
      (
        pages_for-pos 1000 p,
        pages_for-cap 1000 p h hp,
        inr (
            inr (record {
              over = over;
              single_day = d;
              no_parts = refl;
              flagged = refl;
              reads = pages_for-full p h;
            })),
      )

plan_range :
    (w : Window) (total k p : ℕ)
    → 1000 < total
    → is_day w.created ≡ false
    → IsRange w.created
    → 0 < p
    → p ≤ 1000
    → IsSound w total p (plan_window w total k p)
unfolding plan_window
plan_range w total k p over d r h hp =
    let beyond : leb total 1000 ≡ false = ground arith in
    let (first, rest, e) = split-range w k r d in
    rw (beyond, e)
      (
        omega arith,
        omega arith,
        inr (
            inl (record {
              over = over;
              range = d;
              parts = λ x. ground (arith, x);
              probe_only = refl;
              kept = refl;
            })),
      )

-- For every window with a well-formed range, every result count and every page size from 1 to 1000,
-- the plan asks for one page at least and for none past the cap of 1000 results, and is one of three:
-- a window of at most 1000 results is not split, and its pages hold all of them, unless the page size
-- does not divide 1000 and the last of them lie past the last whole page under the cap, at which the
-- plan then ends; a range of more is split after its probe page; and a single day of more gives up
-- results, after every whole page under the cap.
pub plan_window-IsSound :
    (w : Window) (total k p : ℕ)
    → IsRange w.created
    → 0 < p
    → p ≤ 1000
    → IsSound w total p (plan_window w total k p)
plan_window-IsSound w total k p r h hp = elim (dec_le total 1000) [
  | yes fits ↦ plan_small w total k p fits h hp
  | no over ↦ elim (Bool-cases (is_day w.created)) [
    | inl d ↦ plan_day w total k p (omega arith) d h hp
    | inr d ↦ plan_range w total k p (omega arith) d r h hp
  ]
]

-- The parts that a plan queues are none, or all that the split gives.
pub plan_window-children :
    (w : Window) (total k p : ℕ)
    → ((plan_window w total k p).children ≡ [])
      ⊎ (((plan_window w total k p).children ≡ split w k) × (split w k ≢ []))
unfolding plan_window
plan_window-children w total k p = elim (Bool-cases (leb total 1000)) [
  | inl within ↦ rw within (inl refl)
  | inr beyond ↦ rw beyond (go (split w k))
]
  where
    go :
        (ws : List Window)
        → ((plan_children ws p).children ≡ []) ⊎ (((plan_children ws p).children ≡ ws) × (ws ≢ []))
    go [] = inl refl
    go (v ∷ vs) = inr (refl, λ e. cc)
