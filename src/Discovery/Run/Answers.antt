-- ===== src/Discovery/Run/Answers.antt =====
-- What the search answers to the pages of a window, in apps/workers/src/discovery/index.ts.
use keco.Prelude.{ℕ, zero, suc, ◌+◌, ◌≡◌, ◌⊎◌, inl, inr, refl, Option, none, some}
use mathlib.Core.Path.{subst}
use keco.Prelude.Text.{Text}
use keco.Github.Item.{SearchPage}
use keco.Discovery.Store.{Backend}
use keco.Discovery.Run.{
  World, Run, found, refused, Response-cases, asked, ask, take_page, fetch_pages,
}
use keco.Discovery.Run.Effects.{record_all-state}

-- The pages from `page` on came, as many as are left, the first of them by request `n`.
abbrev pub AreFound : World → Text → ℕ → ℕ → ℕ → Type 0
AreFound world q zero n page = Unit
AreFound world q (suc left) n page =
    (answer : SearchPage) × (world.page n q page ≡ found answer)
    × AreFound world q left (n + 1) (page + 1)

-- Some page of them was refused, those before it came, and none after it was asked for.
abbrev pub IsRefused : World → Text → ℕ → ℕ → ℕ → Text → Type 0
IsRefused world q zero n page error = ⊥
IsRefused world q (suc left) n page error =
    (world.page n q page ≡ refused error)
    ⊎ ((answer : SearchPage) × (world.page n q page ≡ found answer)
        × IsRefused world q left (n + 1) (page + 1) error)

abbrev pub IsOutcome : World → Text → ℕ → ℕ → ℕ → Option Text → Type 0
IsOutcome world q left n page none = AreFound world q left n page
IsOutcome world q left n page (some error) = IsRefused world q left n page error

one_more :
    (world : World) (q : Text) (left n page : ℕ) (answer : SearchPage) (o : Option Text)
    → world.page n q page ≡ found answer
    → IsOutcome world q left (n + 1) (page + 1) o
    → IsOutcome world q (suc left) n page o
one_more world q left n page answer none e h = (answer, e, h)
one_more world q left n page answer (some error) e h = inr (answer, e, h)

module _ {S : Type 0} (b : Backend S) (world : World) (k : ℕ) where
  pub pages_fetched-take_page :
      (r : Run S) (page : SearchPage) (q : Text)
      → (take_page b world k r page q).store.state.pages_fetched ≡ r.store.state.pages_fetched
  unfolding take_page
  pages_fetched-take_page r page q = rw (record_all-state b world k _ page.items q) refl

  pub fetch_pages-IsOutcome :
      (left : ℕ) (r : Run S) (q : Text) (page : ℕ)
      → IsOutcome world q left
          (r.store.state.pages_fetched + 1)
          page
          (fetch_pages b world k left r q page).1
  unfolding fetch_pages
  fetch_pages-IsOutcome zero r q page = tt
  fetch_pages-IsOutcome (suc left) r q page = elim (Response-cases (ask b world k r q page)) [
    | inr (error, e) ↦ rw (e, fetch_pages) (inl e)
    | inl (answer, e) ↦
        let taken = take_page b world k (asked b world k r) answer q in
        let more = fetch_pages-IsOutcome left taken q (page + 1) in
        let count = pages_fetched-take_page (asked b world k r) answer q in
        rw (e, fetch_pages)
          (one_more world q left (r.store.state.pages_fetched + 1) page answer _ e (
            subst
              (λ (n : ℕ).
                IsOutcome world q left (n + 1) (page + 1)
                  (fetch_pages b world k left taken q (page + 1)).1)
              count more))
  ]
