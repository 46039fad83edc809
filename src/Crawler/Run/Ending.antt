-- ===== src/Crawler/Run/Ending.antt =====
-- How `runCrawler` of apps/workers/src/crawler/index.ts ends.
use keco.Prelude.{
  ℕ, ◌≡◌, refl, ◌⊎◌, inl, inr, true, false, ◌&&◌, Option, none, some, List, [], ◌∷◌, if◌then◌else◌,
  Option-cases, Bool-cases, ap, sym, ◌∙◌, ◌++◌,
}
use mathlib.Core.Option.{some-injective}
use keco.Prelude.Text.{Text, codes, text_eq, text_eq_iff}
use keco.DataStore.Port.{StoreError, ok, err}
use keco.DataStore.Memory.Ensuring.{Result-cases}
use keco.Crawler.Worklist.{WorkItem, WorklistOptions, Names, is_org_ref, build_worklist}
use keco.Crawler.History.{CrawlCounters, HistoryStore, finish_run, complete, failed}
use keco.Crawler.History.Ending.{finish_run-finished}
use keco.Crawler.Queue.{FetchResult, skipped, fetched, thrown}
use keco.Crawler.Run.{
  Exit, exits, throws, is_empty, provisioned, is_org, is_single, not_found, fail_run, exit_code,
  crawl_items, after_open,
}

empty-cases : (items : List WorkItem) → (items ≡ []) ⊎ (is_empty items ≡ false)
empty-cases [] = inl refl
empty-cases (_ ∷ _) = inr refl

-- The last result is one that was not found.
abbrev pub IsNotFound : List FetchResult → Type 0
IsNotFound results =
    (before : List FetchResult) × (requests : ℕ) × (points : ℕ) × (results
      ≡ before ++ skipped (codes "not-found") requests points ∷ [])

not_found-IsNotFound : (results : List FetchResult) → not_found results ≡ true → IsNotFound results
unfolding not_found
not_found-IsNotFound [] h = cc
not_found-IsNotFound (skipped reason requests points ∷ []) h = (
  [],
  requests,
  points,
  ap (λ (t : Text). skipped t requests points ∷ []) ((text_eq_iff reason (codes "not-found")).0 h),
)
not_found-IsNotFound (fetched hash changed icon requests points ∷ []) h = cc
not_found-IsNotFound (thrown message ∷ []) h = cc
not_found-IsNotFound (r ∷ s ∷ rs) h =
    let more = not_found-IsNotFound (s ∷ rs) h in
    (r ∷ more.0, more.1, more.2, ap (λ (l : List FetchResult). r ∷ l) more.3)

not_found_of_last :
    (before : List FetchResult) (requests points : ℕ)
    → not_found (before ++ skipped (codes "not-found") requests points ∷ []) ≡ true
unfolding not_found text_eq
not_found_of_last [] requests points = refl
not_found_of_last (b ∷ []) requests points = refl
not_found_of_last (b ∷ c ∷ cs) requests points = not_found_of_last (c ∷ cs) requests points

IsNotFound-not_found : (results : List FetchResult) → IsNotFound results → not_found results ≡ true
IsNotFound-not_found results h = rw (h.3) (not_found_of_last h.0 h.1 h.2)

-- The error of a run that fails: that of the row which could not be written, or the one it failed by.
abbrev pub IsThrown : HistoryStore → StoreError → ℕ → StoreError → Type 0
IsThrown s e now error =
    ((finish_run s failed now).1 ≡ some error)
    ⊎ (((finish_run s failed now).1 ≡ none) × (error ≡ e))

fail_run-IsThrown :
    (s : HistoryStore) (e : StoreError) (now : ℕ)
    → (error : StoreError) × ((fail_run s e now).1 ≡ throws error) × IsThrown s e now error
unfolding fail_run
fail_run-IsThrown s e now = elim (Option-cases (finish_run s failed now).1) [
  | inl fine ↦ (e, rw fine refl, inr (fine, refl))
  | inr (later, broken) ↦ (later, rw broken refl, inl broken)
]

module _ (names : Names) (options : WorklistOptions)
    (crawl : List WorkItem → CrawlCounters × List FetchResult) where
  fail_run-finished :
      (s : HistoryStore) (e : StoreError) (now : ℕ) → (fail_run s e now).0.finished ≡ true
  unfolding fail_run
  fail_run-finished s e now = finish_run-finished s failed now

  -- One repository was named, and its only result is that it was not found.
  abbrev pub IsMissing : List FetchResult → Type 0
  IsMissing results =
      (repo : Text) × (options.repo ≡ some repo) × (is_org_ref repo ≡ false) × IsNotFound results

  -- An organisation was named, and has no repository on the list.
  abbrev pub IsEmptyOrg : List WorkItem → Type 0
  IsEmptyOrg items =
      (repo : Text) × (options.repo ≡ some repo) × (is_org_ref repo ≡ true) × (items ≡ [])

  -- The code 1 of these two, and the code 0 of all others.
  abbrev pub IsCode : List WorkItem → List FetchResult → ℕ → Type 0
  IsCode items results code =
      ((code ≡ 1) × (IsMissing results ⊎ IsEmptyOrg items))
      ⊎ ((code ≡ 0) × (¬ IsMissing results) × (¬ IsEmptyOrg items))

  exit_code-IsCode :
      (items : List WorkItem) (results : List FetchResult)
      → IsCode items results (exit_code names options crawl items results)
  unfolding exit_code
  exit_code-IsCode items results = code_of options.repo refl
    where
      other_way :
          (a b : Text)
          → options.repo ≡ some a
          → options.repo ≡ some b
          → is_org_ref a ≡ false
          → is_org_ref b ≡ true
          → ⊥
      other_way a b p q h k =
          let same : a ≡ b = some-injective a b (sym p ∙ q) in cc (sym h ∙ ap is_org_ref same ∙ k)

      code_of :
          (o : Option Text)
          → options.repo ≡ o
          → IsCode items results (
              if is_single o && not_found results
              then 1
              else if is_org o && is_empty items
              then 1
              else 0)
      code_of none e = inr (refl, (λ h. cc (h.1, e)), (λ h. cc (h.1, e)))
      code_of (some repo) e = elim (Bool-cases (is_org_ref repo)) [
        | inl org ↦ elim (empty-cases items) [
          | inl empty ↦ rw (org, empty) (inl (refl, inr (repo, e, org, refl)))
          | inr full ↦
              rw (org, full)
                (inr (
                  refl,
                  (λ h. other_way h.0 repo h.1 e h.2 org),
                  (λ h. cc (ap is_empty h.3, full)),
                ))
        ]
        | inr single ↦ elim (Bool-cases (not_found results)) [
          | inl missing ↦
              rw (single, missing)
                (inl (refl, inl (repo, e, single, not_found-IsNotFound results missing)))
          | inr there ↦
              rw (single, there)
                (inr (
                  refl,
                  (λ h. cc (IsNotFound-not_found results h.3, there)),
                  (λ h. other_way repo h.0 e h.1 single h.2),
                ))
        ]
      ]

  -- What `crawl` counted, with the collections that the work list provisioned.
  abbrev pub counted : HistoryStore → List WorkItem → HistoryStore
  counted s items = record s {
    data_store = provisioned options.repo s.data_store;
    counters = (crawl items).0;
  }

  -- How a run that was opened ends: it throws where the work list cannot be read, or where the ending
  -- `complete` cannot be written, and else it exits with its code.
  abbrev pub EndsAs : HistoryStore → ℕ → Exit → Type 0
  EndsAs s now exit =
      ((e : StoreError) × (error : StoreError) × (build_worklist names options s.data_store ≡ err e)
        × (exit ≡ throws error)
        × IsThrown (record s { data_store = provisioned options.repo s.data_store }) e now error)
      ⊎ ((items : List WorkItem) × (build_worklist names options s.data_store ≡ ok items)
          × (((e : StoreError) × (error : StoreError) × ((finish_run (counted s items) complete
                    now).1
                  ≡ some e)
                × (exit ≡ throws error)
                × IsThrown (finish_run (counted s items) complete now).0 e now error)
              ⊎ (((finish_run (counted s items) complete now).1 ≡ none)
                  × ((code : ℕ) × (exit ≡ exits code) × IsCode items (crawl items).1 code))))

  crawl_items-finished :
      (s : HistoryStore) (items : List WorkItem) (now : ℕ)
      → (crawl_items names options crawl s items now).0.finished ≡ true
  unfolding crawl_items
  crawl_items-finished s items now =
      let begun = record s { counters = (crawl items).0 } in
      elim (Option-cases (finish_run begun complete now).1) [
        | inl fine ↦ simp (crawl_items, fine) (finish_run-finished begun complete now)
        | inr (e, broken) ↦
            simp (crawl_items, broken) (fail_run-finished (finish_run begun complete now).0 e now)
      ]

  after_open-finished :
      (s : HistoryStore) (now : ℕ) → (after_open names options crawl s now).0.finished ≡ true
  unfolding after_open
  after_open-finished s now =
      let listed = record s { data_store = provisioned options.repo s.data_store } in
      elim (Result-cases (build_worklist names options s.data_store)) [
        | inr (e, broken) ↦ simp (after_open, broken) (fail_run-finished listed e now)
        | inl (items, fine) ↦ simp (after_open, fine) (crawl_items-finished listed items now)
      ]

  after_open-EndsAs :
      (s : HistoryStore) (now : ℕ) → EndsAs s now (after_open names options crawl s now).1
  unfolding after_open crawl_items
  after_open-EndsAs s now =
      let listed = record s { data_store = provisioned options.repo s.data_store } in
      elim (Result-cases (build_worklist names options s.data_store)) [
        | inr (e, broken) ↦
            let thrown_ = fail_run-IsThrown listed e now in
            inl (e, thrown_.0, broken, simp (after_open, broken, thrown_.1) refl, thrown_.2)
        | inl (items, fine) ↦ elim (Option-cases (finish_run (counted s items) complete now).1) [
          | inr (e, unwritten) ↦
              let thrown_ = fail_run-IsThrown (finish_run (counted s items) complete now).0 e now in
              inr (
                items,
                fine,
                inl (
                  e,
                  thrown_.0,
                  unwritten,
                  simp (after_open, fine, crawl_items, unwritten, thrown_.1) refl,
                  thrown_.2,
                ),
              )
          | inl written ↦ inr (
            items,
            fine,
            inr (
              written,
              (
                exit_code names options crawl items (crawl items).1,
                simp (after_open, fine, crawl_items, written) refl,
                exit_code-IsCode items (crawl items).1,
              ),
            ),
          )
        ]
      ]

  -- Every run that opened its history ends it, on every path. It throws where the work list cannot be
  -- read or the ending cannot be written, and only there: the error it failed by, or that of the row
  -- `failed`. Else it exits, with 1 where one repository was named and its last result is that it was not
  -- found, or an organisation was named and has no repository on the list, and with 0 in every other case,
  -- whatever failed in it.
  pub after_open-ends :
      (s : HistoryStore) (now : ℕ)
      → ((after_open names options crawl s now).0.finished ≡ true)
        × EndsAs s now (after_open names options crawl s now).1
  after_open-ends s now = (after_open-finished s now, after_open-EndsAs s now)
