-- ===== src/Crawler/Queue/Counting.antt =====
-- The counters of `crawl`, apps/workers/src/crawler/index.ts, in every order of its tasks' steps.
use keco.Prelude.{
  ℕ, suc, ◌+◌, ◌≤◌, ◌<◌, ◌≡◌, refl, ap, ◌∙◌, ◌⊎◌, inl, inr, Bool, true, false, List, ◌∷◌, ◌++◌,
  arith, indicator, length, length-append, Bool-cases,
}
use keco.Crawler.Worklist.{WorkItem}
use keco.Crawler.History.{CrawlCounters}
use keco.Crawler.Queue.{
  FetchResult, skipped, fetched, thrown, Crawl, begin, start_task, settle, end_fetch, to_report,
  Step, started, ended, reported, Reaches, queued, stepped,
}

abbrev pub outcomes : CrawlCounters → ℕ
outcomes c = c.repos_fetched + c.repos_unchanged + c.repos_skipped + c.repos_failed

-- Every repository that was seen is counted by its outcome once, or is still being fetched; none is
-- seen twice; and the quota stops the run at most once.
pub record IsCounted (concurrency : ℕ) (items : List WorkItem) (s : Crawl) : Type 0 where
  pub seen : s.counters.repos_seen ≡ outcomes s.counters + length s.fetching
  pub at_most : s.counters.repos_seen + s.counters.rate_limited + length s.waiting ≤ length items
  pub all_seen : (s.stopped ≡ true) ⊎ (s.counters.repos_seen + length s.waiting ≡ length items)
  pub limited : s.counters.rate_limited ≡ indicator s.stopped
  pub icons : s.counters.icons_updated ≤ s.counters.repos_fetched
  pub slots : length s.fetching + length s.reporting ≤ concurrency

going_seen {ℓ} : {A : Type ℓ} (stopped : Bool) → stopped ≡ false → (stopped ≡ true) ⊎ A → A
going_seen stopped going (inl over) = cc
going_seen stopped going (inr a) = a

pub length-middle :
    (before : List WorkItem) (item : WorkItem) (after : List WorkItem)
    → length (before ++ item ∷ after) ≡ length (before ++ after) + 1
length-middle before item after =
    omega (arith, length-append before (item ∷ after), length-append before after)

settle-outcomes :
    (c : CrawlCounters) (r : FetchResult)
    → (outcomes (settle c r) ≡ outcomes c + 1)
      × ((settle c r).repos_seen ≡ c.repos_seen)
      × ((settle c r).rate_limited ≡ c.rate_limited)
      × (c.icons_updated ≤ c.repos_fetched
          → (settle c r).icons_updated ≤ (settle c r).repos_fetched)
unfolding settle
settle-outcomes c (skipped reason requests points) = ground arith
settle-outcomes c (fetched hash true true requests points) = ground arith
settle-outcomes c (fetched hash true false requests points) = ground arith
settle-outcomes c (fetched hash false icon requests points) = ground arith
settle-outcomes c (thrown message) = ground arith

pub length-to_report :
    (r : FetchResult) (item : WorkItem) (reporting : List WorkItem)
    → length (to_report r item reporting) ≤ length reporting + 1
length-to_report (skipped _ _ _) item reporting = omega arith
length-to_report (fetched _ _ _ _ _) item reporting = omega arith
length-to_report (thrown _) item reporting = omega arith

module _ (concurrency : ℕ) (items : List WorkItem) where
  start_task-IsCounted :
      (s : Crawl) (item : WorkItem) (rest : List WorkItem) (exhausted : Bool)
      → s.waiting ≡ item ∷ rest
      → length s.fetching + length s.reporting < concurrency
      → IsCounted concurrency items s
      → IsCounted concurrency items (start_task s item rest exhausted)
  unfolding start_task
  start_task-IsCounted s item rest exhausted e free h =
      let waiting : length s.waiting ≡ suc (length rest) = ap length e in
      elim (Bool-cases s.stopped) [
        | inl over ↦
            simp (start_task, over)
              (record {
                seen = h.seen;
                at_most = omega (arith, waiting, h.at_most);
                all_seen = inl refl;
                limited = h.limited ∙ ap indicator over;
                icons = h.icons;
                slots = h.slots;
              })
        | inr going ↦
            let all : s.counters.repos_seen + length s.waiting ≡ length items =
              going_seen s.stopped going h.all_seen in
            let unlimited : s.counters.rate_limited ≡ 0 = h.limited ∙ ap indicator going in
            elim (Bool-cases exhausted) [
              | inl out ↦
                  simp (start_task, going, out)
                    (record {
                      seen = h.seen;
                      at_most = omega (arith, waiting, h.at_most);
                      all_seen = inl refl;
                      limited = omega (arith, unlimited);
                      icons = h.icons;
                      slots = h.slots;
                    })
              | inr quota ↦
                  simp (start_task, going, quota)
                    (record {
                      seen = omega (arith, h.seen);
                      at_most = omega (arith, waiting, h.at_most);
                      all_seen = inr (omega (arith, waiting, all));
                      limited = unlimited;
                      icons = h.icons;
                      slots = omega arith;
                    })
            ]
      ]

  Step-IsCounted :
      (s t : Crawl)
      → Step concurrency s t
      → IsCounted concurrency items s
      → IsCounted concurrency items t
  unfolding end_fetch
  Step-IsCounted s _ (started _ item rest exhausted e free) h =
      start_task-IsCounted s item rest exhausted e free h
  Step-IsCounted s _ (ended _ item before after result e) h =
      let (outcome, seen, limited, icons) = settle-outcomes s.counters result in
      let fetching : length s.fetching ≡ length (before ++ after) + 1 =
        ap length e ∙ length-middle before item after in
      let bound = length-to_report result item s.reporting in
      unfold end_fetch in
      record {
        seen = omega (arith, h.seen, fetching, outcome, seen);
        at_most = omega (arith, h.at_most, seen, limited);
        all_seen = elim h.all_seen [
          | inl over ↦ inl over
          | inr all ↦ inr (omega (arith, all, seen))
        ];
        limited = limited ∙ h.limited;
        icons = icons h.icons;
        slots = omega (arith, h.slots, fetching, bound);
      }
  Step-IsCounted s _ (reported _ item before after e) h =
      let reporting : length s.reporting ≡ length (before ++ after) + 1 =
        ap length e ∙ length-middle before item after in
      record {
        seen = h.seen;
        at_most = h.at_most;
        all_seen = h.all_seen;
        limited = h.limited;
        icons = h.icons;
        slots = omega (arith, h.slots, reporting);
      }

  -- In every order in which the tasks take their steps, whatever `fetchRepo` and the quota answer, the
  -- repositories seen are those fetched, unchanged, skipped and failed and those still being fetched; no
  -- more are seen than there are items, and all of them unless the quota stopped the run, which it does
  -- once; and no more tasks are under way than the queue allows.
  pub Reaches-IsCounted :
      (n : ℕ) (s : Crawl) → Reaches concurrency items n s → IsCounted concurrency items s
  unfolding begin
  Reaches-IsCounted _ _ queued = record {
    seen = refl;
    at_most = omega arith;
    all_seen = inr (omega arith);
    limited = refl;
    icons = omega arith;
    slots = omega arith;
  }
  Reaches-IsCounted _ _ (stepped n s t before step) =
      Step-IsCounted s t step (Reaches-IsCounted n s before)
