-- ===== src/Crawler/Queue/Draining.antt =====
-- How `crawl` of apps/workers/src/crawler/index.ts comes to `onIdle`.
use keco.Prelude.{
  ℕ, suc, ◌+◌, ◌*◌, ◌≤◌, ◌<◌, ◌≡◌, ap, ◌∙◌, ◌⊎◌, inl, inr, Bool, false, List, [], ◌∷◌, ◌++◌, arith,
  length, Bool-cases, List-cases,
}
use keco.Crawler.Worklist.{WorkItem}
use keco.Crawler.Queue.{
  thrown, Crawl, begin, start_task, end_fetch, Step, started, ended, reported, Reaches, queued,
  stepped,
}
use keco.Crawler.Queue.Counting.{length-middle, length-to_report}

-- The steps that are left at most.
abbrev pub weight : Crawl → ℕ
weight s = 3 * length s.waiting + 2 * length s.fetching + length s.reporting

abbrev pub IsIdle : Crawl → Type 0
IsIdle s = (s.waiting ≡ []) × (s.fetching ≡ []) × (s.reporting ≡ [])

start_task-weight :
    (s : Crawl) (item : WorkItem) (rest : List WorkItem) (exhausted : Bool)
    → s.waiting ≡ item ∷ rest
    → weight (start_task s item rest exhausted) + 1 ≤ weight s
unfolding start_task
start_task-weight s item rest exhausted e =
    let waiting : length s.waiting ≡ suc (length rest) = ap length e in
    elim (Bool-cases s.stopped) [
      | inl over ↦ simp (start_task, over) (omega (arith, waiting))
      | inr going ↦ elim (Bool-cases exhausted) [
        | inl out ↦ simp (start_task, going, out) (omega (arith, waiting))
        | inr quota ↦ simp (start_task, going, quota) (omega (arith, waiting))
      ]
    ]

Step-weight : (concurrency : ℕ) (s t : Crawl) → Step concurrency s t → weight t + 1 ≤ weight s
unfolding end_fetch
Step-weight concurrency s _ (started _ item rest exhausted e free) =
    start_task-weight s item rest exhausted e
Step-weight concurrency s _ (ended _ item before after result e) =
    let fetching : length s.fetching ≡ length (before ++ after) + 1 =
      ap length e ∙ length-middle before item after in
    unfold end_fetch in omega (arith, fetching, length-to_report result item s.reporting)
Step-weight concurrency s _ (reported _ item before after e) =
    let reporting : length s.reporting ≡ length (before ++ after) + 1 =
      ap length e ∙ length-middle before item after in
    omega (arith, reporting)

Reaches-weight :
    (concurrency : ℕ) (items : List WorkItem) (n : ℕ) (s : Crawl)
    → Reaches concurrency items n s
    → n + weight s ≤ 3 * length items
unfolding begin
Reaches-weight concurrency items _ _ queued = omega arith
Reaches-weight concurrency items _ _ (stepped n s t before step) =
    omega (arith, Reaches-weight concurrency items n s before, Step-weight concurrency s t step)

can_start :
    (concurrency : ℕ) (s : Crawl) (item : WorkItem) (rest : List WorkItem)
    → 0 < concurrency
    → s.waiting ≡ item ∷ rest
    → s.fetching ≡ []
    → s.reporting ≡ []
    → (t : Crawl) × Step concurrency s t
can_start concurrency s item rest positive e none_fetched none_reported =
    (_, started s item rest false e (rw (none_fetched, none_reported) positive))

not_stuck :
    (concurrency : ℕ) (s : Crawl)
    → 0 < concurrency
    → IsIdle s ⊎ ((t : Crawl) × Step concurrency s t)
not_stuck concurrency s positive = elim (List-cases s.fetching) [
  | inr (item, others, e) ↦ inr (_, ended s item [] others (thrown []) e)
  | inl none_fetched ↦ elim (List-cases s.reporting) [
    | inr (item, others, e) ↦ inr (_, reported s item [] others e)
    | inl none_reported ↦ elim (List-cases s.waiting) [
      | inr (item, rest, e) ↦
          inr (can_start concurrency s item rest positive e none_fetched none_reported)
      | inl none_waits ↦ inl (none_waits, none_fetched, none_reported)
    ]
  ]
]

-- On a queue that runs a task at all, `crawl` comes to its end in every order of the tasks' steps: no
-- more than three steps are taken for each item, and as long as a task is left, one of them can step.
pub Reaches-drains :
    (concurrency : ℕ) (items : List WorkItem) (n : ℕ) (s : Crawl)
    → 0 < concurrency
    → Reaches concurrency items n s
    → (n ≤ 3 * length items) × (IsIdle s ⊎ ((t : Crawl) × Step concurrency s t))
Reaches-drains concurrency items n s positive reached =
    (omega (arith, Reaches-weight concurrency items n s reached), not_stuck concurrency s positive)
