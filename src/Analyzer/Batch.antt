-- ===== src/Analyzer/Batch.antt =====
-- A batch of apps/workers/src/analyzer/index.ts, cut off between two of its effects.
use keco.Prelude.{
  ℕ, zero, suc, ◌≡◌, refl, ap, sym, ◌∙◌, ◌⊎◌, inl, inr, true, false, Option, some, List, [], ◌∷◌,
  ◌++◌, take, All, append_assoc, append-nil, Bool,
}
use keco.Prelude.Text.{Text, codes}
use keco.Core.Events.{
  NewEvent, repo_discovered, repo_fetched, repo_analyzed, repo_skipped, repo_failed, Event, analyze,
}
use keco.Analyzer.{
  Outcome, not_crawled, analyzed, thrown, Effect, put_analysis, append_event, advance_to,
  analyze_item, handle, analyze_batch, is_partial, record_success, record_failure,
}

-- Where the checkpoint stands after effects.
abbrev pub checkpoint_after : Option Text → List Effect → Option Text
checkpoint_after last [] = last
checkpoint_after last (advance_to id ∷ es) = checkpoint_after (some id) es
checkpoint_after last (put_analysis repo a ∷ es) = checkpoint_after last es
checkpoint_after last (append_event e ∷ es) = checkpoint_after last es

abbrev pub last_id : Option Text → List Event → Option Text
last_id last [] = last
last_id last (e ∷ es) = last_id (some e.id) es

abbrev IsWork : Effect → Type 0
IsWork (advance_to id) = ⊥
IsWork (put_analysis repo a) = Unit
IsWork (append_event e) = Unit

work_keeps_checkpoint :
    (last : Option Text) (es fs : List Effect)
    → All IsWork es
    → checkpoint_after last (es ++ fs) ≡ checkpoint_after last fs
work_keeps_checkpoint last [] fs h = refl
work_keeps_checkpoint last (advance_to id ∷ es) fs h = absurd h.0
work_keeps_checkpoint last (put_analysis repo a ∷ es) fs h = work_keeps_checkpoint last es fs h.1
work_keeps_checkpoint last (append_event e ∷ es) fs h = work_keeps_checkpoint last es fs h.1

-- A prefix of work, an effect and more is a prefix of the work, or has that effect.
take_work :
    (n : ℕ) (es : List Effect) (f : Effect) (fs : List Effect)
    → ((m : ℕ) × (take n (es ++ f ∷ fs) ≡ take m es))
      ⊎ ((m : ℕ) × (take n (es ++ f ∷ fs) ≡ es ++ f ∷ take m fs))
take_work zero [] f fs = inl (0, refl)
take_work (suc n) [] f fs = inr (n, refl)
take_work zero (e ∷ es) f fs = inl (0, refl)
take_work (suc n) (e ∷ es) f fs = elim (take_work n es f fs) [
  | inl (m, early) ↦ inl (suc m, ap (λ xs. e ∷ xs) early)
  | inr (m, late) ↦ inr (m, ap (λ xs. e ∷ xs) late)
]

take-IsWork : (n : ℕ) (es : List Effect) → All IsWork es → All IsWork (take n es)
take-IsWork zero es h = tt
take-IsWork (suc n) [] h = tt
take-IsWork (suc n) (e ∷ es) h = (h.0, take-IsWork n es h.1)

-- Whether signals are missing.
abbrev pub IsPartial : List Text → Bool → Type 0
IsPartial [] partial = partial ≡ false
IsPartial (_ ∷ _) partial = partial ≡ true

is_partial-lem : (signals : List Text) → IsPartial signals (is_partial signals)
is_partial-lem [] = refl
is_partial-lem (_ ∷ _) = refl

module _ (work : Text → Text → Text → Outcome) where
  analyze_item-IsWork : (repo : Text) (o : Outcome) → All IsWork (analyze_item repo o)
  unfolding analyze_item
  analyze_item-IsWork repo not_crawled = (tt, tt)
  analyze_item-IsWork repo (analyzed a) = (tt, (tt, tt))
  analyze_item-IsWork repo (thrown message) = (tt, tt)

  handle-IsWork : (id : Text) (e : NewEvent) → All IsWork (handle work id e)
  unfolding handle
  handle-IsWork id (repo_fetched repo hash true) = analyze_item-IsWork repo (work id repo hash)
  handle-IsWork id (repo_fetched repo hash false) = tt
  handle-IsWork id (repo_discovered _ _) = tt
  handle-IsWork id (repo_analyzed _ _ _ _) = tt
  handle-IsWork id (repo_skipped _ _) = tt
  handle-IsWork id (repo_failed _ _ _) = tt

  -- What is owed for a repository, by what its analysis came to: the analysis and then its report, or
  -- the report that there is none.
  abbrev pub IsReport : Text → Outcome → List Effect → Type 0
  IsReport repo not_crawled done =
      done ≡ append_event (repo_skipped repo (codes "not-crawled")) ∷ []
  IsReport repo (analyzed a) done =
      (partial : Bool) × (IsPartial a.partial_signals partial)
      × (done
          ≡ put_analysis repo a
            ∷ append_event (repo_analyzed repo a.content_hash a.confidence partial)
            ∷ [])
  IsReport repo (thrown message) done = done ≡ append_event (repo_failed repo analyze message) ∷ []

  -- What is owed for an event: for a fetched repository that changed the report of its analysis, and
  -- for any other event nothing.
  abbrev pub IsOwed : Text → NewEvent → List Effect → Type 0
  IsOwed id (repo_fetched repo hash true) done = IsReport repo (work id repo hash) done
  IsOwed id (repo_fetched repo hash false) done = done ≡ []
  IsOwed id (repo_discovered _ _) done = done ≡ []
  IsOwed id (repo_analyzed _ _ _ _) done = done ≡ []
  IsOwed id (repo_skipped _ _) done = done ≡ []
  IsOwed id (repo_failed _ _ _) done = done ≡ []

  abbrev pub IsHandled : Event → List Effect → Type 0
  IsHandled e done = IsOwed e.id e.body done

  -- Events that are handled one after the other, the checkpoint advanced past each after its work.
  abbrev pub AreHandled : List Event → List Effect → Type 0
  AreHandled [] done = done ≡ []
  AreHandled (e ∷ es) done =
      (this : List Effect) × (others : List Effect) × IsHandled e this
      × AreHandled es others
      × (done ≡ this ++ advance_to e.id ∷ others)

  -- A part of what is owed for the first of some events.
  abbrev pub IsPartOf : List Event → List Effect → Type 0
  IsPartOf [] done = done ≡ []
  IsPartOf (e ∷ es) done =
      (m : ℕ) × (whole : List Effect) × IsHandled e whole × (done ≡ take m whole)

  analyze_item-IsReport : (repo : Text) (o : Outcome) → IsReport repo o (analyze_item repo o)
  unfolding analyze_item record_success record_failure
  analyze_item-IsReport repo not_crawled = refl
  analyze_item-IsReport repo (analyzed a) = (_, is_partial-lem a.partial_signals, refl)
  analyze_item-IsReport repo (thrown message) = refl

  handle-IsHandled : (e : Event) → IsHandled e (handle work e.id e.body)
  unfolding handle
  handle-IsHandled e = owed e.id e.body
    where
      owed : (id : Text) (body : NewEvent) → IsOwed id body (handle work id body)
      owed id (repo_fetched repo hash true) = analyze_item-IsReport repo (work id repo hash)
      owed id (repo_fetched repo hash false) = refl
      owed id (repo_discovered _ _) = refl
      owed id (repo_analyzed _ _ _ _) = refl
      owed id (repo_skipped _ _) = refl
      owed id (repo_failed _ _ _) = refl

  -- What a batch that was cut off has done: some first events wholly, with the checkpoint at the last
  -- of them, and a part of the work for the next one.
  pub record IsCut (events : List Event) (last : Option Text) (done : List Effect) : Type 0 where
    pub passed : List Event
    pub rest : List Event
    pub whole : List Effect
    pub partial : List Effect
    pub read : events ≡ passed ++ rest
    pub handled : AreHandled passed whole
    pub part : IsPartOf rest partial
    pub effects : done ≡ whole ++ partial
    pub checkpoint : checkpoint_after last done ≡ last_id last passed

  -- Wherever a batch is cut off, some first events of it are handled wholly and in order, the checkpoint
  -- advanced past each after its work, and stands at the last of them; and at most a part of the work for
  -- the next event is done. To handle a fetched repository that changed is to write its analysis and then
  -- its report, with the hash, the confidence and whether signals are missing, or to report that it is
  -- skipped or failed; to handle any other event is to do nothing.
  pub analyze_batch-IsCut :
      (events : List Event) (last : Option Text) (n : ℕ)
      → IsCut events last (take n (analyze_batch work events))
  unfolding analyze_batch
  analyze_batch-IsCut [] last zero = record {
    passed = [];
    rest = [];
    whole = [];
    partial = [];
    read = refl;
    handled = refl;
    part = refl;
    effects = refl;
    checkpoint = refl;
  }
  analyze_batch-IsCut [] last (suc n) = record {
    passed = [];
    rest = [];
    whole = [];
    partial = [];
    read = refl;
    handled = refl;
    part = refl;
    effects = refl;
    checkpoint = refl;
  }
  analyze_batch-IsCut (e ∷ es) last n =
      let this = handle work e.id e.body in
      let h = handle-IsWork e.id e.body in
      elim (take_work n this (advance_to e.id) (analyze_batch work es)) [
        | inl (m, early) ↦ record {
          passed = [];
          rest = e ∷ es;
          whole = [];
          partial = take m this;
          read = refl;
          handled = refl;
          part = (m, this, handle-IsHandled e, refl);
          effects = early;
          checkpoint =
              ap (checkpoint_after last) (early ∙ sym (append-nil (take m this)))
              ∙ work_keeps_checkpoint last (take m this) [] (take-IsWork m this h);
        }
        | inr (m, late) ↦
            let more = analyze_batch-IsCut es (some e.id) m in
            record {
              passed = e ∷ more.passed;
              rest = more.rest;
              whole = this ++ advance_to e.id ∷ more.whole;
              partial = more.partial;
              read = ap (λ xs. e ∷ xs) more.read;
              handled = (this, more.whole, handle-IsHandled e, more.handled, refl);
              part = more.part;
              effects =
                  late
                  ∙ ap (λ xs. this ++ advance_to e.id ∷ xs) more.effects
                  ∙ sym (append_assoc this (advance_to e.id ∷ more.whole) more.partial);
              checkpoint =
                  ap (checkpoint_after last) late
                  ∙ work_keeps_checkpoint last this _ h
                  ∙ more.checkpoint;
            }
      ]
