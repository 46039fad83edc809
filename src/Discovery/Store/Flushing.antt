-- ===== src/Discovery/Store/Flushing.antt =====
-- `DiscoveryStore.flush` of apps/workers/src/discovery/store/store.ts against a backend that keeps a
-- log and goes down after a number of writes.
use mathlib.Core.Path.{subst}
use keco.Prelude.{
  ℕ, zero, suc, ◌≤◌, ◌≡◌, ◌⊎◌, inl, inr, refl, sym, ap, ◌∙◌, Bool, true, false, Option, none, some,
  String, List, [], ◌∷◌, ◌++◌, arith, length, take, drop, take-append-drop, length-take-le,
  Option-cases, append_assoc, append-nil, All,
}
use keco.Prelude.Text.{Text, codes}
use keco.DataStore.Values.{Document}
use keco.Discovery.Collections.{repos, state, to_state_document}
use keco.Discovery.Store.{Backend, Store, write_batches, write_state, flush, write_batch, size}

pub record Entry : Type 0 where
  pub collection : String
  pub documents : List Document
  pub durable : Bool

-- How many writes are still taken, and those that were.
pub record Log : Type 0 where
  pub budget : ℕ
  pub entries : List Entry

unfoldable pub write_log : Log → String → List Document → Bool → Log × Option Text
write_log log collection documents durable = elim log.budget [
  | zero ↦ (log, some (codes "down"))
  | suc left ↦ (
    record {
      budget = left;
      entries =
          log.entries
          ++ record { collection = collection; documents = documents; durable = durable } ∷ [];
    },
    none,
  )
]

abbrev pub logged : Backend Log
logged = record { write = write_log; hash = λ content. [] }

abbrev pub corpus_entries : List (List Document) → List Entry
corpus_entries [] = []
corpus_entries (ds ∷ batches) =
    record { collection = repos; documents = ds; durable = false } ∷ corpus_entries batches

abbrev pub concat : List (List Document) → List Document
concat [] = []
concat (ds ∷ batches) = ds ++ concat batches

abbrev pub IsBatch : List Document → Type 0
IsBatch ds = length ds ≤ write_batch

-- The corpus documents that got through, in batches, and those that did not: none is left where
-- there was no error.
pub record Written (docs : List Document) (before after : List Entry) (error : Option Text)
    : Type 0 where
  pub batches : List (List Document)
  pub left : List Document
  pub entries : after ≡ before ++ corpus_entries batches
  pub parts : concat batches ++ left ≡ docs
  pub sizes : All IsBatch batches
  pub all_through : error ≡ none → left ≡ []

nothing-Written :
    (docs : List Document) (entries : List Entry) (error : Option Text)
    → (error ≡ none → docs ≡ [])
    → Written docs entries entries error
nothing-Written docs entries error h = record {
  batches = [];
  left = docs;
  entries = sym (append-nil entries);
  parts = refl;
  sizes = tt;
  all_through = h;
}

length-drop-le : (n : ℕ) (ds : List Document) → length (drop n ds) ≤ length ds
length-drop-le zero ds = omega arith
length-drop-le (suc n) [] = omega arith
length-drop-le (suc n) (d ∷ ds) = omega (arith, length-drop-le n ds)

one-Written :
    (docs : List Document) (before after : List Entry) (error : Option Text)
    → Written
        (drop write_batch docs)
        (before
          ++ record { collection = repos; documents = take write_batch docs; durable = false } ∷ [])
        after
        error
    → Written docs before after error
one-Written docs before after error w = record {
  batches = take write_batch docs ∷ w.batches;
  left = w.left;
  entries = w.entries ∙ append_assoc before _ (corpus_entries w.batches);
  parts =
      append_assoc (take write_batch docs) (concat w.batches) w.left
      ∙ ap (λ rest. take write_batch docs ++ rest) w.parts
      ∙ take-append-drop write_batch docs;
  sizes = (length-take-le write_batch docs, w.sizes);
  all_through = w.all_through;
}

write_batches-Written :
    (fuel : ℕ) (docs : List Document) (budget : ℕ) (entries : List Entry)
    → length docs ≤ fuel
    → let result = write_batches logged fuel (record { budget = budget; entries = entries }) docs in
      Written docs entries result.0.entries result.1
unfolding write_batches write_log
write_batches-Written zero [] budget entries enough = nothing-Written [] entries none (λ _. refl)
write_batches-Written zero (d ∷ ds) budget entries enough = absurd (omega arith)
write_batches-Written (suc fuel) [] budget entries enough =
    nothing-Written [] entries none (λ _. refl)
write_batches-Written (suc fuel) (d ∷ ds) zero entries enough =
    nothing-Written (d ∷ ds) entries _ (λ e. ground arith)
write_batches-Written (suc fuel) (d ∷ ds) (suc left) entries enough =
    let batch : Entry = record {
      collection = repos;
      documents = take write_batch (d ∷ ds);
      durable = false;
    } in
    let shorter : length (drop write_batch (d ∷ ds)) ≤ fuel =
      omega (arith, length-drop-le 999 ds) in
    one-Written (d ∷ ds) entries _ _
      (write_batches-Written fuel (drop write_batch (d ∷ ds)) left (entries ++ batch ∷ []) shorter)

abbrev pub state_entry : Store Log → ℕ → Entry
state_entry s now = record {
  collection = state;
  documents =
      to_state_document (record s.state { repos_seen = size s }) s.query_slug s.run_id now ∷ [];
  durable = true;
}

-- The log after a flush: the corpus and then the state, or a part of the corpus and an error, with
-- the pending documents kept unless all are in the log.
abbrev pub IsFlushed : Store Log → ℕ → Store Log → Option Text → Type 0
IsFlushed s now t none =
    (batches : List (List Document)) × (t.backend.entries
      ≡ (s.backend.entries ++ corpus_entries batches) ++ state_entry s now ∷ [])
    × (concat batches ≡ s.pending_repos)
    × All IsBatch batches
    × (t.pending_repos ≡ [])
IsFlushed s now t (some e) =
    (batches : List (List Document)) × (left : List Document) × (t.backend.entries
      ≡ s.backend.entries ++ corpus_entries batches)
    × (concat batches ++ left ≡ s.pending_repos)
    × All IsBatch batches
    × ((t.pending_repos ≡ s.pending_repos) ⊎ (left ≡ []))

-- The state's own write, once the corpus is through.
write_state-IsFlushed :
    (s : Store Log) (now budget : ℕ) (entries : List Entry)
    → Written s.pending_repos s.backend.entries entries none
    → let result =
        write_state logged
          (record s {
            state = record s.state { repos_seen = size s };
            backend = record { budget = budget; entries = entries };
            pending_repos = [];
          })
          now in
      IsFlushed s now result.0 result.1
unfolding write_state write_log
write_state-IsFlushed s now zero entries w =
    (w.batches, w.left, w.entries, w.parts, w.sizes, inr (w.all_through refl))
write_state-IsFlushed s now (suc left) entries w = (
  w.batches,
  ap (λ es. es ++ state_entry s now ∷ []) w.entries,
  sym (append-nil (concat w.batches))
      ∙ ap (λ rest. concat w.batches ++ rest) (sym (w.all_through refl))
      ∙ w.parts,
  w.sizes,
  refl,
)

-- However many writes the backend still takes, a flush logs the pending documents in order, in
-- batches of at most 1000, and the state durably after all of them and never before; a flush that fails
-- logs no state, and keeps its documents pending unless the log has them all.
pub flush-IsFlushed :
    (s : Store Log) (now : ℕ) → IsFlushed s now (flush logged s now).0 (flush logged s now).1
unfolding flush write_log
flush-IsFlushed s now =
    let result = write_batches logged (length s.pending_repos) s.backend s.pending_repos in
    let written =
      write_batches-Written (length s.pending_repos) s.pending_repos s.backend.budget
        s.backend.entries (omega arith) in
    elim (Option-cases result.1) [
      | inl fine ↦
          simp (flush, fine)
            (write_state-IsFlushed s now result.0.budget result.0.entries
              (subst (Written s.pending_repos s.backend.entries result.0.entries) fine written))
      | inr (e, broken) ↦
          simp (flush, broken)
            (written.batches, written.left, written.entries, written.parts, written.sizes, inl refl)
    ]
