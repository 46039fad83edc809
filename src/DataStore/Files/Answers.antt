-- ===== src/DataStore/Files/Answers.antt =====
-- Two clients, of the file-system store and of the in-memory store of apps/workers/src/lib, that make
-- the same calls.
use keco.Prelude.{◌≡◌, refl, ap, ap₂, inl, inr, Bool-cases, String, Option, List, [], ◌∷◌, All}
use keco.Prelude.Text.{Text}
use keco.Prelude.Maps.{get, has, string_key, text_key}
use keco.DataStore.Values.{Document}
use keco.DataStore.Port.{StoreError, Result, ok, err, Where, CollectionSpec}
use keco.DataStore.Memory.{Store, empty, ensure, store_put, store_get, store_remove}
use keco.DataStore.Memory.Keys.{
  IsValid, empty-IsValid, ensure-IsValid, store_put-IsValid, store_remove-IsValid,
}
use keco.DataStore.Memory.Ensuring.{Result-cases}
use keco.DataStore.Files.{FsStore, fs_ensure, fs_put, fs_get, fs_remove, is_stored_id}
use keco.DataStore.Files.Keys.{IsFolder}
use keco.DataStore.Files.Refinement.{Agrees, IsWritten, document_at, fs_get-Agrees}
use keco.DataStore.Files.Writing.{SameOutcome, fs_ensure-Agrees, fs_put-SameOutcome}
use keco.DataStore.Files.Removing.{fs_remove-SameOutcome}

pub data Call : Type 0 where
  ensuring : List CollectionSpec → Call
  putting : String → List Document → Call
  getting : String → Text → Call
  removing : String → Where → Call

pub data Answer : Type 0 where
  finished : Answer
  threw : StoreError → Answer
  answered : Option Document → Answer

-- The collections that a call names have names of folders.
abbrev pub NamesFolder : Call → Type 0
NamesFolder (ensuring specs) = Unit
NamesFolder (putting name documents) = IsFolder name
NamesFolder (getting name id) = IsFolder name
NamesFolder (removing name w) = IsFolder name

-- A call that throws leaves the store as it was.
abbrev changed : {S : Type 0} → S → Result S → S × Answer
changed s (ok t) = (t, finished)
changed s (err e) = (s, threw e)

abbrev read_answer : Result (Option Document) → Answer
read_answer (ok d) = answered d
read_answer (err e) = threw e

module _ (parse : Text → Option Document) (stringify : Document → Text) where
  abbrev pub fs_call : FsStore → Call → FsStore × Answer
  fs_call s (ensuring specs) = (fs_ensure s specs, finished)
  fs_call s (putting name documents) = changed s (fs_put stringify s name documents)
  fs_call s (getting name id) = (s, read_answer (fs_get parse s name id))
  fs_call s (removing name w) = changed s (fs_remove parse s name w)

  unfoldable pub fs_answers : FsStore → List Call → List Answer
  fs_answers s [] = []
  fs_answers s (c ∷ cs) = (fs_call s c).1 ∷ fs_answers (fs_call s c).0 cs

abbrev pub memory_call : Store → Call → Store × Answer
memory_call s (ensuring specs) = (ensure s specs, finished)
memory_call s (putting name documents) = changed s (store_put s name documents)
memory_call s (getting name id) = (s, read_answer (store_get s name id))
memory_call s (removing name w) = changed s (store_remove s name w)

unfoldable pub memory_answers : Store → List Call → List Answer
memory_answers s [] = []
memory_answers s (c ∷ cs) = (memory_call s c).1 ∷ memory_answers (memory_call s c).0 cs

abbrev pub no_files : FsStore
no_files = record { specs = []; files = [] }

memory_call-IsValid : (m : Store) (c : Call) → IsValid m → IsValid (memory_call m c).0
memory_call-IsValid m (ensuring specs) v = ensure-IsValid m specs v
memory_call-IsValid m (putting name documents) v =
    elim (Result-cases (store_put m name documents)) [
      | inl (t, fine) ↦ rw fine (store_put-IsValid m t name documents v fine)
      | inr (e, bad) ↦ rw bad v
    ]
memory_call-IsValid m (getting name id) v = v
memory_call-IsValid m (removing name w) v = elim (Result-cases (store_remove m name w)) [
  | inl (t, fine) ↦ rw fine (store_remove-IsValid m t name w v fine)
  | inr (e, bad) ↦ rw bad v
]

module _ (parse : Text → Option Document) (stringify : Document → Text) where
  -- The documents that a call puts are read back from their texts.
  abbrev pub PutsWritten : Call → Type 0
  PutsWritten (putting name documents) = All (IsWritten parse stringify) documents
  PutsWritten _ = Unit

  IsSame : FsStore × Answer → Store × Answer → Type 0
  IsSame s m = Agrees parse s.0 m.0 × (s.1 ≡ m.1)

  changed-IsSame :
      (s : FsStore) (m : Store) (r : Result FsStore) (q : Result Store)
      → Agrees parse s m
      → SameOutcome parse r q
      → IsSame (changed s r) (changed m q)
  unfolding IsSame
  changed-IsSame s m (ok t) (ok n) h k = (k, refl)
  changed-IsSame s m (err e) (err f) h k = (h, ap threw k)
  changed-IsSame s m (ok t) (err f) h k = absurd k
  changed-IsSame s m (err e) (ok n) h k = absurd k

  call-IsSame :
      (s : FsStore) (m : Store) (c : Call)
      → NamesFolder c
      → PutsWritten c
      → IsValid m
      → Agrees parse s m
      → IsSame (fs_call parse stringify s c) (memory_call m c)
  unfolding IsSame
  call-IsSame s m (ensuring specs) k w v h = (fs_ensure-Agrees parse s m specs h, refl)
  call-IsSame s m (putting name documents) k w v h =
      changed-IsSame s m _ _ h (fs_put-SameOutcome parse stringify s m name documents w k h)
  call-IsSame s m (getting name id) k w v h =
      (h, ap read_answer (fs_get-Agrees parse s m name id h k))
  call-IsSame s m (removing name q) k w v h =
      changed-IsSame s m _ _ h (fs_remove-SameOutcome parse s m name q k v h)

  answers_from :
      (s : FsStore) (m : Store) (cs : List Call)
      → All NamesFolder cs
      → All PutsWritten cs
      → IsValid m
      → Agrees parse s m
      → fs_answers parse stringify s cs ≡ memory_answers m cs
  unfolding fs_answers memory_answers IsSame
  answers_from s m [] k w v h = refl
  answers_from s m (c ∷ cs) k w v h =
      let step = call-IsSame s m c k.0 w.0 v h in
      ap₂ ◌∷◌ step.1 (
        answers_from (fs_call parse stringify s c).0 (memory_call m c).0 cs k.1 w.1
          (memory_call-IsValid m c v) step.0)

  start-Agrees : Agrees parse no_files empty
  unfolding document_at get has
  start-Agrees = record {
    specs = refl;
    named = λ name. refl;
    held = λ name id k. elim (Bool-cases (is_stored_id id)) [
      | inl stored ↦ rw stored refl
      | inr refused ↦ rw refused refl
    ];
  }

-- From empty stores, two clients that make the same calls of ensure, put, get and remove are given
-- the same answers, the same documents and the same errors, whether the store is kept in files or in
-- memory, where the collections have names that a folder can have and JSON gives back each document
-- that is put.
pub fs_answers-memory_answers :
    (parse : Text → Option Document) (stringify : Document → Text) (cs : List Call)
    → All NamesFolder cs
    → All (PutsWritten parse stringify) cs
    → fs_answers parse stringify no_files cs ≡ memory_answers empty cs
fs_answers-memory_answers parse stringify cs k w =
    answers_from parse stringify no_files empty cs k w empty-IsValid (start-Agrees parse stringify)
