-- ===== src/DataStore/Files/Writing.antt =====
-- `ensure` and `put` of the file-system store, apps/workers/src/lib/data-store.fs.ts, against the
-- in-memory store.
use keco.Prelude.{
  ◌≡◌, refl, sym, ap, ◌∙◌, inl, inr, Bool-cases, String, Option, some, List, [], ◌∷◌, arith, All,
  if◌then◌else◌, str_eq, eq_iff,
}
use mathlib.Core.Path.{subst}
use keco.Prelude.Text.{Text}
use keco.Prelude.Maps.{
  Map, get, has, put, get-put, has-put, has-get, get_of_not_has, string_key, text_key,
}
use keco.DataStore.Values.{Document}
use keco.DataStore.Port.{Result, ok, err, CollectionSpec}
use keco.DataStore.Memory.{
  Collection, Store, ensure, ensure_one, collection_of, primary_key_of, keyed, set_all, store_put,
}
use keco.DataStore.Memory.Laws.{last_of, get-set_all}
use keco.DataStore.Memory.Ensuring.{Result-cases}
use keco.DataStore.Files.{FsStore, fs_primary_key_of, fs_ensure, write_all, fs_put}
use keco.DataStore.Files.Keys.{IsFolder}
use keco.DataStore.Files.Refinement.{
  Agrees, documents_of, document_at, document_at-write_all, collection_cases, keyed-AreStored,
  AreStored, IsWritten,
}

module _ (parse : Text → Option Document) where
  ensure_one-held :
      (memory : Store) (spec : CollectionSpec) (name : String)
      → documents_of (get (ensure_one memory spec).collections name)
        ≡ documents_of (get memory.collections name)
  unfolding ensure_one
  ensure_one-held memory spec name = elim (Bool-cases (has memory.collections spec.name)) [
    | inl known ↦ rw known refl
    | inr new ↦
        let absent = get_of_not_has memory.collections spec.name new in
        ground
          (arith, new, absent, get-put memory.collections spec.name name [], eq_iff spec.name name)
  ]

  ensure_one-Agrees :
      (fs : FsStore) (memory : Store) (spec : CollectionSpec)
      → Agrees parse fs memory
      → Agrees parse (record fs { specs = put fs.specs spec.name spec }) (ensure_one memory spec)
  unfolding ensure_one
  ensure_one-Agrees fs memory spec h = record {
    specs = ap (λ (m : Map String CollectionSpec). put m spec.name spec) h.specs;
    named = λ name. ground (
      arith,
      has-put fs.specs spec.name name spec,
      has-put memory.collections spec.name name [],
      h.named name,
      eq_iff spec.name name,
    );
    held = λ name id k.
        h.held name id k
        ∙ ap (λ (c : Collection). get c id) (sym (ensure_one-held memory spec name));
  }

  pub fs_ensure-Agrees :
      (fs : FsStore) (memory : Store) (specs : List CollectionSpec)
      → Agrees parse fs memory
      → Agrees parse (fs_ensure fs specs) (ensure memory specs)
  unfolding fs_ensure ensure
  fs_ensure-Agrees fs memory [] h = h
  fs_ensure-Agrees fs memory (spec ∷ specs) h =
      fs_ensure-Agrees (record fs { specs = put fs.specs spec.name spec }) (ensure_one memory spec)
        specs (ensure_one-Agrees fs memory spec h)

  -- Both calls throw the same, or both succeed and the stores still agree.
  abbrev pub SameOutcome : Result FsStore → Result Store → Type 0
  SameOutcome (err e) (err f) = e ≡ f
  SameOutcome (err e) (ok m) = ⊥
  SameOutcome (ok s) (err f) = ⊥
  SameOutcome (ok s) (ok m) = Agrees parse s m

  -- Replacing a collection that is there.
  pub replaced-Agrees :
      (fs : FsStore) (memory : Store) (name : String) (files : Map Text Text) (old c : Collection)
      → Agrees parse fs memory
      → get memory.collections name ≡ some old
      → ((other : String) (id : Text)
          → IsFolder other
          → document_at parse files other id
            ≡ (if str_eq name other then get c id else document_at parse fs.files other id))
      → Agrees parse
          (record fs { files = files })
          (record memory { collections = put memory.collections name c })
  replaced-Agrees fs memory name files old c h there new = record {
    specs = h.specs;
    named = λ other.
        let there_before = has-get memory.collections name in
        ground (
          arith,
          h.named other,
          has-put memory.collections name other c,
          eq_iff name other,
          there,
          there_before,
        );
    held = λ other id k. new other id k ∙ (elim (Bool-cases (str_eq name other)) [
      | inl same ↦ rw (get-put, same) refl
      | inr different ↦ rw (get-put, different) (h.held other id k)
    ]);
  }

  -- What a batch leaves in the files is what it leaves in the collection.
  written_held :
      (stringify : Document → Text) (fs : FsStore) (memory : Store) (name : String)
      (batch : List (Text × Document)) (c : Collection) (other : String) (id : Text)
      → IsFolder name
      → IsFolder other
      → AreStored parse stringify batch
      → Agrees parse fs memory
      → get memory.collections name ≡ some c
      → document_at parse (write_all stringify fs.files name batch) other id ≡ (
          if str_eq name other
          then get (set_all c batch) id
          else document_at parse fs.files other id)
  written_held stringify fs memory name batch c other id k l s h here =
      document_at-write_all parse stringify fs.files name other batch id k l s
      ∙ (elim (Bool-cases (str_eq name other)) [
        | inl same ↦
            let there : get memory.collections other ≡ some c =
              subst (λ (n : String). get memory.collections n ≡ some c) ((eq_iff name other).0 same)
                here in
            let before : document_at parse fs.files other id ≡ get c id =
              h.held other id l ∙ ap (λ (o : Option Collection). get (documents_of o) id) there in
            rw same (ap (last_of id batch) before ∙ sym (get-set_all c batch id))
        | inr different ↦ rw different refl
      ])

  pub fs_put-SameOutcome :
      (stringify : Document → Text) (fs : FsStore) (memory : Store) (name : String)
      (documents : List Document)
      → All (IsWritten parse stringify) documents
      → IsFolder name
      → Agrees parse fs memory
      → SameOutcome (fs_put stringify fs name documents) (store_put memory name documents)
  unfolding fs_put fs_primary_key_of store_put primary_key_of collection_of
  fs_put-SameOutcome stringify fs memory name documents law k h =
      rw (← h.specs) (elim (collection_cases parse fs memory name h) [
        | inl (missing, absent) ↦ rw missing refl
        | inr (spec, c, known, here) ↦
            rw (known, here)
              (elim (Result-cases (keyed spec.primary_key documents)) [
                | inl (batch, fine) ↦ rw fine (
                    subst
                      (λ (specs : Map String CollectionSpec).
                        Agrees parse (record fs { files = write_all stringify fs.files name batch })
                          (record {
                            specs = specs;
                            collections = put memory.collections name (set_all c batch);
                          }))
                      (sym h.specs)
                      (replaced-Agrees fs memory name (write_all stringify fs.files name batch) c
                        (set_all c batch) h here
                        (λ other id l.
                          written_held stringify fs memory name batch c other id k l
                            (keyed-AreStored parse stringify spec.primary_key documents batch law
                              fine)
                            h here)))
                | inr (e, bad) ↦ rw bad refl
              ])
      ])
