-- ===== src/DataStore/Examples.antt =====
-- The in-memory store on concrete documents.
use keco.Prelude.{◌≡◌, refl, String, some, List, [], ◌∷◌, str_eq, if◌then◌else◌}
use keco.Prelude.Text.{Text, codes, text_eq}
use keco.Prelude.Maps.{get, put, has, string_key, text_key}
use keco.DataStore.Values.{text, Document, strict_eq}
use keco.DataStore.Port.{
  assert_document_id, ok, ◌>>=◌, Where, CollectionSpec, check_document_id, all_id_chars,
}
use keco.DataStore.Memory.{
  Store, empty, ensure, ensure_one, store_put, store_get, primary_key_of, collection_of, keyed,
  set_all,
}
use keco.DataStore.Memory.Laws.{store_get-store_put}
use keco.DataStore.Memory.Reachable.{Reachable, fresh, ensured, written}
use keco.DataStore.Memory.Keys.{kept}

abbrev row : Text → Document
row id = ("id", text id) ∷ ("kind", text (codes "library")) ∷ []

abbrev opened : Store
opened = record {
  specs =
      (
        "repos",
        record {
          name = "repos";
          primary_key = "id";
          filterable = [];
          sortable = [];
          searchable = [];
        },
      )
      ∷ [];
  collections = ("repos", []) ∷ [];
}

abbrev filled : Store
filled = record opened { collections = ("repos", (codes "a", row (codes "a")) ∷ []) ∷ [] }

abbrev emptied : Store
emptied = record opened { collections = ("repos", []) ∷ [] }

store_get-store_put_example : store_get filled "repos" (codes "a") ≡ ok (some (row (codes "a")))
unfolding store_put store_get assert_document_id strict_eq primary_key_of collection_of keyed
    set_all check_document_id all_id_chars text_eq get put
store_get-store_put_example =
    store_get-store_put opened filled "repos" "repos" "id" (row (codes "a") ∷ []) (codes "a") refl
      refl

abbrev repos_spec : List CollectionSpec
repos_spec =
    record { name = "repos"; primary_key = "id"; filterable = []; sortable = []; searchable = [] }
    ∷ []

opened-Reachable : Reachable opened
unfolding ensure ensure_one has put
opened-Reachable = ensured empty repos_spec fresh

filled-Reachable : Reachable filled
unfolding store_put assert_document_id strict_eq primary_key_of collection_of keyed set_all
    check_document_id all_id_chars text_eq get put
filled-Reachable = written opened filled "repos" (row (codes "a") ∷ []) refl opened-Reachable

abbrev libraries : Where
libraries = ("kind", text (codes "library")) ∷ []

abbrev Remains : String → Text → Type 0
Remains other id = store_get emptied other id ≡ (
    if str_eq "repos" other
    then (do old ← store_get filled "repos" id; ok (kept libraries old))
    else store_get filled other id)
