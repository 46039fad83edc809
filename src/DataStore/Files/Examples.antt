-- ===== src/DataStore/Files/Examples.antt =====
-- The same calls of the two stores on one document.
use keco.Prelude.{◌≡◌, refl, Option, some, none, List, [], ◌∷◌, if◌then◌else◌, arith, All}
use keco.Prelude.Text.{Text, codes, text_eq}
use keco.Prelude.Maps.{get, put, erase, string_key, text_key}
use keco.DataStore.Values.{text, Document, strict_eq}
use keco.DataStore.Port.{
  assert_document_id, check_document_id, all_id_chars, assert_non_empty_where, matches_where,
  matches_all, CollectionSpec,
}
use keco.DataStore.Memory.{empty, keyed}
use keco.DataStore.Files.{
  document_key, fs_ensure, fs_put, fs_get, fs_remove, fs_primary_key_of, write_all, is_stored_id,
  read_all, read_files, list_keys, collection_prefix, starts_with, insert_key, doomed, delete_all,
}
use keco.DataStore.Files.Answers.{
  Call, ensuring, putting, getting, removing, finished, answered, NamesFolder, PutsWritten,
  no_files, fs_answers, memory_answers, fs_answers-memory_answers,
}

abbrev row : Document
row = ("id", text (codes "a")) ∷ []

abbrev stringify : Document → Text
stringify d = codes "{\"id\":\"a\"}"

abbrev parse : Text → Option Document
parse t = if text_eq t (codes "{\"id\":\"a\"}") then some row else none

abbrev specs : List CollectionSpec
specs =
    record { name = "repos"; primary_key = "id"; filterable = []; sortable = []; searchable = [] }
    ∷ []

abbrev calls : List Call
calls =
    ensuring specs
    ∷ putting "repos" (row ∷ [])
    ∷ getting "repos" (codes "a")
    ∷ getting "repos" (codes "../a")
    ∷ removing "repos" (("id", text (codes "a")) ∷ [])
    ∷ getting "repos" (codes "a")
    ∷ []

key_of_row : document_key "repos" (codes "a") ≡ codes "data/repos/a.json"
unfolding document_key
key_of_row = refl

answers_of_files :
    fs_answers parse stringify no_files calls
    ≡ finished ∷ finished ∷ answered (some row) ∷ answered none ∷ finished ∷ answered none ∷ []
unfolding fs_answers fs_ensure fs_put fs_get fs_remove fs_primary_key_of write_all is_stored_id
    read_all read_files list_keys collection_prefix starts_with insert_key doomed delete_all
    document_key keyed assert_document_id check_document_id all_id_chars assert_non_empty_where
    matches_where matches_all strict_eq text_eq get put erase
answers_of_files = refl

calls-NamesFolder : All NamesFolder calls
calls-NamesFolder = ground arith

row-PutsWritten : All (PutsWritten parse stringify) calls
unfolding text_eq
row-PutsWritten = (tt, ((refl, tt), (tt, (tt, (tt, (tt, tt))))))

fs_answers-memory_answers_example :
    fs_answers parse stringify no_files calls ≡ memory_answers empty calls
fs_answers-memory_answers_example =
    fs_answers-memory_answers parse stringify calls calls-NamesFolder row-PutsWritten
