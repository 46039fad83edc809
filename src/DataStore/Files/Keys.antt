-- ===== src/DataStore/Files/Keys.antt =====
-- documentKey of apps/workers/src/lib/data-store.fs.ts: one file for each document.
use keco.Prelude.{
  ℕ, ◌≡◌, refl, sym, ap, ◌∙◌, inl, inr, true, false, ◌&&◌, Bool-cases, String, [], ◌∷◌, ◌++◌,
  append_assoc, arith, str_eq, eq_iff,
}
use mathlib.Core.Path.{subst}
use keco.Prelude.Text.{
  Text, codes, codes_injective, text_eq, text_eq_iff, Lacks, cut_unique, append_cancel_left,
}
use keco.DataStore.Port.{is_id_char, all_id_chars}
use keco.DataStore.Files.{slash, document_key, collection_prefix, is_stored_id, starts_with}

-- A name that can be a folder's.
abbrev pub IsFolder : String → Type 0
IsFolder name = Lacks slash (codes name)

Lacks-of_id : (c : ℕ) (id : Text) → is_id_char c ≡ false → all_id_chars id ≡ true → Lacks c id
unfolding all_id_chars
Lacks-of_id c [] h k = tt
Lacks-of_id c (d ∷ id) h k = (λ e. ground arith, Lacks-of_id c id h (ground arith))

is_stored_id-chars : (id : Text) → is_stored_id id ≡ true → all_id_chars id ≡ true
unfolding is_stored_id all_id_chars
is_stored_id-chars [] h = refl
is_stored_id-chars (c ∷ cs) h = ground arith

pub document_key_injective :
    (a b : String) (i j : Text)
    → IsFolder a
    → IsFolder b
    → is_stored_id i ≡ true
    → is_stored_id j ≡ true
    → document_key a i ≡ document_key b j
    → (a ≡ b) × (i ≡ j)
unfolding document_key
document_key_injective a b i j ha hb hi hj e =
    let cut = cut_unique slash (codes a) (codes b) ha hb (append_cancel_left (codes "data/") e) in
    let ids =
      cut_unique b'.' i j (Lacks-of_id b'.' i refl (is_stored_id-chars i hi))
        (Lacks-of_id b'.' j refl (is_stored_id-chars j hj)) cut.1 in
    (codes_injective a b cut.0, ids.0)

-- Two documents have the same file exactly when they have the same collection and the same id.
pub document_key-eq :
    (a b : String) (i j : Text)
    → IsFolder a
    → IsFolder b
    → is_stored_id i ≡ true
    → is_stored_id j ≡ true
    → text_eq (document_key a i) (document_key b j) ≡ (str_eq a b && text_eq i j)
document_key-eq a b i j ha hb hi hj =
    elim (Bool-cases (text_eq (document_key a i) (document_key b j))) [
      | inl same ↦
          let both = document_key_injective a b i j ha hb hi hj ((text_eq_iff _ _).0 same) in
          ground (arith, same, (eq_iff a b).1 both.0, (text_eq_iff i j).1 both.1)
      | inr other ↦ elim (Bool-cases (str_eq a b && text_eq i j)) [
        | inl equal ↦
            let names : a ≡ b = (eq_iff a b).0 (ground arith) in
            let ids : i ≡ j = (text_eq_iff i j).0 (ground arith) in
            let keys : document_key a i ≡ document_key b j = cc in
            cc ((text_eq_iff (document_key a i) (document_key b j)).1 keys)
        | inr different ↦ rw (other, different) refl
      ]
    ]

starts_with-append : (p t : Text) → starts_with p (p ++ t) ≡ true
unfolding starts_with
starts_with-append [] t = refl
starts_with-append (c ∷ p) t = ground (arith, starts_with-append p t)

starts_with-cut : (p t : Text) → starts_with p t ≡ true → (rest : Text) × (t ≡ p ++ rest)
unfolding starts_with
starts_with-cut [] t h = (t, refl)
starts_with-cut (c ∷ p) [] h = cc
starts_with-cut (c ∷ p) (d ∷ t) h =
    let more = starts_with-cut p t (ground arith) in
    let same : c ≡ d = ground arith in (more.0, cc (same, more.1))

-- The prefix of a collection lists the files of its documents, and of no other collection's.
pub starts_with-document_key :
    (a b : String) (i : Text)
    → IsFolder a
    → IsFolder b
    → starts_with (collection_prefix a) (document_key b i) ≡ str_eq a b
unfolding collection_prefix document_key
starts_with-document_key a b i ha hb =
    let name = collection_prefix a in
    let tail = i ++ codes ".json" in
    elim (Bool-cases (str_eq a b)) [
      | inl same ↦ rw same (
          subst (λ (c : String). starts_with name (document_key c i) ≡ true) ((eq_iff a b).0 same)
            (ap (starts_with name) (
                ap (λ (t : Text). codes "data/" ++ t)
                  (sym (append_assoc (codes a) (slash ∷ []) tail)))
              ∙ starts_with-append name tail))
      | inr different ↦ elim (Bool-cases (starts_with name (document_key b i))) [
        | inl listed ↦
            let cut = starts_with-cut name (document_key b i) listed in
            let inner = append_cancel_left (codes "data/") cut.1 in
            let whole = inner ∙ append_assoc (codes a) (slash ∷ []) cut.0 in
            let same = cut_unique slash (codes b) (codes a) hb ha whole in
            cc (different, (eq_iff a b).1 (sym (codes_injective b a same.0)))
        | inr unlisted ↦ rw (different, unlisted) refl
      ]
    ]
