-- ===== src/Discovery/Store/Recording.antt =====
-- `DiscoveryStore.record` of apps/workers/src/discovery/store/store.ts.
use keco.Prelude.{
  ℕ, ◌+◌, ◌≡◌, inl, inr, refl, ap, true, false, Option, none, some, arith, Bool-cases,
}
use keco.Prelude.Text.{Text, text_eq_iff}
use keco.Prelude.Maps.{get, get-put, nat_key}
use keco.Github.Item.{SearchItem}
use keco.Discovery.Clock.{to_iso_string}
use keco.Discovery.Collections.{DetailDoc, to_detail, content_of, RunCounts}
use keco.Discovery.Store.{
  Backend, RecordOutcome, new, changed, unchanged, KnownRepo, Store, contains, record_detail,
  record_item, outcome_of, same_payload, count,
}

-- The hash that an item would be stored under.
abbrev pub hash_of : {S : Type 0} → Backend S → SearchItem → Text
hash_of b item = b.hash (content_of item)

abbrev total : RunCounts → ℕ
total c = c.new + c.changed + c.unchanged

abbrev pub hash_known : Option KnownRepo → Option Text
hash_known none = none
hash_known (some known) = some known.payload_hash

module _ {S : Type 0} (b : Backend S) where
  record_detail-total :
      (s : Store S) (d : DetailDoc)
      → total (record_detail b s d).0.run_counts ≡ total s.run_counts + 1
  unfolding record_detail
  record_detail-total s d =
      elim (Bool-cases (same_payload (get s.known d.repo_id) d.payload_hash)) [
        | inl same ↦ simp (record_detail, same) (omega arith)
        | inr other ↦ simp (record_detail, other) (counted (outcome_of (get s.known d.repo_id)))
      ]
    where
      counted : (o : RecordOutcome) → total (count o s.run_counts) ≡ total s.run_counts + 1
      counted new = omega arith
      counted changed = omega arith
      counted unchanged = omega arith

  -- Every call counts once.
  record_item-total :
      (s : Store S) (item : SearchItem) (via : Text) (now : ℕ)
      → total (record_item b s item via now).0.run_counts ≡ total s.run_counts + 1
  unfolding record_item
  record_item-total s item via now = elim (Bool-cases (contains item.id s.seen_this_run)) [
    | inl seen ↦ simp (record_item, seen) (omega arith)
    | inr unseen ↦
        simp (record_item, unseen)
          (record_detail-total s (to_detail b.hash item via (to_iso_string now)))
  ]

  record_detail-seen :
      (s : Store S) (d : DetailDoc)
      → contains d.repo_id (record_detail b s d).0.seen_this_run ≡ true
  unfolding record_detail
  record_detail-seen s d = elim (Bool-cases (same_payload (get s.known d.repo_id) d.payload_hash)) [
    | inl same ↦ simp (record_detail, same) (ground arith)
    | inr other ↦ simp (record_detail, other) (ground arith)
  ]

  record_item-seen :
      (s : Store S) (item : SearchItem) (via : Text) (now : ℕ)
      → contains item.id (record_item b s item via now).0.seen_this_run ≡ true
  unfolding record_item to_detail content_of
  record_item-seen s item via now = elim (Bool-cases (contains item.id s.seen_this_run)) [
    | inl seen ↦ simp (record_item, seen) refl
    | inr unseen ↦
        simp (record_item, unseen)
          (record_detail-seen s (to_detail b.hash item via (to_iso_string now)))
  ]

  -- A repository that this run has recorded is not recorded again, whatever query found it and
  -- however its content differs: all that a second call changes is the count of unchanged ones.
  pub record_item-once :
      (s : Store S) (first again : SearchItem) (via via' : Text) (now now' : ℕ)
      → again.id ≡ first.id
      → let s' = (record_item b s first via now).0 in
        record_item b s' again via' now' ≡ (
          record s' {
            run_counts = record s'.run_counts { unchanged = s'.run_counts.unchanged + 1 };
          },
          unchanged,
        )
  unfolding record_item
  record_item-once s first again via via' now now' e =
      let seen = record_item-seen s first via now in
      let seen' : contains again.id (record_item b s first via now).0.seen_this_run ≡ true =
        rw e seen in
      rw (seen', record_item) refl

  same_hash : (o : Option KnownRepo) (h : Text) → same_payload o h ≡ true → hash_known o ≡ some h
  same_hash none h e = ground arith
  same_hash (some known) h e = ap some ((text_eq_iff known.payload_hash h).0 e)

  record_detail-known :
      (s : Store S) (d : DetailDoc)
      → hash_known (get (record_detail b s d).0.known d.repo_id) ≡ some d.payload_hash
  unfolding record_detail
  record_detail-known s d =
      elim (Bool-cases (same_payload (get s.known d.repo_id) d.payload_hash)) [
        | inl same ↦
            simp (record_detail, same) (same_hash (get s.known d.repo_id) d.payload_hash same)
        | inr other ↦ simp (record_detail, other, get-put) (ground arith)
      ]

  -- After a repository's first call in a run, what the corpus knows of it is the hash of the
  -- item's content, whether it was new, changed or unchanged.
  pub record_item-known :
      (s : Store S) (item : SearchItem) (via : Text) (now : ℕ)
      → contains item.id s.seen_this_run ≡ false
      → hash_known (get (record_item b s item via now).0.known item.id) ≡ some (hash_of b item)
  unfolding record_item to_detail content_of
  record_item-known s item via now unseen =
      simp (record_item, unseen)
        (record_detail-known s (to_detail b.hash item via (to_iso_string now)))
