-- ===== src/Snapshots/Held.antt =====
-- A legal hold that has been set, and the sweep that comes after it.
use cloudable.Base.{
  keys-update_where, find-update_where, mem-find, if◌then◌else◌, number_eq, ℕ, ◌≡◌, refl, sym, ap,
  subst, ◌∙◌, Bool, true, Option, none, some, map, Memᴰ, arith, inl, Result, ok, err, find, Text,
  trim, is_empty, if_keeps, distinct_ids, update_where,
}
use cloudable.Lifecycle.{
  given, legal_hold_set, SnapshotRow, LifecyclePayload, HoldReason, World, Provisioning,
  ArchiveError, db_error, Env, snapshot_at, fetch_snapshot, scoped_snapshot, update_snapshot,
}
use cloudable.Snapshots.{snapshot_event, Outcome, publish, change_hold, set_legal_hold}
use cloudable.Snapshots.Sweeps.{expire_overdue_snapshots}
use cloudable.Snapshots.Cloud.{CopyLaws}
use cloudable.Snapshots.Spared.{Unshared, expire_overdue_snapshots_spares}

abbrev held_row : Option HoldReason → SnapshotRow → SnapshotRow
held_row reason r = record r { legal_hold = true; legal_hold_reason = reason }

module _ {S : Type 0} where
  fetched_row :
      (env : Env) (id org : ℕ) (w : World S) (r : SnapshotRow)
      → fetch_snapshot env id (some org) w ≡ ok r
      → find (snapshot_at id) w.snapshots ≡ some r
  unfolding fetch_snapshot scoped_snapshot
  fetched_row env id org w r h = go (find (snapshot_at id) w.snapshots) h
    where
      go :
          (found : Option SnapshotRow)
          → (if env.query_down then err db_error else scoped_snapshot (some org) found) ≡ ok r
          → found ≡ some r
      go none h = ground arith
      go (some x) h = ground arith

  -- The row is in the table under the same identifiers, and on hold.
  abbrev Held : World S → SnapshotRow → World S → Type 0
  Held w row w' =
      Memᴰ row w'.snapshots
      × (row.legal_hold ≡ true)
      × (map (λ (r : SnapshotRow). r.id) w'.snapshots ≡ map (λ (r : SnapshotRow). r.id) w.snapshots)

  change_hold-Held :
      (env : Env) (id org : ℕ) (reason : Option HoldReason) (payload : LifecyclePayload)
      (w : World S) (row : SnapshotRow)
      → (change_hold env id org true reason payload w).0 ≡ ok row
      → Held w row (change_hold env id org true reason payload w).1
  unfolding change_hold publish
  change_hold-Held env id org reason payload w row =
      go (fetch_snapshot env id (some org) w) (fetched_row env id org w)
    where
      go :
          (answer : Result ArchiveError SnapshotRow)
          → ((r : SnapshotRow) → answer ≡ ok r → find (snapshot_at id) w.snapshots ≡ some r)
          → let o : Outcome S SnapshotRow = elim answer [
            | err e ↦ (err e, w)
            | ok r ↦
                if env.write_down id
                then (err db_error, w)
                else publish env id
                    (snapshot_event env r payload)
                    (held_row reason r)
                    (update_snapshot (held_row reason) id w)
          ] in
            o.0 ≡ ok row → Held w row o.1
      go (err e) found = λ h. absurd (cc)
      go (ok r) found =
          let there =
            find-update_where (snapshot_at id) (held_row reason) (λ x e. e) w.snapshots r
              (found r refl) in
          let member = mem-find (snapshot_at id) _ _ there in
          let P = λ (o : Outcome S SnapshotRow). o.0 ≡ ok row → Held w row o.1 in
          if_keeps P (env.write_down id) _ _ (λ _ h. absurd (cc))
            (λ _.
              if_keeps P (env.publish_down id) _ _ (λ _ h. absurd (cc))
                (λ _ h.
                  let same : held_row reason r ≡ row = cc h in
                  (
                    subst
                        (λ x. Memᴰ x (update_where (snapshot_at id) (held_row reason) w.snapshots))
                        same member,
                    sym (ap (λ x. x.legal_hold) same),
                    keys-update_where (λ (r : SnapshotRow). r.id) (snapshot_at id) (held_row reason)
                        (λ x. refl) w.snapshots,
                  )))

  set_legal_hold-Held :
      (env : Env) (id org : ℕ) (reason : Text) (w : World S) (row : SnapshotRow)
      → (set_legal_hold env id org reason w).0 ≡ ok row
      → Held w row (set_legal_hold env id org reason w).1
  unfolding set_legal_hold
  set_legal_hold-Held env id org reason w row =
      if_keeps (λ (o : Outcome S SnapshotRow). o.0 ≡ ok row → Held w row o.1)
        (is_empty (trim reason)) _ _ (λ _ h. absurd (cc))
        (λ _. change_hold-Held env id org (some (given reason)) (legal_hold_set reason) w row)

module _ {S : Type 0} (p : Provisioning S) (exists : ℕ → S → Bool) (laws : CopyLaws p exists) where
  -- A legal hold that was set, for a reason, keeps the snapshot: the next sweep, whatever of it fails
  -- and at whatever time, leaves the row on hold in the table, and every copy of a disk that was
  -- there and that no overdue snapshot names.
  pub hold_outlasts_sweep :
      (env later : Env) (id org : ℕ) (reason : Text) (w : World S) (row : SnapshotRow) (x : ℕ)
      → distinct_ids (map (λ (r : SnapshotRow). r.id) w.snapshots) ≡ true
      → (set_legal_hold env id org reason w).0 ≡ ok row
      → let held = (set_legal_hold env id org reason w).1 in
        Unshared later.now held.snapshots x
        → exists x held.cloud ≡ true
        → let w' = (expire_overdue_snapshots p later held).1 in
          (row.legal_hold ≡ true) × Memᴰ row w'.snapshots × (exists x w'.cloud ≡ true)
  hold_outlasts_sweep env later id org reason w row x keys answered own there =
      let h = set_legal_hold-Held env id org reason w row answered in
      let held = (set_legal_hold env id org reason w).1 in
      let spared =
        expire_overdue_snapshots_spares p exists laws later held row x (ap distinct_ids h.2 ∙ keys)
          h.0 (inl h.1) own there in
      (h.1, spared.0, spared.1)
