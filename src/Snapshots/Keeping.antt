-- ===== src/Snapshots/Keeping.antt =====
-- Taking a snapshot and archiving leave the tables of the other services as they were.
use cloudable.Base.{
  ℕ, ◌≡◌, refl, ◌∙◌, Bool, true, Option, none, some, List, Result, ok, err, if_keeps, if◌then◌else◌,
}
use cloudable.Lifecycle.{
  Machine, SnapshotTrigger, SnapshotScope, CapturedDisk, SnapshotRow, ArchiveError, World,
  Provisioning, ProvisioningError, Env, provisioning_failed, machine_already_archived,
  fetch_machine,
}
use cloudable.Snapshots.{
  Outcome, insert_fails, publish, record_snapshot, resolve_retention_days, tolerate_not_found,
  create_snapshot,
}
use cloudable.Snapshots.Archiving.{
  is_archived, torn_down, finish_archive, tear_down_after, archive_live, archive_machine,
}

module _ {S : Type 0} where
  abbrev Same : {A : Type 0} → World S → Outcome S A → Type 0
  Same w o = o.1.db ≡ w.db

module _ {S : Type 0} (p : Provisioning S) where
  record_snapshot-Same :
      (env : Env) (m : Machine) (t : SnapshotTrigger) (s : SnapshotScope) (days : ℕ)
      (ds : List CapturedDisk) (w : World S)
      → Same w (record_snapshot p env m t s days ds w)
  unfolding record_snapshot publish
  record_snapshot-Same env m t s days ds w =
      if_keeps (Same w) (insert_fails env w) _ _ (λ _. refl)
        (λ _. if_keeps (Same w) (env.publish_down env.new_id) _ _ (λ _. refl) (λ _. refl))

  create_snapshot-Same :
      (env : Env) (m : Machine) (t : SnapshotTrigger) (s : SnapshotScope) (quiesce : Bool)
      (w : World S)
      → Same w (create_snapshot p env m t s quiesce w)
  unfolding create_snapshot
  create_snapshot-Same env m t s quiesce w =
      go (tolerate_not_found (p.snapshot m s env.new_id quiesce w.cloud).0)
    where
      go :
          (answer : Result ProvisioningError (List CapturedDisk))
          → let w' = record w { cloud = (p.snapshot m s env.new_id quiesce w.cloud).1 } in
            Same w (elim answer [
              | ok ds ↦
                  record_snapshot p env m t s (resolve_retention_days env m.org_id m.id w.db) ds w'
              | err e ↦ (err (provisioning_failed e), w')
            ])
      go (err e) = refl
      go (ok ds) = record_snapshot-Same env m t s _ ds _

  finish_archive-Same :
      (env : Env) (approval : Option ℕ) (m : Machine) (row : SnapshotRow) (w : World S)
      → Same w (finish_archive p env approval m row w)
  unfolding finish_archive publish
  finish_archive-Same env approval m row w =
      if_keeps (Same w) (env.write_down m.id) _ _ (λ _. refl)
        (λ _. if_keeps (Same w) (env.publish_down m.id) _ _ (λ _. refl) (λ _. refl))

  tear_down_after-Same :
      (env : Env) (approval : Option ℕ) (m : Machine) (row : SnapshotRow) (w : World S)
      → Same w (tear_down_after p env approval m row w)
  unfolding tear_down_after
  tear_down_after-Same env approval m row w = go (torn_down (p.tear_down m w.cloud).0)
    where
      go :
          (answer : Option ProvisioningError)
          → let w' = record w { cloud = (p.tear_down m w.cloud).1 } in
            Same w (elim answer [
              | some e ↦ (err (provisioning_failed e), w')
              | none ↦ finish_archive p env approval m row w'
            ])
      go (some e) = refl
      go none = finish_archive-Same env approval m row _

  archive_live-Same :
      (env : Env) (approval : Option ℕ) (m : Machine) (w : World S)
      → Same w (archive_live p env approval m w)
  unfolding archive_live
  archive_live-Same env approval m w =
      go (create_snapshot p env m SnapshotTrigger.archive SnapshotScope.full true w).0 _
        (create_snapshot-Same env m SnapshotTrigger.archive SnapshotScope.full true w)
    where
      go :
          (answer : Result ArchiveError SnapshotRow) (w' : World S)
          → w'.db ≡ w.db
          → Same w (elim answer [
            | err e ↦ (err e, w')
            | ok row ↦ tear_down_after p env approval m row w'
          ])
      go (err e) w' same = same
      go (ok row) w' same = tear_down_after-Same env approval m row w' ∙ same

  pub archive_machine-Same :
      (env : Env) (id : ℕ) (approval : Option ℕ) (w : World S)
      → Same w (archive_machine p env id approval w)
  unfolding archive_machine
  archive_machine-Same env id approval w = go (fetch_machine env id none w)
    where
      go :
          (r : Result ArchiveError Machine)
          → Same w (elim r [
            | err e ↦ (err e, w)
            | ok m ↦
                if is_archived m.state
                then (err machine_already_archived, w)
                else archive_live p env approval m w
          ])
      go (err e) = refl
      go (ok m) =
          if_keeps (Same w) (is_archived m.state) _ _ (λ _. refl)
            (λ _. archive_live-Same env approval m w)
