-- ===== src/Snapshots/Examples.antt =====
-- Runs of the sweep over three snapshots, of which one is overdue, one is held and one within its
-- time; and a snapshot of a stopped machine.
use cloudable.Base.{
  if◌then◌else◌, map, ap, some, trim, ◌≡◌, ◌⊎◌, refl, ◌++◌, true, [], ◌∷◌, Memᴰ, arith, filter,
  length, ok, err, inl,
}
use cloudable.Lifecycle.{
  SnapshotRow, given, fetch_snapshot, scoped_snapshot, archive, full, stopped, archived_restorable,
  db_error, World,
}
use cloudable.Lifecycle.Samples.{
  forget, Kept, provider, in_use, env, machine_in, taken, copy_of, world_of,
}
use cloudable.Snapshots.{set_legal_hold, change_hold, publish, tolerate_not_found, create_snapshot}
use cloudable.Snapshots.Sweeps.{
  lost_row, detect_missing_snapshot_data, is_due, expire_overdue_snapshots,
}
use cloudable.Snapshots.Cloud.{CopyLaws, AllGone}
use cloudable.Snapshots.Expired.{ExpiredGone, expire_overdue_snapshots-ExpiredGone}
use cloudable.Snapshots.Spared.{expire_overdue_snapshots_spares}
use cloudable.Snapshots.Expiring.{Answers, expired_events, expire_overdue_snapshots_exact}
use cloudable.Snapshots.Held.{hold_outlasts_sweep}
use cloudable.Snapshots.Missing.{
  TablesUp, newly_lost, lost_event, detect_missing_snapshot_data_exact,
}
use cloudable.Snapshots.Copies.{Named, create_snapshot-Accounted}

laws : CopyLaws provider in_use
laws = record {
  deleted_gone = λ kind d s h. ground arith;
  stays_gone = λ kind d x s h. ground (arith, h);
  others_stay = λ kind d x s other h. ground (arith, other, h);
}

up : Answers provider env
up = record {
  query_up = refl;
  write_up = λ id. refl;
  publish_up = λ id. refl;
  deletes = λ kind d s. refl;
}

abbrev world : World Kept
world = world_of archived_restorable

expire_overdue_snapshots-ExpiredGone_example :
    ExpiredGone provider in_use laws (expire_overdue_snapshots provider env world).1
expire_overdue_snapshots-ExpiredGone_example =
    expire_overdue_snapshots-ExpiredGone provider in_use laws env world refl
      (λ e. absurd (cc), (λ e. absurd (cc), (λ e. absurd (cc), tt)))

expire_overdue_snapshots_spares_example :
    let w' = (expire_overdue_snapshots provider env world).1 in
    Memᴰ (taken 52 500 true) w'.snapshots × (in_use 52 w'.cloud ≡ true)
expire_overdue_snapshots_spares_example =
    expire_overdue_snapshots_spares provider in_use laws env world (taken 52 500 true) 52 refl
      (Memᴰ.tail (Memᴰ.head refl)) (inl refl)
      (
        λ due. (λ e. absurd (omega (arith, e)), tt),
        (λ due. absurd (due (inl refl)), (λ due. (λ e. absurd (omega (arith, e)), tt), tt)),
      )
      refl

expire_overdue_snapshots_exact_example :
    let (answer, w') = expire_overdue_snapshots provider env world in
    let due = filter (is_due env.now) world.snapshots in
    (answer ≡ ok (length due))
    × (w'.events ≡ world.events ++ expired_events env due)
    × (filter (is_due env.now) w'.snapshots ≡ [])
expire_overdue_snapshots_exact_example =
    expire_overdue_snapshots_exact provider env up world (refl, tt)

create_snapshot-Accounted_example :
    let w = world_of stopped in
    let (answer, w') = create_snapshot provider env (machine_in stopped) archive full true w in
    Named (machine_in stopped) (copy_of 70 ∷ []) w'.snapshots
    ⊎ ((answer ≡ err db_error) × AllGone provider in_use laws (copy_of 70 ∷ []) w'.cloud)
unfolding tolerate_not_found
create_snapshot-Accounted_example =
    create_snapshot-Accounted provider in_use laws (λ kind d s. refl) env (machine_in stopped)
      archive full true (world_of stopped) (copy_of 70 ∷ []) refl

abbrev held_row : SnapshotRow
held_row = record (taken 51 500 true) { legal_hold_reason = some (given (97 ∷ [])) }

hold_outlasts_sweep_example :
    let held = (set_legal_hold env 51 1 (97 ∷ []) world).1 in
    let w' = (expire_overdue_snapshots provider env held).1 in
    (held_row.legal_hold ≡ true) × Memᴰ held_row w'.snapshots × (in_use 51 w'.cloud ≡ true)
unfolding set_legal_hold trim change_hold fetch_snapshot scoped_snapshot publish
hold_outlasts_sweep_example =
    hold_outlasts_sweep provider in_use laws env env 51 1 (97 ∷ []) world held_row 51 refl refl
      (
        λ due. absurd (due (inl refl)),
        (λ due. absurd (due (inl refl)), (λ due. (λ e. absurd (omega (arith, e)), tt), tt)),
      )
      refl

abbrev damaged : World Kept
damaged = record world { cloud = forget 53 world.cloud }

tables_up : TablesUp env
tables_up = record { query_up = refl; write_up = λ id. refl; publish_up = λ id. refl }

detect_missing_snapshot_data_exact_example :
    let lost = filter (newly_lost provider damaged.machines damaged.cloud) damaged.snapshots in
    detect_missing_snapshot_data provider env damaged ≡ (
      ok (length lost),
      record damaged {
        events =
            damaged.events ++ map (lost_event provider damaged.machines damaged.cloud env) lost;
        snapshots =
            map
              (λ r.
                if newly_lost provider damaged.machines damaged.cloud r
                then lost_row env.now r
                else r)
              damaged.snapshots;
      },
    )
detect_missing_snapshot_data_exact_example =
    detect_missing_snapshot_data_exact provider env tables_up damaged refl

-- One of the three is flagged.
detect_missing_run : (detect_missing_snapshot_data provider env damaged).0 ≡ ok 1
detect_missing_run = ap (λ r. r.0) detect_missing_snapshot_data_exact_example
