-- ===== src/Restore/Refused.antt =====
-- What a restore is checked for before an approval is asked for.
use cloudable.Base.{
  List, subst, Option-cases, ℕ, ◌≡◌, ◌⊎◌, refl, sym, ◌∙◌, Bool, true, false, not, ◌||◌, Option,
  none, some, arith, inl, inr, Result, ok, err, ◌>>=◌, ◌>>◌, find,
}
use cloudable.Archive.{
  data_only, restorable, get_snapshot_sub_state, captured_nothing, Snapshot, RestoreMode,
}
use cloudable.Lifecycle.{
  Provider, CapturedDisk, Machine, azure, SnapshotRow, World, Provisioning, ArchiveError, Env,
  machine_at, snapshot_at, scoped_machine, scoped_snapshot, fetch_machine, fetch_snapshot,
}
use cloudable.Snapshots.{view_of}
use cloudable.Snapshots.Archiving.{is_archived}
use cloudable.Restore.{
  restore_target_not_confirmed, RestoreTarget, new_machine, existing_machine, RestoreSnapshotInput,
  RestoreError, MachineService, RestoreEnv,
}
use cloudable.Restore.Checks.{
  Checked, guard, lift, is_data_only, is_full, is_expired, is_data_missing, is_azure,
  is_archived_expired, is_provisioning, regions_differ, data_disk_of, require_data_disk,
  require_existing, machine_or_source, require_target, require_restorable_target, fetch_target,
  check_found, check_restore, Restoring, gate, restore_snapshot,
}

module _ {E A B : Type 0} where
  pub bind-eq-ok :
      (m : Result E A) (f : A → Result E B) (b : B)
      → (m >>= f) ≡ ok b
      → (a : A) × (m ≡ ok a) × (f a ≡ ok b)
  bind-eq-ok (ok a) f b h = (a, refl, h)
  bind-eq-ok (err e) f b h = absurd (cc)

guard_then :
    {B : Type 0} (b : Bool) (e : RestoreError) (k : Result RestoreError B) (c : B)
    → (guard b e >> k) ≡ ok c
    → (b ≡ true) × (k ≡ ok c)
guard_then true e k c h = (refl, h)
guard_then false e k c h = absurd (cc)

-- What holds of a restore onto a machine that exists.
abbrev pub TargetOk : List Machine → Option Machine → RestoreTarget → Type 0
TargetOk machines (some m) (existing_machine id confirm) =
    (find (machine_at id) machines ≡ some m)
    × (is_archived_expired m.state ≡ false)
    × (is_provisioning m.state ≡ false)
    × ((is_archived m.state ≡ true) ⊎ (confirm ≡ true))
TargetOk machines (some m) (new_machine owner name) = ⊥
TargetOk machines none (existing_machine id confirm) = ⊥
TargetOk machines none (new_machine owner name) = Unit

-- What the checks establish.
pub record Admitted {S : Type 0} (input : RestoreSnapshotInput) (w : World S) (c : Checked)
    : Type 0 where
  pub found : find (snapshot_at input.snapshot_id) w.snapshots ≡ some c.snapshot
  pub is_restorable : get_snapshot_sub_state (view_of c.snapshot) ≡ restorable
  pub data_only_mode : input.mode ≡ data_only
  pub on_azure : (machine_or_source c.source c.target).provider ≡ azure
  pub one_region :
      regions_differ c.snapshot.region (machine_or_source c.source c.target).region ≡ false
  pub has_disk : data_disk_of c.snapshot ≡ some c.disk
  pub target_ok : TargetOk w.machines c.target input.target

restorable_of :
    (s : Snapshot)
    → captured_nothing s ≡ false
    → is_expired (get_snapshot_sub_state s) ≡ false
    → is_data_missing (get_snapshot_sub_state s) ≡ false
    → get_snapshot_sub_state s ≡ restorable
unfolding get_snapshot_sub_state
restorable_of s a b c = ground arith

azure_of : (q : Provider) → is_azure q ≡ true → q ≡ azure
azure_of q h = ground arith

lift-eq-ok : {A : Type 0} (r : Result ArchiveError A) (a : A) → lift r ≡ ok a → r ≡ ok a
lift-eq-ok (ok x) a h = cc
lift-eq-ok (err e) a h = absurd (cc)

either :
    (a b : Bool) → guard (a || b) restore_target_not_confirmed ≡ ok tt → (a ≡ true) ⊎ (b ≡ true)
either true b h = inl refl
either false true h = inr refl
either false false h = absurd (cc)

data_only_of : (m : RestoreMode) → is_data_only m ≡ true → m ≡ data_only
data_only_of m h = ground arith

not-true : (b : Bool) → not b ≡ true → b ≡ false
not-true b h = ground arith

require_data_disk-eq-ok :
    (o : Option CapturedDisk) (d : CapturedDisk) → require_data_disk o ≡ ok d → o ≡ some d
require_data_disk-eq-ok none d h = absurd (cc)
require_data_disk-eq-ok (some x) d h = cc

require_restorable_target-eq-ok :
    (s : SnapshotRow) (source : Machine) (target : Option Machine) (wanted : RestoreTarget)
    → require_restorable_target s source target wanted ≡ ok tt
    → ((machine_or_source source target).provider ≡ azure)
      × (regions_differ s.region (machine_or_source source target).region ≡ false)
      × (require_target target wanted ≡ ok tt)
unfolding require_restorable_target
require_restorable_target-eq-ok s source target wanted h =
    let machine = machine_or_source source target in
    let g1 = guard_then (is_azure machine.provider) _ _ tt h in
    let g2 = guard_then (not (regions_differ s.region machine.region)) _ _ tt g1.1 in
    (azure_of machine.provider g1.0, not-true _ g2.0, g2.1)

require_existing-eq-ok :
    (machines : List Machine) (m : Machine) (id : ℕ) (confirm : Bool)
    → find (machine_at id) machines ≡ some m
    → require_existing m confirm ≡ ok tt
    → TargetOk machines (some m) (existing_machine id confirm)
unfolding require_existing
require_existing-eq-ok machines m id confirm same h =
    let g1 = guard_then (not (is_archived_expired m.state)) _ _ tt h in
    let g2 = guard_then (not (is_provisioning m.state)) _ _ tt g1.1 in
    (same, not-true _ g1.0, not-true _ g2.0, either (is_archived m.state) confirm g2.1)

module _ {S : Type 0} (env : Env) (input : RestoreSnapshotInput) (w : World S) where
  pub fetch_machine-found :
      (id org : ℕ) (m : Machine)
      → fetch_machine env id (some org) w ≡ ok m
      → find (machine_at id) w.machines ≡ some m
  unfolding fetch_machine scoped_machine
  fetch_machine-found id org m h = elim (Option-cases (find (machine_at id) w.machines)) [
    | inl e ↦ absurd (ground arith)
    | inr (x, e) ↦ ground arith
  ]

  fetch_target-TargetOk :
      (org : ℕ) (wanted : RestoreTarget) (target : Option Machine)
      → fetch_target env org wanted w ≡ ok target
      → require_target target wanted ≡ ok tt
      → TargetOk w.machines target wanted
  unfolding fetch_target
  fetch_target-TargetOk org (new_machine owner name) none h allowed = tt
  fetch_target-TargetOk org (new_machine owner name) (some m) h allowed = absurd (cc)
  fetch_target-TargetOk org (existing_machine id confirm) target h allowed =
      let (m, fetched, same) = bind-eq-ok (lift (fetch_machine env id (some org) w)) _ target h in
      go target (cc same) fetched allowed
    where
      go :
          (t : Option Machine) {m : Machine}
          → t ≡ some m
          → lift (fetch_machine env id (some org) w) ≡ ok m
          → require_target t (existing_machine id confirm) ≡ ok tt
          → TargetOk w.machines t (existing_machine id confirm)
      go none same fetched k = absurd (cc)
      go (some x) {m} same fetched k =
          require_existing-eq-ok w.machines x id confirm
            (fetch_machine-found id org m (lift-eq-ok (fetch_machine env id (some org) w) m fetched)
              ∙ sym same)
            k

  check_found-Admitted :
      (s : SnapshotRow) (c : Checked)
      → find (snapshot_at input.snapshot_id) w.snapshots ≡ some s
      → check_found env input s w ≡ ok c
      → Admitted input w c
  unfolding check_found
  check_found-Admitted s c found h =
      let g1 = guard_then (is_data_only input.mode) _ _ c h in
      let (source, b1, h1) =
        bind-eq-ok (lift (fetch_machine env s.machine_id (some s.org_id) w)) _ c g1.1 in
      let (target, b2, h2) = bind-eq-ok (fetch_target env s.org_id input.target w) _ c h1 in
      let g2 = guard_then (not (captured_nothing (view_of s))) _ _ c h2 in
      let g3 = guard_then (not (is_expired (get_snapshot_sub_state (view_of s)))) _ _ c g2.1 in
      let g4 = guard_then (not (is_data_missing (get_snapshot_sub_state (view_of s)))) _ _ c g3.1 in
      let g5 = guard_then (not (is_full input.mode) || input.confirm_secret_bindings) _ _ c g4.1 in
      let (disk, b3, h3) = bind-eq-ok (require_data_disk (data_disk_of s)) _ c g5.1 in
      let (_, b4, h4) =
        bind-eq-ok (require_restorable_target s source target input.target) _ c h3 in
      let (azure_only, region, allowed) =
        require_restorable_target-eq-ok s source target input.target b4 in
      let checked : Checked = record {
        snapshot = s;
        source = source;
        target = target;
        disk = disk;
      } in
      let same : checked ≡ c = cc h4 in
      subst (Admitted input w) same (record {
        found = found;
        is_restorable =
            restorable_of (view_of s) (not-true _ g2.0) (not-true _ g3.0) (not-true _ g4.0);
        data_only_mode = data_only_of input.mode g1.0;
        on_azure = azure_only;
        one_region = region;
        has_disk = require_data_disk-eq-ok (data_disk_of s) disk b3;
        target_ok = fetch_target-TargetOk s.org_id input.target target b2 allowed;
      })

  fetch_snapshot-found :
      (s : SnapshotRow)
      → fetch_snapshot env input.snapshot_id none w ≡ ok s
      → find (snapshot_at input.snapshot_id) w.snapshots ≡ some s
  unfolding fetch_snapshot scoped_snapshot
  fetch_snapshot-found s h =
      elim (Option-cases (find (snapshot_at input.snapshot_id) w.snapshots)) [
        | inl e ↦ absurd (ground arith)
        | inr (x, e) ↦ ground arith
      ]

  check_restore-Admitted : (c : Checked) → check_restore env input w ≡ ok c → Admitted input w c
  unfolding check_restore
  check_restore-Admitted c h =
      let (s, fetched, rest) =
        bind-eq-ok (lift (fetch_snapshot env input.snapshot_id none w)) _ c h in
      check_found-Admitted s c
        (fetch_snapshot-found s
          (lift-eq-ok (fetch_snapshot env input.snapshot_id none w) s fetched))
        rest

module _ {S : Type 0} (p : Provisioning S) (service : MachineService S) (env : RestoreEnv) where
  -- Either a restore is refused with an error before anything is asked or written, or the snapshot is
  -- in the table, shown as restorable and with a data disk, the mode is "data", the machine is on
  -- azure and in the snapshot's region, and a machine that is to be overwritten is neither being
  -- provisioned nor archived for good, and is archived or given up by the caller.
  pub restore_snapshot-Refuses :
      (input : RestoreSnapshotInput) (w : World S)
      → ((e : RestoreError) × (restore_snapshot p service env input w ≡ (err e, w)))
        ⊎ ((c : Checked) × Admitted input w c
            × (restore_snapshot p service env input w ≡ gate p service env input c w))
  unfolding restore_snapshot
  restore_snapshot-Refuses input w =
      go (check_restore env.archive input w) (check_restore-Admitted env.archive input w)
    where
      go :
          (r : Result RestoreError Checked)
          → ((c : Checked) → r ≡ ok c → Admitted input w c)
          → let out : Restoring S = elim r [
            | err e ↦ (err e, w)
            | ok c ↦ gate p service env input c w
          ] in
            ((e : RestoreError) × (out ≡ (err e, w)))
            ⊎ ((c : Checked) × Admitted input w c × (out ≡ gate p service env input c w))
      go (err e) admitted = inl (e, refl)
      go (ok c) admitted = inr (c, admitted c refl, refl)
