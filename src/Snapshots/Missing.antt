-- ===== src/Snapshots/Missing.antt =====
-- What the sweep for missing disks does where the tables and the events answer.
use cloudable.Base.{
  is_some, if_keeps, suc, ℕ, ◌+◌, ◌≡◌, refl, sym, ap, ◌∙◌, subst, Bool, true, false, not, ◌&&◌,
  Option, none, some, List, [], ◌∷◌, ◌++◌, map, arith, Bool-cases, inl, inr, All, ok, err, filter,
  find, if◌then◌else◌, is_empty, length, append_assoc, append-nil, update_where, has_id,
  distinct_ids, has_id-filter, number_eq,
}
use cloudable.Lifecycle.{
  Provider, CapturedDisk, Machine, SnapshotRow, LifecycleEvent, World, Provisioning, Env,
  machine_at, snapshot_at, append_event, update_snapshot,
}
use cloudable.Snapshots.{Outcome, publish}
use cloudable.Snapshots.Sweeps.{
  lost_row, missing_disks, missing_event, check_one, check_each, is_checked,
  detect_missing_snapshot_data,
}

pub record TablesUp (env : Env) : Type 0 where
  pub query_up : env.query_down ≡ false
  pub write_up : (id : ℕ) → env.write_down id ≡ false
  pub publish_up : (id : ℕ) → env.publish_down id ≡ false

module _ {S : Type 0} (p : Provisioning S) (machines : List Machine) (s : S) where
  abbrev pub says_gone : Provider → CapturedDisk → Bool
  says_gone provider d = elim (p.snapshot_disk_exists provider d.external_id s) [
    | ok there ↦ not there
    | err e ↦ false
  ]

  -- The copies of a snapshot which the provider of its machine says are not there.
  abbrev pub gone_disks : SnapshotRow → List ℕ
  gone_disks r = elim (find (machine_at r.machine_id) machines) [
    | none ↦ []
    | some m ↦ map (λ d. d.external_id) (filter (says_gone m.provider) r.captured_disks)
  ]

  abbrev pub is_lost : SnapshotRow → Bool
  is_lost r = not (is_empty (gone_disks r))

  -- The snapshots that the sweep has to flag: not expired, not flagged yet, and with a disk gone.
  abbrev pub newly_lost : SnapshotRow → Bool
  newly_lost r = (not (is_some r.expired_at) && not (is_some r.data_missing_at)) && is_lost r

  abbrev pub lost_event : Env → SnapshotRow → LifecycleEvent
  lost_event env r = missing_event env r (gone_disks r)

abbrev ids_of : List SnapshotRow → List ℕ
ids_of rows = map (λ r. r.id) rows

abbrev flag_those : ℕ → List ℕ → SnapshotRow → SnapshotRow
flag_those now ids r = if has_id r.id ids then lost_row now r else r

-- The writes of the loop, one after the other.
abbrev flag_each : ℕ → List SnapshotRow → List SnapshotRow → List SnapshotRow
flag_each now [] rows = rows
flag_each now (r ∷ rs) rows = flag_each now rs (update_where (snapshot_at r.id) (lost_row now) rows)

flag_those-update_where :
    (now id : ℕ) (ids : List ℕ) (rows : List SnapshotRow)
    → map (flag_those now ids) (update_where (snapshot_at id) (lost_row now) rows)
      ≡ map (flag_those now (id ∷ ids)) rows
flag_those-update_where now id ids [] = refl
flag_those-update_where now id ids (r ∷ rows) =
    ground (arith, flag_those-update_where now id ids rows)

flag_those_none : (now : ℕ) (rows : List SnapshotRow) → map (flag_those now []) rows ≡ rows
flag_those_none now [] = refl
flag_those_none now (r ∷ rows) = ap (λ rs. r ∷ rs) (flag_those_none now rows)

flag_each_lem :
    (now : ℕ) (rs rows : List SnapshotRow)
    → flag_each now rs rows ≡ map (flag_those now (ids_of rs)) rows
flag_each_lem now [] rows = sym (flag_those_none now rows)
flag_each_lem now (r ∷ rs) rows =
    flag_each_lem now rs (update_where (snapshot_at r.id) (lost_row now) rows)
    ∙ flag_those-update_where now r.id (ids_of rs) rows

-- One statement for all rows is one for the table.
flag_those-filter :
    (now : ℕ) (test : SnapshotRow → Bool) (ids : List ℕ) (rows : List SnapshotRow)
    → All (λ r. has_id r.id ids ≡ test r) rows
    → map (flag_those now ids) rows ≡ map (λ r. if test r then lost_row now r else r) rows
flag_those-filter now test ids [] h = refl
flag_those-filter now test ids (r ∷ rows) h =
    ground (arith, h.0, flag_those-filter now test ids rows h.1)

filter_both :
    (p q : SnapshotRow → Bool) (rows : List SnapshotRow)
    → filter q (filter p rows) ≡ filter (λ r. p r && q r) rows
filter_both p q [] = refl
filter_both p q (r ∷ rows) = ground (arith, filter_both p q rows)

module _ {S : Type 0} (p : Provisioning S) (env : Env) (up : TablesUp env) where
  -- One round.
  abbrev flagged : List Machine → SnapshotRow → World S → World S
  flagged machines r w =
      append_event (lost_event p machines w.cloud env r) (update_snapshot (lost_row env.now) r.id w)

  check_one_lem :
      (machines : List Machine) (r : SnapshotRow) (w : World S)
      → check_one p env (find (machine_at r.machine_id) machines) r w
        ≡ (if is_lost p machines w.cloud r then (ok true, flagged machines r w) else (ok false, w))
  unfolding check_one publish
  check_one_lem machines r w = go (find (machine_at r.machine_id) machines)
    where
      go :
          (o : Option Machine)
          → let gone : List ℕ = elim o [
            | none ↦ []
            | some m ↦ missing_disks p m.provider w.cloud r.captured_disks
          ] in
            check_one p env o r w ≡ (
              if not (is_empty gone)
              then (
                ok true,
                append_event (missing_event env r gone) (update_snapshot (lost_row env.now) r.id w),
              )
              else (ok false, w))
      go none = refl
      go (some m) =
          let gone = missing_disks p m.provider w.cloud r.captured_disks in
          elim (Bool-cases (is_empty gone)) [
            | inl e ↦ rw e
            | inr e ↦ rw (e, up.write_up r.id, up.publish_up r.id)
          ]

  -- The world after the loop over these snapshots.
  abbrev after : List Machine → List SnapshotRow → World S → World S
  after machines cs w =
      let lost = filter (is_lost p machines w.cloud) cs in
      record w {
        events = w.events ++ map (lost_event p machines w.cloud env) lost;
        snapshots = flag_each env.now lost w.snapshots;
      }

  abbrev Loops : List Machine → ℕ → List SnapshotRow → World S → Outcome S ℕ → Type 0
  Loops machines count cs w o =
      o ≡ (ok (count + length (filter (is_lost p machines w.cloud) cs)), after machines cs w)

  check_each_lem :
      (machines : List Machine) (count : ℕ) (cs : List SnapshotRow) (w : World S)
      → Loops machines count cs w (check_each p env machines count cs w)
  unfolding check_each
  check_each_lem machines count [] w =
      let same : w.events ++ [] ≡ w.events = append-nil w.events in
      let zero : count + 0 ≡ count = omega arith in ground (arith, same)
  check_each_lem machines count (r ∷ cs) w =
      subst (λ (o : Outcome S Bool). Loops machines count (r ∷ cs) w (continue o))
        (sym (check_one_lem machines r w))
        (go (λ n w'. check_each_lem machines n cs w') (is_lost p machines w.cloud r) refl)
    where
      continue : Outcome S Bool → Outcome S ℕ
      continue o = elim (o.0) [
        | err e ↦ (err e, o.1)
        | ok flag ↦ check_each p env machines (if flag then count + 1 else count) cs o.1
      ]

      go :
          ((n : ℕ) (w' : World S) → Loops machines n cs w' (check_each p env machines n cs w'))
          → (b : Bool) → is_lost p machines w.cloud r ≡ b
          → Loops machines count
              (r ∷ cs)
              w
              (continue (if b then (ok true, flagged machines r w) else (ok false, w)))
      go rest true e =
          let next = rest (count + 1) (flagged machines r w) in
          let step =
            append_assoc w.events (lost_event p machines w.cloud env r ∷ [])
              (map (lost_event p machines w.cloud env) (filter (is_lost p machines w.cloud) cs)) in
          let more : count + 1 + length (filter (is_lost p machines w.cloud) cs)
              ≡ count + suc (length (filter (is_lost p machines w.cloud) cs)) =
            omega arith in
          rw e (next ∙ simp (step, more))
      go rest false e = rw e (rest count w)

  flag_each_table :
      (machines : List Machine) (s : S) (rows : List SnapshotRow)
      → distinct_ids (ids_of rows) ≡ true
      → flag_each env.now (filter (newly_lost p machines s) rows) rows
        ≡ map (λ r. if newly_lost p machines s r then lost_row env.now r else r) rows
  flag_each_table machines s rows keys =
      let lost = filter (newly_lost p machines s) rows in
      flag_each_lem env.now lost rows
      ∙ flag_those-filter env.now (newly_lost p machines s) (ids_of lost) rows
          (has_id-filter (λ (r : SnapshotRow). r.id) (newly_lost p machines s) rows keys)

  -- Where the tables and the events answer, the sweep flags exactly the snapshots that are not expired,
  -- not flagged yet, and have a disk which the provider of their machine says is gone: it returns how
  -- many these are, marks each of them and changes no other row, appends for each of them one
  -- `snapshot.data_missing` with the disks that are gone, and leaves the provider alone. Identifiers
  -- are distinct. A provider that cannot answer about a disk says nothing.
  pub detect_missing_snapshot_data_exact :
      (w : World S)
      → distinct_ids (map (λ (r : SnapshotRow). r.id) w.snapshots) ≡ true
      → let lost = filter (newly_lost p w.machines w.cloud) w.snapshots in
        detect_missing_snapshot_data p env w ≡ (
          ok (length lost),
          record w {
            events = w.events ++ map (lost_event p w.machines w.cloud env) lost;
            snapshots =
                map
                  (λ r. if newly_lost p w.machines w.cloud r then lost_row env.now r else r)
                  w.snapshots;
          },
        )
  unfolding detect_missing_snapshot_data
  detect_missing_snapshot_data_exact w keys =
      let both = filter_both is_checked (is_lost p w.machines w.cloud) w.snapshots in
      let table = flag_each_table w.machines w.cloud w.snapshots keys in
      let counted : 0 + length (filter (newly_lost p w.machines w.cloud) w.snapshots)
          ≡ length (filter (newly_lost p w.machines w.cloud) w.snapshots) =
        omega arith in
      let lost = filter (newly_lost p w.machines w.cloud) w.snapshots in
      if_keeps
        (λ (o : Outcome S ℕ). o ≡ (
          ok (length lost),
          record w {
            events = w.events ++ map (lost_event p w.machines w.cloud env) lost;
            snapshots =
                map (λ r. if newly_lost p w.machines w.cloud r then lost_row env.now r else r)
                  w.snapshots;
          },
        ))
        env.query_down _ _ (λ d. absurd (cc (d, up.query_up)))
        (λ _.
          check_each_lem w.machines 0 (filter is_checked w.snapshots) w
          ∙ simp (both, table, counted))
