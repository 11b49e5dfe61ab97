-- ===== src/Elevation/Guards.antt =====
-- What a successful request for elevation passed, and under which mode its approval was asked for.
use cloudable.Base.{
  [], ok, err, Result, sym, subst, inl, inr, Option-cases, Bool-cases, is_some_of, ◌==◌, number_eq,
  find, trim, Option-cases, is_empty, ok, ℕ, ◌≡◌, refl, true, false, Option, some, List, arith,
}
use cloudable.Audit.{Event}
use cloudable.Database.{Elevation, ElevationStatus, MachineRecord, PersonRecord, Db}
use cloudable.Approval
use cloudable.Approval.{ApprovalResult, resolve_approval_mode, request}
use cloudable.Elevation.{
  required_approval_mode_floor, configured_mode, approval_mode_satisfies_floor, ElevationError,
  never, Env, RequestElevationInput, AdminAccessPolicy, always, with_approval, admit,
}
use cloudable.Elevation.Service.{
  initial_status, request_approval, grant_always, by_policy, is_granted, expiry, Outcome,
  after_approval, elevation_row, finalize_grant, open_elevation, request_elevation,
}

-- The first checks of `request`.
pub record Admits (env : Env) (input : RequestElevationInput) (db : Db) (machine : MachineRecord)
    : Type 0 where
  pub explained : is_empty (trim input.reason) ≡ false
  pub machine_known : find (λ m. m.id == input.machine_id) db.machines ≡ some machine
  pub requester : PersonRecord
  pub person_known : find (λ p. p.id == input.person_id) db.people ≡ some requester
  pub employed : requester.active ≡ true
  pub same_org : requester.org_id ≡ machine.org_id
  pub not_owner : is_some_of machine.owner_person_id input.person_id ≡ false

admit-Admits :
    (env : Env) (input : RequestElevationInput) (db : Db) (m : MachineRecord)
    → admit env input db ≡ ok m
    → Admits env input db m
unfolding admit
admit-Admits env input db m h =
    elim (Option-cases (find (λ m. m.id == input.machine_id) db.machines)) [
      | inl e ↦ absurd (ground arith)
      | inr (machine, e) ↦ elim (Option-cases (find (λ p. p.id == input.person_id) db.people)) [
        | inl f ↦ absurd (ground arith)
        | inr (p, f) ↦ record {
          explained = ground arith;
          machine_known = ground arith;
          requester = p;
          person_known = f;
          employed = ground arith;
          same_org = ground arith;
          not_owner = ground arith;
        }
      ]
    ]

pub open_elevation-eq-ok :
    (env : Env) (input : RequestElevationInput) (m : MachineRecord) (s : ElevationStatus)
    (a : ApprovalResult) (extra : List Event) (expires : ℕ) (db : Db) (e : Elevation)
    → (open_elevation env input m s a extra expires db).0 ≡ ok e
    → e ≡ elevation_row env input m s a.row.id expires
unfolding open_elevation finalize_grant
open_elevation-eq-ok env input m s a extra expires db e h = ground arith

-- What holds of the policy where a request is answered with a granted elevation.
abbrev pub PolicyAllows : AdminAccessPolicy → Db → RequestElevationInput → MachineRecord → Type 0
PolicyAllows never db input m = ⊥
PolicyAllows always db input m = Unit
PolicyAllows with_approval db input m =
    approval_mode_satisfies_floor (configured_mode db m) (required_approval_mode_floor input.level)
    ≡ true

-- The row that a request answers with.
pub record Opened (env : Env) (input : RequestElevationInput) (db : Db) (m : MachineRecord)
    (e : Elevation) : Type 0 where
  pub same_person : e.person_id ≡ input.person_id
  pub same_machine : e.machine_id ≡ m.id
  pub same_org : e.org_id ≡ m.org_id
  pub same_level : e.level ≡ input.level
  pub bounded :
      is_granted e.status ≡ true
      → (e.granted_at ≡ some env.now) × (e.expires_at ≡ some (expiry env m db))
  pub unbounded :
      is_granted e.status ≡ false → (e.granted_at ≡ Option.none) × (e.expires_at ≡ Option.none)

elevation_row-Opened :
    (env : Env) (input : RequestElevationInput) (db : Db) (m : MachineRecord) (s : ElevationStatus)
    (a : ℕ)
    → Opened env input db m (elevation_row env input m s a (expiry env m db))
unfolding elevation_row
elevation_row-Opened env input db m s a = record {
  same_person = refl;
  same_machine = refl;
  same_org = refl;
  same_level = refl;
  bounded = λ g. rw g (refl, refl);
  unbounded = λ g. rw g (refl, refl);
}

after_approval-Opened :
    (env : Env) (input : RequestElevationInput) (m : MachineRecord)
    (status : ApprovalResult → ElevationStatus) (extra : List Event) (db : Db)
    (called : Result Approval.ApprovalError ApprovalResult × Db) (e : Elevation)
    → (after_approval
        (λ a db'. open_elevation env input m (status a) a extra (expiry env m db) db')
        called).0
      ≡ ok e
    → Opened env input db m e
unfolding after_approval
after_approval-Opened env input m status extra db (ok a, db') e h =
    subst (Opened env input db m)
      (sym (open_elevation-eq-ok env input m (status a) a extra (expiry env m db) db' e h))
      (elevation_row-Opened env input db m (status a) a.row.id)
after_approval-Opened env input m status extra db (err x, db') e h = absurd (cc)

by_policy-Opened :
    (policy : AdminAccessPolicy) (env : Env) (input : RequestElevationInput) (m : MachineRecord)
    (db : Db) (e : Elevation)
    → (by_policy policy env input m db).0 ≡ ok e
    → PolicyAllows policy db input m × Opened env input db m e
unfolding by_policy grant_always request_approval
by_policy-Opened never env input m db e h = absurd (cc)
by_policy-Opened always env input m db e h =
    (tt, after_approval-Opened env input m (λ _. ElevationStatus.granted) _ db _ e h)
by_policy-Opened with_approval env input m db e h =
    elim (Bool-cases (
      approval_mode_satisfies_floor (configured_mode db m)
        (required_approval_mode_floor input.level))) [
          | inl f ↦ (
            f,
            after_approval-Opened env input m (λ a. initial_status a.row.status) [] db _ e
                (rw f at h),
          )
          | inr f ↦ absurd (ground arith)
        ]

abbrev pub decided :
    Env → RequestElevationInput → Db → Result ElevationError MachineRecord → Outcome Elevation
decided env input db r = elim r [ err x ↦ (err x, db) | ok m ↦ by_policy env.policy env input m db ]

-- A request for elevation succeeds only with a reason, for a machine that exists, by an active
-- person of the machine's organisation who does not own it, and if the policy allows it: not under
-- "never", and under "with_approval" only if the configured approval mode reaches the level's floor.
-- The row is about that person, machine and level, and access that is granted at once ends after the
-- configured number of minutes.
pub request_elevation_guarded :
    (env : Env) (input : RequestElevationInput) (db : Db) (e : Elevation)
    → (request_elevation env input db).0 ≡ ok e
    → (m : MachineRecord) × Admits env input db m
      × PolicyAllows env.policy db input m
      × Opened env input db m e
unfolding request_elevation
request_elevation_guarded env input db e h = go (admit env input db) refl h
  where
    go :
        (r : Result ElevationError MachineRecord)
        → admit env input db ≡ r
        → (decided env input db r).0 ≡ ok e
        → (m : MachineRecord) × Admits env input db m
          × PolicyAllows env.policy db input m
          × Opened env input db m e
    go (err x) seen k = absurd (cc)
    go (ok m) seen k =
        let (allowed, opened) = by_policy-Opened env.policy env input m db e k in
        (m, admit-Admits env input db m seen, allowed, opened)
