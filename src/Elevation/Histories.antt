-- ===== src/Elevation/Histories.antt =====
-- Calls of the elevation service between calls of the approval service and other changes of the
-- tables, in any order.
use cloudable.Base.{ℕ, ◌≡◌, true, some, Memᴰ, All-mem}
use cloudable.Audit.{approved}
use cloudable.Database.{ApprovalRow, Elevation, Db}
use cloudable.Approval.Reachable.{Step, here, next}
use cloudable.Approval.Quorum.{HasQuorum, Valid-HasQuorum}
use cloudable.Elevation.{Env, RequestElevationInput}
use cloudable.Elevation.Service.{request_elevation}
use cloudable.Elevation.Sync.{sync_approval, expire, expire_overdue_elevations}
use cloudable.Elevation.Backing.{was_granted, Timed, Backed, SystemValid, Reach-SystemValid}
use cloudable.Elevation.Requesting.{request_elevation-SystemValid}
use cloudable.Elevation.Syncing.{
  sync_approval-SystemValid, expire-SystemValid, expire_overdue_elevations-SystemValid,
}

pub data Call (db : Db) : Db → Type 0 where
  requests :
      (env : Env) (input : RequestElevationInput) → Call db (request_elevation env input db).1
  syncs : (env : Env) (id org : ℕ) → Call db (sync_approval env id org db).1
  expires : (env : Env) (id org : ℕ) → Call db (expire env id org db).1
  sweeps : (env : Env) → Call db (expire_overdue_elevations env db).1
  -- A call of the approval service, or a change of a table that the two services only read.
  elsewhere : {db' : Db} → Step db db' → db'.elevations ≡ db.elevations → Call db db'

pub data History (db : Db) : Db → Type 0 where
  start : History db db
  then : {db' db'' : Db} → History db db' → Call db' db'' → History db db''

Call-SystemValid : {db db' : Db} → Call db db' → SystemValid db → SystemValid db'
Call-SystemValid {db} (requests env input) v = request_elevation-SystemValid env input db v
Call-SystemValid {db} (syncs env id org) v = sync_approval-SystemValid env id org db v
Call-SystemValid {db} (expires env id org) v = expire-SystemValid env id org db v
Call-SystemValid {db} (sweeps env) v = expire_overdue_elevations-SystemValid env db v
Call-SystemValid (elsewhere step same) v = Reach-SystemValid (next here step) same v

-- From valid tables, every history of calls (requests, synchronisations, expiries, sweeps, calls of
-- the approval service, with any failure of the infrastructure) leads to valid tables: each elevation
-- is linked to an approval of the same person and machine, and one that was granted has an approved
-- one and a span of time.
pub History-SystemValid : {db db' : Db} → SystemValid db → History db db' → SystemValid db'
History-SystemValid v start = v
History-SystemValid v (then history call) = Call-SystemValid call (History-SystemValid v history)

-- What an elevation that grants access rests on.
abbrev pub RestsOnQuorum : Db → Elevation → Type 0
RestsOnQuorum db e =
    (r : ApprovalRow) × Memᴰ r db.approvals
    × (e.approval_id ≡ some r.id)
    × (r.requested_by_person_id ≡ e.person_id)
    × (r.target_machine_id ≡ some e.machine_id)
    × (r.status ≡ approved)
    × HasQuorum db r
    × Timed e

-- In every state that a history of calls leads to from valid tables, an elevation that is or was
-- granted has a span of time and names an approved approval of the same person for the same machine,
-- on which as many different other people as its mode requires have agreed.
pub access-RestsOnQuorum :
    {db db' : Db} (e : Elevation)
    → SystemValid db
    → History db db'
    → Memᴰ e db'.elevations
    → was_granted e.status ≡ true
    → RestsOnQuorum db' e
access-RestsOnQuorum {db' = db'} e v history m g =
    let w = History-SystemValid v history in
    let b = All-mem (Backed db'.approvals) db'.elevations e m w.backed in
    (
      b.row,
      b.present,
      b.linked,
      b.same_requester,
      b.same_machine,
      b.approval g,
      Valid-HasQuorum db' b.row w.approvals_valid b.present (b.approval g),
      b.timed g,
    )
