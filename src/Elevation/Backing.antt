-- ===== src/Elevation/Backing.antt =====
-- The invariant of elevations: access rests on an approval of the same person for the same machine.
use cloudable.Base.{
  sym, ap, ◌∙◌, ℕ, ◌≤◌, ◌≡◌, Bool, true, false, some, List, map, All, All-map, Memᴰ, distinct_ids,
}
use cloudable.Audit.{approved}
use cloudable.Database.{ApprovalRow, Elevation, ElevationStatus, Db}
use cloudable.Approval.Validity.{Valid}
use cloudable.Approval.Reachable.{Reach, Reach-Valid}
use cloudable.Approval.Persistence.{Persists, Reach-Persists}

-- Access that is granted, or was until it expired.
abbrev pub was_granted : ElevationStatus → Bool
was_granted ElevationStatus.granted = true
was_granted ElevationStatus.expired = true
was_granted _ = false

-- The span of a grant.
pub record Timed (e : Elevation) : Type 0 where
  pub from : ℕ
  pub until : ℕ
  pub starts : e.granted_at ≡ some from
  pub ends : e.expires_at ≡ some until
  pub in_order : from ≤ until

pub record Backed (rows : List ApprovalRow) (e : Elevation) : Type 0 where
  pub row : ApprovalRow
  pub present : Memᴰ row rows
  pub linked : e.approval_id ≡ some row.id
  pub same_requester : row.requested_by_person_id ≡ e.person_id
  pub same_machine : row.target_machine_id ≡ some e.machine_id
  pub approval : was_granted e.status ≡ true → row.status ≡ approved
  pub timed : was_granted e.status ≡ true → Timed e

abbrev pub elevation_id : Elevation → ℕ
elevation_id e = e.id

pub record SystemValid (db : Db) : Type 0 where
  pub approvals_valid : Valid db
  pub backed : All (Backed db.approvals) db.elevations
  pub primary_key : distinct_ids (map elevation_id db.elevations) ≡ true

Backed-Persists :
    (rows rows' : List ApprovalRow)
    → Persists rows rows'
    → (e : Elevation) → Backed rows e
    → Backed rows' e
Backed-Persists rows rows' p e b =
    let (r', m, s) = p b.row b.present in
    record {
      row = r';
      present = m;
      linked = b.linked ∙ ap some (sym s.same_id);
      same_requester = s.same_requester ∙ b.same_requester;
      same_machine = s.same_machine ∙ b.same_machine;
      approval = λ g. s.still_approved (b.approval g);
      timed = b.timed;
    }

-- Calls of the approval service, and changes of other tables, keep the system valid.
pub Reach-SystemValid :
    {db db' : Db} → Reach db db' → db'.elevations ≡ db.elevations → SystemValid db → SystemValid db'
Reach-SystemValid {db} {db'} reach same v = record {
  approvals_valid = Reach-Valid reach v.approvals_valid;
  backed = rw same (
      All-map (Backed db.approvals) (Backed db'.approvals)
        (Backed-Persists db.approvals db'.approvals (Reach-Persists v.approvals_valid reach))
        db.elevations v.backed);
  primary_key = rw same v.primary_key;
}
