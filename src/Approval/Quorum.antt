-- ===== src/Approval/Quorum.antt =====
-- What an approved row stands for, in every state that the service can reach.
use cloudable.Base.{◌≤◌, ◌≡◌, false, true, Memᴰ, All-mem, arith, length, has_id, distinct_ids}
use cloudable.Audit.{approved}
use cloudable.Database.{ApprovalRow, Db}
use cloudable.Approval.{required_approvals_by_mode}
use cloudable.Approval.Decide.{approvers}
use cloudable.Approval.Decisions.{has_id-approvers}
use cloudable.Approval.Validity.{RowValid, Valid}
use cloudable.Approval.Reachable.{Reach, Reach-Valid}

-- As many different people as the mode requires have approved, and the requester is none of them.
abbrev pub HasQuorum : Db → ApprovalRow → Type 0
HasQuorum db r =
    (required_approvals_by_mode r.mode ≤ length (approvers r.id db.decisions))
    × (distinct_ids (approvers r.id db.decisions) ≡ true)
    × (has_id r.requested_by_person_id (approvers r.id db.decisions) ≡ false)

pub Valid-HasQuorum :
    (db : Db) (r : ApprovalRow)
    → Valid db
    → Memᴰ r db.approvals
    → r.status ≡ approved
    → HasQuorum db r
Valid-HasQuorum db r v m a =
    let h = All-mem (RowValid db.decisions) db.approvals r m v.rows in
    (
      omega (arith, h.mode_count, h.quorum a),
      h.apart,
      has_id-approvers r.id r.requested_by_person_id db.decisions h.not_self,
    )

-- From valid tables (empty ones, say), after any sequence of requests, decisions, sweeps and changes
-- of the other tables, an approved row has at least as many different approvers as its mode
-- requires (two for dual control), and the person who asked is not among them.
pub approved-HasQuorum :
    {db db' : Db} (r : ApprovalRow)
    → Valid db
    → Reach db db'
    → Memᴰ r db'.approvals
    → r.status ≡ approved
    → HasQuorum db' r
approved-HasQuorum {db' = db'} r v reach m a = Valid-HasQuorum db' r (Reach-Valid reach v) m a
