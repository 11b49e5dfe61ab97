-- ===== src/Archive/Restoring.antt =====
-- When a snapshot can be restored, and with whose agreement.
use cloudable.Base.{◌≤◌, ◌≡◌, ◌≢◌, ◌↔◌, ◌⊎◌, none, some, ok, arith, inl, inr, ap}
use cloudable.Audit.{ApprovalMode, mode_rank, approved}
use cloudable.Database.{Db}
use cloudable.Approval.{Env, ApprovalRequest, ApprovalResult, request}
use cloudable.Approval.Floor.{floor_rank, request_mode_floor}
use cloudable.Archive.{
  Snapshot, restorable, get_snapshot_sub_state, restore_unavailable_reason, RestoreMode, full,
  RestoreTargetKind, live_machine, resolve_restore_approval_floor,
}

-- A restore is refused with a reason exactly for the snapshots that are not shown as restorable.
restorable_without_reason :
    (s : Snapshot) → (get_snapshot_sub_state s ≡ restorable) ↔ (restore_unavailable_reason s ≡ none)
unfolding get_snapshot_sub_state restore_unavailable_reason
restorable_without_reason s = ground arith

floor_dual :
    (mode : RestoreMode) (target : RestoreTargetKind)
    → (mode ≡ full) ⊎ (target ≡ live_machine)
    → mode_rank (resolve_restore_approval_floor mode target) ≡ 2
unfolding resolve_restore_approval_floor
floor_dual mode target (inl e) = ground arith
floor_dual mode target (inr e) = ground arith

rank_two : (m : ApprovalMode) → 2 ≤ mode_rank m → m ≡ ApprovalMode.dual
rank_two m h = ground arith

-- Whatever an organisation has configured, the approval of a full restore, or of one onto a running
-- machine, asks for two approvers and is not given at once.
pub destructive_restore_dual :
    (env : Env) (req : ApprovalRequest) (db : Db) (res : ApprovalResult) (mode : RestoreMode)
    (target : RestoreTargetKind)
    → (mode ≡ full) ⊎ (target ≡ live_machine)
    → req.required_mode_floor ≡ some (resolve_restore_approval_floor mode target)
    → (request env req db).0 ≡ ok res
    → (res.row.mode ≡ ApprovalMode.dual) × (res.row.status ≢ approved)
destructive_restore_dual env req db res mode target destructive floor h =
    let (_, at_least, at_once, _) = request_mode_floor env req db res h in
    let two = floor_dual mode target destructive in
    let dual : res.row.mode ≡ ApprovalMode.dual =
      rank_two res.row.mode (omega (arith, at_least, ap floor_rank floor, two)) in
    (dual, λ a. absurd (cc (at_once a, dual)))
