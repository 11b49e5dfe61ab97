-- ===== src/Approval/Floor.antt =====
-- The mode of a request: the organisation's own, raised to the caller's floor.
use cloudable.Base.{◌∙◌, ap, max, ap, max, ℕ, ◌≤◌, ◌≡◌, ◌≢◌, refl, Option, none, some, arith, ok}
use cloudable.Audit.{ApprovalMode, ActionType, approval_settings_change, approved, mode_rank}
use cloudable.Database.{Db}
use cloudable.Approval.{
  admin_access, Env, ApprovalRequest, ApprovalResult, apply_mode_floor, request_floor, request_mode,
  request_with, request, auto_approve, insert_pending, resolve_approval_mode,
}

abbrev pub floor_rank : Option ApprovalMode → ℕ
floor_rank none = 0
floor_rank (some m) = mode_rank m

-- The stricter of the two, and one of them.
apply_mode_floor_lem :
    (configured : ApprovalMode) (floor : Option ApprovalMode)
    → mode_rank (apply_mode_floor configured floor) ≡ max (mode_rank configured) (floor_rank floor)
unfolding apply_mode_floor
apply_mode_floor_lem configured none = ground arith
apply_mode_floor_lem configured (some floor) = ground arith

-- A change of approval settings has a floor of its own.
abbrev own_floor : ActionType → ℕ
own_floor approval_settings_change = 1
own_floor _ = 0

request_floor_lem :
    (req : ApprovalRequest)
    → floor_rank (request_floor req)
      ≡ max (own_floor req.action_type) (floor_rank req.required_mode_floor)
request_floor_lem req =
    ground (arith, apply_mode_floor_lem ApprovalMode.single req.required_mode_floor)

pub request_with_mode :
    (env : Env) (req : ApprovalRequest) (mode : ApprovalMode) (db : Db) (res : ApprovalResult)
    → (request_with env req mode db).0 ≡ ok res
    → (res.row.mode ≡ mode) × (res.row.status ≡ approved → mode ≡ ApprovalMode.none)
unfolding request_with auto_approve insert_pending
request_with_mode env req ApprovalMode.none db res h = (ground arith, λ _. refl)
request_with_mode env req mode db res h = (ground arith, λ a. ground arith)

-- A request that succeeds is recorded under a mode at least as strict as the organisation's setting
-- and as the floor that the caller asks for; it is approved at once only under mode "none"; and a
-- change of approval settings is never approved at once.
pub request_mode_floor :
    (env : Env) (req : ApprovalRequest) (db : Db) (res : ApprovalResult)
    → (request env req db).0 ≡ ok res
    → (mode_rank (resolve_approval_mode db req.org_id req.target_machine_id req.action_type)
        ≤ mode_rank res.row.mode)
      × (floor_rank req.required_mode_floor ≤ mode_rank res.row.mode)
      × (res.row.status ≡ approved → res.row.mode ≡ ApprovalMode.none)
      × (req.action_type ≡ approval_settings_change → res.row.status ≢ approved)
unfolding request request_mode
request_mode_floor env req db res h =
    let configured = resolve_approval_mode db req.org_id req.target_machine_id req.action_type in
    let recorded = request_with_mode env req (request_mode req db) db res (ground arith) in
    let rank : mode_rank res.row.mode ≡ mode_rank (request_mode req db) = ap mode_rank recorded.0 in
    let total = apply_mode_floor_lem configured (request_floor req) in
    let floor = request_floor_lem req in
    (
      omega (arith, rank, total),
      omega (arith, rank, total, floor),
      λ a. recorded.0 ∙ recorded.1 a,
      λ e a.
          let zero_rank : mode_rank (request_mode req db) ≡ 0 = ap mode_rank (recorded.1 a) in
          let own : own_floor req.action_type ≡ 1 = ap own_floor e in
          omega (arith, total, floor, zero_rank, own),
    )

-- A request for access without a floor of the caller's has exactly the configured mode.
pub request_own_mode :
    (env : Env) (req : ApprovalRequest) (db : Db) (a : ApprovalResult)
    → req.action_type ≡ admin_access
    → req.required_mode_floor ≡ Option.none
    → (request env req db).0 ≡ ok a
    → a.row.mode ≡ resolve_approval_mode db req.org_id req.target_machine_id req.action_type
unfolding request request_mode apply_mode_floor
request_own_mode env req db a action floor h =
    let mode = (request_with_mode env req (request_mode req db) db a (ground arith)).0 in
    mode ∙ ground arith
