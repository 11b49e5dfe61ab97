-- ===== src/Archive.antt =====
-- apps/control-plane/src/domain/archive: the computed state of a snapshot (sub-state.ts), and how
-- many approvers a restore needs (approval-escalation.ts). A reason's wording is left out: it is one of
-- three, with the time that it names.
pub mod Restoring
mod Examples
use cloudable.Base.{ℕ, Bool, true, false, Option, none, some, leb, if◌then◌else◌}
use cloudable.Audit.{ApprovalMode, mode_rank}

-- The column is JSON: an array of disks, some other value, or not handed over at all.
pub data CapturedDisks : Type 0 where
  not_given other_value : CapturedDisks
  disks : (count : ℕ) → CapturedDisks

pub record Snapshot : Type 0 where
  pub expired_at : Option ℕ
  pub data_missing_at : Option ℕ
  pub captured_disks : CapturedDisks

pub data SnapshotSubState : Type 0 where
  restorable expired empty data_missing : SnapshotSubState

unfoldable pub captured_nothing : Snapshot → Bool
captured_nothing s = elim s.captured_disks [ disks count ↦ leb count 0 | _ ↦ false ]

pub by_missing : Option ℕ → SnapshotSubState
by_missing (some t) = data_missing
by_missing none = restorable

by_expiry : Option ℕ → Option ℕ → SnapshotSubState
unfolding by_missing
by_expiry (some t) missing = expired
by_expiry none missing = by_missing missing

unfoldable pub get_snapshot_sub_state : Snapshot → SnapshotSubState
unfolding captured_nothing by_expiry
get_snapshot_sub_state s =
    if captured_nothing s then empty else by_expiry s.expired_at s.data_missing_at

pub data UnavailableReason : Type 0 where
  no_disks : UnavailableReason
  expired_on found_missing_on : (time : ℕ) → UnavailableReason

reason_missing : Option ℕ → Option UnavailableReason
reason_missing (some t) = some (found_missing_on t)
reason_missing none = none

reason_expiry : Option ℕ → Option ℕ → Option UnavailableReason
unfolding reason_missing
reason_expiry (some t) missing = some (expired_on t)
reason_expiry none missing = reason_missing missing

unfoldable pub restore_unavailable_reason : Snapshot → Option UnavailableReason
unfolding captured_nothing reason_expiry
restore_unavailable_reason s =
    if captured_nothing s then some no_disks else reason_expiry s.expired_at s.data_missing_at

pub data RestoreMode : Type 0 where
  data_only config full : RestoreMode

pub data RestoreTargetKind : Type 0 where
  new_machine archived_machine live_machine : RestoreTargetKind

unfoldable pub strongest : ApprovalMode → ApprovalMode → ApprovalMode
strongest a b = if leb (mode_rank b) (mode_rank a) then a else b

pub floor_by_mode : RestoreMode → ApprovalMode
floor_by_mode full = ApprovalMode.dual
floor_by_mode config = ApprovalMode.single
floor_by_mode data_only = ApprovalMode.none

pub floor_by_target : RestoreTargetKind → ApprovalMode
floor_by_target live_machine = ApprovalMode.dual
floor_by_target _ = ApprovalMode.none

unfoldable pub resolve_restore_approval_floor : RestoreMode → RestoreTargetKind → ApprovalMode
unfolding strongest floor_by_mode floor_by_target
resolve_restore_approval_floor mode target = strongest (floor_by_mode mode) (floor_by_target target)
