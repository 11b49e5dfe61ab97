-- ===== src/Retention/Scans.antt =====
-- apps/control-plane/src/domain/vulnerability-scan/retention.ts, over the columns that it reads of
-- packages/schema/src/tables/machine-vulnerability.ts and machine-vulnerability-scan.ts.
use cloudable.Base.{
  ℕ, Bool, true, false, not, ◌&&◌, Option, none, some, List, ltb, ◌==◌, number_eq, Result, ok, err,
  filter, any, length, if◌then◌else◌,
}
use cloudable.Lifecycle.{Machine, SnapshotRow}
use cloudable.Retention.{Env, cutoff_of}

pub data ScanOutcome : Type 0 where
  completed failed : ScanOutcome

pub record Scan : Type 0 where
  pub id : ℕ
  pub machine_id : ℕ
  pub outcome : ScanOutcome
  pub finished_at : ℕ

-- A finding that is not resolved is open.
pub record Finding : Type 0 where
  pub id : ℕ
  pub machine_id : ℕ
  pub resolved_at : Option ℕ

pub record ScanTables : Type 0 where
  pub findings : List Finding
  pub scans : List Scan

pub data VulnerabilityRetentionError : Type 0 where
  expire_vulnerability_data : VulnerabilityRetentionError

abbrev pub is_completed : ScanOutcome → Bool
is_completed completed = true
is_completed failed = false

abbrev pub is_org_machine : List Machine → (org machine : ℕ) → Bool
is_org_machine machines org machine = any (λ m. m.id == machine && m.org_id == org) machines

abbrev pub machine_is_held : List SnapshotRow → ℕ → Bool
machine_is_held snapshots machine = any (λ s. s.machine_id == machine && s.legal_hold) snapshots

abbrev pub is_resolved_before : ℕ → Option ℕ → Bool
is_resolved_before cutoff none = false
is_resolved_before cutoff (some at) = ltb at cutoff

-- A newer scan of the same machine that completed.
abbrev pub is_newer : Scan → Scan → Bool
is_newer s newer =
    newer.machine_id == s.machine_id
    && (is_completed newer.outcome && ltb s.finished_at newer.finished_at)

abbrev pub finding_expired : ℕ → List Machine → List SnapshotRow → ℕ → Finding → Bool
finding_expired cutoff machines snapshots org f =
    is_org_machine machines org f.machine_id
    && (is_resolved_before cutoff f.resolved_at && not (machine_is_held snapshots f.machine_id))

abbrev pub scan_expired : ℕ → List Machine → List SnapshotRow → ℕ → List Scan → Scan → Bool
scan_expired cutoff machines snapshots org scans s =
    is_org_machine machines org s.machine_id
    && (ltb s.finished_at cutoff
        && (not (machine_is_held snapshots s.machine_id) && any (is_newer s) scans))

-- How many rows went, for the log; a transaction that fails leaves the tables as they were.
unfoldable pub expire_org_vulnerability_data :
    Env
    → List Machine
    → List SnapshotRow
    → (org days : ℕ) → ScanTables
    → Result VulnerabilityRetentionError (ℕ × ℕ) × ScanTables
expire_org_vulnerability_data env machines snapshots org days t =
    let old_finding = finding_expired (cutoff_of env days) machines snapshots org in
    let old_scan = scan_expired (cutoff_of env days) machines snapshots org t.scans in
    if env.scans_down org then (err expire_vulnerability_data, t) else (
      ok (length (filter old_finding t.findings), length (filter old_scan t.scans)),
      record {
        findings = filter (λ f. not (old_finding f)) t.findings;
        scans = filter (λ s. not (old_scan s)) t.scans;
      },
    )
