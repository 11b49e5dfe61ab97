-- ===== src/Restore/Gate.antt =====
-- The gate of a restore: what follows from the answer to its request for approval.
use cloudable.Base.{
  any, is_some, if_keeps, not, ℕ, ◌≡◌, ◌⊎◌, refl, ap, true, false, Option, none, some, [], ◌∷◌,
  ◌++◌, ◌==◌, ◌||◌, number_eq, arith, Bool-cases, inl, inr, Result, ok, err,
}
use cloudable.Audit.{ApprovalStatus, approved, pending, rejected, expired}
use cloudable.Database.{ApprovalRow, Db}
use cloudable.Approval.{ApprovalResult, ApprovalError, request}
use cloudable.Archive.{live_machine}
use cloudable.Archive.Restoring.{destructive_restore_dual}
use cloudable.Lifecycle.{Machine, World, Provisioning}
use cloudable.Snapshots.Archiving.{is_archived}
use cloudable.Restore.{
  RestoreSnapshotInput, RestoreSnapshotResult, MachineService, RestoreEnv, request_for,
  target_kind_of, restored_event, approval_request_failed,
}
use cloudable.Restore.Checks.{
  result_of, Checked, Restoring, perform, publish_restored, save_restore_request, by_approval, gate,
}
use cloudable.Restore.Quiet.{Quiet, perform-Quiet}
use cloudable.Restore.PutBack.{PutBackOn, perform-PutBackOn, append_event-PutBackOn}

module _ {S : Type 0} (p : Provisioning S) (service : MachineService S) (env : RestoreEnv) where
  -- A restore that has been carried out: by an approval that the request came back with, by calls of
  -- the provider that succeeded, and with one event at the end of the record.
  pub record Restored (input : RestoreSnapshotInput) (c : Checked) (w : World S) (out : Restoring S)
      : Type 0 where
    pub result : RestoreSnapshotResult
    pub answered : out.0 ≡ ok result
    pub approval : ApprovalResult
    pub requested :
        (request env.approvals (request_for input c.snapshot c.target) w.db).0 ≡ ok approval
    pub given : approval.row.status ≡ approved
    pub by_it : result.approval_id ≡ approval.row.id
    pub tables : out.1.db ≡ (request env.approvals (request_for input c.snapshot c.target) w.db).1
    pub machine : ℕ
    pub onto : result.target_machine_id ≡ some machine
    pub put_back :
        PutBackOn p service env input c c.target machine
          (record w { db = (request env.approvals (request_for input c.snapshot c.target) w.db).1 })
          out.1
    pub recorded :
        out.1.events
        ≡ w.events
          ++ restored_event env.archive c.snapshot.org_id machine input.requested_by_person_id
              approval.row.id input.mode
              (not (is_some c.target))
            ∷ []

  -- A call that does not claim to have restored anything, and has recorded nothing.
  abbrev pub Untold : World S → Restoring S → Type 0
  Untold w out =
      ((r : RestoreSnapshotResult) → out.0 ≡ ok r → r.restored ≡ false) × (out.1.events ≡ w.events)

  module _ (input : RestoreSnapshotInput) (c : Checked) (w : World S) where
    abbrev asked : Result ApprovalError ApprovalResult × Db
    asked = request env.approvals (request_for input c.snapshot c.target) w.db

    publish_restored-Restored :
        (a : ApprovalResult) (done : Option ℕ) (w' : World S)
        → asked.0 ≡ ok a
        → a.row.status ≡ approved
        → Quiet (record w { db = asked.1 }) w'
        → ((id : ℕ)
            → done ≡ some id
            → PutBackOn p service env input c c.target id (record w { db = asked.1 }) w')
        → let out = publish_restored p service env input c a.row done w' in
          Restored input c w out ⊎ Untold w out
    unfolding publish_restored
    publish_restored-Restored a none w' came given quiet back =
        inr (λ r e. absurd (cc), quiet.same_events)
    publish_restored-Restored a (some id) w' came given quiet back =
        if_keeps (λ (out : Restoring S). Restored input c w out ⊎ Untold w out)
          (env.archive.publish_down id) _ _ (λ _. inr (λ r e. absurd (cc), quiet.same_events))
          (λ _. inl (record {
            result = result_of input c (some id) a.row true;
            answered = refl;
            approval = a;
            requested = came;
            given = given;
            by_it = refl;
            tables = quiet.same_db;
            machine = id;
            onto = refl;
            put_back =
                append_event-PutBackOn p service env input c c.target id _ _ w' (back id refl);
            recorded =
                ap
                  (λ es.
                    es
                    ++ restored_event env.archive c.snapshot.org_id id input.requested_by_person_id
                        a.row.id input.mode (not (is_some c.target))
                      ∷ [])
                  quiet.same_events;
          }))

    save-Untold :
        (a : ApprovalRow) (w' : World S)
        → w'.events ≡ w.events
        → Untold w (save_restore_request p service env input c a w')
    unfolding save_restore_request
    save-Untold a w' same =
        if_keeps (Untold w) (env.save_down || any (λ r. r.approval_id == a.id) w'.restore_requests)
          _ _ (λ _. (λ r e. absurd (cc), same)) (λ _. (λ r e. ground arith, same))

    by_approval-Restored :
        (a : ApprovalResult) (s : ApprovalStatus)
        → asked.0 ≡ ok a
        → a.row.status ≡ s
        → let out = by_approval p service env input c a.row s (record w { db = asked.1 }) in
          Restored input c w out ⊎ Untold w out
    unfolding by_approval
    by_approval-Restored a rejected came is = inr (λ r e. absurd (cc), refl)
    by_approval-Restored a expired came is = inr (λ r e. absurd (cc), refl)
    by_approval-Restored a pending came is =
        inr (save-Untold a.row (record w { db = asked.1 }) refl)
    by_approval-Restored a approved came is =
        let done = perform p service env input c (record w { db = asked.1 }) in
        publish_restored-Restored a done.0 done.1 came is
          (perform-Quiet p service env input c (record w { db = asked.1 }))
          (perform-PutBackOn p service env input c (record w { db = asked.1 }))

    pub gate-Restored :
        let out = gate p service env input c w in Restored input c w out ⊎ Untold w out
    unfolding gate
    gate-Restored = go asked.0 refl
      where
        go :
            (answer : Result ApprovalError ApprovalResult)
            → asked.0 ≡ answer
            → let w' = record w { db = asked.1 } in
              let out : Restoring S = elim answer [
                | err e ↦ (err approval_request_failed, w')
                | ok a ↦ by_approval p service env input c a.row a.row.status w'
              ] in
              Restored input c w out ⊎ Untold w out
        go (err e) came = inr (λ r k. absurd (cc), refl)
        go (ok a) came = by_approval-Restored a a.row.status came refl

    -- A machine that would lose its data asks for two approvers, so it is not overwritten at once.
    pub restored-archived :
        (a : ApprovalResult) (m : Machine)
        → asked.0 ≡ ok a
        → a.row.status ≡ approved
        → c.target ≡ some m
        → is_archived m.state ≡ true
    unfolding target_kind_of
    restored-archived a m came given target = elim (Bool-cases (is_archived m.state)) [
      | inl e ↦ e
      | inr e ↦
          let live : target_kind_of c.target ≡ live_machine = rw (target, e) in
          absurd (
            (destructive_restore_dual env.approvals (request_for input c.snapshot c.target) w.db a
                input.mode (target_kind_of c.target) (inr live) refl came).1
              given)
    ]
