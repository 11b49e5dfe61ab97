-- ===== src/Retention/Lookback.antt =====
-- What a pass over all organisations leaves for an auditor to look back on.
use cloudable.Base.{
  sym, subst, Result, ℕ, ◌≤◌, ◌≡◌, ◌≢◌, ◌⊎◌, refl, true, List, [], ◌∷◌, Memᴰ, arith, Bool-cases,
  inl, inr, All, All-mem, All-append, All-filter_of, if_keeps, distinct_ids, same_key, number_eq,
  ◌==◌, is_empty, filter, not,
}
use cloudable.Lifecycle.{Machine, SnapshotRow}
use cloudable.Retention.{
  LogEvent, Env, StoredDays, cutoff_of, is_held, is_deleted, expired_record, expirable,
  delete_and_record, expire_org_events,
}
use cloudable.Retention.Pass.{
  EventRetentionError, Tables, window_of, expire_org, expire_each, expire_events_past_retention,
}
use cloudable.Retention.Rows.{ids_of}
use cloudable.Retention.Groups.{Protected, OnlyRow, protected_event_stays}

module _ (env : Env) (snapshots : List SnapshotRow) (org days : ℕ) (rows : List LogEvent) where
  -- What holds of every row and of the new record holds of every row after a sweep.
  All-expire_org_events :
      (P : LogEvent → Type 0)
      → P (expired_record env org)
      → All P rows
      → All P (expire_org_events env snapshots org days rows).1
  unfolding expire_org_events delete_and_record
  All-expire_org_events P new old =
      let batch = expirable (cutoff_of env days) snapshots org rows in
      let left = All-filter_of P (λ e. not (is_deleted org batch e)) rows old in
      if_keeps (λ (r : ℕ × List LogEvent). All P r.1) (env.down org) _ _ (λ _. old)
        (λ _.
          if_keeps (λ (r : ℕ × List LogEvent). All P r.1)
            (is_empty (filter (is_deleted org batch) rows)) _ _ (λ _. left)
            (λ _. All-append P _ _ left (new, tt)))

module _ (env : Env) (machines : List Machine) (snapshots : List SnapshotRow)
    (stored : ℕ → StoredDays) where
  -- The oldest time that a sweep of an organisation leaves alone.
  abbrev pub cutoff_for : ℕ → ℕ
  cutoff_for org = cutoff_of env (window_of env machines snapshots stored org)

  module _ (e g : LogEvent) where
    -- The event and the one that protects it are in the table, each under an identifier of its own.
    abbrev Kept : List LogEvent → Type 0
    Kept rows = Memᴰ e rows × Memᴰ g rows × OnlyRow rows e × OnlyRow rows g

    -- What it is that protects it.
    record Guards : Type 0 where
      same_org : g.org_id ≡ e.org_id
      same_operation : g.correlation_id ≡ e.correlation_id
      reason :
          (cutoff_for e.org_id ≤ g.occurred_at) ⊎ (is_held snapshots e.org_id g.machine_id ≡ true)

  Guards-self : (e g : LogEvent) → Guards e g → Guards g g
  Guards-self e g p = record {
    same_org = refl;
    same_operation = refl;
    reason =
        subst (λ o. (cutoff_for o ≤ g.occurred_at) ⊎ (is_held snapshots o g.machine_id ≡ true))
          (sym p.same_org) p.reason;
  }

  stays :
      (org : ℕ) (rows : List LogEvent) (e g : LogEvent)
      → Guards e g
      → Memᴰ e rows
      → Memᴰ g rows
      → OnlyRow rows e
      → Memᴰ e
          (expire_org_events env snapshots org (window_of env machines snapshots stored org) rows).1
  stays org rows e g p me mg only = elim (Bool-cases (e.org_id == org)) [
    | inl own ↦
        protected_event_stays env snapshots org rows e (window_of env machines snapshots stored org)
          only me
          (inr (record {
            sibling = g;
            present = mg;
            same_org = p.same_org;
            same_operation = p.same_operation;
            reason =
                subst
                  (λ o.
                    (cutoff_for o ≤ g.occurred_at)
                    ⊎ (is_held snapshots e.org_id g.machine_id ≡ true))
                  ((number_eq.same_iff e.org_id org).0 own) p.reason;
          }))
    | inr other ↦
        protected_event_stays env snapshots org rows e (window_of env machines snapshots stored org)
          only me (inl (ground (arith, other)))
  ]

  Kept-expire_org :
      (org : ℕ) (t : Tables) (e g : LogEvent)
      → Guards e g
      → env.new_id org ≢ e.id
      → env.new_id org ≢ g.id
      → Kept e g t.events
      → Kept e g (expire_org env machines snapshots stored org t).1.events
  unfolding expire_org
  Kept-expire_org org t e g p new_e new_g (me, mg, oe, og) =
      let days = window_of env machines snapshots stored org in
      (
        stays org t.events e g p me mg oe,
        stays org t.events g g (Guards-self e g p) mg mg og,
        All-expire_org_events env snapshots org days t.events (λ s. s.id ≡ e.id → s ≡ e)
            (λ k. absurd (new_e k)) oe,
        All-expire_org_events env snapshots org days t.events (λ s. s.id ≡ g.id → s ≡ g)
            (λ k. absurd (new_g k)) og,
      )

  Kept-expire_each :
      (orgs : List ℕ) (t : Tables) (e g : LogEvent)
      → Guards e g
      → All (λ org. env.new_id org ≢ e.id) orgs
      → All (λ org. env.new_id org ≢ g.id) orgs
      → Kept e g t.events
      → Kept e g (expire_each env machines snapshots stored orgs t).1.events
  unfolding expire_each
  Kept-expire_each [] t e g p new_e new_g k = k
  Kept-expire_each (org ∷ orgs) t e g p new_e new_g k =
      Kept-expire_each orgs (expire_org env machines snapshots stored org t).1 e g p new_e.1 new_g.1
        (Kept-expire_org org t e g p new_e.0 new_g.0 k)

  -- A pass over any organisations, whatever of it fails and with any backlog, deletes no event whose
  -- operation has an event inside the window of its organisation, or of a machine with a snapshot
  -- under legal hold. Identifiers are distinct, and those of the new records are new.
  pub protected_event_outlasts_pass :
      (orgs : List ℕ) (t : Tables) (e : LogEvent)
      → distinct_ids (ids_of t.events) ≡ true
      → All (λ x. All (λ org. env.new_id org ≢ x.id) orgs) t.events
      → Memᴰ e t.events
      → Protected (cutoff_for e.org_id) snapshots t.events e
      → Memᴰ e (expire_events_past_retention env machines snapshots stored orgs t).1.events
  unfolding expire_events_past_retention
  protected_event_outlasts_pass orgs t e keys fresh m p =
      let only = same_key (λ (x : LogEvent). x.id) t.events keys in
      let g = p.sibling in
      let whole =
        Kept-expire_each orgs t e g
          (record { same_org = p.same_org; same_operation = p.same_operation; reason = p.reason })
          (All-mem (λ x. All (λ org. env.new_id org ≢ x.id) orgs) t.events e m fresh)
          (All-mem (λ x. All (λ org. env.new_id org ≢ x.id) orgs) t.events g p.present fresh)
          (
            m,
            p.present,
            All-mem (OnlyRow t.events) t.events e m only,
            All-mem (OnlyRow t.events) t.events g p.present only,
          ) in
      if_keeps (λ (r : Result EventRetentionError ℕ × Tables). Memᴰ e r.1.events) env.query_down _ _
        (λ _. m) (λ _. whole.0)
