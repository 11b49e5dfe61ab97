-- ===== src/Retention/Groups.antt =====
-- What a sweep of events keeps, and what it deletes.
use cloudable.Base.{
  has_id-none, has_id-mem, any-mem, any-none, mem-filter, ℕ, ◌≤◌, ◌<◌, ◌≡◌, ◌≢◌, ◌⊎◌, refl, sym, ap,
  subst, true, false, not, List, [], ◌∷◌, ◌++◌, Memᴰ, arith, Bool-cases, inl, inr, All, All-map,
  All-zip, All-mem, All-filter, All-filter_of, All-sort_by, filter, take, sort_by, mem-sort_by,
  length, length-sort_by, has_id, if_keeps, is_empty, number_eq, ◌==◌,
}
use cloudable.Lifecycle.{SnapshotRow}
use cloudable.Retention.Rows.{ids_of, All-take, take_all, mem-left}
use cloudable.Retention.{
  LogEvent, Env, max_events_deleted_per_run, cutoff_of, is_held, protects, is_expirable, not_later,
  expirable, is_deleted, expired_record, delete_and_record, expire_org_events,
}

-- An event of the same operation that is inside the window, or of a machine with a held snapshot.
pub record Protected (cutoff : ℕ) (snapshots : List SnapshotRow) (rows : List LogEvent)
    (e : LogEvent) : Type 0 where
  pub sibling : LogEvent
  pub present : Memᴰ sibling rows
  pub same_org : sibling.org_id ≡ e.org_id
  pub same_operation : sibling.correlation_id ≡ e.correlation_id
  pub reason :
      (cutoff ≤ sibling.occurred_at) ⊎ (is_held snapshots e.org_id sibling.machine_id ≡ true)

-- No other row has the identifier of this one.
abbrev pub OnlyRow : List LogEvent → LogEvent → Type 0
OnlyRow rows e = All (λ s. s.id ≡ e.id → s ≡ e) rows

-- Every event of the operation is older than the window and of no held machine.
abbrev pub AgedOut : ℕ → List SnapshotRow → List LogEvent → LogEvent → Type 0
AgedOut cutoff snapshots rows e =
    All
      (λ s.
        s.org_id ≡ e.org_id
        → s.correlation_id ≡ e.correlation_id
        → (s.occurred_at < cutoff) × (is_held snapshots e.org_id s.machine_id ≡ false))
      rows

module _ (env : Env) (snapshots : List SnapshotRow) (org : ℕ) (rows : List LogEvent)
    (e : LogEvent) where
  -- An event that the batch does not name stays.
  kept :
      (batch : List LogEvent)
      → Memᴰ e rows
      → is_deleted org batch e ≡ false
      → Memᴰ e (delete_and_record env org batch rows).1
  unfolding delete_and_record
  kept batch m h =
      let left = mem-filter (λ x. not (is_deleted org batch x)) rows e m (rw h) in
      if_keeps (λ (r : ℕ × List LogEvent). Memᴰ e r.1)
        (is_empty (filter (is_deleted org batch) rows)) _ _ (λ _. left) (λ _. mem-left _ _ e left)

  protects_lem :
      (cutoff : ℕ) (s : LogEvent)
      → s.org_id ≡ e.org_id
      → s.correlation_id ≡ e.correlation_id
      → (cutoff ≤ s.occurred_at) ⊎ (is_held snapshots org s.machine_id ≡ true)
      → protects cutoff snapshots org e s ≡ true
  protects_lem cutoff s o c (inl within) = ground arith
  protects_lem cutoff s o c (inr held) = ground arith

  kept_from_expiry :
      (cutoff : ℕ)
      → Protected cutoff snapshots rows e
      → e.org_id ≡ org
      → is_expirable cutoff snapshots org rows e ≡ false
  unfolding is_expirable
  kept_from_expiry cutoff g own =
      let found = any-mem (protects cutoff snapshots org e) rows g.sibling g.present (
        protects_lem cutoff g.sibling g.same_org g.same_operation (
          subst
            (λ o.
              (cutoff ≤ g.sibling.occurred_at) ⊎ (is_held snapshots o g.sibling.machine_id ≡ true))
            own g.reason)) in
      ground (arith, found)

  not_in_batch :
      (cutoff : ℕ)
      → OnlyRow rows e
      → is_expirable cutoff snapshots org rows e ≡ false
      → has_id e.id (ids_of (expirable cutoff snapshots org rows)) ≡ false
  unfolding expirable
  not_in_batch cutoff only h =
      has_id-none (λ (x : LogEvent). x.id) e.id _
        (All-take (λ x. x.id ≡ e.id → ⊥) max_events_deleted_per_run _
          (All-sort_by not_later (λ x. x.id ≡ e.id → ⊥) _
            (All-zip (λ x. is_expirable cutoff snapshots org rows x ≡ true)
              (λ x. x.id ≡ e.id → x ≡ e) (λ x. x.id ≡ e.id → ⊥)
              (λ x due same k. cc (ap (is_expirable cutoff snapshots org rows) (same k))) _
              (All-filter (is_expirable cutoff snapshots org rows) rows)
              (All-filter_of (λ x. x.id ≡ e.id → x ≡ e) (is_expirable cutoff snapshots org rows)
                rows only))))

  -- A sweep of one organisation, with any backlog and distinct identifiers, deletes no event of another organisation, and none
  -- whose operation has an event inside the window or of a machine with a snapshot under legal hold.
  pub protected_event_stays :
      (days : ℕ)
      → OnlyRow rows e
      → Memᴰ e rows
      → (e.org_id ≢ org) ⊎ Protected (cutoff_of env days) snapshots rows e
      → Memᴰ e (expire_org_events env snapshots org days rows).1
  unfolding expire_org_events
  protected_event_stays days only m why =
      if_keeps (λ (r : ℕ × List LogEvent). Memᴰ e r.1) (env.down org) _ _ (λ _. m)
        (λ _. kept (expirable (cutoff_of env days) snapshots org rows) m (spared why))
    where
      spared :
          (e.org_id ≢ org) ⊎ Protected (cutoff_of env days) snapshots rows e
          → is_deleted org (expirable (cutoff_of env days) snapshots org rows) e ≡ false
      spared (inl other) = ground (arith, other)
      spared (inr g) = elim (Bool-cases (e.org_id == org)) [
        | inl same ↦
            let out =
              not_in_batch (cutoff_of env days) only
                (kept_from_expiry (cutoff_of env days) g (ground arith)) in
            rw (same, out)
        | inr other ↦ rw other
      ]

  aged_is_expirable :
      (cutoff : ℕ)
      → e.org_id ≡ org
      → Memᴰ e rows
      → AgedOut cutoff snapshots rows e
      → is_expirable cutoff snapshots org rows e ≡ true
  unfolding is_expirable
  aged_is_expirable cutoff own m aged =
      let mine = All-mem _ rows e m aged refl refl in
      let none_protects = any-none (protects cutoff snapshots org e) rows (
        All-map _ (λ s. protects cutoff snapshots org e s ≡ false)
          (λ s h. unprotected cutoff s (
            subst
              (λ o.
                s.org_id ≡ e.org_id
                → s.correlation_id ≡ e.correlation_id
                → (s.occurred_at < cutoff) × (is_held snapshots o s.machine_id ≡ false))
              own h))
          rows aged) in
      ground (arith, none_protects)
    where
      unprotected :
          (c : ℕ) (s : LogEvent)
          → (s.org_id ≡ e.org_id
              → s.correlation_id ≡ e.correlation_id
              → (s.occurred_at < c) × (is_held snapshots org s.machine_id ≡ false))
          → protects c snapshots org e s ≡ false
      unprotected c s h = elim (Bool-cases (s.org_id == e.org_id)) [
        | inl o ↦ elim (Bool-cases (s.correlation_id == e.correlation_id)) [
          | inl k ↦ let both = h (ground arith) (ground arith) in ground arith
          | inr k ↦ ground arith
        ]
        | inr o ↦ ground arith
      ]

  in_batch :
      (cutoff : ℕ)
      → length (filter (is_expirable cutoff snapshots org rows) rows) ≤ max_events_deleted_per_run
      → Memᴰ e rows
      → is_expirable cutoff snapshots org rows e ≡ true
      → has_id e.id (ids_of (expirable cutoff snapshots org rows)) ≡ true
  unfolding expirable
  in_batch cutoff few m due =
      let aged = filter (is_expirable cutoff snapshots org rows) rows in
      let sorted = sort_by not_later aged in
      let whole : take max_events_deleted_per_run sorted ≡ sorted =
        take_all max_events_deleted_per_run sorted
          (omega (arith, length-sort_by not_later aged, few)) in
      subst (λ xs. has_id e.id (ids_of xs) ≡ true) (sym whole)
        (has_id-mem (λ (x : LogEvent). x.id) sorted e
          (mem-sort_by not_later aged e
            (mem-filter (is_expirable cutoff snapshots org rows) rows e m due)))

  gone :
      (batch : List LogEvent)
      → is_deleted org batch e ≡ true
      → e.occurred_at < env.now
      → Memᴰ e (delete_and_record env org batch rows).1
      → ⊥
  unfolding delete_and_record
  gone batch h old =
      if_keeps (λ (r : ℕ × List LogEvent). Memᴰ e r.1 → ⊥)
        (is_empty (filter (is_deleted org batch) rows)) _ _ (λ _. not_left)
        (λ _ m. split (filter (λ x. not (is_deleted org batch x)) rows) m not_left)
    where
      not_left : Memᴰ e (filter (λ x. not (is_deleted org batch x)) rows) → ⊥
      not_left m =
          let k =
            All-mem (λ x. not (is_deleted org batch x) ≡ true) _ e m
              (All-filter (λ x. not (is_deleted org batch x)) rows) in
          absurd (ground arith)

      split :
          (xs : List LogEvent) → Memᴰ e (xs ++ expired_record env org ∷ []) → (Memᴰ e xs → ⊥) → ⊥
      split [] (Memᴰ.head same) absent = absurd (omega (arith, ap (λ x. x.occurred_at) same))
      split [] (Memᴰ.tail m) absent = elim m [ ]
      split (x ∷ xs) (Memᴰ.head same) absent = absent (Memᴰ.head same)
      split (x ∷ xs) (Memᴰ.tail m) absent = split xs m (λ k. absent (Memᴰ.tail k))

  -- Where no more than a run's limit has aged out, every event of an operation that has aged out as a
  -- whole, with no event of a held machine, is deleted.
  pub aged_event_goes :
      (days : ℕ)
      → env.down org ≡ false
      → length (filter (is_expirable (cutoff_of env days) snapshots org rows) rows)
        ≤ max_events_deleted_per_run
      → e.org_id ≡ org
      → Memᴰ e rows
      → AgedOut (cutoff_of env days) snapshots rows e
      → ¬ Memᴰ e (expire_org_events env snapshots org days rows).1
  unfolding expire_org_events
  aged_event_goes days up few own m aged =
      let cutoff = cutoff_of env days in
      let mine = All-mem _ rows e m aged refl refl in
      let named = in_batch cutoff few m (aged_is_expirable cutoff own m aged) in
      if_keeps (λ (r : ℕ × List LogEvent). Memᴰ e r.1 → ⊥) (env.down org) _ _ (λ d. absurd (cc))
        (λ _.
          gone (expirable cutoff snapshots org rows) (ground (arith, named)) (omega (arith, mine)))
