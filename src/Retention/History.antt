-- ===== src/Retention/History.antt =====
-- What a pass leaves of the vulnerability data of machines.
use cloudable.Base.{
  any-none, mem-filter, ℕ, ◌≤◌, ◌≡◌, refl, sym, ap, ◌∙◌, Bool, true, false, not, ◌&&◌, ◌||◌, Option,
  none, some, List, [], ◌∷◌, Memᴰ, arith, Bool-cases, inl, inr, All, All-map, All-mem,
  All-filter_of, filter, max, leb, if◌then◌else◌, if_keeps, is_some, number_eq, ◌==◌, Result,
}
use cloudable.Lifecycle.{Machine, SnapshotRow}
use cloudable.Retention.{Env, StoredDays, cutoff_of}
use cloudable.Retention.Scans.{
  Scan, Finding, ScanTables, VulnerabilityRetentionError, is_completed, machine_is_held, is_newer,
  finding_expired, scan_expired, expire_org_vulnerability_data,
}
use cloudable.Retention.Pass.{
  Tables, EventRetentionError, window_of, expire_org, expire_each, expire_events_past_retention,
}

some_inj : {a b : ℕ} → some a ≡ some b → a ≡ b
some_inj h = cc

abbrev pub counts_for : ℕ → Scan → Bool
counts_for machine s = s.machine_id == machine && is_completed s.outcome

abbrev pub later : ℕ → Option ℕ → ℕ
later at none = at
later at (some best) = max at best

-- When a machine was last scanned completely.
abbrev pub last_completed : ℕ → List Scan → Option ℕ
last_completed machine [] = none
last_completed machine (s ∷ scans) =
    if counts_for machine s
    then some (later s.finished_at (last_completed machine scans))
    else last_completed machine scans

-- `at` is the greatest of the times.
record IsLast (machine : ℕ) (scans : List Scan) (at : ℕ) : Type 0 where
  scan : Scan
  present : Memᴰ scan scans
  counts : counts_for machine scan ≡ true
  ended : scan.finished_at ≡ at
  greatest : All (λ s. counts_for machine s ≡ true → s.finished_at ≤ at) scans

last_completed-none :
    (machine : ℕ) (scans : List Scan)
    → last_completed machine scans ≡ none
    → All (λ s. counts_for machine s ≡ false) scans
last_completed-none machine [] h = tt
last_completed-none machine (s ∷ scans) h = elim (Bool-cases (counts_for machine s)) [
  | inl e ↦ absurd (cc (rw e at h))
  | inr e ↦ (e, last_completed-none machine scans (rw e at h))
]

none-last_completed :
    (machine : ℕ) (scans : List Scan)
    → All (λ s. counts_for machine s ≡ false) scans
    → last_completed machine scans ≡ none
none-last_completed machine [] h = refl
none-last_completed machine (s ∷ scans) h = rw h.0 (none-last_completed machine scans h.1)

last_completed-IsLast :
    (machine : ℕ) (scans : List Scan) (at : ℕ)
    → last_completed machine scans ≡ some at
    → IsLast machine scans at
last_completed-IsLast machine [] at h = absurd (cc)
last_completed-IsLast machine (s ∷ scans) at h = elim (Bool-cases (counts_for machine s)) [
  | inl e ↦
      mine (last_completed machine scans) e (last_completed-none machine scans)
        (last_completed-IsLast machine scans) (rw e at h)
  | inr e ↦
      let rest = last_completed-IsLast machine scans at (rw e at h) in
      record {
        scan = rest.scan;
        present = Memᴰ.tail rest.present;
        counts = rest.counts;
        ended = rest.ended;
        greatest = (λ k. absurd (cc), rest.greatest);
      }
]
  where
    mine :
        (best : Option ℕ)
        → counts_for machine s ≡ true
        → (best ≡ none → All (λ s. counts_for machine s ≡ false) scans)
        → ((b : ℕ) → best ≡ some b → IsLast machine scans b)
        → some (later s.finished_at best) ≡ some at
        → IsLast machine (s ∷ scans) at
    mine none e alone among h = record {
      scan = s;
      present = Memᴰ.head refl;
      counts = e;
      ended = cc h;
      greatest = (
        λ k. omega (arith, some_inj h),
        All-map (λ s. counts_for machine s ≡ false)
            (λ s. counts_for machine s ≡ true → s.finished_at ≤ at) (λ s no k. absurd (cc (no, k)))
            scans (alone refl),
      );
    }
    mine (some b) e alone among h =
        let rest = among b refl in
        let greatest : All (λ x. counts_for machine x ≡ true → x.finished_at ≤ at) (s ∷ scans) = (
          λ k. omega (arith, some_inj h),
          All-map (λ s. counts_for machine s ≡ true → s.finished_at ≤ b)
              (λ s. counts_for machine s ≡ true → s.finished_at ≤ at)
              (λ x le k. omega (arith, le k, some_inj h)) scans rest.greatest,
        ) in
        elim (Bool-cases (leb b s.finished_at)) [
          | inl first ↦ record {
            scan = s;
            present = Memᴰ.head refl;
            counts = e;
            ended = ground (arith, some_inj h);
            greatest = greatest;
          }
          | inr before ↦ record {
            scan = rest.scan;
            present = Memᴰ.tail rest.present;
            counts = rest.counts;
            ended = ground (arith, some_inj h, rest.ended);
            greatest = greatest;
          }
        ]

-- Whatever has the greatest time as its own is the last.
last_of_greatest :
    (machine : ℕ) (scans : List Scan) (at : ℕ)
    → IsLast machine scans at
    → last_completed machine scans ≡ some at
last_of_greatest machine scans at l = go (last_completed machine scans) refl
  where
    go : (r : Option ℕ) → last_completed machine scans ≡ r → last_completed machine scans ≡ some at
    go none e =
        let no =
          All-mem (λ s. counts_for machine s ≡ false) scans l.scan l.present
            (last_completed-none machine scans e) in
        absurd (cc (no, l.counts))
    go (some v) e =
        let k = last_completed-IsLast machine scans v e in
        let above =
          All-mem (λ s. counts_for machine s ≡ true → s.finished_at ≤ v) scans l.scan l.present
            k.greatest l.counts in
        let below =
          All-mem (λ s. counts_for machine s ≡ true → s.finished_at ≤ at) scans k.scan k.present
            l.greatest k.counts in
        let same : v ≡ at = omega (arith, k.ended, l.ended) in e ∙ ap some same

-- Taking rows away that the second test does not admit changes nothing that it admits.
filter-filter :
    {A : Type 0} (p q : A → Bool)
    → ((a : A) → q a ≡ true → p a ≡ true)
    → (xs : List A) → filter q (filter p xs) ≡ filter q xs
filter-filter p q h [] = refl
filter-filter p q h (x ∷ xs) =
    let rest = filter-filter p q h xs in
    elim (Bool-cases (q x)) [
      | inl e ↦ let k = h x e in ground (arith, rest, k)
      | inr e ↦ ground (arith, rest)
    ]

module _ (machines : List Machine) (snapshots : List SnapshotRow) (cutoff org : ℕ) where
  abbrev kept_scans : List Scan → List Scan
  kept_scans scans = filter (λ s. not (scan_expired cutoff machines snapshots org scans s)) scans

  last_is_kept :
      (machine : ℕ) (scans : List Scan) (at : ℕ) (l : IsLast machine scans at)
      → not (scan_expired cutoff machines snapshots org scans l.scan) ≡ true
  last_is_kept machine scans at l =
      let none_newer = any-none (is_newer l.scan) scans (
        All-map (λ s. counts_for machine s ≡ true → s.finished_at ≤ at)
          (λ s. is_newer l.scan s ≡ false) not_newer scans l.greatest) in
      ground (arith, none_newer)
    where
      not_newer :
          (s : Scan)
          → (counts_for machine s ≡ true → s.finished_at ≤ at)
          → is_newer l.scan s ≡ false
      not_newer s h = ground (arith, h, l.counts, l.ended)

  last_completed-kept_scans :
      (machine : ℕ) (scans : List Scan)
      → last_completed machine (kept_scans scans) ≡ last_completed machine scans
  last_completed-kept_scans machine scans = go (last_completed machine scans) refl
    where
      go :
          (r : Option ℕ)
          → last_completed machine scans ≡ r
          → last_completed machine (kept_scans scans) ≡ last_completed machine scans
      go none e =
          none-last_completed machine (kept_scans scans) (
            All-filter_of (λ s. counts_for machine s ≡ false) _ scans
              (last_completed-none machine scans e))
          ∙ sym e
      go (some at) e =
          let l = last_completed-IsLast machine scans at e in
          last_of_greatest machine (kept_scans scans) at (record {
            scan = l.scan;
            present = mem-filter _ scans l.scan l.present (last_is_kept machine scans at l);
            counts = l.counts;
            ended = l.ended;
            greatest =
                All-filter_of (λ s. counts_for machine s ≡ true → s.finished_at ≤ at) _ scans
                  l.greatest;
          })
          ∙ sym e

-- A finding that is open, or of a machine under legal hold.
abbrev pub still_matters : List SnapshotRow → Finding → Bool
still_matters snapshots f = not (is_some f.resolved_at) || machine_is_held snapshots f.machine_id

abbrev pub of_held_machine : List SnapshotRow → Scan → Bool
of_held_machine snapshots s = machine_is_held snapshots s.machine_id

-- What stays the same of these tables.
pub record SameHistory (snapshots : List SnapshotRow) (machine : ℕ) (t t' : ScanTables)
    : Type 0 where
  pub last_scan : last_completed machine t'.scans ≡ last_completed machine t.scans
  pub findings :
      filter (still_matters snapshots) t'.findings ≡ filter (still_matters snapshots) t.findings
  pub held_scans :
      filter (of_held_machine snapshots) t'.scans ≡ filter (of_held_machine snapshots) t.scans

SameHistory-refl :
    (snapshots : List SnapshotRow) (machine : ℕ) (t : ScanTables)
    → SameHistory snapshots machine t t
SameHistory-refl snapshots machine t = record {
  last_scan = refl;
  findings = refl;
  held_scans = refl;
}

SameHistory-trans :
    (snapshots : List SnapshotRow) (machine : ℕ) (t t' t'' : ScanTables)
    → SameHistory snapshots machine t t'
    → SameHistory snapshots machine t' t''
    → SameHistory snapshots machine t t''
SameHistory-trans snapshots machine t t' t'' a b = record {
  last_scan = b.last_scan ∙ a.last_scan;
  findings = b.findings ∙ a.findings;
  held_scans = b.held_scans ∙ a.held_scans;
}

module _ (env : Env) (machines : List Machine) (snapshots : List SnapshotRow) where
  expire_org-SameHistory :
      (org days machine : ℕ) (t : ScanTables)
      → SameHistory snapshots machine t
          (expire_org_vulnerability_data env machines snapshots org days t).1
  unfolding expire_org_vulnerability_data
  expire_org-SameHistory org days machine t =
      let cutoff = cutoff_of env days in
      if_keeps
        (λ (r : Result VulnerabilityRetentionError (ℕ × ℕ) × ScanTables).
          SameHistory snapshots machine t r.1)
        (env.scans_down org) _ _ (λ _. SameHistory-refl snapshots machine t)
        (λ _. record {
          last_scan = last_completed-kept_scans machines snapshots cutoff org machine t.scans;
          findings =
              filter-filter (λ f. not (finding_expired cutoff machines snapshots org f))
                (still_matters snapshots) (λ f k. matters cutoff f k) t.findings;
          held_scans =
              filter-filter (λ s. not (scan_expired cutoff machines snapshots org t.scans s))
                (of_held_machine snapshots) (λ s k. ground (arith, k)) t.scans;
        })
    where
      matters :
          (cutoff : ℕ) (f : Finding)
          → still_matters snapshots f ≡ true
          → not (finding_expired cutoff machines snapshots org f) ≡ true
      matters cutoff f k = ground arith

  module _ (stored : ℕ → StoredDays) where
    expire_each-SameHistory :
        (orgs : List ℕ) (machine : ℕ) (t : Tables)
        → SameHistory snapshots machine t.scanning
            (expire_each env machines snapshots stored orgs t).1.scanning
    unfolding expire_each expire_org
    expire_each-SameHistory [] machine t = SameHistory-refl snapshots machine t.scanning
    expire_each-SameHistory (org ∷ orgs) machine t =
        let t' = (expire_org env machines snapshots stored org t).1 in
        SameHistory-trans snapshots machine t.scanning t'.scanning _
          (expire_org-SameHistory org (window_of env machines snapshots stored org) machine
            t.scanning)
          (expire_each-SameHistory orgs machine t')

    -- A pass over any organisations, whatever of it fails, changes for no machine when it was last
    -- scanned completely, and leaves every finding that is open or of a machine with a snapshot under
    -- legal hold, and every scan of such a machine.
    pub expire_events_past_retention-SameHistory :
        (orgs : List ℕ) (machine : ℕ) (t : Tables)
        → SameHistory snapshots machine t.scanning
            (expire_events_past_retention env machines snapshots stored orgs t).1.scanning
    unfolding expire_events_past_retention
    expire_events_past_retention-SameHistory orgs machine t =
        if_keeps
          (λ (r : Result EventRetentionError ℕ × Tables).
            SameHistory snapshots machine t.scanning r.1.scanning)
          env.query_down _ _ (λ _. SameHistory-refl snapshots machine t.scanning)
          (λ _. expire_each-SameHistory orgs machine t)
