-- ===== src/PackageActions/Closed.antt =====
-- A closed action stays as it is, and a machine's report says nothing about another machine's work.
use cloudable.Base.{
  ℕ, ◌≡◌, ◌≢◌, subst, Bool, false, List, [], ◌∷◌, Memᴰ, arith, number_eq, update_where, if_keeps,
}
use cloudable.PackageActions.{
  ActionRow, Env, EnqueueInput, ActionOutcome, Outcome, Tables, is_outstanding,
  enqueue_package_action, collectable, start_row, collect_pending_actions, reported, finish_row,
  apply_action_results, is_stale, expire_row, expire_stale_actions,
}
use cloudable.PackageActions.OneOutstanding.{
  Step, enqueues, collects, reports, expires, Run, idle, then, apply_from_keeps, enqueue_keeps,
}

-- An update leaves a row that does not pass its test.
mem-update_where :
    (p : ActionRow → Bool) (f : ActionRow → ActionRow) (r : ActionRow)
    → p r ≡ false
    → (rows : List ActionRow) → Memᴰ r rows
    → Memᴰ r (update_where p f rows)
mem-update_where p f r out [] m = elim m [ ]
mem-update_where p f r out (x ∷ rows) (Memᴰ.head e) =
    let other : p x ≡ false = subst (λ y. p y ≡ false) e out in Memᴰ.head (rw other e)
mem-update_where p f r out (x ∷ rows) (Memᴰ.tail m) = Memᴰ.tail (mem-update_where p f r out rows m)

module _ (r : ActionRow) where
  abbrev Stays : Tables → Type 0
  Stays t = Memᴰ r t.actions

  enqueue-keeps :
      (env : Env) (input : EnqueueInput) (t : Tables)
      → Stays t
      → Stays (enqueue_package_action env input t).1
  enqueue-keeps env input t m = enqueue_keeps Stays env input t m (λ _. Memᴰ.tail m)

  collect-keeps :
      (env : Env) (machine : ℕ) (t : Tables)
      → collectable machine r ≡ false
      → Stays t
      → Stays (collect_pending_actions env machine t).1
  unfolding collect_pending_actions
  collect-keeps env machine t out m =
      if_keeps (λ (o : Outcome (List ActionRow)). Stays o.1) env.write_down _ _ (λ _. m)
        (λ _. mem-update_where (collectable machine) (start_row env.now) r out t.actions m)

  report-keeps :
      (env : Env) (machine : ℕ) (results : List ActionOutcome) (t : Tables)
      → ((result : ActionOutcome) → reported machine result r ≡ false)
      → Stays t
      → Stays (apply_action_results env machine results t).1
  unfolding apply_action_results
  report-keeps env machine results t out m =
      apply_from_keeps Stays env machine
        (λ result u k.
          mem-update_where (reported machine result) (finish_row env.now result.outcome) r
            (out result) u.actions k)
        0 results t m

  expire-keeps :
      (env : Env) (machine : ℕ) (t : Tables)
      → is_stale env.now machine r ≡ false
      → Stays t
      → Stays (expire_stale_actions env machine t).1
  unfolding expire_stale_actions
  expire-keeps env machine t out m =
      if_keeps (λ (o : Outcome (List ActionRow)). Stays o.1) env.write_down _ _ (λ _. m)
        (λ _. mem-update_where (is_stale env.now machine) (expire_row env.now) r out t.actions m)

  Step-keeps : {t u : Tables} → is_outstanding r.status ≡ false → Step t u → Stays t → Stays u
  Step-keeps {t} closed (enqueues env input) m = enqueue-keeps env input t m
  Step-keeps {t} closed (collects env machine) m =
      collect-keeps env machine t (ground (arith, closed)) m
  Step-keeps {t} closed (reports env machine results) m =
      report-keeps env machine results t (λ result. ground (arith, closed)) m
  Step-keeps {t} closed (expires env machine) m =
      expire-keeps env machine t (ground (arith, closed)) m

-- An action that succeeded, failed or expired stays in the table as it is under any sequence of
-- requests, polls, reports and expiries: no report brings it back or closes it again.
pub closed_action_stays :
    {t u : Tables} (r : ActionRow)
    → is_outstanding r.status ≡ false
    → Run t u
    → Memᴰ r t.actions
    → Memᴰ r u.actions
closed_action_stays r closed idle m = m
closed_action_stays r closed (then run step) m =
    Step-keeps r closed step (closed_action_stays r closed run m)

-- A report of one machine leaves every action of another machine as it is.
report_leaves_others :
    (env : Env) (machine : ℕ) (results : List ActionOutcome) (t : Tables) (r : ActionRow)
    → r.machine_id ≢ machine
    → Memᴰ r t.actions
    → Memᴰ r (apply_action_results env machine results t).1.actions
report_leaves_others env machine results t r other m =
    report-keeps r env machine results t (λ result. ground (arith, other)) m
