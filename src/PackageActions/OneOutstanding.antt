-- ===== src/PackageActions/OneOutstanding.antt =====
-- Calls of the package actions in any order, and the invariant that they keep: a package has at most
-- one action on a machine that is not closed.
use cloudable.Base.{
  not, ℕ, suc, ◌≤◌, ◌≡◌, refl, subst, sym, Bool, true, false, List, [], ◌∷◌, arith, Bool-cases, inl,
  inr, number_eq, length, filter, any, Text, update_where, if_keeps, ok, err,
}
use cloudable.PackageActions.{
  ActionRow, ActionOutcome, EnqueueInput, Env, Outcome, Tables, same_name, outstanding_for,
  new_action, enqueue_package_action, collectable, start_row, collect_pending_actions, reported,
  finish_row, apply_one, apply_from, push_first, apply_action_results, is_stale, expire_row,
  expire_stale_actions, is_valid_package_name, insert_fails, bump_version,
}

pub data Step (t : Tables) : Tables → Type 0 where
  enqueues : (env : Env) (input : EnqueueInput) → Step t (enqueue_package_action env input t).1
  collects : (env : Env) (machine : ℕ) → Step t (collect_pending_actions env machine t).1
  reports :
      (env : Env) (machine : ℕ) (results : List ActionOutcome)
      → Step t (apply_action_results env machine results t).1
  expires : (env : Env) (machine : ℕ) → Step t (expire_stale_actions env machine t).1

pub data Run (t : Tables) : Tables → Type 0 where
  idle : Run t t
  then : {u v : Tables} → Run t u → Step u v → Run t v

abbrev pub outstanding : ℕ → Text → List ActionRow → ℕ
outstanding machine name rows = length (filter (outstanding_for machine name) rows)

abbrev pub IsSerial : Tables → Type 0
IsSerial t = (machine : ℕ) (name : Text) → outstanding machine name t.actions ≤ 1

same_name-eq : (a b : Text) → same_name a b ≡ true → a ≡ b
unfolding same_name
same_name-eq [] [] h = refl
same_name-eq [] (d ∷ ds) h = absurd (cc)
same_name-eq (c ∷ cs) [] h = absurd (cc)
same_name-eq (c ∷ cs) (d ∷ ds) h = ground (arith, same_name-eq cs ds)

none_outstanding :
    (machine : ℕ) (name : Text) (rows : List ActionRow)
    → any (outstanding_for machine name) rows ≡ false
    → outstanding machine name rows ≡ 0
none_outstanding machine name [] h = refl
none_outstanding machine name (r ∷ rows) h = ground (arith, none_outstanding machine name rows)

-- An update that makes no row outstanding that was not adds none.
outstanding-update_where-le :
    (p : ActionRow → Bool) (f : ActionRow → ActionRow) (machine : ℕ) (name : Text)
    → ((r : ActionRow)
        → p r ≡ true
        → outstanding_for machine name (f r) ≡ true
        → outstanding_for machine name r ≡ true)
    → (rows : List ActionRow)
    → outstanding machine name (update_where p f rows) ≤ outstanding machine name rows
outstanding-update_where-le p f machine name keep [] = omega arith
outstanding-update_where-le p f machine name keep (r ∷ rows) =
    ground (arith, keep r, outstanding-update_where-le p f machine name keep rows)

update-IsSerial :
    (p : ActionRow → Bool) (f : ActionRow → ActionRow) (t : Tables)
    → ((machine : ℕ) (name : Text) (r : ActionRow)
        → p r ≡ true
        → outstanding_for machine name (f r) ≡ true
        → outstanding_for machine name r ≡ true)
    → IsSerial t
    → IsSerial (record t { actions = update_where p f t.actions })
update-IsSerial p f t keep serial machine name = omega (
  arith,
  serial machine name,
  outstanding-update_where-le p f machine name (keep machine name) t.actions,
)

abbrev After : {A : Type 0} → Outcome A → Type 0
After o = IsSerial o.1

inserted-IsSerial :
    (env : Env) (input : EnqueueInput) (t : Tables)
    → any (outstanding_for input.machine_id input.package_name) t.actions ≡ false
    → IsSerial t
    → IsSerial (record {
      actions = new_action env input ∷ t.actions;
      machines = bump_version input.machine_id t.machines;
    })
inserted-IsSerial env input t free serial machine name =
    elim (Bool-cases (outstanding_for machine name (new_action env input))) [
      | inl e ↦
          let same_machine : input.machine_id ≡ machine = ground arith in
          let same : input.package_name ≡ name =
            same_name-eq input.package_name name (ground arith) in
          let none_old : outstanding machine name t.actions ≡ 0 =
            none_outstanding machine name t.actions (
              subst (λ m. any (outstanding_for m name) t.actions ≡ false) same_machine
                (subst (λ n. any (outstanding_for input.machine_id n) t.actions ≡ false) same
                  free)) in
          ground (arith, none_old)
      | inr e ↦ ground (arith, serial machine name)
    ]

abbrev pub inserted : Env → EnqueueInput → Tables → Tables
inserted env input t = record {
  actions = new_action env input ∷ t.actions;
  machines = bump_version input.machine_id t.machines;
}

-- A property that the tables have, and the insert of a free package keeps, a request keeps.
pub enqueue_keeps :
    (P : Tables → Type 0) (env : Env) (input : EnqueueInput) (t : Tables)
    → P t
    → (any (outstanding_for input.machine_id input.package_name) t.actions ≡ false
        → P (inserted env input t))
    → P (enqueue_package_action env input t).1
unfolding enqueue_package_action
enqueue_keeps P env input t p q =
    if_keeps After (not (is_valid_package_name input.package_name)) _ _ (λ _. p)
      (λ _.
        if_keeps After input.is_baseline_package _ _ (λ _. p)
          (λ _.
            if_keeps After env.query_down _ _ (λ _. p)
              (λ _.
                if_keeps After (any (outstanding_for input.machine_id input.package_name) t.actions)
                  _ _ (λ _. p)
                  (λ free. if_keeps After (insert_fails env t) _ _ (λ _. p) (λ _. q free)))))
  where
    After : Outcome ActionRow → Type 0
    After o = P o.1

enqueue-IsSerial :
    (env : Env) (input : EnqueueInput) (t : Tables)
    → IsSerial t
    → IsSerial (enqueue_package_action env input t).1
enqueue-IsSerial env input t serial =
    enqueue_keeps IsSerial env input t serial (λ free. inserted-IsSerial env input t free serial)

collect-IsSerial :
    (env : Env) (machine : ℕ) (t : Tables)
    → IsSerial t
    → IsSerial (collect_pending_actions env machine t).1
unfolding collect_pending_actions
collect-IsSerial env machine t serial =
    if_keeps After env.write_down _ _ (λ _. serial)
      (λ _.
        update-IsSerial (collectable machine) (start_row env.now) t (λ m name r c o. ground arith)
          serial)

push_first-tables :
    (rows : List ActionRow) (o : Outcome (List ActionRow)) → (push_first rows o).1 ≡ o.1
push_first-tables rows (err e, t) = refl
push_first-tables [] (ok later, t) = refl
push_first-tables (r ∷ rows) (ok later, t) = refl

-- A property of the tables that every single update of a report keeps, a report keeps.
pub apply_from_keeps :
    (P : Tables → Type 0) (env : Env) (machine : ℕ)
    → ((result : ActionOutcome) (t : Tables) → P t → P (apply_one env machine result t))
    → (i : ℕ) (results : List ActionOutcome) (t : Tables) → P t
    → P (apply_from i env machine results t).1
unfolding apply_from
apply_from_keeps P env machine keep i [] t p = p
apply_from_keeps P env machine keep i (result ∷ results) t p =
    if_keeps (λ (o : Outcome (List ActionRow)). P o.1) (env.update_fails i) _ _ (λ _. p)
      (λ _.
        subst P
          (sym (
            push_first-tables _
              (apply_from (suc i) env machine results (apply_one env machine result t))))
          (apply_from_keeps P env machine keep (suc i) results (apply_one env machine result t)
            (keep result t p)))

report-IsSerial :
    (env : Env) (machine : ℕ) (results : List ActionOutcome) (t : Tables)
    → IsSerial t
    → IsSerial (apply_action_results env machine results t).1
unfolding apply_action_results
report-IsSerial env machine results t serial =
    apply_from_keeps IsSerial env machine
      (λ result u.
        update-IsSerial (reported machine result) (finish_row env.now result.outcome) u
          (λ m name r c o. ground arith))
      0 results t serial

expire-IsSerial :
    (env : Env) (machine : ℕ) (t : Tables)
    → IsSerial t
    → IsSerial (expire_stale_actions env machine t).1
unfolding expire_stale_actions
expire-IsSerial env machine t serial =
    if_keeps After env.write_down _ _ (λ _. serial)
      (λ _.
        update-IsSerial (is_stale env.now machine) (expire_row env.now) t
          (λ m name r c o. ground arith) serial)

Step-IsSerial : {t u : Tables} → Step t u → IsSerial t → IsSerial u
Step-IsSerial {t} (enqueues env input) h = enqueue-IsSerial env input t h
Step-IsSerial {t} (collects env machine) h = collect-IsSerial env machine t h
Step-IsSerial {t} (reports env machine results) h = report-IsSerial env machine results t h
Step-IsSerial {t} (expires env machine) h = expire-IsSerial env machine t h

-- Where every package of every machine has at most one action that is pending or running, this stays
-- so under any sequence of requests, polls, reports and expiries.
pub Run-IsSerial : {t u : Tables} → Run t u → IsSerial t → IsSerial u
Run-IsSerial idle h = h
Run-IsSerial (then run step) h = Step-IsSerial step (Run-IsSerial run h)
