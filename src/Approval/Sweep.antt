-- ===== src/Approval/Sweep.antt =====
-- The expiry sweep.
use cloudable.Base.{
  ◌∷◌, ap, ◌≡◌, refl, true, false, ℕ, List, [], ◌++◌, map, length, filter, ok, append-nil,
  length-map, update_where, filter-update_where, update_where_none,
}
use cloudable.Database.{ApprovalRow, Db}
use cloudable.Approval.{Env}
use cloudable.Approval.Decide.{overdue, expire_row, expired_event, expire_overdue_approvals}

-- The approvals that a sweep still has to expire.
abbrev pub due : ℕ → Db → List ApprovalRow
due now db = filter (overdue now) db.approvals

map_twice :
    {A B C : Type 0} (f : A → B) (g : B → C) (xs : List A)
    → map g (map f xs) ≡ map (λ x. g (f x)) xs
map_twice f g [] = refl
map_twice f g (x ∷ xs) = cc (map_twice f g xs)

expired_not_overdue :
    (now : ℕ) (r : ApprovalRow) → overdue now r ≡ true → overdue now (expire_row r) ≡ false
expired_not_overdue now r h = refl

abbrev swept : ℕ → Db → List ApprovalRow
swept now db = update_where (overdue now) expire_row db.approvals

none_due : (now : ℕ) (db : Db) → filter (overdue now) (swept now db) ≡ []
none_due now db =
    filter-update_where (overdue now) expire_row (expired_not_overdue now) db.approvals

-- A sweep that succeeds returns how many approvals were overdue, appends one `approval.expired` for
-- each of them, leaves none overdue at its time, and writes no other table; a second sweep at that
-- time therefore finds nothing.
expire_overdue_approvals_exact :
    (env : Env) (db : Db)
    → env.transaction_down ≡ false
    → let (res, db') = expire_overdue_approvals env db in
      (res ≡ ok (length (due env.now db)))
      × (db'.events ≡ db.events ++ map (λ r. expired_event env (expire_row r)) (due env.now db))
      × (due env.now db' ≡ [])
      × (db'.decisions ≡ db.decisions)
      × (expire_overdue_approvals env db' ≡ (ok 0, db'))
unfolding expire_overdue_approvals
expire_overdue_approvals_exact env db up =
    let none_left = none_due env.now db in
    (
      simp up (ap ok (length-map expire_row (due env.now db))),
      simp up (ap (◌++◌ db.events) (map_twice expire_row (expired_event env) (due env.now db))),
      simp up none_left,
      simp up,
      simp up (
          simp (
            none_left,
            update_where_none (overdue env.now) expire_row (swept env.now db) none_left,
            append-nil,
          )),
    )
