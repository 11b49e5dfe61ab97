-- ===== src/Elevation/Rows.antt =====
-- Writes of the elevation table that keep the system valid, and what a read of a row returns.
use cloudable.Base.{
  All-update_where_each, ℕ, ◌∙◌, ◌≤◌, ◌≡◌, refl, sym, subst, Bool, true, some, List, All, All-map,
  All-mem, arith, inl, inr, ok, number_eq, find, find-eq-some, mem-find, only_row,
  keys-update_where, update_where, Option-cases,
}
use mathlib.Core.Option.{some-injective}
use cloudable.Audit.{approved}
use cloudable.Database.{ApprovalRow, Elevation, ElevationStatus, Db}
use cloudable.Approval
use cloudable.Approval.{ApprovalResult, ApprovalError}
use cloudable.Approval.Decisions.{row_id}
use cloudable.Approval.Preservation.{same_tables}
use cloudable.Elevation.{Env, load_elevation}
use cloudable.Elevation.Service.{with_id}
use cloudable.Elevation.Sync.{grant_row, set_status, update_elevation}
use cloudable.Elevation.Backing.{was_granted, Backed, elevation_id, SystemValid}

pub updated_rows :
    (p : Elevation → Bool) (f : Elevation → Elevation) (db : Db)
    → ((e : Elevation) → (f e).id ≡ e.id)
    → All (λ e. p e ≡ true → Backed db.approvals (f e)) db.elevations
    → SystemValid db
    → SystemValid (record db { elevations = update_where p f db.elevations })
updated_rows p f db same backed v = record {
  approvals_valid = same_tables db _ refl refl v.approvals_valid;
  backed = All-update_where_each (Backed db.approvals) p f db.elevations backed v.backed;
  primary_key = rw (keys-update_where elevation_id p f same db.elevations) v.primary_key;
}

-- A write by id touches one row; it is enough that this row stays backed.
pub update_elevation-SystemValid :
    (f : Elevation → Elevation) (e : Elevation) (db : Db)
    → ((x : Elevation) → (f x).id ≡ x.id)
    → find (with_id e.id) db.elevations ≡ some e
    → Backed db.approvals (f e)
    → SystemValid db
    → SystemValid (update_elevation f e.id db)
update_elevation-SystemValid f e db same found b v =
    updated_rows (with_id e.id) f db same
      (All-map (λ x. x.id ≡ e.id → x ≡ e) (λ x. with_id e.id x ≡ true → Backed db.approvals (f x))
        (λ x one t. subst (λ y. Backed db.approvals (f y)) (sym (one (ground arith))) b)
        db.elevations (only_row elevation_id e.id db.elevations e v.primary_key found))
      v

-- The elevation that a call may see is the row of its id.
pub load_elevation-eq-ok :
    (env : Env) (id org : ℕ) (db : Db) (e : Elevation)
    → load_elevation env id org db ≡ ok e
    → find (with_id e.id) db.elevations ≡ some e
load_elevation-eq-ok env id org db e h = elim (Option-cases (find (with_id id) db.elevations)) [
  | inl none_found ↦ absurd (ground arith)
  | inr (x, seen) ↦
      let same : x ≡ e = ground arith in
      let here : x.id ≡ id = ground (arith, find-eq-some (with_id id) db.elevations x seen) in
      subst (λ y. find (with_id y.id) db.elevations ≡ some y) same
        (subst (λ k. find (with_id k) db.elevations ≡ some x) (sym here) seen)
]

-- The approval that an elevation is linked to is the one that its id finds.
pub linked_approval :
    (db : Db) (e : Elevation) (a : ℕ) (row : ApprovalRow)
    → SystemValid db
    → (b : Backed db.approvals e) → e.approval_id ≡ some a
    → find (Approval.with_id a) db.approvals ≡ some row
    → b.row ≡ row
linked_approval db e a row v b here found =
    All-mem (λ r. r.id ≡ a → r ≡ row) db.approvals b.row b.present
      (only_row row_id a db.approvals row v.approvals_valid.primary_key found)
      (some-injective _ _ (sym b.linked ∙ here))

pub Backed-found :
    (db : Db) (e : Elevation)
    → SystemValid db
    → find (with_id e.id) db.elevations ≡ some e
    → Backed db.approvals e
Backed-found db e v found =
    All-mem (Backed db.approvals) db.elevations e (mem-find (with_id e.id) db.elevations e found)
      v.backed

pub grant_row-Backed :
    (rows : List ApprovalRow) (now expires : ℕ) (e : Elevation)
    → (b : Backed rows e) → b.row.status ≡ approved
    → now ≤ expires
    → Backed rows (grant_row now expires e)
grant_row-Backed rows now expires e b approval later = record {
  row = b.row;
  present = b.present;
  linked = b.linked;
  same_requester = b.same_requester;
  same_machine = b.same_machine;
  approval = λ _. approval;
  timed = λ _. record { from = now; until = expires; starts = refl; ends = refl; in_order = later };
}

-- A status that is no more granted than the row's own needs nothing new.
pub set_status-Backed :
    (rows : List ApprovalRow) (s : ElevationStatus) (e : Elevation)
    → (was_granted s ≡ true → was_granted e.status ≡ true)
    → Backed rows e
    → Backed rows (set_status s e)
set_status-Backed rows s e weaker b = record {
  row = b.row;
  present = b.present;
  linked = b.linked;
  same_requester = b.same_requester;
  same_machine = b.same_machine;
  approval = λ g. b.approval (weaker g);
  timed = λ g.
      let t = b.timed (weaker g) in
      record {
        from = t.from;
        until = t.until;
        starts = t.starts;
        ends = t.ends;
        in_order = t.in_order;
      };
}
