-- ===== src/Approval/Decisions.antt =====
-- Facts on the decisions of an approval and on the ids of a table.
use cloudable.Base.{
  ℕ, ◌≡◌, refl, true, false, List, [], ◌∷◌, map, ◌==◌, number_eq, All, has_id, arith, Bool-cases,
  inl, inr,
}
use cloudable.Database.{ApprovalRow, ApprovalDecision}
use cloudable.Approval.Decide.{approvers, decided_by}

abbrev pub row_id : ApprovalRow → ℕ
row_id r = r.id

abbrev pub ids : List ApprovalRow → List ℕ
ids rows = map row_id rows

-- Who approved has decided.
pub has_id-approvers :
    (id p : ℕ) (ds : List ApprovalDecision)
    → decided_by id p ds ≡ false
    → has_id p (approvers id ds) ≡ false
has_id-approvers id p [] h = refl
has_id-approvers id p (d ∷ ds) h = ground (arith, has_id-approvers id p ds)

abbrev pub Known : List ApprovalRow → List ApprovalDecision → Type 0
Known rows ds = All (λ d. has_id d.approval_id (ids rows) ≡ true) ds

-- Nobody has decided on an id that no approval has.
pub decided_by_new :
    (id p : ℕ) (rows : List ApprovalRow) (ds : List ApprovalDecision)
    → Known rows ds
    → has_id id (ids rows) ≡ false
    → decided_by id p ds ≡ false
decided_by_new id p rows [] k h = refl
decided_by_new id p rows (d ∷ ds) k h = elim (Bool-cases (d.approval_id == id)) [
  | inl e ↦ absurd (ground (arith, k.0))
  | inr e ↦ rw e (decided_by_new id p rows ds k.1 h)
]

pub approvers_new :
    (id : ℕ) (rows : List ApprovalRow) (ds : List ApprovalDecision)
    → Known rows ds
    → has_id id (ids rows) ≡ false
    → approvers id ds ≡ []
approvers_new id rows [] k h = refl
approvers_new id rows (d ∷ ds) k h = elim (Bool-cases (d.approval_id == id)) [
  | inl e ↦ absurd (ground (arith, k.0))
  | inr e ↦ rw e (approvers_new id rows ds k.1 h)
]
