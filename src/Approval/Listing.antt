-- ===== src/Approval/Listing.antt =====
-- `list` of ApprovalService.ts, a page at a time, and its cursor.
-- Base64, dates as text and identifiers as text are parameters. A listing changes no table.
pub mod Cursors
pub mod Rows
pub mod Pages
mod Examples
use cloudable.Base.{
  suc, not, ℕ, ◌+◌, Bool, true, false, ◌&&◌, ◌||◌, Option, none, some, List, [], ◌∷◌, ◌++◌, map,
  ltb, leb, nat_beq, ◌==◌, number_eq, if◌then◌else◌, or_default, is_empty, length, filter, take,
  Result, ok, err, Text, split_on, sort_by, min, max,
}
use cloudable.Audit.{ApprovalStatus, pending, approved, rejected, expired}
use cloudable.Database.{ApprovalRow, DecisionValue, approves, rejects, ApprovalDecision, Db}
use cloudable.Approval.{ApprovalResult, ApprovalError, query_failed, to_result}
use cloudable.Approval.Decide.{is_approval}

pub record Codec : Type 0 where
  pub to_base64 : Text → Text
  pub of_base64 : Text → Option Text
  pub to_iso : ℕ → Text
  pub of_iso : Text → Option ℕ
  pub id_text : ℕ → Text
  -- The database's reading of an identifier.
  pub of_id_text : Text → Option ℕ

pub record ListApprovalsParams : Type 0 where
  pub org_id : ℕ
  pub status : Option ApprovalStatus
  pub requested_by_person_id : Option ℕ
  pub cursor : Option Text
  pub limit : Option ℕ

pub record ListApprovalsResult : Type 0 where
  pub items : List ApprovalResult
  pub next_cursor : Option Text
  pub has_more : Bool

pub record Cursor : Type 0 where
  pub created_at : ℕ
  pub id : Text

-- The two accesses of the database, each of which may fail.
pub record ListEnv : Type 0 where
  pub rows_down : Bool
  pub decisions_down : Bool

abbrev pub bar : ℕ
bar = 124

abbrev pub same_status : ApprovalStatus → ApprovalStatus → Bool
same_status pending pending = true
same_status approved approved = true
same_status rejected rejected = true
same_status expired expired = true
same_status _ _ = false

module _ (codec : Codec) where
  unfoldable pub encode_cursor : ApprovalRow → Text
  encode_cursor row = codec.to_base64 (codec.to_iso row.created_at ++ (bar ∷ codec.id_text row.id))

  unfoldable pub cursor_at : Option ℕ → Text → Option Cursor
  cursor_at none id = none
  cursor_at (some created_at) id = some (record { created_at = created_at; id = id })

  unfoldable pub cursor_of : List Text → Option Cursor
  unfolding cursor_at
  cursor_of (iso ∷ id ∷ rest) =
      if is_empty iso || is_empty id then none else cursor_at (codec.of_iso iso) id
  cursor_of _ = none

  unfoldable pub cursor_text : Option Text → Option Cursor
  unfolding cursor_of split_on
  cursor_text none = none
  cursor_text (some text) = cursor_of (split_on bar text)

  unfoldable pub decode_cursor : Text → Option Cursor
  unfolding cursor_text
  decode_cursor cursor = cursor_text (codec.of_base64 cursor)

  -- An absent cursor and an empty one start at the first page.
  unfoldable pub given_cursor : Option Text → Option Cursor
  unfolding decode_cursor
  given_cursor none = none
  given_cursor (some []) = none
  given_cursor (some (c ∷ text)) = decode_cursor (c ∷ text)

-- What the statement compares with: a time and an identifier.
pub record Position : Type 0 where
  pub time : ℕ
  pub id : ℕ

abbrev pub is_before : Position → ApprovalRow → Bool
is_before at row =
    ltb row.created_at at.time || (nat_beq row.created_at at.time && ltb row.id at.id)

abbrev pub is_beyond : Option Position → ApprovalRow → Bool
is_beyond none row = true
is_beyond (some at) row = is_before at row

abbrev pub has_status : Option ApprovalStatus → ApprovalRow → Bool
has_status none row = true
has_status (some status) row = same_status row.status status

abbrev pub is_requested_by : Option ℕ → ApprovalRow → Bool
is_requested_by none row = true
is_requested_by (some person) row = row.requested_by_person_id == person

-- The conditions of the statement.
unfoldable pub is_listed : ListApprovalsParams → Option Position → ApprovalRow → Bool
is_listed params position row =
    (row.org_id == params.org_id)
    && has_status params.status row
    && is_requested_by params.requested_by_person_id row
    && is_beyond position row

-- `order by created_at desc, id desc`.
abbrev pub newest_first : ApprovalRow → ApprovalRow → Bool
newest_first a b =
    ltb b.created_at a.created_at || (nat_beq b.created_at a.created_at && leb b.id a.id)

unfoldable pub count_approved : ℕ → List ApprovalDecision → ℕ
count_approved id decisions =
    length (filter (λ d. is_approval d.decision && (d.approval_id == id)) decisions)

abbrev pub last_row : ApprovalRow → List ApprovalRow → ApprovalRow
last_row row [] = row
last_row row (next ∷ rows) = last_row next rows

module _ (codec : Codec) where
  unfoldable pub next_cursor_of : Bool → List ApprovalRow → Option Text
  unfolding encode_cursor
  next_cursor_of true (row ∷ rows) = some (encode_cursor codec (last_row row rows))
  next_cursor_of _ _ = none

  unfoldable pub list_page :
      ListEnv → Db → ℕ → List ApprovalRow → Result ApprovalError ListApprovalsResult
  unfolding count_approved next_cursor_of
  list_page env db limit rows =
      let has_more = ltb limit (length rows) in
      let page = if has_more then take limit rows else rows in
      if not (is_empty page) && env.decisions_down
      then err query_failed
      else ok (record {
        items = map (λ row. to_result row (count_approved row.id db.decisions)) page;
        next_cursor = next_cursor_of has_more page;
        has_more = has_more;
      })

  unfoldable pub list_from :
      ListEnv
      → Db
      → ListApprovalsParams
      → ℕ
      → Option Position
      → Result ApprovalError ListApprovalsResult
  unfolding is_listed list_page
  list_from env db params limit position =
      if env.rows_down
      then err query_failed
      else list_page env db limit (
          take (suc limit) (sort_by newest_first (filter (is_listed params position) db.approvals)))

  -- A cursor whose identifier the database cannot read fails the statement.
  unfoldable pub list_at :
      ListEnv
      → Db
      → ListApprovalsParams
      → ℕ
      → Option Cursor
      → Result ApprovalError ListApprovalsResult
  unfolding list_from
  list_at env db params limit none = list_from env db params limit none
  list_at env db params limit (some cursor) = elim (codec.of_id_text cursor.id) [
    | some id ↦ list_from env db params limit (some (record { time = cursor.created_at; id = id }))
    | none ↦ err query_failed
  ]

  pub list_approvals : ListEnv → ListApprovalsParams → Db → Result ApprovalError ListApprovalsResult
  unfolding given_cursor list_at
  list_approvals env params db =
      list_at env db params (min (max (or_default params.limit 25) 1) 100)
        (given_cursor codec params.cursor)
