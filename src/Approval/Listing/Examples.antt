-- ===== src/Approval/Listing/Examples.antt =====
-- Three approvals of one organisation, two of them of the same millisecond, on pages of two.
use cloudable.Base.{
  ◌++◌, ℕ, zero, suc, ◌≡◌, refl, true, false, Option, none, some, [], ◌∷◌, Text, length, includes,
  insert_sorted, sort_by, arith,
}
use cloudable.Audit.{ApprovalMode, break_glass, pending}
use cloudable.Database.{ApprovalRow, Db}
use cloudable.Approval.Listing.{
  Codec, bar, ListEnv, ListApprovalsParams, ListApprovalsResult, encode_cursor, decode_cursor,
  is_listed, count_approved, next_cursor_of, list_page, list_from,
}
use cloudable.Approval.Listing.Cursors.{CodecLaws, decode_cursor-encode_cursor}
use cloudable.Approval.Listing.Pages.{IsPage, list_from-IsPage}

abbrev ones : ℕ → Text
ones zero = []
ones (suc n) = 49 ∷ ones n

-- A number in unary, behind a mark.
abbrev unary : ℕ → Text
unary n = 50 ∷ ones n

abbrev of_unary : Text → Option ℕ
of_unary [] = none
of_unary (c ∷ digits) = some (length digits)

abbrev codec : Codec
codec = record {
  to_base64 = λ t. t;
  of_base64 = λ t. some t;
  to_iso = unary;
  of_iso = of_unary;
  id_text = unary;
  of_id_text = of_unary;
}

length-ones : (n : ℕ) → length (ones n) ≡ n
length-ones zero = refl
length-ones (suc n) = omega (arith, length-ones n)

ones_plain : (n : ℕ) → includes bar (ones n) ≡ false
ones_plain zero = refl
ones_plain (suc n) = ground (arith, ones_plain n)

codec_laws : CodecLaws codec
codec_laws = record {
  base64 = λ t. refl;
  iso = λ n. rw (length-ones n) refl;
  iso_some = λ n. refl;
  iso_plain = λ n. ground (arith, ones_plain n);
  id_some = λ n. refl;
  id_plain = λ n. ground (arith, ones_plain n);
  id_read = λ n. rw (length-ones n) refl;
}

abbrev row : ℕ → ℕ → ApprovalRow
row id created_at = record {
  id = id;
  org_id = 1;
  action_type = break_glass;
  mode = ApprovalMode.single;
  status = pending;
  requested_by_person_id = 6;
  target_machine_id = none;
  target_person_id = none;
  reason = 97 ∷ [];
  payload = none;
  required_approvals = 1;
  created_at = created_at;
  expires_at = 100;
  decided_at = none;
}

decode_cursor-encode_cursor_example :
    decode_cursor codec (encode_cursor codec (row 7 20))
    ≡ some (record { created_at = 20; id = unary 7 })
decode_cursor-encode_cursor_example = decode_cursor-encode_cursor codec (row 7 20) codec_laws

abbrev db : Db
db = record {
  approvals = row 7 20 ∷ row 8 20 ∷ row 9 10 ∷ [];
  decisions = [];
  elevations = [];
  notifications = [];
  machines = [];
  people = [];
  mode_settings = [];
  minute_settings = [];
  events = [];
}

abbrev params : ListApprovalsParams
params = record {
  org_id = 1;
  status = some pending;
  requested_by_person_id = none;
  cursor = none;
  limit = some 2;
}

abbrev up : ListEnv
up = record { rows_down = false; decisions_down = false }

abbrev first_page : ListApprovalsResult
first_page = record {
  items =
      record { row = row 8 20; approved_count = 0 }
      ∷ record { row = row 7 20; approved_count = 0 }
      ∷ [];
  next_cursor = some (50 ∷ ones 20 ++ (bar ∷ unary 7));
  has_more = true;
}

list_from-IsPage_example : IsPage codec params none 2 db first_page
unfolding list_from list_page is_listed count_approved next_cursor_of encode_cursor sort_by
    insert_sorted
list_from-IsPage_example =
    list_from-IsPage codec codec_laws up db params 2 none first_page (omega arith) refl
