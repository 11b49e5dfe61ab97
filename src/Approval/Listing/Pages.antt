-- ===== src/Approval/Listing/Pages.antt =====
-- One page of approvals after another: none is shown twice and none is passed over.
use cloudable.Base.{
  nat_beq_iff, ℕ, zero, suc, ◌≤◌, ◌<◌, ◌≡◌, refl, ap, ◌∙◌, sym, subst, ◌⊎◌, inl, inr, Bool, true,
  false, not, ◌&&◌, Option, none, some, List, [], ◌∷◌, map, ltb, nat_beq, if◌then◌else◌, length,
  length-take-le, filter, take, Result, ok, err, Text, sort_by, All, All-map, All-filter, All-mem,
  All_of-filter, All-sort_by, mem-sort_by, mem-all, Ordered, sort_by-Ordered, has_id, is_empty,
  arith, Bool-cases, Memᴰ,
}
use cloudable.Database.{ApprovalRow, Db}
use cloudable.Approval.{query_failed, ApprovalResult, ApprovalError, to_result}
use cloudable.Approval.Listing.{
  Codec, Position, ListEnv, ListApprovalsParams, ListApprovalsResult, encode_cursor, decode_cursor,
  is_before, is_listed, newest_first, last_row, next_cursor_of, count_approved, list_page,
  list_from,
}
use cloudable.Approval.Listing.Cursors.{CodecLaws, decode_cursor-encode_cursor}
use cloudable.Approval.Listing.Rows.{
  page_rows, All-take, Ordered-take, ids, last_is_shown, page_before_last, rest_after_last,
  shown_rows, all_shown, whole_page,
}

abbrev rows_of : ListApprovalsResult → List ApprovalRow
rows_of result = map (λ (i : ApprovalResult). i.row) result.items

-- A page of the listing: rows that were asked for, the newest first, with the place where it stops.
pub record IsPage (codec : Codec) (params : ListApprovalsParams) (position : Option Position)
    (limit : ℕ) (db : Db) (result : ListApprovalsResult) : Type 0 where
  pub few : length (rows_of result) ≤ limit
  pub listed : All (λ row. is_listed params position row ≡ true) (rows_of result)
  pub newest : Ordered newest_first (rows_of result)
  -- Without a cursor nothing is left out.
  pub complete :
      result.next_cursor ≡ none
      → All
          (λ row.
            is_listed params position row ≡ true → has_id row.id (ids (rows_of result)) ≡ true)
          db.approvals
  -- From the cursor on comes nothing that was shown, and all that was not.
  pub continues :
      (text : Text)
      → result.next_cursor ≡ some text
      → (at : Position) × (decode_cursor codec text
          ≡ some (record { created_at = at.time; id = codec.id_text at.id }))
        × All (λ row. is_before at row ≡ false) (rows_of result)
        × All
            (λ row.
              is_listed params position row ≡ true
              → (has_id row.id (ids (rows_of result)) ≡ true) ⊎ (is_before at row ≡ true))
            db.approvals

abbrev position_of : ApprovalRow → Position
position_of row = record { time = row.created_at; id = row.id }

-- A row that does not come before the last one's place has its identifier.
after_last :
    (l : ℕ) (r : ApprovalRow) (rows : List ApprovalRow) (y : ApprovalRow)
    → (has_id y.id (ids (r ∷ take l rows)) ≡ true)
      ⊎ (newest_first (last_row r (take l rows)) y ≡ true)
    → (has_id y.id (ids (r ∷ take l rows)) ≡ true)
      ⊎ (is_before (position_of (last_row r (take l rows))) y ≡ true)
after_last l r rows y (inl e) = inl e
after_last l r rows y (inr e) =
    let last = last_row r (take l rows) in
    elim (Bool-cases (nat_beq y.id last.id)) [
      | inl same ↦ inl (
          subst (λ (k : ℕ). has_id k (ids (r ∷ take l rows)) ≡ true)
            (sym ((nat_beq_iff y.id last.id).0 same)) (last_is_shown r (take l rows)))
      | inr differ ↦ inr (ground arith)
    ]

-- The last page shows all rows.
shown_all :
    (codec : Codec) (limit : ℕ) (rows : List ApprovalRow) (more : Bool)
    → 0 < limit
    → more ≡ ltb limit (length (take (suc limit) rows))
    → next_cursor_of codec more (take limit rows) ≡ none
    → All (λ r. has_id r.id (ids (take limit rows)) ≡ true) rows
unfolding next_cursor_of
shown_all codec zero rows more p e h = absurd (omega arith)
shown_all codec (suc l) [] more p e h = tt
shown_all codec (suc l) (r ∷ rows) true p e h = absurd (ground arith)
shown_all codec (suc l) (r ∷ rows) false p e h =
    subst (λ (p : List ApprovalRow). All (λ r. has_id r.id (ids p) ≡ true) (r ∷ rows))
      (sym (whole_page (suc l) (r ∷ rows) (sym e))) (all_shown (r ∷ rows))

-- Another page names the place where it stops.
stops_at :
    (codec : Codec) (limit : ℕ) (rows : List ApprovalRow) (more : Bool) (text : Text)
    → 0 < limit
    → CodecLaws codec
    → Ordered newest_first rows
    → next_cursor_of codec more (take limit rows) ≡ some text
    → (at : Position) × (decode_cursor codec text
        ≡ some (record { created_at = at.time; id = codec.id_text at.id }))
      × All (λ r. is_before at r ≡ false) (take limit rows)
      × All (λ r. (has_id r.id (ids (take limit rows)) ≡ true) ⊎ (is_before at r ≡ true)) rows
unfolding next_cursor_of
stops_at codec zero rows more text p laws ordered h = absurd (omega arith)
stops_at codec (suc l) [] true text p laws ordered h = absurd (ground arith)
stops_at codec (suc l) [] false text p laws ordered h = absurd (ground arith)
stops_at codec (suc l) (r ∷ rows) false text p laws ordered h = absurd (ground arith)
stops_at codec (suc l) (r ∷ rows) true text p laws ordered h =
    let last = last_row r (take l rows) in
    let same : encode_cursor codec last ≡ text = ground arith in
    (
      position_of last,
      rw (← same) (decode_cursor-encode_cursor codec last laws),
      All-map (λ y. newest_first y last ≡ true) (λ y. is_before (position_of last) y ≡ false)
          (λ y e. ground arith) (r ∷ take l rows) (page_before_last l r rows ordered),
      All-map (λ y. (has_id y.id (ids (r ∷ take l rows)) ≡ true) ⊎ (newest_first last y ≡ true)) _
          (λ y c. after_last l r rows y c) (r ∷ rows) (rest_after_last l r rows ordered),
    )

ok_of_test :
    {A : Type 0} (test : Bool) (e : ApprovalError) (m : Result ApprovalError A) (a : A)
    → (if test then err e else m) ≡ ok a
    → m ≡ ok a
ok_of_test test e m a h = ground arith

ok_of_if :
    {A : Type 0} (test : Bool) (e : ApprovalError) (x a : A)
    → (if test then err e else ok x) ≡ ok a
    → a ≡ x
ok_of_if test e x a h = ground arith

module _ (codec : Codec) (laws : CodecLaws codec) (env : ListEnv) (db : Db)
    (params : ListApprovalsParams) (limit : ℕ) (position : Option Position) where
  abbrev every_row : List ApprovalRow
  every_row = sort_by newest_first (filter (is_listed params position) db.approvals)

  every_row-Ordered : Ordered newest_first every_row
  every_row-Ordered =
      sort_by-Ordered newest_first (λ a b e. ground arith) (λ a b c e f. ground arith)
        (filter (is_listed params position) db.approvals)

  -- What is known of all sorted rows is known of the rows of the table that were asked for.
  of_every_row :
      (P : ApprovalRow → Type 0)
      → All P every_row
      → All (λ row. is_listed params position row ≡ true → P row) db.approvals
  of_every_row P h =
      let listed = filter (is_listed params position) db.approvals in
      All_of-filter P (is_listed params position) db.approvals (
        All-map (λ row. Memᴰ row listed) P
          (λ row m. All-mem P every_row row (mem-sort_by newest_first listed row m) h) listed
          (mem-all listed))

  abbrev page : List ApprovalRow
  page = take limit every_row

  abbrev result_of : Bool → ListApprovalsResult
  result_of more = record {
    items = map (λ row. to_result row (count_approved row.id db.decisions)) page;
    next_cursor = next_cursor_of codec more page;
    has_more = more;
  }

  list_from_result :
      (result : ListApprovalsResult)
      → list_from codec env db params limit position ≡ ok result
      → result ≡ result_of (ltb limit (length (take (suc limit) every_row)))
  unfolding list_from list_page
  list_from_result result h =
      let rows = take (suc limit) every_row in
      let more = ltb limit (length rows) in
      let shown = if more then take limit rows else rows in
      ok_of_if (not (is_empty shown) && env.decisions_down) query_failed _ result
        (ok_of_test env.rows_down query_failed _ result h)
      ∙ ap
          (λ (p : List ApprovalRow). (record {
            items = map (λ row. to_result row (count_approved row.id db.decisions)) p;
            next_cursor = next_cursor_of codec more p;
            has_more = more;
          }))
          (page_rows limit every_row)

  result_of-IsPage :
      (more : Bool)
      → more ≡ ltb limit (length (take (suc limit) every_row))
      → 0 < limit
      → IsPage codec params position limit db (result_of more)
  result_of-IsPage more e positive =
      let shown = shown_rows (λ row. count_approved row.id db.decisions) page in
      record {
        few = rw shown (length-take-le limit every_row);
        listed = rw shown (
            All-take (λ row. is_listed params position row ≡ true) limit every_row
              (All-sort_by newest_first (λ row. is_listed params position row ≡ true)
                (filter (is_listed params position) db.approvals)
                (All-filter (is_listed params position) db.approvals)));
        newest = rw shown (Ordered-take newest_first limit every_row every_row-Ordered);
        complete = λ none_left. rw shown (
            of_every_row (λ row. has_id row.id (ids page) ≡ true)
              (shown_all codec limit every_row more positive e none_left));
        continues = λ text next.
            let (at, decoded, before, rest) =
              stops_at codec limit every_row more text positive laws every_row-Ordered next in
            (
              at,
              decoded,
              rw shown before,
              rw shown (
                  of_every_row
                    (λ row. (has_id row.id (ids page) ≡ true) ⊎ (is_before at row ≡ true)) rest),
            );
      }

  -- A listing that succeeds, of at least one row a page, is a page of the rows that were asked for: at most
  -- `limit` of them, of the organisation, status, requester and place asked for, the newest first. Without
  -- a next cursor it shows every such row of the table. A next cursor is decoded as a place such that no
  -- row of this page lies beyond it, and every row asked for is on this page or lies beyond it: following
  -- the cursors, none is shown twice and none is passed over, also among rows of one millisecond. The
  -- encodings read back what they wrote.
  pub list_from-IsPage :
      (result : ListApprovalsResult)
      → 0 < limit
      → list_from codec env db params limit position ≡ ok result
      → IsPage codec params position limit db result
  list_from-IsPage result positive h =
      let more = ltb limit (length (take (suc limit) every_row)) in
      subst (IsPage codec params position limit db) (sym (list_from_result result h))
        (result_of-IsPage more refl positive)
