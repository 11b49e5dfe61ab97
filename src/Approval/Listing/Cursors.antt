-- ===== src/Approval/Listing/Cursors.antt =====
-- A cursor names the row that it was made of.
use cloudable.Base.{
  ℕ, ◌≡◌, refl, false, some, ◌∷◌, ◌++◌, Text, is_empty, includes, split_on-whole, split_on-first,
}
use cloudable.Database.{ApprovalRow}
use cloudable.Approval.Listing.{
  Codec, bar, encode_cursor, decode_cursor, cursor_at, cursor_of, cursor_text,
}

-- What the code relies on: each text is read back as what it was written for, and those of a time and of
-- an identifier are not empty and hold no bar.
pub record CodecLaws (codec : Codec) : Type 0 where
  pub base64 : (t : Text) → codec.of_base64 (codec.to_base64 t) ≡ some t
  pub iso : (time : ℕ) → codec.of_iso (codec.to_iso time) ≡ some time
  pub iso_some : (time : ℕ) → is_empty (codec.to_iso time) ≡ false
  pub iso_plain : (time : ℕ) → includes bar (codec.to_iso time) ≡ false
  pub id_some : (id : ℕ) → is_empty (codec.id_text id) ≡ false
  pub id_plain : (id : ℕ) → includes bar (codec.id_text id) ≡ false
  pub id_read : (id : ℕ) → codec.of_id_text (codec.id_text id) ≡ some id

-- The cursor of a row is decoded as that row's time and identifier, by the laws of the encodings.
pub decode_cursor-encode_cursor :
    (codec : Codec) (row : ApprovalRow)
    → CodecLaws codec
    → decode_cursor codec (encode_cursor codec row)
      ≡ some (record { created_at = row.created_at; id = codec.id_text row.id })
unfolding decode_cursor encode_cursor cursor_text cursor_of cursor_at
decode_cursor-encode_cursor codec row laws =
    let iso = codec.to_iso row.created_at in
    let id = codec.id_text row.id in
    rw
      (
        laws.base64 (iso ++ (bar ∷ id)),
        split_on-first bar iso id (laws.iso_plain row.created_at),
        split_on-whole bar id (laws.id_plain row.id),
        laws.iso_some row.created_at,
        laws.id_some row.id,
        laws.iso row.created_at,
      )
      refl
