-- ===== src/Entry/Parse.antt =====
-- `Entry::parse` of crates/blindkey-core/src/format/entry.rs: one round of its loop for each record.
use blindkey.Prelude.{
  ℕ, ◌+◌, Bool, false, Option, none, some, List, [], ◌∷◌, ◌++◌, length, replicate, ◌==◌, ◌||◌,
  if◌then◌else◌,
}
use blindkey.Result.{Result, ok, err, body_malformed, ◌>>=◌}
use blindkey.Tlv.{decode_str, decode_i64, max_field_len}
use blindkey.Tlv.Loop.{for_each_record}
use blindkey.InnerStream.{SealKey}
use blindkey.Entry.{
  Protected, plain, sealed, CustomValue, plain_text, secret, Entry, tag_id, tag_title, tag_username,
  tag_password, tag_url, tag_notes, tag_tag, tag_otp_secret, tag_created_at, tag_modified_at,
  tag_expires_at, tag_custom_name, tag_custom_value, tag_custom_value_protected,
}

-- The local variables of the loop; `offset` is the caller's counter.
pub record Progress : Type 0 where
  pub entry : Entry
  pub pending_name : Option (List ℕ)
  pub offset : ℕ

abbrev pub blank : Entry
blank = record {
  id = replicate 16 0;
  title = [];
  username = [];
  password = plain [];
  url = [];
  notes = [];
  tags = [];
  otp_secret = none;
  created_at = 0;
  modified_at = 0;
  expires_at = none;
  custom_fields = [];
}

-- The value at the counter, which moves behind it.
unfoldable pub seal_protected : SealKey → List ℕ → ℕ → Protected × ℕ
seal_protected key ct offset = (sealed ct key offset, offset + length ct)

abbrev pub push_field : List ℕ → CustomValue → Progress → Progress
push_field name value s = record s {
  entry = record s.entry {
    custom_fields = s.entry.custom_fields ++ (record { name = name; value = value } ∷ []);
  };
}

-- A name without a value becomes a field with an empty text.
unfoldable pub close_name : Progress → Progress
close_name s = elim s.pending_name [
  | none ↦ s
  | some name ↦ push_field name (plain_text []) (record s { pending_name = none })
]

-- `pending_name.take().unwrap_or_default()`
unfoldable pub taken_name : Progress → List ℕ
taken_name s = elim s.pending_name [ none ↦ [] | some name ↦ name ]

abbrev pub text_field : (List ℕ → Progress) → List ℕ → Result (Progress × Bool)
text_field set v = decode_str v >>= λ text. ok (set text, false)

abbrev pub time_field : (ℕ → Progress) → List ℕ → Result (Progress × Bool)
time_field set v = decode_i64 v >>= λ time. ok (set time, false)

-- The `match` on the tag.
unfoldable pub set_field : SealKey → Progress → ℕ → List ℕ → Result (Progress × Bool)
set_field key s t v =
    let protected = seal_protected key v s.offset in
    if t == tag_id
    then if length v == 16
      then ok (record s { entry = record s.entry { id = v } }, false)
      else err body_malformed
    else if t == tag_title
    then text_field (λ text. record s { entry = record s.entry { title = text } }) v
    else if t == tag_username
    then text_field (λ text. record s { entry = record s.entry { username = text } }) v
    else if t == tag_password
    then ok (
      record s { entry = record s.entry { password = protected.0 }; offset = protected.1 },
      false,
    )
    else if t == tag_url
    then text_field (λ text. record s { entry = record s.entry { url = text } }) v
    else if t == tag_notes
    then text_field (λ text. record s { entry = record s.entry { notes = text } }) v
    else if t == tag_tag
    then text_field
        (λ text. record s { entry = record s.entry { tags = s.entry.tags ++ (text ∷ []) } }) v
    else if t == tag_otp_secret
    then ok (
      record s { entry = record s.entry { otp_secret = some protected.0 }; offset = protected.1 },
      false,
    )
    else if t == tag_created_at
    then time_field (λ time. record s { entry = record s.entry { created_at = time } }) v
    else if t == tag_modified_at
    then time_field (λ time. record s { entry = record s.entry { modified_at = time } }) v
    else if t == tag_expires_at
    then time_field (λ time. record s { entry = record s.entry { expires_at = some time } }) v
    else if t == tag_custom_name
    then text_field (λ text. record s { pending_name = some text }) v
    else if t == tag_custom_value
    then text_field
        (λ text. push_field (taken_name s) (plain_text text) (record s { pending_name = none })) v
    else if t == tag_custom_value_protected
    then ok (
      push_field (taken_name s) (secret protected.0)
          (record s { pending_name = none; offset = protected.1 }),
      false,
    )
    else ok (s, false)

-- One round; the loop has no break.
unfoldable pub take_field : SealKey → Progress → ℕ → List ℕ → Result (Progress × Bool)
take_field key s t v =
    if t == tag_custom_value || t == tag_custom_value_protected
    then set_field key s t v
    else set_field key (close_name s) t v

unfoldable pub parse : List ℕ → SealKey → ℕ → Result (Entry × ℕ)
parse bytes key offset =
    for_each_record (take_field key) max_field_len
      (record { entry = blank; pending_name = none; offset = offset }) bytes
    >>= λ s. let closed = close_name s in ok (closed.entry, closed.offset)
