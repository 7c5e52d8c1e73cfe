-- ===== src/Entry/RoundTrip.antt =====
-- `Entry::serialize` and `Entry::parse` of crates/blindkey-core/src/format/entry.rs together.
use blindkey.Prelude.{
  ℕ, ◌<◌, ◌≡◌, refl, sym, ap, ◌∙◌, false, Option, none, some, [], ◌++◌, length, All, append-nil,
  inr,
}
use mathlib.Core.Path.{subst}
use blindkey.Result.{ok}
use blindkey.Bytes.{u64_mod, le_bytes}
use blindkey.Tlv.{max_field_len}
use blindkey.Tlv.Loop.{write_all, for_each_record, for_each_record-write_all}
use blindkey.Primitives.Cipher.{StreamCipher}
use blindkey.InnerStream.{InnerStream, SealKey}
use blindkey.Entry.{
  Entry, Output, expose, serialize, write_entry, write_plain, write_protected, write_tags,
  write_otp, write_expiry, write_custom, tag_id, tag_title, tag_username, tag_password, tag_url,
  tag_created_at, tag_modified_at,
}
use blindkey.Entry.Parse.{take_field, close_name, blank, parse}
use blindkey.Entry.Parts.{Part, Part-then, between, behind, resealed}
use blindkey.Entry.Fields.{
  id-Part, title-Part, username-Part, url-Part, notes-Part, created_at-Part, modified_at-Part,
  password-Part,
}
use blindkey.Entry.Whole.{
  IsText, IsSecret, IsField, Optional, tags-Part, otp-Part, expiry-Part, custom-Part, behind_otp,
  resealed_otp, resealed_fields, resealed_entry, behind_entry, later_expiry,
}

-- The id has 16 bytes, the texts are UTF-8 and no field is longer than a mebibyte.
pub record IsEntry (cipher : StreamCipher) (e : Entry) : Type 0 where
  pub id_length : length e.id ≡ 16
  pub title : IsText e.title
  pub username : IsText e.username
  pub password : IsSecret cipher e.password
  pub url : IsText e.url
  pub notes : IsText e.notes
  pub tags : All IsText e.tags
  pub otp_secret : Optional (IsSecret cipher) e.otp_secret
  pub created_at : e.created_at < u64_mod
  pub modified_at : e.modified_at < u64_mod
  pub expires_at : Optional (λ time. time < u64_mod) e.expires_at
  pub custom_fields : All (IsField cipher) e.custom_fields

later_expiry_none :
    (cipher : StreamCipher) (key : SealKey) (o : Option ℕ) → later_expiry cipher key o none ≡ o
later_expiry_none cipher key none = refl
later_expiry_none cipher key (some time) = refl

module _ (cipher : StreamCipher) (key : SealKey) (e : Entry) (i : InnerStream) where
  -- What parsing the form of an entry makes of the entry it begins with.
  abbrev changed : Entry → Entry
  changed x = record {
    id = e.id;
    title = e.title;
    username = e.username;
    password = resealed cipher key e.password i;
    url = e.url;
    notes = e.notes;
    tags = x.tags ++ e.tags;
    otp_secret = resealed_otp cipher key e.otp_secret (behind cipher e.password i) x.otp_secret;
    created_at = e.created_at;
    modified_at = e.modified_at;
    expires_at = later_expiry cipher key e.expires_at x.expires_at;
    custom_fields =
        x.custom_fields
        ++ resealed_fields cipher key e.custom_fields
            (behind_otp cipher key e.otp_secret (behind cipher e.password i));
  }

  changed-blank : changed blank ≡ resealed_entry cipher key e i
  changed-blank =
      ap {A = Option ℕ} {B = Entry} (λ o. record (resealed_entry cipher key e i) { expires_at = o })
        (later_expiry_none cipher key e.expires_at)

  -- In front of the notes, and behind them.
  abbrev pub front_write : Output → Output
  front_write o = write_plain cipher tag_url e.url (
      write_protected cipher tag_password (expose cipher e.password) (
        write_plain cipher tag_username e.username
          (write_plain cipher tag_title e.title (write_plain cipher tag_id e.id o))))

  abbrev pub tail_write : Output → Output
  tail_write o = write_custom cipher e.custom_fields (
      write_expiry cipher e.expires_at (
        write_plain cipher tag_modified_at (le_bytes 8 e.modified_at) (
          write_plain cipher tag_created_at (le_bytes 8 e.created_at)
            (write_otp cipher e.otp_secret (write_tags cipher e.tags o)))))

  abbrev pub front_changed : Entry → Entry
  front_changed x = record x {
    id = e.id;
    title = e.title;
    username = e.username;
    password = resealed cipher key e.password i;
    url = e.url;
  }

  abbrev tail_changed : Entry → Entry
  tail_changed x = record (changed x) {
    id = x.id;
    title = x.title;
    username = x.username;
    password = x.password;
    url = x.url;
    notes = x.notes;
  }

  pub front-Part :
      length e.id ≡ 16
      → IsText e.title
      → IsText e.username
      → IsSecret cipher e.password
      → IsText e.url
      → Part key front_write i (behind cipher e.password i) front_changed
  front-Part id title username password url = Part-then (id-Part cipher key i e.id id) (
      Part-then (title-Part cipher key i e.title title.0 title.1) (
        Part-then (username-Part cipher key i e.username username.0 username.1) (
          Part-then (password-Part cipher key i e.password password)
            (url-Part cipher key _ e.url url.0 url.1))))

  pub tail-Part :
      All IsText e.tags
      → Optional (IsSecret cipher) e.otp_secret
      → e.created_at < u64_mod
      → e.modified_at < u64_mod
      → Optional (λ time. time < u64_mod) e.expires_at
      → All (IsField cipher) e.custom_fields
      → Part key tail_write (behind cipher e.password i) (behind_entry cipher key e i) tail_changed
  tail-Part tags otp created modified expiry custom =
      Part-then (tags-Part cipher key _ e.tags tags) (
        Part-then (otp-Part cipher key _ e.otp_secret otp) (
          Part-then (created_at-Part cipher key _ e.created_at created) (
            Part-then (modified_at-Part cipher key _ e.modified_at modified) (
              Part-then (expiry-Part cipher key _ e.expires_at expiry)
                (custom-Part cipher key _ e.custom_fields custom)))))

  module _ (h : IsEntry cipher e) where
    entry-Part : Part key (write_entry cipher e) i (behind_entry cipher key e i) changed
    entry-Part = Part-then (front-Part h.id_length h.title h.username h.password h.url) (
        Part-then (notes-Part cipher key _ e.notes h.notes.0 h.notes.1)
          (tail-Part h.tags h.otp_secret h.created_at h.modified_at h.expires_at h.custom_fields))

    -- The form of an entry, read with the key of the stream that wrote it, from the position the stream
    -- began at: every field is as it was, every secret is kept encrypted, and the counter is where the
    -- stream stopped.
    pub parse-serialize_resealed :
        length (serialize cipher e i).0 < u64_mod
        → parse (serialize cipher e i).0 key i.position
          ≡ ok (resealed_entry cipher key e i, (serialize cipher e i).1.position)
    unfolding serialize parse close_name
    parse-serialize_resealed small =
        let p : Part key (write_entry cipher e) i (behind_entry cipher key e i) changed =
          entry-Part in
        let bytes : (write_entry cipher e ([], i)).0 ≡ write_all p.recs ++ [] =
          ap (λ o. o.0) (p.writes []) ∙ sym (append-nil (write_all p.recs)) in
        let stop : (write_entry cipher e ([], i)).1 ≡ behind_entry cipher key e i =
          ap (λ o. o.1) (p.writes []) in
        let loop : for_each_record (take_field key) max_field_len (between blank i.position)
              (write_all p.recs ++ [])
            ≡ ok (between (changed blank) (behind_entry cipher key e i).position) =
          for_each_record-write_all (take_field key) max_field_len p.recs [] _ _ false p.fits
            (subst (λ b. length b < u64_mod) bytes small) (inr refl) (p.runs blank) in
        rw (bytes, stop, loop, changed-blank) refl

    pub behind-serialize : (serialize cipher e i).1 ≡ behind_entry cipher key e i
    unfolding serialize
    behind-serialize = ap (λ o. o.1) (entry-Part.writes [])
