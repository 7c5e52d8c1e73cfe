-- ===== src/Entry/Fields.antt =====
-- One part of the form for each field of an entry of crates/blindkey-core/src/format/entry.rs.
use blindkey.Prelude.{ℕ, ◌≤◌, ◌<◌, ◌≡◌, refl, ap, arith, true, some, List, [], ◌∷◌, ◌++◌, length}
use blindkey.Result.{ok}
use blindkey.Bytes.{u64_mod, le_bytes, length-le_bytes, from_le_bytes-le_bytes}
use blindkey.Volume.Fs.Utf8.{is_utf8}
use blindkey.Tlv.{decode_str, decode_i64, max_field_len}
use blindkey.Primitives.Cipher.{StreamCipher}
use blindkey.InnerStream.{InnerStream, SealKey}
use blindkey.Entry.{
  Protected, expose, write_plain, write_protected, tag_id, tag_title, tag_username, tag_password,
  tag_url, tag_notes, tag_tag, tag_otp_secret, tag_created_at, tag_modified_at, tag_expires_at,
}
use blindkey.Entry.Parse.{take_field, set_field, close_name, seal_protected}
use blindkey.Entry.Parts.{Part, plain-Part, protected-Part, behind, resealed}

pub text_taken : (value : List ℕ) → is_utf8 value ≡ true → decode_str value ≡ ok value
unfolding decode_str
text_taken value h = rw h refl

time_taken : (time : ℕ) → time < u64_mod → decode_i64 (le_bytes 8 time) ≡ ok time
unfolding decode_i64
time_taken time h =
    rw (length-le_bytes 8 time) (ap ok (from_le_bytes-le_bytes 8 time (omega (arith, h))))

time_short : (time : ℕ) → length (le_bytes 8 time) ≤ max_field_len
time_short time = omega (arith, length-le_bytes 8 time)

module _ (cipher : StreamCipher) (key : SealKey) (i : InnerStream) where
  pub id-Part :
      (value : List ℕ)
      → length value ≡ 16
      → Part key (write_plain cipher tag_id value) i i (λ x. record x { id = value })
  unfolding take_field set_field close_name
  id-Part value hv =
      plain-Part cipher i tag_id value (omega arith) (omega arith) (λ x p. rw hv refl)

  module _ (value : List ℕ) (utf8 : is_utf8 value ≡ true) (hv : length value ≤ max_field_len) where
    pub title-Part :
        Part key (write_plain cipher tag_title value) i i (λ x. record x { title = value })
    unfolding take_field set_field close_name
    title-Part =
        plain-Part cipher i tag_title value (omega arith) hv
          (λ x p. rw (text_taken value utf8) refl)

    pub username-Part :
        Part key (write_plain cipher tag_username value) i i (λ x. record x { username = value })
    unfolding take_field set_field close_name
    username-Part =
        plain-Part cipher i tag_username value (omega arith) hv
          (λ x p. rw (text_taken value utf8) refl)

    pub url-Part : Part key (write_plain cipher tag_url value) i i (λ x. record x { url = value })
    unfolding take_field set_field close_name
    url-Part =
        plain-Part cipher i tag_url value (omega arith) hv (λ x p. rw (text_taken value utf8) refl)

    pub notes-Part :
        Part key (write_plain cipher tag_notes value) i i (λ x. record x { notes = value })
    unfolding take_field set_field close_name
    notes-Part =
        plain-Part cipher i tag_notes value (omega arith) hv
          (λ x p. rw (text_taken value utf8) refl)

    pub tag-Part :
        Part key
          (write_plain cipher tag_tag value)
          i
          i
          (λ x. record x { tags = x.tags ++ (value ∷ []) })
    unfolding take_field set_field close_name
    tag-Part =
        plain-Part cipher i tag_tag value (omega arith) hv (λ x p. rw (text_taken value utf8) refl)

  module _ (time : ℕ) (fits : time < u64_mod) where
    pub created_at-Part :
        Part key
          (write_plain cipher tag_created_at (le_bytes 8 time))
          i
          i
          (λ x. record x { created_at = time })
    unfolding take_field set_field close_name
    created_at-Part =
        plain-Part cipher i tag_created_at (le_bytes 8 time) (omega arith) (time_short time)
          (λ x p. rw (time_taken time fits) refl)

    pub modified_at-Part :
        Part key
          (write_plain cipher tag_modified_at (le_bytes 8 time))
          i
          i
          (λ x. record x { modified_at = time })
    unfolding take_field set_field close_name
    modified_at-Part =
        plain-Part cipher i tag_modified_at (le_bytes 8 time) (omega arith) (time_short time)
          (λ x p. rw (time_taken time fits) refl)

    pub expires_at-Part :
        Part key
          (write_plain cipher tag_expires_at (le_bytes 8 time))
          i
          i
          (λ x. record x { expires_at = some time })
    unfolding take_field set_field close_name
    expires_at-Part =
        plain-Part cipher i tag_expires_at (le_bytes 8 time) (omega arith) (time_short time)
          (λ x p. rw (time_taken time fits) refl)

  module _ (p : Protected) (hp : length (expose cipher p) ≤ max_field_len) where
    pub password-Part :
        Part key
          (write_protected cipher tag_password (expose cipher p))
          i
          (behind cipher p i)
          (λ x. record x { password = resealed cipher key p i })
    unfolding take_field set_field close_name seal_protected
    password-Part = protected-Part cipher i tag_password p (omega arith) hp (λ x ct e. rw e refl)

    pub otp_secret-Part :
        Part key
          (write_protected cipher tag_otp_secret (expose cipher p))
          i
          (behind cipher p i)
          (λ x. record x { otp_secret = some (resealed cipher key p i) })
    unfolding take_field set_field close_name seal_protected
    otp_secret-Part =
        protected-Part cipher i tag_otp_secret p (omega arith) hp (λ x ct e. rw e refl)
