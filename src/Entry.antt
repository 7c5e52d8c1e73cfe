-- ===== src/Entry.antt =====
-- crates/blindkey-core/src/format/entry.rs: an entry of the vault, and its fields as records. Texts
-- are their bytes; an `i64` is the number that its eight bytes make.
pub mod Parse
pub mod Parts
pub mod Fields
pub mod Whole
pub mod RoundTrip
pub mod Revealed
pub mod Oversize
mod Tests
use blindkey.Prelude.{ℕ, ◌+◌, Bool, Option, none, some, List, [], ◌∷◌, ◌++◌, length, leb}
use blindkey.Bytes.{le_bytes}
use blindkey.Tlv.{write_record, protected_bit}
use blindkey.Primitives.Cipher.{StreamCipher}
use blindkey.InnerStream.{InnerStream, SealKey, apply, open_at}

abbrev pub tag_id : ℕ
tag_id = 0x0001

abbrev pub tag_title : ℕ
tag_title = 0x0002

abbrev pub tag_username : ℕ
tag_username = 0x0003

abbrev pub tag_password : ℕ
tag_password = 0x8004

abbrev pub tag_url : ℕ
tag_url = 0x0005

abbrev pub tag_notes : ℕ
tag_notes = 0x0006

abbrev pub tag_tag : ℕ
tag_tag = 0x0007

abbrev pub tag_otp_secret : ℕ
tag_otp_secret = 0x8008

abbrev pub tag_created_at : ℕ
tag_created_at = 0x0009

abbrev pub tag_modified_at : ℕ
tag_modified_at = 0x000A

abbrev pub tag_expires_at : ℕ
tag_expires_at = 0x000B

abbrev pub tag_custom_name : ℕ
tag_custom_name = 0x000C

abbrev pub tag_custom_value : ℕ
tag_custom_value = 0x000D

abbrev pub tag_custom_value_protected : ℕ
tag_custom_value_protected = 0x800D

pub data Protected : Type 0 where
  plain : List ℕ → Protected
  sealed : (ct : List ℕ) → SealKey → (offset : ℕ) → Protected

pub data CustomValue : Type 0 where
  plain_text : List ℕ → CustomValue
  secret : Protected → CustomValue

pub record CustomField : Type 0 where
  pub name : List ℕ
  pub value : CustomValue

pub record Entry : Type 0 where
  pub id : List ℕ
  pub title : List ℕ
  pub username : List ℕ
  pub password : Protected
  pub url : List ℕ
  pub notes : List ℕ
  pub tags : List (List ℕ)
  pub otp_secret : Option Protected
  pub created_at : ℕ
  pub modified_at : ℕ
  pub expires_at : Option ℕ
  pub custom_fields : List CustomField

abbrev pub new : List ℕ → Protected
new bytes = plain bytes

-- `tag & PROTECTED_BIT != 0`, for a tag of 16 bits.
unfoldable pub is_protected : ℕ → Bool
is_protected tag = leb protected_bit tag

-- The output and the stream, which the calls change one after the other.
abbrev pub Output : Type 0
Output = List ℕ × InnerStream

module _ (cipher : StreamCipher) where
  unfoldable pub expose : Protected → List ℕ
  expose (plain s) = s
  expose (sealed ct key offset) = open_at cipher key offset ct

  unfoldable pub write_protected : ℕ → List ℕ → Output → Output
  write_protected tag plaintext (out, inner) =
      let (buf, inner') = apply cipher inner plaintext in (write_record out tag buf, inner')

  abbrev pub write_plain : ℕ → List ℕ → Output → Output
  write_plain tag value (out, inner) = (write_record out tag value, inner)

  unfoldable pub write_tags : List (List ℕ) → Output → Output
  write_tags [] o = o
  write_tags (t ∷ ts) o = write_tags ts (write_plain tag_tag t o)

  unfoldable pub write_otp : Option Protected → Output → Output
  write_otp none o = o
  write_otp (some otp) o = write_protected tag_otp_secret (expose otp) o

  unfoldable pub write_expiry : Option ℕ → Output → Output
  write_expiry none o = o
  write_expiry (some expiry) o = write_plain tag_expires_at (le_bytes 8 expiry) o

  unfoldable pub write_value : CustomValue → Output → Output
  write_value (plain_text s) o = write_plain tag_custom_value s o
  write_value (secret p) o = write_protected tag_custom_value_protected (expose p) o

  unfoldable pub write_custom : List CustomField → Output → Output
  write_custom [] o = o
  write_custom (f ∷ fs) o =
      write_custom fs (write_value f.value (write_plain tag_custom_name f.name o))

  abbrev pub write_entry : Entry → Output → Output
  write_entry e o =
      let o1 = write_plain tag_id e.id o in
      let o2 = write_plain tag_title e.title o1 in
      let o3 = write_plain tag_username e.username o2 in
      let o4 = write_protected tag_password (expose e.password) o3 in
      let o5 = write_plain tag_url e.url o4 in
      let o6 = write_plain tag_notes e.notes o5 in
      let o7 = write_tags e.tags o6 in
      let o8 = write_otp e.otp_secret o7 in
      let o9 = write_plain tag_created_at (le_bytes 8 e.created_at) o8 in
      let o10 = write_plain tag_modified_at (le_bytes 8 e.modified_at) o9 in
      let o11 = write_expiry e.expires_at o10 in write_custom e.custom_fields o11

  -- The bytes, and the stream behind them.
  unfoldable pub serialize : Entry → InnerStream → Output
  serialize e inner = write_entry e ([], inner)
