-- ===== src/Payload.antt =====
-- crates/blindkey-core/src/format/payload.rs: the plaintext of a vault as records.
pub mod Parse
pub mod Entries
pub mod RoundTrip
pub mod Streamed
mod Tests
use blindkey.Prelude.{
  ℕ, zero, suc, ◌+◌, Bool, true, false, not, Option, none, some, List, [], ◌∷◌, ◌++◌, length, ◌==◌,
  bytes_eq, if◌then◌else◌,
}
use blindkey.Bytes.{le_bytes}
use blindkey.Tlv.{write_record}
use blindkey.Pad.Mode.{PadMode, to_byte}
use blindkey.Frecency.{FrecencyStore, is_empty, serialize as serialize_usage}
use blindkey.Primitives.Cipher.{StreamCipher}
use blindkey.InnerStream.{InnerStream, new}
use blindkey.Entry.{Entry, Protected, expose, serialize as serialize_entry, Output}

abbrev pub inner_stream_chacha20 : ℕ
inner_stream_chacha20 = 1

abbrev pub tag_inner_algo : ℕ
tag_inner_algo = 0x0001

abbrev pub tag_inner_key : ℕ
tag_inner_key = 0x0002

abbrev pub tag_pad_mode : ℕ
tag_pad_mode = 0x0003

abbrev pub tag_yubikey_strict : ℕ
tag_yubikey_strict = 0x0004

abbrev pub tag_vault_version : ℕ
tag_vault_version = 0x0010

abbrev pub tag_entry : ℕ
tag_entry = 0x0020

abbrev pub tag_usage : ℕ
tag_usage = 0x0030

abbrev pub tag_end : ℕ
tag_end = 0x0000

pub record Payload : Type 0 where
  pub inner_stream_key : Protected
  pub pad_mode : PadMode
  pub vault_version : ℕ
  pub yubikey_strict : Bool
  pub entries : List Entry
  pub usage : FrecencyStore

module _ (cipher : StreamCipher) where
  -- One advancing stream for all entries.
  unfoldable pub write_entries : List Entry → Output → Output
  write_entries [] o = o
  write_entries (e ∷ es) (out, inner) =
      let (bytes, inner') = serialize_entry cipher e inner in
      write_entries es (write_record out tag_entry bytes, inner')

  unfoldable pub serialize : Payload → List ℕ
  serialize p =
      let key = expose cipher p.inner_stream_key in
      let o1 = write_record [] tag_inner_algo (inner_stream_chacha20 ∷ []) in
      let o2 = write_record o1 tag_inner_key key in
      let o3 = write_record o2 tag_pad_mode (to_byte p.pad_mode ∷ []) in
      let o4 = if p.yubikey_strict then write_record o3 tag_yubikey_strict (1 ∷ []) else o3 in
      let o5 = write_record o4 tag_vault_version (le_bytes 8 p.vault_version) in
      let o6 = (write_entries p.entries (o5, new key)).0 in
      let o7 =
        if is_empty p.usage then o6 else write_record o6 tag_usage (serialize_usage p.usage) in
      write_record o7 tag_end []
