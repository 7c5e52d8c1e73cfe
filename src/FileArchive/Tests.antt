-- ===== src/FileArchive/Tests.antt =====
-- The header of a file, the empty archive, and the theorems at them.
use blindkey.Prelude.{ℕ, ◌≡◌, refl, arith, false, List, [], ◌∷◌, All, codes, bytes_eq}
use blindkey.Result.{ok, err, sealed_open_failed}
use blindkey.Volume.Fs.{slash, backslash, starts_with, contains, split}
use blindkey.Volume.Fs.Utf8.{is_utf8}
use blindkey.Volume.Fs.Names.{Lacks}
use blindkey.Bytes.{le_bytes, from_le_bytes}
use blindkey.Cursor.{take, read_u8, read_le}
use blindkey.Tlv.{write_record, read_record, read_framed, read_value}
use blindkey.FileArchive.{
  tag_file_hdr, tag_file_part, tag_end, parse_all, parse_records, take_record, close, start_file,
  add_part, finished,
}
use blindkey.FileArchive.Complete.{IsComplete, parse_all_sound}
use blindkey.FileArchive.Meta.{
  hdr_bytes, hdr_fields, check_end, FileMeta, IsValid, IsComponent, decode_hdr, validate_inner_path,
  components_ok, validate_inner_path_sound,
}

abbrev path : List ℕ
path = codes "a/b"

accepted : validate_inner_path path ≡ ok tt
unfolding validate_inner_path starts_with contains split components_ok bytes_eq
accepted = refl

climbing : validate_inner_path (codes "../b") ≡ err sealed_open_failed
unfolding validate_inner_path starts_with contains split components_ok bytes_eq
climbing = refl

abbrev meta : FileMeta
meta = record { path = path; mode = 420; mtime = 1700000000; size = 5 }

meta-IsValid : IsValid meta
unfolding is_utf8
meta-IsValid = record {
  text = refl;
  safe = accepted;
  short = omega arith;
  mode_fits = omega arith;
  mtime_fits = omega arith;
  size_fits = omega arith;
}

validate_inner_path_sound_example :
    Lacks backslash path × (starts_with slash path ≡ false) × All IsComponent (split slash path)
validate_inner_path_sound_example = validate_inner_path_sound path accepted

abbrev archive : List ℕ
archive =
    write_record
      (write_record (write_record [] tag_file_hdr (hdr_bytes meta)) tag_file_part (codes "hello"))
      tag_end []

parsed : parse_all archive ≡ ok ((meta, codes "hello") ∷ [])
unfolding parse_all parse_records take_record close start_file add_part finished read_record
    read_framed read_value take read_u8 read_le write_record le_bytes from_le_bytes decode_hdr
    hdr_fields check_end validate_inner_path starts_with contains split components_ok bytes_eq
    is_utf8
parsed = refl

parse_all_sound_example : All IsComplete ((meta, codes "hello") ∷ [])
parse_all_sound_example = parse_all_sound archive ((meta, codes "hello") ∷ []) parsed
