-- ===== src/FileArchive.antt =====
-- crates/blindkey-core/src/format/file_archive.rs: the files inside a sealed container, as records
-- of the TLV format, parsed from a whole buffer or from pieces.
pub mod Meta
pub mod Complete
mod Tests
use blindkey.Prelude.{
  ℕ, zero, suc, ◌+◌, ◌*◌, Bool, true, false, not, Option, none, some, List, [], ◌∷◌, ◌++◌, length,
  drop, ltb, ◌==◌, ◌&&◌, ◌||◌, if◌then◌else◌,
}
use blindkey.Result.{Result, ok, err, body_malformed, ◌>>=◌}
use blindkey.Cursor.{Cursor, new}
use blindkey.Tlv.{write_record, read_record}
use blindkey.FileArchive.Meta.{FileMeta, encode_hdr, decode_hdr, validate_inner_path}

abbrev pub max_part_len : ℕ
max_part_len = 64 * 1024

abbrev pub tag_file_hdr : ℕ
tag_file_hdr = 0x0100

abbrev pub tag_file_part : ℕ
tag_file_part = 0x0101

abbrev pub tag_end : ℕ
tag_end = 0xFFFF

unfoldable pub write_file_hdr : List ℕ → FileMeta → Result (List ℕ)
write_file_hdr out meta = validate_inner_path meta.path >>= λ _.
    encode_hdr meta >>= λ value. ok (write_record out tag_file_hdr value)

unfoldable pub write_file_part : List ℕ → List ℕ → Result (List ℕ)
write_file_part out chunk =
    if ltb max_part_len (length chunk)
    then err body_malformed
    else ok (write_record out tag_file_part chunk)

unfoldable pub write_end : List ℕ → List ℕ
write_end out = write_record out tag_end []

abbrev pub ArchivedFile : Type 0
ArchivedFile = FileMeta × List ℕ

-- What the parsers keep: the file that is being read, and those that are complete.
pub record Progress : Type 0 where
  pub current : Option ArchivedFile
  pub out : List ArchivedFile

-- `if let Some((meta, body)) = current.take() { ... }`
unfoldable pub close : Progress → Result Progress
close s = elim s.current [
  | none ↦ ok s
  | some f ↦
      if not (length f.1 == f.0.size)
      then err body_malformed
      else ok (record { current = none; out = s.out ++ f ∷ [] })
]

unfoldable pub start_file : Progress → List ℕ → Result Progress
start_file s value =
    close s >>= λ s'. decode_hdr value >>= λ meta. ok (record s' { current = some (meta, []) })

unfoldable pub add_part : Progress → List ℕ → Result Progress
add_part s value = elim s.current [
  | none ↦ err body_malformed
  | some f ↦
      if ltb f.0.size (length f.1 + length value)
      then err body_malformed
      else ok (record s { current = some (f.0, f.1 ++ value) })
]

-- The `match` on the tag; the flag says that the archive has ended.
unfoldable pub take_record : Progress → ℕ → List ℕ → Result (Progress × Bool)
take_record s tag value =
    if tag == tag_end
    then (close s >>= λ s'. ok (s', true))
    else if tag == tag_file_hdr
    then (start_file s value >>= λ s'. ok (s', false))
    else if tag == tag_file_part
    then (add_part s value >>= λ s'. ok (s', false))
    else err body_malformed

-- Behind the loop: a file that is not complete is an error.
unfoldable pub finished : Progress → Result (List ArchivedFile)
finished s = elim s.current [ none ↦ ok s.out | some f ↦ err body_malformed ]

-- The loop of `parse_all`, on fuel; a round takes the six bytes of a record's header at least.
unfoldable pub parse_records : ℕ → Progress → Cursor → Result (List ArchivedFile)
parse_records zero s cur = err body_malformed
parse_records (suc fuel) s cur = read_record (max_part_len + 128) cur >>= λ (found, cur').
    elim found [
      | none ↦ finished s
      | some (tag, value) ↦ take_record s tag value >>= λ (s', at_end). elim at_end [
        | true ↦ finished s'
        | false ↦ parse_records fuel s' cur'
      ]
    ]

unfoldable pub parse_all : List ℕ → Result (List ArchivedFile)
parse_all bytes =
    parse_records (suc (length bytes)) (record { current = none; out = [] }) (new bytes)

pub record ArchiveIncrementalParser : Type 0 where
  pub buf : List ℕ
  pub current : Option ArchivedFile
  pub done : Bool

all_zero : List ℕ → Bool
all_zero [] = true
all_zero (b ∷ bs) = b == 0 && all_zero bs

-- The loop of `feed`, on fuel; a round takes a record out of the buffer.
unfoldable pub feed_records :
    ℕ
    → ArchiveIncrementalParser
    → List ArchivedFile
    → Result (List ArchivedFile × ArchiveIncrementalParser)
feed_records zero p completed = err body_malformed
feed_records (suc fuel) p completed =
    read_record (max_part_len + 128) (new p.buf) >>= λ (found, cur). elim found [
      | none ↦ ok (completed, p)
      | some (tag, value) ↦
          take_record (record { current = p.current; out = completed }) tag value >>= λ (s, at_end).
          elim at_end [
            | true ↦
                ok (s.out, record { buf = drop cur.pos p.buf; current = s.current; done = true })
            | false ↦
                feed_records fuel
                  (record { buf = drop cur.pos p.buf; current = s.current; done = false }) s.out
          ]
    ]

unfoldable pub feed :
    ArchiveIncrementalParser → List ℕ → Result (List ArchivedFile × ArchiveIncrementalParser)
unfolding all_zero
feed p bytes =
    if p.done
    then (if all_zero bytes then ok ([], p) else err body_malformed)
    else feed_records (suc (length (p.buf ++ bytes))) (record p { buf = p.buf ++ bytes }) []

unfoldable pub finish : ArchiveIncrementalParser → Result (Unit {0})
unfolding all_zero
finish p =
    let open_file : Bool = elim p.current [ none ↦ false | some f ↦ true ] in
    if not p.done || open_file
    then err body_malformed
    else if not (length p.buf == 0) && all_zero p.buf
    then ok tt
    else if length p.buf == 0
    then ok tt
    else err body_malformed
