-- ===== src/FileArchive/Meta.antt =====
-- crates/blindkey-core/src/format/file_archive.rs: the header of an archived file and its path.
use blindkey.Prelude.{
  ℕ, ◌*◌, ◌%◌, ◌≤◌, ◌<◌, ◌≡◌, refl, ◌∙◌, arith, true, false, not, Bool-cases, inl, inr, List, [],
  ◌∷◌, ◌++◌, length, ltb, ◌==◌, ◌||◌, All, bytes_eq, append-nil, length-append, if◌then◌else◌,
}
use native.Mathlib.Nat.{mod-eq_of_lt}
use blindkey.Result.{Result, ok, err, body_malformed, sealed_open_failed}
use blindkey.Bytes.{u32_mod, u64_mod, le_bytes, length-le_bytes}
use blindkey.Cursor.{
  Cursor, Read, ◌>>=◌, ◌>>◌, pure, lift, refuse_if, relabel, remaining, run, new, take, read_u32_le,
  read_u64_le,
}
use blindkey.Cursor.Reads.{
  Reads, Reads-bind, Reads-pure, Reads-cast, Reads-take, Reads-read_le, Reads-refuse_if,
  Reads-relabel, Reads-lift, Ahead, Ahead-new, skip, run-ok, >>=-ok,
}
use blindkey.Volume.Fs.{slash, backslash, dot, dot_dot, contains, starts_with, split}
use blindkey.Volume.Fs.Utf8.{is_utf8}
use blindkey.Volume.Fs.Names.{Lacks}

abbrev pub max_path_len : ℕ
max_path_len = 4096

abbrev pub max_file_size : ℕ
max_file_size = 256 * 1024 * 1024 * 1024

-- The path is the bytes of its text.
pub record FileMeta : Type 0 where
  pub path : List ℕ
  pub mode : ℕ
  pub mtime : ℕ
  pub size : ℕ

unfoldable pub encode_hdr : FileMeta → Result (List ℕ)
encode_hdr meta =
    if ltb max_path_len (length meta.path)
    then err body_malformed
    else ok (
        le_bytes 4 (length meta.path % u32_mod)
        ++ (meta.path ++ (le_bytes 4 meta.mode ++ (le_bytes 8 meta.mtime ++ le_bytes 8 meta.size))))

unfoldable pub components_ok : List (List ℕ) → Result (Unit {0})
components_ok [] = ok tt
components_ok (comp ∷ comps) =
    let rest = components_ok comps in
    if bytes_eq comp [] || (bytes_eq comp dot_dot || bytes_eq comp dot)
    then err sealed_open_failed
    else rest

unfoldable pub validate_inner_path : List ℕ → Result (Unit {0})
validate_inner_path path =
    if bytes_eq path [] || (starts_with slash path || starts_with backslash path)
    then err sealed_open_failed
    else if contains backslash path
    then err sealed_open_failed
    else components_ok (split slash path)

-- The reads of `decode_hdr`, and the test behind them.
unfoldable pub hdr_fields : Read FileMeta
hdr_fields = do
  path_len ← read_u32_le
  refuse_if (ltb max_path_len path_len) body_malformed
  path ← relabel body_malformed (take path_len)
  refuse_if (not (is_utf8 path)) body_malformed
  lift (validate_inner_path path)
  mode ← read_u32_le
  mtime ← read_u64_le
  size ← read_u64_le
  pure (record { path = path; mode = mode; mtime = mtime; size = size })

unfoldable pub check_end : FileMeta → Read FileMeta
check_end meta c =
    if ltb max_file_size meta.size || not (remaining c == 0)
    then err body_malformed
    else ok (meta, c)

unfoldable pub decode_hdr : List ℕ → Result FileMeta
decode_hdr value = run (do meta ← hdr_fields; check_end meta) value

-- What a header may hold: a text of at most 4096 bytes that is a safe path, and numbers that fit.
pub record IsValid (meta : FileMeta) : Type 0 where
  pub text : is_utf8 meta.path ≡ true
  pub safe : validate_inner_path meta.path ≡ ok tt
  pub short : length meta.path ≤ max_path_len
  pub mode_fits : meta.mode < u32_mod
  pub mtime_fits : meta.mtime < u64_mod
  pub size_fits : meta.size ≤ max_file_size

abbrev pub hdr_bytes : FileMeta → List ℕ
hdr_bytes meta =
    le_bytes 4 (length meta.path)
    ++ (meta.path ++ (le_bytes 4 meta.mode ++ (le_bytes 8 meta.mtime ++ le_bytes 8 meta.size)))

Reads-hdr_fields : (meta : FileMeta) → IsValid meta → Reads hdr_fields (hdr_bytes meta) meta
unfolding hdr_fields
Reads-hdr_fields meta v =
    let fine : ltb max_path_len (length meta.path) ≡ false = ground (arith, v.short) in
    let text : not (is_utf8 meta.path) ≡ false = rw v.text refl in
    Reads-bind _ (Reads-read_le 4 (length meta.path) (omega (arith, v.short))) (
      Reads-bind _ (Reads-refuse_if (ltb max_path_len (length meta.path)) body_malformed fine) (
        Reads-bind _ (Reads-relabel body_malformed (Reads-take meta.path)) (
          Reads-bind _ (Reads-refuse_if (not (is_utf8 meta.path)) body_malformed text) (
            Reads-bind _ (Reads-lift v.safe) (
              Reads-bind _ (Reads-read_le 4 meta.mode (omega (arith, v.mode_fits))) (
                Reads-bind _ (Reads-read_le 8 meta.mtime (omega (arith, v.mtime_fits))) (
                  Reads-cast (append-nil (le_bytes 8 meta.size)) (
                    Reads-bind _ (Reads-read_le 8 meta.size (omega (arith, v.size_fits)))
                      (Reads-pure meta)))))))))

length-hdr_bytes : (meta : FileMeta) → IsValid meta → length (hdr_bytes meta) < u64_mod
length-hdr_bytes meta v =
    let numbers : List ℕ =
      le_bytes 4 meta.mode ++ (le_bytes 8 meta.mtime ++ le_bytes 8 meta.size) in
    omega (
      arith,
      v.short,
      length-append (le_bytes 4 (length meta.path)) (meta.path ++ numbers),
      length-append meta.path numbers,
      length-append (le_bytes 4 meta.mode) (le_bytes 8 meta.mtime ++ le_bytes 8 meta.size),
      length-append (le_bytes 8 meta.mtime) (le_bytes 8 meta.size),
      length-le_bytes 4 (length meta.path),
      length-le_bytes 4 meta.mode,
      length-le_bytes 8 meta.mtime,
      length-le_bytes 8 meta.size,
    )

check_end-ok :
    (meta : FileMeta) (c : Cursor)
    → meta.size ≤ max_file_size
    → length c.buf ≤ c.pos
    → check_end meta c ≡ ok (meta, c)
unfolding check_end
check_end-ok meta c hs hc = ground (arith, hs, hc)

-- The header of a file with a safe path of at most 4096 bytes of text, and at most 256 GiB, is
-- encoded, and decoded from its encoding.
pub decode_hdr-encode_hdr :
    (meta : FileMeta)
    → IsValid meta
    → (value : List ℕ) × (encode_hdr meta ≡ ok value) × (decode_hdr value ≡ ok meta)
unfolding encode_hdr decode_hdr
decode_hdr-encode_hdr meta v =
    let value : List ℕ = hdr_bytes meta in
    let fine : ltb max_path_len (length meta.path) ≡ false = ground (arith, v.short) in
    let whole : value ++ [] ≡ value = append-nil value in
    let ahead : Ahead (new value) (value ++ []) =
      rw whole (Ahead-new value (length-hdr_bytes meta v)) in
    let reads = (Reads-hdr_fields meta v).at (new value) [] ahead in
    (
      value,
      rw (fine, mod-eq_of_lt {n = length meta.path} {m = u32_mod} (omega (arith, v.short))) refl,
      run-ok (do m ← hdr_fields; check_end m) value
          (>>=-ok hdr_fields check_end reads
            ∙ check_end-ok meta (skip (length value) (new value)) v.size_fits (omega arith)),
    )

-- A component of a safe path.
abbrev pub IsComponent : List ℕ → Type 0
IsComponent comp =
    (bytes_eq comp [] ≡ false) × (bytes_eq comp dot_dot ≡ false) × (bytes_eq comp dot ≡ false)

components_sound : (comps : List (List ℕ)) → components_ok comps ≡ ok tt → All IsComponent comps
unfolding components_ok
components_sound [] h = tt
components_sound (comp ∷ comps) h =
    elim (Bool-cases (bytes_eq comp [] || (bytes_eq comp dot_dot || bytes_eq comp dot))) [
      | inl bad ↦ let t : err sealed_open_failed ≡ ok tt = (rw bad at h) in cc
      | inr good ↦ (
        (ground (arith, good), ground (arith, good), ground (arith, good)),
        components_sound comps (rw good at h),
      )
    ]

-- A path that is accepted has no backslash, and no part between its slashes is empty, `.` or `..`; so it is not
-- absolute and does not climb.
pub validate_inner_path_sound :
    (path : List ℕ)
    → validate_inner_path path ≡ ok tt
    → Lacks backslash path × (starts_with slash path ≡ false) × All IsComponent (split slash path)
unfolding validate_inner_path
validate_inner_path_sound path h =
    elim (Bool-cases (bytes_eq path [] || (starts_with slash path || starts_with backslash path))) [
      | inl rooted ↦ let t : err sealed_open_failed ≡ ok tt = (rw rooted at h) in cc
      | inr relative ↦ elim (Bool-cases (contains backslash path)) [
        | inl found ↦ let t : err sealed_open_failed ≡ ok tt = (rw (relative, found) at h) in cc
        | inr absent ↦ (
          absent,
          ground (arith, relative),
          components_sound (split slash path) (rw (relative, absent) at h),
        )
      ]
    ]
