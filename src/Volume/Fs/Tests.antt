-- ===== src/Volume/Fs/Tests.antt =====
-- Paths and a table of one file, and the theorems at them.
use blindkey.Prelude.{
  ℕ, ◌≡◌, refl, arith, true, false, List, [], ◌∷◌, ◌++◌, length, All, codes, bytes_eq,
}
use blindkey.Result.{ok, err, volume_open_failed}
use blindkey.Volume.Fs.{
  slash, backslash, dot, contains, starts_with, split, join, kept_parts, normalize,
}
use blindkey.Volume.Fs.Names.{IsName, Lacks}
use blindkey.Volume.Fs.Normal.{normalize_sound, normalize-backslash}
use blindkey.Volume.Fs.Utf8.{is_utf8}
use blindkey.Volume.Fs.Inodes.{
  Inode, IsValid, encode_inodes, encode_each, encode_inode, decode_inodes,
  decode_inodes-encode_inodes,
}
use blindkey.Bytes.{le_bytes}

abbrev messy : List ℕ
messy = codes "a//./b"

abbrev neat : List ℕ
neat = codes "a/b"

normalized : normalize messy ≡ ok neat
unfolding normalize contains starts_with split kept_parts join bytes_eq
normalized = refl

climbing : normalize (codes "a/../b") ≡ err volume_open_failed
unfolding normalize contains starts_with split kept_parts join bytes_eq
climbing = refl

no_backslash : starts_with backslash neat ≡ false
unfolding starts_with
no_backslash = refl

name : IsName (backslash ∷ codes "x")
unfolding contains bytes_eq
name = record {
  not_empty = refl;
  not_dot = refl;
  not_dot_dot = refl;
  no_slash = refl;
  no_nul = refl;
}

normalize_sound_example :
    (parts : List (List ℕ)) × (neat ≡ join parts)
    × All IsName parts
    × (starts_with slash neat ≡ false)
    × Lacks 0 neat
normalize_sound_example = normalize_sound messy neat normalized

rooted : starts_with backslash (join ((backslash ∷ codes "x") ∷ codes "y" ∷ [])) ≡ true
unfolding starts_with join
rooted = refl

second_name : IsName (codes "y")
unfolding contains bytes_eq
second_name = record {
  not_empty = refl;
  not_dot = refl;
  not_dot_dot = refl;
  no_slash = refl;
  no_nul = refl;
}

normalize-backslash_example :
    (normalize (backslash ∷ codes "x/../y") ≡ err volume_open_failed)
    × (normalize (dot ++ slash ∷ join ((backslash ∷ codes "x") ∷ codes "y" ∷ []))
        ≡ ok (join ((backslash ∷ codes "x") ∷ codes "y" ∷ [])))
    × (normalize (join ((backslash ∷ codes "x") ∷ codes "y" ∷ [])) ≡ err volume_open_failed)
normalize-backslash_example =
    normalize-backslash (codes "x/../y") ((backslash ∷ codes "x") ∷ codes "y" ∷ [])
      (name, (second_name, tt)) rooted

abbrev file : Inode
file = record { path = codes "a"; is_dir = false; size = 10; first_block = 3; block_count = 1 }

file-IsValid : IsValid file
unfolding is_utf8
file-IsValid = record {
  text = refl;
  short = omega arith;
  size_fits = omega arith;
  first_fits = omega arith;
  count_fits = omega arith;
}

encoded_size : length (encode_inodes (file ∷ []) ++ []) ≡ 32
unfolding encode_inodes encode_each encode_inode le_bytes
encoded_size = refl

decode_inodes-encode_inodes_example :
    decode_inodes (encode_inodes (file ∷ []) ++ []) ≡ ok (file ∷ [])
decode_inodes-encode_inodes_example =
    decode_inodes-encode_inodes (file ∷ []) [] (file-IsValid, tt) (omega arith)
      (omega (arith, encoded_size))
