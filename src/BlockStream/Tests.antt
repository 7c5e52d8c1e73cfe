-- ===== src/BlockStream/Tests.antt =====
-- Runs of the block stream, and the theorems at concrete inputs.
use blindkey.Prelude.{
  ℕ, ◌≡◌, ◌≢◌, ◌<◌, ◌^◌, ◌↔◌, refl, arith, List, [], ◌∷◌, ◌++◌, length, All, chunks, bytes_eq,
  take as list_take, drop as list_drop,
}
use blindkey.Result.{ok, err, body_malformed}
use blindkey.Bytes.{le_bytes, from_le_bytes, IsByte}
use blindkey.Cursor.{take, read_le}
use blindkey.Primitives.Toy.{toy_hashes}
use blindkey.BlockStream.{
  frame, frame_inner, write_blocks, write_block, block_hmac, read, read_blocks, read_block, finish,
}
use blindkey.BlockStream.Accepts.{IsStream, read_iff, read-frame, read_appended}

abbrev key : List ℕ
key = 1 ∷ 2 ∷ []

abbrev seed : List ℕ
seed = 3 ∷ []

abbrev content : List ℕ
content = 9 ∷ 8 ∷ 7 ∷ []

-- Three bytes in blocks of two.
abbrev framed : List ℕ
framed = frame_inner toy_hashes key seed content 2

read_framed : read toy_hashes key seed framed ≡ ok content
unfolding read read_blocks read_block finish take read_le from_le_bytes frame_inner write_blocks
    write_block block_hmac le_bytes chunks bytes_eq
read_framed = refl

framed-IsByte : All IsByte framed
unfolding frame_inner write_blocks write_block block_hmac le_bytes chunks
framed-IsByte = omega arith

framed_small : length framed < 2 ^ 64
unfolding frame_inner write_blocks write_block block_hmac le_bytes chunks
framed_small = omega arith

read_iff_example :
    (read toy_hashes key seed framed ≡ ok content) ↔ IsStream toy_hashes key seed framed content
read_iff_example = read_iff toy_hashes key seed framed content framed-IsByte framed_small

read-frame_example : read toy_hashes key seed (frame toy_hashes key seed content) ≡ ok content
read-frame_example = read-frame toy_hashes key seed content small
  where
    small : length (frame toy_hashes key seed content) < 2 ^ 64
    small =
        unfold frame frame_inner write_blocks write_block block_hmac le_bytes chunks in omega arith

appended_small : length (framed ++ 0 ∷ []) < 2 ^ 64
unfolding frame_inner write_blocks write_block block_hmac le_bytes chunks
appended_small = omega arith

read_appended_example : read toy_hashes key seed (framed ++ 0 ∷ []) ≡ err body_malformed
read_appended_example =
    read_appended toy_hashes key seed framed content (0 ∷ []) framed-IsByte appended_small (λ e. cc)
      read_framed

-- The first data block alone.
abbrev front : List ℕ
front = list_take 38 framed

abbrev back : List ℕ
back = list_drop 38 framed

read_whole : read toy_hashes key seed (front ++ back) ≡ ok content
unfolding read read_blocks read_block finish take read_le from_le_bytes frame_inner write_blocks
    write_block block_hmac le_bytes chunks bytes_eq
read_whole = refl

front-IsByte : All IsByte front
unfolding frame_inner write_blocks write_block block_hmac le_bytes chunks
front-IsByte = omega arith

whole_small : length (front ++ back) < 2 ^ 64
unfolding frame_inner write_blocks write_block block_hmac le_bytes chunks
whole_small = omega arith

back_left : back ≢ []
unfolding frame_inner write_blocks write_block block_hmac le_bytes chunks
back_left e = cc
