-- ===== src/Volume/Tests.antt =====
-- A block of three bytes under the toy cipher, and the theorems at it.
use blindkey.Prelude.{ℕ, ◌+◌, ◌≡◌, ◌↔◌, arith, List, [], ◌∷◌, ◌++◌, length, replicate}
use blindkey.Result.{ok}
use blindkey.Primitives.Toy.{toy_hashes, toy_aead}
use blindkey.Volume.Block.{block_nonce, seal_block, open_block, block_tag, kind_file}
use blindkey.Volume.Block.Binding.{open_block-seal_block, open_block_iff}

abbrev key : List ℕ
key = replicate 32 9

abbrev place : ℕ
place = 5

abbrev version : ℕ
version = 6

abbrev id : List ℕ
id = replicate 16 4

open_block-seal_block_example :
    (on_disk : List ℕ) × (seal_block toy_aead toy_hashes key key id 5 6 kind_file (1 ∷ 2 ∷ 3 ∷ [])
      ≡ ok on_disk)
    × (length on_disk ≡ 3 + 40)
    × (open_block toy_aead toy_hashes key key id 5 6 kind_file on_disk ≡ ok (1 ∷ 2 ∷ 3 ∷ []))
    × (front : List ℕ) × (tag : List ℕ) × (block_tag on_disk ≡ ok tag)
    × (on_disk ≡ front ++ tag)
    × (length tag ≡ 16)
open_block-seal_block_example =
    open_block-seal_block toy_aead toy_hashes key key id 5 6 kind_file (1 ∷ 2 ∷ 3 ∷ [])
      (omega arith)

abbrev sealed : List ℕ
sealed =
    (open_block-seal_block toy_aead toy_hashes key key id 5 6 kind_file (1 ∷ 2 ∷ 3 ∷ [])
      (omega arith)).0

open_block_iff_example :
    (open_block toy_aead toy_hashes key key id 5 6 kind_file sealed ≡ ok (1 ∷ 2 ∷ 3 ∷ [])) ↔ (
      (stored ct : List ℕ) × (sealed ≡ stored ++ ct)
      × (length stored ≡ 24)
      × (seal_block toy_aead toy_hashes key key id 5 6 kind_file (1 ∷ 2 ∷ 3 ∷ [])
          ≡ ok (block_nonce toy_hashes key 5 6 ++ ct)))
open_block_iff_example =
    open_block_iff toy_aead toy_hashes key key id 5 6 kind_file sealed (1 ∷ 2 ∷ 3 ∷ [])
