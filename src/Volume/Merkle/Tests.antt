-- ===== src/Volume/Merkle/Tests.antt =====
-- Trees over three tags.
use blindkey.Prelude.{ℕ, ◌≡◌, ◌⊎◌, refl, arith, some, List, [], ◌∷◌, length, replicate}
use blindkey.Primitives.Toy.{toy_hashes}
use blindkey.Volume.Merkle.{root, width_for, widen}
use blindkey.Volume.Merkle.Total.{root_total}
use blindkey.Volume.Merkle.Binding.{Collision, root_binding}

abbrev key : List ℕ
key = replicate 32 9

abbrev version : ℕ
version = 7

abbrev tags : List (List ℕ)
tags = replicate 16 1 ∷ replicate 16 2 ∷ replicate 16 3 ∷ []

width_of_three : width_for 3 ≡ 4
unfolding width_for widen
width_of_three = refl

width_of_none : width_for 0 ≡ 1
unfolding width_for widen
width_of_none = refl

root_total_example : (r : List ℕ) × (root toy_hashes key 7 tags ≡ some r) × (length r ≡ 32)
root_total_example = root_total toy_hashes key 7 tags

root_binding_example :
    ((tags ≡ tags) × ((tags ≡ []) ⊎ (version ≡ version))) ⊎ Collision toy_hashes key
root_binding_example =
    root_binding toy_hashes key version version tags tags (omega arith) (omega arith) refl refl
