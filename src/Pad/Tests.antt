-- ===== src/Pad/Tests.antt =====
-- The lengths that the source's tests name, and the theorems at them.
use blindkey.Prelude.{◌*◌, ◌≡◌, ◌≤◌, refl, arith}
use blindkey.Pad.{padme, bit_length, bits}
use blindkey.Pad.Buckets.{padme_bounds}

bucket_100 : padme 100 ≡ 104
unfolding padme bit_length bits
bucket_100 = refl

bucket_1000 : padme 1000 ≡ 1024
unfolding padme bit_length bits
bucket_1000 = refl

bits_of_nine : bit_length 9 ≡ 4
unfolding bit_length bits
bits_of_nine = refl

padme_bounds_example : (1000 ≤ padme 1000) × (8 * padme 1000 ≤ 9 * 1000)
padme_bounds_example = padme_bounds 1000 (omega arith)
