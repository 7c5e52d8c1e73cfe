-- ===== src/Volume/Anchor/Tests.antt =====
-- An anchor at version 5, and the theorems at it.
use blindkey.Prelude.{ℕ, ◌≡◌, ◌<◌, ◌↔◌, ◌⊎◌, refl, arith, none, List, replicate}
use blindkey.Result.{ok}
use blindkey.Files.{no_failure, replace}
use blindkey.Volume.Anchor.{write, verify_fresh}
use blindkey.Volume.Anchor.Freshness.{verify_fresh-write}

abbrev root : List ℕ
root = replicate 32 1

abbrev other : List ℕ
other = replicate 32 2

written : (write no_failure none root 5).1 ≡ ok tt
unfolding write replace
written = refl

verify_fresh-write_example :
    (verify_fresh no_failure (write no_failure none root 5).0 other 6 ≡ ok tt)
    ↔ ((5 < 6) ⊎ (◌≡◌ {A = ℕ} 5 6 × (other ≡ root)))
verify_fresh-write_example =
    verify_fresh-write no_failure no_failure none root other 5 6 refl refl (omega arith) written
