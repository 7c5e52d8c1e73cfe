-- ===== src/Frecency/Tests.antt =====
-- A store of two entries, and the theorems at it.
use blindkey.Prelude.{ℕ, ◌+◌, ◌-◌, ◌*◌, ◌≡◌, ◌≢◌, refl, arith, min, some, List, [], ◌∷◌, replicate}
use blindkey.Result.{ok}
use blindkey.Bytes.{u32_mod}
use blindkey.Frecency.{FrecencyStore, key_lt, get, record_use, score, serialize, parse}
use blindkey.Frecency.Use.{uses_of, get-record_use}
use blindkey.Frecency.RoundTrip.{IsSorted, parse-serialize}

abbrev first : List ℕ
first = replicate 16 1

abbrev second : List ℕ
second = replicate 16 2

abbrev store : FrecencyStore
store =
    (first, record { uses = 3; last_used = 1000 })
    ∷ (second, record { uses = 1; last_used = 2000 })
    ∷ []

apart : first ≢ second
apart = λ h. (let t : ◌≡◌ {A = ℕ} 1 2 = cc in absurd (omega arith))

sorted : IsSorted store
unfolding key_lt
sorted = ((refl, tt), (tt, tt))

get-record_use_example :
    (get (record_use store first 5000) first
      ≡ some (record { uses = min (uses_of store first + 1) (u32_mod - 1); last_used = 5000 }))
    × (score (record_use store first 5000) first 5000
        ≡ 16 * min (uses_of store first + 1) (u32_mod - 1))
    × (get (record_use store first 5000) second ≡ get store second)
get-record_use_example = get-record_use store first second 5000 apart

parse-serialize_example : parse (serialize store) ≡ ok store
parse-serialize_example =
    parse-serialize store ((refl, omega arith, omega arith), ((refl, omega arith, omega arith), tt))
      sorted
