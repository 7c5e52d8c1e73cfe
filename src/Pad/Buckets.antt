-- ===== src/Pad/Buckets.antt =====
-- `padme` of crates/blindkey-core/src/pad.rs: its mask, and the lengths it gives.
use blindkey.Prelude.{
  ℕ, zero, suc, ◌+◌, ◌-◌, ◌*◌, ◌/◌, ◌%◌, ◌^◌, ◌≤◌, ◌<◌, ◌≡◌, refl, sym, ap, ◌∙◌, arith, false,
  Bool-cases, inl, inr, ltb, leb, ◌==◌, ◌⊎◌,
}
use native.Mathlib.Nat.{pow-le-pow_right, mod-lt, one-le-pow, mod-eq_of_lt, div-add-mod}
use blindkey.Pad.{bits, bit_length, padme}

bits-zero : (w : ℕ) → bits w 0 ≡ 0
unfolding bits
bits-zero zero = refl
bits-zero (suc w) = refl

-- A positive number below 2^w has the bits that its size asks for.
pub record IsLog (x k : ℕ) : Type 0 where
  pub low : 2 ^ k ≤ x
  pub high : x < 2 * 2 ^ k

pub bits-IsLog : (w x : ℕ) → 0 < x → x < 2 ^ w → (k : ℕ) × (bits w x ≡ suc k) × IsLog x k × (k < w)
unfolding bits
bits-IsLog zero x h hw = absurd (omega arith)
bits-IsLog (suc w) x h hw =
    let double : 2 ^ suc w ≡ 2 * 2 ^ w = omega arith in
    let positive : (x == 0) ≡ false = ground arith in
    elim (Bool-cases (ltb x 2)) [
      | inl one ↦
          let e : x ≡ 1 = ground arith in
          let none : x / 2 ≡ 0 = omega arith in
          (
            0,
            rw (positive, none, bits-zero w) refl,
            record { low = omega arith; high = omega arith },
            omega arith,
          )
      | inr more ↦
          let two : 2 ≤ x = ground arith in
          let (k, e, v, fits) = bits-IsLog w (x / 2) (omega arith) (omega (arith, double)) in
          let up : 2 ^ suc k ≡ 2 * 2 ^ k = omega arith in
          (
            suc k,
            rw (positive, e) refl,
            record { low = omega (arith, up, v.low); high = omega (arith, up, v.high) },
            omega arith,
          )
    ]

-- The logarithm is not smaller than a power below the number asks for.
log-lt : (x k j : ℕ) → IsLog x k → 2 ^ j ≤ x → j ≤ k
log-lt x k j v h = elim (Bool-cases (ltb k j)) [
  | inl less ↦
      let lt : suc k ≤ j = ground arith in
      let up : 2 ^ suc k ≡ 2 * 2 ^ k = omega arith in
      absurd (omega (arith, pow-le-pow_right {n = 2} (omega arith) lt, up, v.high, h))
  | inr fine ↦ ground arith
]

-- What `padme` does from 4 on: `k` and `j` are the logarithms of the length and of `k`.
pub record Steps (len : ℕ) : Type 0 where
  pub k : ℕ
  pub j : ℕ
  pub log_len : IsLog len k
  pub log_k : IsLog k j
  pub bits_len : bit_length len ≡ suc k
  pub bits_k : bit_length k ≡ suc j

pub steps : (len : ℕ) → 4 ≤ len → len < 2 ^ 63 → Steps len
unfolding bit_length
steps len h hl =
    let (k, e, v, fits) = bits-IsLog 64 len (omega arith) (omega (arith, hl)) in
    let (j, e', v', fits') =
      bits-IsLog 64 k (omega (arith, log-lt len k 2 v (omega (arith, h)))) (omega (arith, fits)) in
    record { k = k; j = j; log_len = v; log_k = v'; bits_len = e; bits_k = e' }

-- What is cut from a sum to round up to a multiple of `m`.
abbrev pub round_up : ℕ → ℕ → ℕ
round_up m len = (len + (m - 1)) - (len + (m - 1)) % m

-- The unit of the buckets at a length: one below 8.
abbrev pub unit : {len : ℕ} → Steps len → ℕ
unit s = 2 ^ (s.k - suc s.j)

unit-le : {len : ℕ} (s : Steps len) → unit s ≤ 2 ^ s.k
unit-le s = pow-le-pow_right {n = 2} (omega arith) (omega arith)

-- The length is left as it is where the logarithm is small, and rounded up to the unit above.
pub padme-eq :
    (len : ℕ) (s : Steps len)
    → 4 ≤ len
    → len < 2 ^ 63
    → ((s.k ≤ suc s.j) × (padme len ≡ len))
      ⊎ ((suc s.j < s.k) × (padme len ≡ round_up (unit s) len))
unfolding padme
padme-eq len s h hl =
    let big : ltb len 4 ≡ false = ground arith in
    let e : bit_length len - 1 ≡ s.k = omega (arith, s.bits_len) in
    elim (Bool-cases (leb s.k (suc s.j))) [
      | inl short ↦ inl (ground arith, rw (big, e, s.bits_k, short) refl)
      | inr long ↦
          let room : len + (unit s - 1) < 2 ^ 64 = omega (arith, unit-le s, s.log_len.low, hl) in
          inr (ground arith, rw (big, e, s.bits_k, long, mod-eq_of_lt {m = 2 ^ 64} room) refl)
    ]

round_up-bounds : (m len : ℕ) → 0 < m → (len ≤ round_up m len) × (round_up m len ≤ len + (m - 1))
round_up-bounds m len h =
    let less = mod-lt (len + (m - 1)) h in (omega (arith, less), omega (arith, less))

-- Eight units are not more than the length, except from 8 to 15, where the unit is 2.
unit-bound : {len : ℕ} (s : Steps len) → 4 ≤ len → suc s.j < s.k → 8 * (unit s - 1) ≤ len
unit-bound {len} s h hk = elim (Bool-cases (ltb s.k 4)) [
  | inl small ↦
      let two : 1 ≤ s.j = log-lt s.k s.j 1 s.log_k (omega (arith, hk)) in
      let three : s.k ≡ 3 = ground (arith, two, hk) in
      let one : s.k - suc s.j ≡ 1 = omega (arith, three, two, hk) in
      let size : unit s ≡ 2 = rw one refl in
      let low : 8 ≤ len = (let l : 2 ^ 3 ≤ len = (rw three at s.log_len.low) in l) in
      omega (arith, size, low)
  | inr large ↦
      let four : 4 ≤ s.k = ground arith in
      let two : 2 ≤ s.j = log-lt s.k s.j 2 s.log_k (omega (arith, four)) in
      let last : ℕ = s.k - suc s.j in
      let le : suc (suc (suc last)) ≤ s.k = omega (arith, two, four, hk) in
      let up : 2 ^ suc (suc (suc last)) ≡ 8 * 2 ^ last = omega arith in
      omega (arith, pow-le-pow_right {n = 2} (omega arith) le, up, s.log_len.low)
]

-- The padded length of fewer than 2^63 bytes is not less than the length, and more by an eighth of it at most.
pub padme_bounds : (len : ℕ) → len < 2 ^ 63 → (len ≤ padme len) × (8 * padme len ≤ 9 * len)
unfolding padme
padme_bounds len hl = elim (Bool-cases (ltb len 4)) [
  | inl tiny ↦ rw tiny (omega arith, omega arith)
  | inr big ↦
      let h : 4 ≤ len = ground arith in
      let s = steps len h hl in
      elim (padme-eq len s h hl) [
        | inl (short, e) ↦ rw e (omega arith, omega arith)
        | inr (long, e) ↦
            let (lo, hi) =
              round_up-bounds (unit s) len (one-le-pow (s.k - suc s.j) 2 (omega arith)) in
            rw e (lo, omega (arith, hi, unit-bound s h long))
      ]
]

round_up-multiple : (m len : ℕ) → round_up m len ≡ m * ((len + (m - 1)) / m)
round_up-multiple m len = omega (arith, div-add-mod (len + (m - 1)) m)

log_unique : (x k k' : ℕ) → IsLog x k → IsLog x k' → k ≡ k'
log_unique x k k' v v' = omega (arith, log-lt x k k' v v'.low, log-lt x k' k v' v.low)

-- A length between 2^k and 2^(k + 1), from 4 on and below 2^63, is padded to a multiple of 2^(k - b), where `b` is
-- the number of bits of `k`, if that is smaller than `k`: all but the first `b + 1` bits are zero.
pub padme_significant :
    (len k b : ℕ)
    → 4 ≤ len
    → len < 2 ^ 63
    → 2 ^ k ≤ len
    → len < 2 * 2 ^ k
    → bit_length k ≡ b
    → b < k
    → (q : ℕ) × (padme len ≡ 2 ^ (k - b) * q)
padme_significant len k b h hl lo hi hb less =
    let s = steps len h hl in
    let same : s.k ≡ k = log_unique len s.k k s.log_len (record { low = lo; high = hi }) in
    let bits_same : suc s.j ≡ b = sym s.bits_k ∙ ap bit_length same ∙ hb in
    let exponent : s.k - suc s.j ≡ k - b = omega (arith, same, bits_same) in
    elim (padme-eq len s h hl) [
      | inl (short, e) ↦ absurd (omega (arith, short, same, bits_same))
      | inr (long, e) ↦
          ((len + (unit s - 1)) / unit s, e ∙ round_up-multiple (unit s) len ∙ rw exponent refl)
    ]
