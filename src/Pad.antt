-- ===== src/Pad.antt =====
-- crates/blindkey-core/src/pad.rs: the padding of the payload to a bucket of sizes.
pub mod Mode
pub mod Buckets
mod Tests
use blindkey.Prelude.{ℕ, zero, suc, ◌+◌, ◌-◌, ◌/◌, ◌%◌, ◌^◌, ltb, leb, ◌==◌, if◌then◌else◌}

-- The significant bits of a number of at most `w` bits: `w - x.leading_zeros()`.
unfoldable pub bits : ℕ → ℕ → ℕ
bits zero x = 0
bits (suc w) x = let rest = bits w (x / 2) in if x == 0 then 0 else suc rest

-- `usize` has 64 bits.
unfoldable pub bit_length : ℕ → ℕ
bit_length x = bits 64 x

-- `x & !mask`, where `mask` is `2^k - 1`
abbrev pub clear_low : ℕ → ℕ → ℕ
clear_low k x = x - x % 2 ^ k

-- The sum wraps at 2^64.
unfoldable pub padme : ℕ → ℕ
padme len =
    if ltb len 4
    then len
    else (let e = bit_length len - 1 in
        let s = bit_length e in
        if leb e s
        then len
        else (let last_bits = e - s in
            let mask = 2 ^ last_bits - 1 in clear_low last_bits ((len + mask) % 2 ^ 64)))
