-- ===== src/Cursor.antt =====
-- crates/blindkey-core/src/format/cursor.rs: the bounded byte reader. A method that takes
-- `&mut self` and may fail is an action of `Read`; `usize` has 64 bits.
pub mod Reads
pub mod Takes
use blindkey.Prelude.{
  ℕ, ◌+◌, ◌-◌, Bool, List, length, leb, ltb, if◌then◌else◌, drop, take as take_list,
}
use blindkey.Result.{Error, Result, ok, err, header_corrupt, map_err}
use blindkey.Bytes.{u64_mod, from_le_bytes}

pub record Cursor : Type 0 where
  pub buf : List ℕ
  pub pos : ℕ

abbrev pub Read {ℓ} : Type ℓ → Type ℓ
Read A = Cursor → Result (A × Cursor)

infixl 5 ◌>>=◌ ◌>>◌
abbrev pub ◌>>=◌ {ℓ κ} : {A : Type ℓ} {B : Type κ} → Read A → (A → Read B) → Read B
◌>>=◌ m f c = elim (m c) [ ok (a, c') ↦ f a c' | err e ↦ err e ]

abbrev pub ◌>>◌ {ℓ} : {B : Type ℓ} → Read (Unit {0}) → Read B → Read B
m >> k = m >>= λ _. k

abbrev pub pure {ℓ} : {A : Type ℓ} → A → Read A
pure a c = ok (a, c)

abbrev pub fail {ℓ} : {A : Type ℓ} → Error → Read A
fail e c = err e

-- `if test { return Err(e) }`
abbrev pub refuse_if : Bool → Error → Read (Unit {0})
refuse_if test e = if test then fail e else pure tt

abbrev pub lift {ℓ} : {A : Type ℓ} → Result A → Read A
lift (ok a) = pure a
lift (err e) = fail e

-- `.map_err(|_| e)` on a read
abbrev pub relabel {ℓ} : {A : Type ℓ} → Error → Read A → Read A
relabel e m c = map_err e (m c)

abbrev pub new : List ℕ → Cursor
new bytes = record { buf = bytes; pos = 0 }

-- The result of a read from the start of `bytes`.
abbrev pub run {ℓ} : {A : Type ℓ} → Read A → List ℕ → Result A
run m bytes = elim (m (new bytes)) [ ok (a, c) ↦ ok a | err e ↦ err e ]

abbrev pub remaining : Cursor → ℕ
remaining c = length c.buf - c.pos

abbrev pub consumed : Cursor → List ℕ
consumed c = take_list c.pos c.buf

abbrev pub get_consumed : Read (List ℕ)
get_consumed c = ok (consumed c, c)

-- `checked_add` fails where the sum does not fit 64 bits.
unfoldable pub take : ℕ → Read (List ℕ)
take n c =
    let stop = c.pos + n in
    if leb u64_mod stop
    then err header_corrupt
    else if ltb (length c.buf) stop
    then err header_corrupt
    else ok (take_list n (drop c.pos c.buf), record c { pos = stop })

-- `[u8; N]` is a list of length N.
abbrev pub take_array : ℕ → Read (List ℕ)
take_array n = take n

unfoldable pub head_or_zero : List ℕ → ℕ
head_or_zero xs = elim xs [ List.[] ↦ 0 | List.◌∷◌ x rest ↦ x ]

-- `take(1)?[0]`; the default is never read, since `take(1)` gives one byte.
unfoldable pub read_u8 : Read ℕ
unfolding head_or_zero
read_u8 = do bs ← take 1; pure (head_or_zero bs)

-- A little-endian integer of `w` bytes: `read_u16_le`, `read_u32_le` and `read_u64_le`.
unfoldable pub read_le : ℕ → Read ℕ
read_le w = do bs ← take_array w; pure (from_le_bytes bs)

abbrev pub read_u16_le : Read ℕ
read_u16_le = read_le 2

abbrev pub read_u32_le : Read ℕ
read_u32_le = read_le 4

abbrev pub read_u64_le : Read ℕ
read_u64_le = read_le 8
