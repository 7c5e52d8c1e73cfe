-- ===== src/Pad/Mode.antt =====
-- crates/blindkey-core/src/pad.rs: the padding policy and its byte.
use blindkey.Prelude.{ℕ, ◌==◌, if◌then◌else◌, ◌≡◌, refl}
use blindkey.Pad.{padme as padme_bucket}

pub data PadMode : Type 0 where
  none : PadMode
  padme : PadMode

unfoldable pub to_byte : PadMode → ℕ
to_byte PadMode.none = 0
to_byte PadMode.padme = 1

unfoldable pub from_byte : ℕ → PadMode
from_byte b = if b == 1 then PadMode.padme else PadMode.none

unfoldable pub padded_len : PadMode → ℕ → ℕ
padded_len PadMode.none len = len
padded_len PadMode.padme len = padme_bucket len

pub from_byte-to_byte : (mode : PadMode) → from_byte (to_byte mode) ≡ mode
unfolding from_byte to_byte
from_byte-to_byte PadMode.none = refl
from_byte-to_byte PadMode.padme = refl
