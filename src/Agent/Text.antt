-- ===== src/Agent/Text.antt =====
-- `str::trim` and the part of `str::to_lowercase` that the agent's prompt needs.
use blindkey.Prelude.{ℕ, ◌+◌, Bool, true, List, [], ◌∷◌, map, leb, ◌==◌, ◌&&◌, ◌||◌, if◌then◌else◌}

-- The characters of the Unicode property `White_Space`.
unfoldable pub is_whitespace : ℕ → Bool
is_whitespace c =
    (leb 0x9 c && leb c 0xD)
    || c == 0x20
    || c == 0x85
    || c == 0xA0
    || c == 0x1680
    || (leb 0x2000 c && leb c 0x200A)
    || c == 0x2028
    || c == 0x2029
    || c == 0x202F
    || c == 0x205F
    || c == 0x3000

trim_start : List ℕ → List ℕ
trim_start [] = []
trim_start (c ∷ s) = let rest = trim_start s in if is_whitespace c then rest else c ∷ s

trim_end : List ℕ → List ℕ
trim_end [] = []
trim_end (c ∷ s) = elim (trim_end s) [
  | [] ↦ if is_whitespace c then [] else c ∷ []
  | (d ∷ rest) ↦ c ∷ d ∷ rest
]

unfoldable pub trim : List ℕ → List ℕ
unfolding trim_start trim_end
trim s = trim_end (trim_start s)

unfoldable pub is_blank : List ℕ → Bool
is_blank [] = true
is_blank (c ∷ s) = is_whitespace c && is_blank s

-- The ASCII letters only. Of the other characters, U+0130 and U+212A alone have ASCII letters in
-- their lower case, i and k.
unfoldable pub to_lowercase : List ℕ → List ℕ
to_lowercase s = map (λ c. if leb 0x41 c && leb c 0x5A then c + 0x20 else c) s
