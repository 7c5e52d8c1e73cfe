-- ===== src/Volume/Fs.antt =====
-- crates/blindkey-core/src/volume/fs.rs: paths inside a volume. A path is the bytes of its text.
pub mod Names
pub mod Normal
pub mod Parent
pub mod Utf8
pub mod Inodes
mod Tests
use blindkey.Prelude.{
  ℕ, zero, suc, ◌+◌, Bool, true, false, Option, none, some, List, [], ◌∷◌, ◌++◌, take, drop, ◌==◌,
  ◌||◌, bytes_eq, codes, if◌then◌else◌,
}
use blindkey.Result.{Result, ok, err, volume_open_failed, ◌>>=◌}

abbrev pub slash : ℕ
slash = 47

abbrev pub backslash : ℕ
backslash = 92

abbrev pub dot : List ℕ
dot = 46 ∷ []

abbrev pub dot_dot : List ℕ
dot_dot = 46 ∷ 46 ∷ []

unfoldable pub contains : ℕ → List ℕ → Bool
contains c [] = false
contains c (b ∷ bs) = b == c || contains c bs

unfoldable pub starts_with : ℕ → List ℕ → Bool
starts_with c [] = false
starts_with c (b ∷ bs) = b == c

prepend : ℕ → List (List ℕ) → List (List ℕ)
prepend b [] = (b ∷ []) ∷ []
prepend b (s ∷ ss) = (b ∷ s) ∷ ss

-- `path.split(c)`
unfoldable pub split : ℕ → List ℕ → List (List ℕ)
unfolding prepend
split c [] = [] ∷ []
split c (b ∷ bs) = let rest = split c bs in if b == c then [] ∷ rest else prepend b rest

-- `parts.join("/")`
unfoldable pub join : List (List ℕ) → List ℕ
join [] = []
join (s ∷ []) = s
join (s ∷ t ∷ ss) = s ++ slash ∷ join (t ∷ ss)

-- The loop of `normalize`.
unfoldable pub kept_parts : List (List ℕ) → Result (List (List ℕ))
kept_parts [] = ok []
kept_parts (seg ∷ segs) =
    let rest = kept_parts segs in
    if bytes_eq seg [] || bytes_eq seg dot
    then rest
    else if bytes_eq seg dot_dot
    then err volume_open_failed
    else (rest >>= λ parts. ok (seg ∷ parts))

unfoldable pub normalize : List ℕ → Result (List ℕ)
normalize path =
    if contains 0 path
    then err volume_open_failed
    else if starts_with slash path || starts_with backslash path
    then err volume_open_failed
    else (kept_parts (split slash path) >>= λ parts. ok (join parts))

-- The position of the last `c`.
unfoldable pub rfind : ℕ → List ℕ → Option ℕ
rfind c [] = none
rfind c (b ∷ bs) = elim (rfind c bs) [
  | some i ↦ some (suc i)
  | none ↦ if b == c then some 0 else none
]

unfoldable pub parent_of : List ℕ → List ℕ
parent_of path = elim (rfind slash path) [ some i ↦ take i path | none ↦ [] ]

unfoldable pub base_of : List ℕ → List ℕ
base_of path = elim (rfind slash path) [ some i ↦ drop (i + 1) path | none ↦ path ]
