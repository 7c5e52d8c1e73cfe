-- ===== src/Volume/Fs/Normal.antt =====
-- `normalize` of crates/blindkey-core/src/volume/fs.rs: the paths it accepts and those it refuses.
use blindkey.Prelude.{
  ℕ, ◌≡◌, refl, ap, ◌∙◌, true, false, Bool-cases, inl, inr, List, [], ◌∷◌, ◌++◌, All, ◌||◌,
  bytes_eq,
}
use blindkey.Result.{ok, err, volume_open_failed, >>=-eq-ok}
use blindkey.Volume.Fs.{
  slash, backslash, dot, contains, starts_with, split, join, kept_parts, normalize,
}
use blindkey.Volume.Fs.Names.{
  Lacks, IsName, split-Lacks, split_lem, kept_parts-IsName, kept_parts-names, split-append,
  split-join, join-Lacks_nul, join-starts,
}

-- What a path that is normalized consists of.
pub record Normalized (path normal : List ℕ) : Type 0 where
  pub parts : List (List ℕ)
  pub joined : normal ≡ join parts
  pub names : All IsName parts

normalize-inv : (path normal : List ℕ) → normalize path ≡ ok normal → Normalized path normal
unfolding normalize
normalize-inv path normal e = elim (Bool-cases (contains 0 path)) [
  | inl nul ↦ let t : err volume_open_failed ≡ ok normal = (rw nul at e) in cc
  | inr clean ↦ elim (Bool-cases (starts_with slash path || starts_with backslash path)) [
    | inl rooted ↦ let t : err volume_open_failed ≡ ok normal = (rw (clean, rooted) at e) in cc
    | inr relative ↦
        let (parts, e₁, e₂) =
          >>=-eq-ok (kept_parts (split slash path)) _ (rw (clean, relative) at e) in
        record {
          parts = parts;
          joined = cc;
          names =
              kept_parts-IsName (split slash path) parts (split_lem slash path)
                (split-Lacks 0 slash path clean) e₁;
        }
  ]
]

-- A path that is normalized is names joined by slashes: none is empty, `.` or `..`, none has a slash
-- or a NUL byte; and it does not start with a slash.
pub normalize_sound :
    (path normal : List ℕ)
    → normalize path ≡ ok normal
    → (parts : List (List ℕ)) × (normal ≡ join parts)
      × All IsName parts
      × (starts_with slash normal ≡ false)
      × Lacks 0 normal
normalize_sound path normal e =
    let n = normalize-inv path normal e in
    (
      n.parts,
      n.joined,
      n.names,
      rw n.joined (join-starts n.parts n.names),
      rw n.joined (join-Lacks_nul n.parts n.names),
    )

kept_parts-join :
    (parts : List (List ℕ)) → All IsName parts → kept_parts (split slash (join parts)) ≡ ok parts
unfolding kept_parts split join bytes_eq
kept_parts-join [] h = refl
kept_parts-join (s ∷ ss) h = ap kept_parts (split-join s ss h) ∙ kept_parts-names (s ∷ ss) h

-- Names joined by slashes that do not start with a backslash are normalized to themselves.
pub normalize-join :
    (parts : List (List ℕ))
    → All IsName parts
    → starts_with backslash (join parts) ≡ false
    → normalize (join parts) ≡ ok (join parts)
unfolding normalize
normalize-join parts h hb =
    rw (join-Lacks_nul parts h, join-starts parts h, hb, kept_parts-join parts h) refl

-- Normalizing twice is normalizing once, for results that do not start with a backslash.
pub normalize_idempotent :
    (path normal : List ℕ)
    → normalize path ≡ ok normal
    → starts_with backslash normal ≡ false
    → normalize normal ≡ ok normal
normalize_idempotent path normal e hb =
    let n = normalize-inv path normal e in
    rw n.joined (normalize-join n.parts n.names (rw n.joined at hb))

normalize-rooted :
    (path : List ℕ) → starts_with backslash path ≡ true → normalize path ≡ err volume_open_failed
unfolding normalize
normalize-rooted path rooted = elim (Bool-cases (contains 0 path)) [
  | inl nul ↦ rw nul refl
  | inr clean ↦ elim (Bool-cases (starts_with slash path)) [
    | inl absolute ↦ rw (clean, absolute) refl
    | inr relative ↦ rw (clean, relative, rooted) refl
  ]
]

dot_skipped : (bytes_eq dot [] || bytes_eq dot dot) ≡ true
unfolding bytes_eq
dot_skipped = refl

-- Every path that starts with a backslash is refused; and yet names joined by slashes, the first of
-- which starts with a backslash, are the normal form of themselves behind `./`, and are refused alone.
pub normalize-backslash :
    (rest : List ℕ) (parts : List (List ℕ))
    → All IsName parts
    → starts_with backslash (join parts) ≡ true
    → (normalize (backslash ∷ rest) ≡ err volume_open_failed)
      × (normalize (dot ++ slash ∷ join parts) ≡ ok (join parts))
      × (normalize (join parts) ≡ err volume_open_failed)
unfolding normalize starts_with contains kept_parts
normalize-backslash rest parts names rooted =
    let dotted : split slash (dot ++ slash ∷ join parts) ≡ dot ∷ split slash (join parts) =
      split-append slash dot (join parts) refl in
    (
      normalize-rooted (backslash ∷ rest) refl,
      rw (join-Lacks_nul parts names, dotted, dot_skipped, kept_parts-join parts names) refl,
      normalize-rooted (join parts) rooted,
    )
