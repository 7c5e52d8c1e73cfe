-- ===== src/Volume/Fs/Names.antt =====
-- Splitting paths into names and joining names to paths, for crates/blindkey-core/src/volume/fs.rs.
use blindkey.Prelude.{
  ℕ, ◌≡◌, refl, ap, ◌∙◌, arith, true, false, Bool-cases, inl, inr, List, [], ◌∷◌, ◌++◌, All, ◌==◌,
  ◌||◌, bytes_eq, append-nil,
}
use blindkey.Result.{ok, err, volume_open_failed, >>=-eq-ok}
use blindkey.Volume.Fs.{
  slash, dot, dot_dot, contains, starts_with, prepend, split, join, kept_parts,
}

abbrev pub Lacks : ℕ → List ℕ → Type 0
Lacks c s = contains c s ≡ false

-- A part of a normal path: a name.
pub record IsName (s : List ℕ) : Type 0 where
  pub not_empty : bytes_eq s [] ≡ false
  pub not_dot : bytes_eq s dot ≡ false
  pub not_dot_dot : bytes_eq s dot_dot ≡ false
  pub no_slash : Lacks slash s
  pub no_nul : Lacks 0 s

pub contains-append : (c : ℕ) (xs ys : List ℕ) → Lacks c xs → Lacks c ys → Lacks c (xs ++ ys)
unfolding contains
contains-append c [] ys h k = k
contains-append c (x ∷ xs) ys h k =
    let hd : (x == c) ≡ false = ground (arith, h) in
    let tl : Lacks c xs = ground (arith, h) in rw (hd, contains-append c xs ys tl k) refl

prepend-All :
    (c b : ℕ) (ss : List (List ℕ))
    → (b == c) ≡ false
    → All (Lacks c) ss
    → All (Lacks c) (prepend b ss)
unfolding prepend contains
prepend-All c b [] h hs = (rw h refl, tt)
prepend-All c b (s ∷ ss) h (hd, tl) = (rw (h, hd) refl, tl)

pub split-Lacks : (c d : ℕ) (path : List ℕ) → Lacks c path → All (Lacks c) (split d path)
unfolding split contains
split-Lacks c d [] h = (refl, tt)
split-Lacks c d (b ∷ bs) h =
    let hd : (b == c) ≡ false = ground (arith, h) in
    let tl : Lacks c bs = ground (arith, h) in
    let rest = split-Lacks c d bs tl in
    elim (Bool-cases (b == d)) [
      | inl e ↦ rw e (refl, rest)
      | inr e ↦ rw e (prepend-All c b (split d bs) hd rest)
    ]

pub split_lem : (d : ℕ) (path : List ℕ) → All (Lacks d) (split d path)
unfolding split contains
split_lem d [] = (refl, tt)
split_lem d (b ∷ bs) =
    let rest = split_lem d bs in
    elim (Bool-cases (b == d)) [
      | inl e ↦ rw e (refl, rest)
      | inr e ↦ rw e (prepend-All d b (split d bs) e rest)
    ]

-- The parts that are kept are names.
pub kept_parts-IsName :
    (segs parts : List (List ℕ))
    → All (Lacks slash) segs
    → All (Lacks 0) segs
    → kept_parts segs ≡ ok parts
    → All IsName parts
unfolding kept_parts
kept_parts-IsName [] parts h k e = let t : [] ≡ parts = cc in rw (← t) tt
kept_parts-IsName (seg ∷ segs) parts (h, hs) (k, ks) e =
    elim (Bool-cases (bytes_eq seg [] || bytes_eq seg dot)) [
      | inl skipped ↦ kept_parts-IsName segs parts hs ks (rw skipped at e)
      | inr other ↦ elim (Bool-cases (bytes_eq seg dot_dot)) [
        | inl up ↦ let t : err volume_open_failed ≡ ok parts = (rw (other, up) at e) in cc
        | inr name ↦
            let (rest, e₁, e₂) = >>=-eq-ok (kept_parts segs) _ (rw (other, name) at e) in
            let t : seg ∷ rest ≡ parts = cc in
            rw (← t) (
              record {
                not_empty = ground (arith, other);
                not_dot = ground (arith, other);
                not_dot_dot = name;
                no_slash = h;
                no_nul = k;
              },
              kept_parts-IsName segs rest hs ks e₁,
            )
      ]
    ]

pub kept_parts-names : (parts : List (List ℕ)) → All IsName parts → kept_parts parts ≡ ok parts
unfolding kept_parts
kept_parts-names [] h = refl
kept_parts-names (s ∷ parts) (h, hs) =
    rw (h.not_empty, h.not_dot, h.not_dot_dot, kept_parts-names parts hs) refl

pub split-whole : (d : ℕ) (s : List ℕ) → Lacks d s → split d s ≡ s ∷ []
unfolding split prepend contains
split-whole d [] h = refl
split-whole d (b ∷ bs) h =
    let hd : (b == d) ≡ false = ground (arith, h) in
    let tl : Lacks d bs = ground (arith, h) in rw (hd, split-whole d bs tl) refl

pub split-append :
    (d : ℕ) (s rest : List ℕ) → Lacks d s → split d (s ++ d ∷ rest) ≡ s ∷ split d rest
unfolding split prepend contains
split-append d [] rest h = let e : (d == d) ≡ true = ground arith in rw e refl
split-append d (b ∷ bs) rest h =
    let hd : (b == d) ≡ false = ground (arith, h) in
    let tl : Lacks d bs = ground (arith, h) in rw (hd, split-append d bs rest tl) refl

pub split-join :
    (s : List ℕ) (ss : List (List ℕ)) → All IsName (s ∷ ss) → split slash (join (s ∷ ss)) ≡ s ∷ ss
unfolding join
split-join s [] (h, hs) = split-whole slash s h.no_slash
split-join s (t ∷ ss) (h, hs) =
    split-append slash s (join (t ∷ ss)) h.no_slash ∙ ap (λ r. s ∷ r) (split-join t ss hs)

pub join-Lacks_nul : (parts : List (List ℕ)) → All IsName parts → Lacks 0 (join parts)
unfolding join contains
join-Lacks_nul [] h = refl
join-Lacks_nul (s ∷ []) (h, hs) = h.no_nul
join-Lacks_nul (s ∷ t ∷ ss) (h, hs) =
    contains-append 0 s (slash ∷ join (t ∷ ss)) h.no_nul (join-Lacks_nul (t ∷ ss) hs)

starts-name : (s rest : List ℕ) → IsName s → starts_with slash (s ++ rest) ≡ false
unfolding starts_with contains bytes_eq
starts-name [] rest h = let t = h.not_empty in cc
starts-name (b ∷ bs) rest h = ground (arith, h.no_slash)

pub join-starts :
    (parts : List (List ℕ)) → All IsName parts → starts_with slash (join parts) ≡ false
unfolding join starts_with
join-starts [] h = refl
join-starts (s ∷ []) (h, hs) = rw append-nil at (starts-name s [] h)
join-starts (s ∷ t ∷ ss) (h, hs) = starts-name s (slash ∷ join (t ∷ ss)) h
