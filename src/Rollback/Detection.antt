-- ===== src/Rollback/Detection.antt =====
-- `advance_anchor` and `check` of crates/blindkey-core/src/rollback/mod.rs over sequences of calls.
use blindkey.Prelude.{
  ℕ, ◌^◌, ◌≤◌, ◌<◌, ◌≡◌, refl, arith, max, Bool, true, false, Bool-cases, inl, inr, none, some,
  List, [], ◌∷◌, length, take, take-all, leb, ◌==◌, ◌&&◌, All, All-take, length-take,
}
use blindkey.Result.{Result, ok}
use blindkey.Bytes.{
  IsByte, u64_mod, le_bytes, from_le_bytes, length-le_bytes, from_le_bytes-le_bytes,
  le_bytes-IsByte, from_le_bytes-lt,
}
use blindkey.Files.{File, Outcomes, no_failure, contents, exists, replace}
use blindkey.Rollback.{
  RollbackCheck, check, from_contents, read_anchor, write_u64_atomic, advance_anchor, advance_all,
}

-- A file holds bytes.
abbrev pub IsFile : File → Type 0
IsFile none = Unit
IsFile (some bytes) = All IsByte bytes

-- What the anchor says to a reader that the system lets read.
abbrev pub anchored : File → ℕ
anchored file = read_anchor no_failure file

readable-anchored :
    (outcomes : Outcomes) (file : File)
    → outcomes.read_allowed ≡ true
    → read_anchor outcomes file ≡ anchored file
unfolding read_anchor contents
readable-anchored outcomes file h = rw h refl

anchored-lt : (file : File) → IsFile file → anchored file < u64_mod
unfolding read_anchor contents from_contents
anchored-lt none h = omega arith
anchored-lt (some b) h = elim (Bool-cases (leb 8 (length b))) [
  | inl long ↦
      let size : length (take 8 b) ≡ 8 = ground (arith, length-take 8 b) in
      let bound : from_le_bytes (take 8 b) < 256 ^ length (take 8 b) =
        from_le_bytes-lt (take 8 b) (All-take IsByte 8 b h) in
      rw long (let t : from_le_bytes (take 8 b) < 256 ^ 8 = (rw size at bound) in omega (arith, t))
  | inr short ↦ rw short (omega arith)
]

anchored-written : (value : ℕ) → value < u64_mod → anchored (some (le_bytes 8 value)) ≡ value
unfolding read_anchor contents from_contents
anchored-written value h =
    let size : length (le_bytes 8 value) ≡ 8 = length-le_bytes 8 value in
    let long : leb 8 (length (le_bytes 8 value)) ≡ true = ground (arith, size) in
    let all : take 8 (le_bytes 8 value) ≡ le_bytes 8 value =
      take-all 8 (le_bytes 8 value) (omega (arith, size)) in
    rw (long, all) (from_le_bytes-le_bytes 8 value (omega (arith, h)))

-- What one advance does to an anchor that can be read, and what its success means.
pub record Advanced (file : File) (seen : ℕ) (after : File) (result : Result (Unit {0}))
    : Type 0 where
  pub is_file : IsFile after
  pub grows : anchored file ≤ anchored after
  pub bounded : anchored after ≤ max (anchored file) seen
  pub recorded : result ≡ ok tt → anchored after ≡ max (anchored file) seen

same_file :
    (file : File) (seen : ℕ) (result : Result (Unit {0}))
    → IsFile file
    → (result ≡ ok tt → seen ≤ anchored file)
    → Advanced file seen file result
same_file file seen result h f = record {
  is_file = h;
  grows = omega arith;
  bounded = omega arith;
  recorded = λ e. omega (arith, f e);
}

replace-Advanced :
    (outcomes : Outcomes) (file : File) (seen : ℕ)
    → IsFile file
    → seen < u64_mod
    → (let w = write_u64_atomic outcomes file (max (anchored file) seen) in
        Advanced file seen w.0 w.1)
unfolding write_u64_atomic replace
replace-Advanced outcomes file seen h hs =
    let value : ℕ = max (anchored file) seen in
    let reads : anchored (some (le_bytes 8 value)) ≡ value =
      anchored-written value (omega (arith, anchored-lt file h)) in
    elim (Bool-cases outcomes.temporary_written) [
      | inl written ↦ elim (Bool-cases outcomes.renamed) [
        | inl renamed ↦
            rw (written, renamed)
              (record {
                is_file = le_bytes-IsByte 8 value;
                grows = omega (arith, reads);
                bounded = omega (arith, reads);
                recorded = λ _. reads;
              })
        | inr stays ↦ rw (written, stays) (same_file file seen _ h (λ e. cc))
      ]
      | inr failed ↦ rw failed (same_file file seen _ h (λ e. cc))
    ]

nothing_new :
    (file : File) (seen : ℕ)
    → (max (anchored file) seen == anchored file && exists file) ≡ true
    → seen ≤ anchored file
nothing_new file seen h = ground (arith, h)

pub advance_anchor-Advanced :
    (outcomes : Outcomes) (file : File) (seen : ℕ)
    → outcomes.read_allowed ≡ true
    → IsFile file
    → seen < u64_mod
    → Advanced file seen (advance_anchor outcomes file seen).0 (advance_anchor outcomes file seen).1
unfolding advance_anchor
advance_anchor-Advanced outcomes file seen hr h hs =
    let reads : read_anchor outcomes file ≡ anchored file = readable-anchored outcomes file hr in
    let test : Bool = max (anchored file) seen == anchored file && exists file in
    elim (Bool-cases outcomes.dir_made) [
      | inr failed ↦ rw (reads, failed) (same_file file seen _ h (λ e. cc))
      | inl made ↦ elim (Bool-cases test) [
        | inl same ↦
            rw (reads, made, same) (same_file file seen _ h (λ e. nothing_new file seen same))
        | inr new ↦ simp (reads, made, new) (replace-Advanced outcomes file seen h hs)
      ]
    ]

-- Steps at which the system lets the anchor be read, for versions of 64 bits.
abbrev pub IsReadable : Outcomes × ℕ → Type 0
IsReadable step = (step.0.read_allowed ≡ true) × (step.1 < u64_mod)

advance_all-grows :
    (file : File) (steps : List (Outcomes × ℕ))
    → IsFile file
    → All IsReadable steps
    → anchored file ≤ anchored (advance_all file steps)
unfolding advance_all
advance_all-grows file [] h hs = omega arith
advance_all-grows file (step ∷ steps) h (hr, hs) =
    let a = advance_anchor-Advanced step.0 file step.1 hr.0 h hr.1 in
    omega
      (arith, a.grows, advance_all-grows (advance_anchor step.0 file step.1).0 steps a.is_file hs)

check-older :
    (payload seen : ℕ) → payload < seen → check payload seen ≡ RollbackCheck.regressed seen payload
unfolding check
check-older payload seen h = ground arith

-- Once a version of 64 bits has been recorded with success, every older payload is reported as regressed, with
-- an expected version that is not below the recorded one, after any further advances, failed writes included, if
-- the anchor could be read at each of them.
pub rollback_detected :
    (file : File) (outcomes : Outcomes) (version payload : ℕ) (later : List (Outcomes × ℕ))
    → IsFile file
    → outcomes.read_allowed ≡ true
    → version < u64_mod
    → (advance_anchor outcomes file version).1 ≡ ok tt
    → All IsReadable later
    → payload < version
    → (expected : ℕ) × (check payload
          (anchored (advance_all (advance_anchor outcomes file version).0 later))
        ≡ RollbackCheck.regressed expected payload)
      × (version ≤ expected)
rollback_detected file outcomes version payload later h hr hv done hl older =
    let a = advance_anchor-Advanced outcomes file version hr h hv in
    let after : File = (advance_anchor outcomes file version).0 in
    let recorded : anchored after ≡ max (anchored file) version = a.recorded done in
    let enough : version ≤ anchored (advance_all after later) =
      omega (arith, recorded, advance_all-grows after later a.is_file hl) in
    (
      anchored (advance_all after later),
      check-older payload _ (omega (arith, enough, older)),
      enough,
    )

pub succeeds : (file : File) (seen : ℕ) → (advance_anchor no_failure file seen).1 ≡ ok tt
unfolding advance_anchor write_u64_atomic replace
succeeds file seen =
    let current : ℕ = anchored file in
    elim (Bool-cases (max current seen == current && exists file)) [
      | inl same ↦ rw same refl
      | inr new ↦ rw new refl
    ]

unreadable :
    (outcomes : Outcomes) (file : File)
    → outcomes.read_allowed ≡ false
    → read_anchor outcomes file ≡ 0
unfolding read_anchor contents from_contents
unreadable outcomes file h = rw h refl

-- Without a failure of the system an advance succeeds, and the anchor is the larger of what it was and the
-- version seen; with failures of any kind but reads it is never below what it was nor above that.
pub advance_anchor-max :
    (file : File) (outcomes : Outcomes) (seen : ℕ)
    → IsFile file
    → seen < u64_mod
    → outcomes.read_allowed ≡ true
    → ((advance_anchor no_failure file seen).1 ≡ ok tt)
      × (anchored (advance_anchor no_failure file seen).0 ≡ max (anchored file) seen)
      × (anchored file ≤ anchored (advance_anchor outcomes file seen).0)
      × (anchored (advance_anchor outcomes file seen).0 ≤ max (anchored file) seen)
advance_anchor-max file outcomes seen h hs hr =
    let done = succeeds file seen in
    let a = advance_anchor-Advanced no_failure file seen refl h hs in
    let b = advance_anchor-Advanced outcomes file seen hr h hs in
    (done, a.recorded done, b.grows, b.bounded)

-- Where an anchor file cannot be read but can be replaced, the anchor becomes the version seen, whatever
-- larger version it held, if that is positive.
pub advance_unreadable :
    (outcomes : Outcomes) (file : File) (seen : ℕ)
    → outcomes.read_allowed ≡ false
    → outcomes.dir_made ≡ true
    → outcomes.temporary_written ≡ true
    → outcomes.renamed ≡ true
    → 0 < seen
    → seen < u64_mod
    → anchored (advance_anchor outcomes file seen).0 ≡ seen
unfolding advance_anchor write_u64_atomic replace
advance_unreadable outcomes file seen hr hd ht hn pos hs =
    let none_read : read_anchor outcomes file ≡ 0 = unreadable outcomes file hr in
    let top : max 0 seen ≡ seen = omega arith in
    let new : (max 0 seen == 0 && exists file) ≡ false = ground arith in
    rw (none_read, new, top, hd, ht, hn) (anchored-written seen hs)
