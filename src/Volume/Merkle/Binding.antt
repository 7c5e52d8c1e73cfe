-- ===== src/Volume/Merkle/Binding.antt =====
-- `root` of crates/blindkey-core/src/volume/merkle.rs at two lists of tags.
use blindkey.Prelude.{
  ℕ, zero, suc, ◌+◌, ◌-◌, ◌*◌, ◌<◌, ◌≡◌, ◌≢◌, ◌⊎◌, refl, sym, ap, ◌∙◌, arith, true, Bool-cases, inl,
  inr, none, some, Option-cases, List, [], ◌∷◌, ◌++◌, length, ltb, All, bytes_eq, bytes_eq_refl,
  bytes_eq→eq,
}
use blindkey.Bytes.{u64_mod, le_bytes, length-le_bytes}
use blindkey.Primitives.{Hashes}
use blindkey.Volume.Block.Binding.{append-inj, le_bytes-inj}
use blindkey.Volume.Merkle.{
  leaf_message, leaf, node, leaves, next_level, first, climb, root, width_for,
}
use blindkey.Volume.Merkle.Total.{
  IsMac, first_level, first_level-IsLevel, length-first_level, length-leaves, root_total,
}

-- Two messages of one mac.
pub record Collision (hashes : Hashes) (mac_key : List ℕ) : Type 0 where
  pub left : List ℕ
  pub right : List ℕ
  pub differ : left ≢ right
  pub same : hashes.hmac_sha256 mac_key left ≡ hashes.hmac_sha256 mac_key right

module _ (hashes : Hashes) (mac_key : List ℕ) where
  abbrev Or : Type 0 → Type 0
  Or A = A ⊎ Collision hashes mac_key

  -- The next step from what holds unless there is a collision.
  and_then : {A B : Type 0} → Or A → (A → Or B) → Or B
  and_then (inl a) f = f a
  and_then (inr c) f = inr c

  mac-inj :
      (m m' : List ℕ) → hashes.hmac_sha256 mac_key m ≡ hashes.hmac_sha256 mac_key m' → Or (m ≡ m')
  mac-inj m m' e = elim (Bool-cases (bytes_eq m m')) [
    | inl same ↦ inl (bytes_eq→eq m m' same)
    | inr other ↦ inr (record {
      left = m;
      right = m';
      differ = λ h. let t : bytes_eq m m' ≡ true = rw h (bytes_eq_refl m') in cc;
      same = e;
    })
  ]

  next_level-inv :
      (x y : List ℕ) (level next : List (List ℕ))
      → next_level hashes mac_key (x ∷ y ∷ level) ≡ some next
      → (tail : List (List ℕ)) × (next_level hashes mac_key level ≡ some tail)
        × (next ≡ node hashes mac_key x y ∷ tail)
  unfolding next_level
  next_level-inv x y level next e = elim (Option-cases (next_level hashes mac_key level)) [
    | inl failed ↦ let t : none ≡ some next = (rw failed at e) in cc
    | inr (tail, done) ↦
        let t : some (node hashes mac_key x y ∷ tail) ≡ some next = (rw done at e) in
        (tail, done, cc)
  ]

  -- A level is half as long as the one below, and of macs.
  next_level-halves :
      (level next : List (List ℕ))
      → next_level hashes mac_key level ≡ some next
      → (length level ≡ 2 * length next) × All IsMac next
  unfolding next_level node
  next_level-halves [] next e = let t : [] ≡ next = cc in rw (← t) (omega arith, tt)
  next_level-halves (x ∷ []) next e = cc
  next_level-halves (x ∷ y ∷ level) next e =
      let (tail, e₁, t) = next_level-inv x y level next e in
      let (size, macs) = next_level-halves level tail e₁ in
      rw t (omega (arith, size), (hashes.length-hmac_sha256 mac_key (x ++ y), macs))

  next_level-inj :
      (xs ys next : List (List ℕ))
      → All IsMac xs
      → All IsMac ys
      → next_level hashes mac_key xs ≡ some next
      → next_level hashes mac_key ys ≡ some next
      → Or (xs ≡ ys)
  unfolding next_level node
  next_level-inj [] [] next hx hy e e' = inl refl
  next_level-inj [] (y ∷ []) next hx hy e e' = cc
  next_level-inj [] (y ∷ y' ∷ ys) next hx hy e e' =
      let (tail, e₁, t) = next_level-inv y y' ys next e' in cc
  next_level-inj (x ∷ []) ys next hx hy e e' = cc
  next_level-inj (x ∷ x' ∷ xs) [] next hx hy e e' =
      let (tail, e₁, t) = next_level-inv x x' xs next e in cc
  next_level-inj (x ∷ x' ∷ xs) (y ∷ []) next hx hy e e' = cc
  next_level-inj (x ∷ x' ∷ xs) (y ∷ y' ∷ ys) next hx hy e e' =
      let (tail, e₁, t) = next_level-inv x x' xs next e in
      let (tail', e₁', t') = next_level-inv y y' ys next e' in
      let tails : tail' ≡ tail = cc in
      let nodes : node hashes mac_key x x' ≡ node hashes mac_key y y' = cc in
      and_then (next_level-inj xs ys tail hx.1.1 hy.1.1 e₁ (e₁' ∙ ap some tails)) (λ rest.
        and_then (mac-inj (x ++ x') (y ++ y') nodes) (λ m.
          let (p, q) = append-inj x y x' y' (hx.0 ∙ sym hy.0) m in inl (rw (p, q, rest) refl)))

  climb-inv :
      (fuel : ℕ) (x x' : List ℕ) (xs : List (List ℕ)) (r : List ℕ)
      → climb hashes mac_key (suc fuel) (x ∷ x' ∷ xs) ≡ some r
      → (next : List (List ℕ)) × (next_level hashes mac_key (x ∷ x' ∷ xs) ≡ some next)
        × (climb hashes mac_key fuel next ≡ some r)
  unfolding climb
  climb-inv fuel x x' xs r e =
      let many : ltb 1 (length (x ∷ x' ∷ xs)) ≡ true = ground arith in
      let e₁ = (rw many at e) in
      elim (Option-cases (next_level hashes mac_key (x ∷ x' ∷ xs))) [
        | inl failed ↦ let t : none ≡ some r = (rw failed at e₁) in cc
        | inr (next, done) ↦ (next, done, rw done at e₁)
      ]

  climb-inj :
      (fuel : ℕ) (xs ys : List (List ℕ)) (r : List ℕ)
      → length xs ≡ length ys
      → All IsMac xs
      → All IsMac ys
      → climb hashes mac_key fuel xs ≡ some r
      → climb hashes mac_key fuel ys ≡ some r
      → Or (xs ≡ ys)
  unfolding climb first
  climb-inj zero xs ys r h hx hy e e' = cc
  climb-inj (suc fuel) [] [] r h hx hy e e' = cc
  climb-inj (suc fuel) [] (y ∷ ys) r h hx hy e e' = absurd (omega arith)
  climb-inj (suc fuel) (x ∷ xs) [] r h hx hy e e' = absurd (omega arith)
  climb-inj (suc fuel) (x ∷ []) (y ∷ []) r h hx hy e e' =
      let t : some x ≡ some r = e in let t' : some y ≡ some r = e' in inl cc
  climb-inj (suc fuel) (x ∷ []) (y ∷ y' ∷ ys) r h hx hy e e' = absurd (omega arith)
  climb-inj (suc fuel) (x ∷ x' ∷ xs) (y ∷ []) r h hx hy e e' = absurd (omega arith)
  climb-inj (suc fuel) (x ∷ x' ∷ xs) (y ∷ y' ∷ ys) r h hx hy e e' =
      let (next, up, e₁) = climb-inv fuel x x' xs r e in
      let (next', up', e₁') = climb-inv fuel y y' ys r e' in
      let (half, macs) = next_level-halves (x ∷ x' ∷ xs) next up in
      let (half', macs') = next_level-halves (y ∷ y' ∷ ys) next' up' in
      and_then (climb-inj fuel next next' r (omega (arith, half, half', h)) macs macs' e₁ e₁')
        (λ same.
          next_level-inj (x ∷ x' ∷ xs) (y ∷ y' ∷ ys) next hx hy up (up' ∙ ap some (sym same)))

  leaf-inj :
      (i version version' : ℕ) (t t' : List ℕ)
      → version < u64_mod
      → version' < u64_mod
      → leaf hashes mac_key i version t ≡ leaf hashes mac_key i version' t'
      → Or ((version ≡ version') × (t ≡ t'))
  unfolding leaf
  leaf-inj i version version' t t' hv hv' e =
      and_then
        (mac-inj (leaf_message hashes mac_key i version t)
          (leaf_message hashes mac_key i version' t') e)
        (λ m.
          let r₀ = append-inj (le_bytes 8 i) (le_bytes 8 i) _ _ refl m in
          let r₁ =
            append-inj (le_bytes 8 version) (le_bytes 8 version') t t'
              (length-le_bytes 8 version ∙ sym (length-le_bytes 8 version')) r₀.1 in
          inl (le_bytes-inj 8 version version' (omega (arith, hv)) (omega (arith, hv')) r₁.0, r₁.1))

  leaves-inj :
      (i version version' : ℕ) (ts ts' : List (List ℕ))
      → version < u64_mod
      → version' < u64_mod
      → length ts ≡ length ts'
      → leaves hashes mac_key version i ts ≡ leaves hashes mac_key version' i ts'
      → Or ((ts ≡ ts') × ((ts ≡ []) ⊎ (version ≡ version')))
  unfolding leaves
  leaves-inj i version version' [] [] hv hv' h e = inl (refl, inl refl)
  leaves-inj i version version' [] (t' ∷ ts') hv hv' h e = absurd (omega arith)
  leaves-inj i version version' (t ∷ ts) [] hv hv' h e = absurd (omega arith)
  leaves-inj i version version' (t ∷ ts) (t' ∷ ts') hv hv' h e =
      let heads : leaf hashes mac_key i version t ≡ leaf hashes mac_key i version' t' = cc in
      let tails : leaves hashes mac_key version (suc i) ts
          ≡ leaves hashes mac_key version' (suc i) ts' =
        cc in
      and_then (leaf-inj i version version' t t' hv hv' heads) (λ (same_version, same_tag).
        and_then (leaves-inj (suc i) version version' ts ts' hv hv' (omega arith) tails)
          (λ rest. inl (rw (same_tag, rest.0) refl, inr same_version)))

-- Two lists of tags of the same length with the same root under one key are equal, and were
-- hashed at the same version unless they are empty; or else two different messages with the same mac
-- are at hand.
pub root_binding :
    (hashes : Hashes) (mac_key : List ℕ) (version version' : ℕ) (tags tags' : List (List ℕ))
    → version < u64_mod
    → version' < u64_mod
    → length tags ≡ length tags'
    → root hashes mac_key version tags ≡ root hashes mac_key version' tags'
    → ((tags ≡ tags') × ((tags ≡ []) ⊎ (version ≡ version'))) ⊎ Collision hashes mac_key
unfolding root
root_binding hashes mac_key version version' tags tags' hv hv' h e =
    let (k, v) = first_level-IsLevel hashes mac_key version tags in
    let (k', v') = first_level-IsLevel hashes mac_key version' tags' in
    let (r, done, size) = root_total hashes mac_key version tags in
    let level : List (List ℕ) = first_level hashes mac_key version tags in
    let level' : List (List ℕ) = first_level hashes mac_key version' tags' in
    let widths : length level ≡ length level' =
      length-first_level hashes mac_key version tags
      ∙ ap (λ (n : ℕ). n + (width_for n - n)) h
      ∙ sym (length-first_level hashes mac_key version' tags') in
    let done' : climb hashes mac_key (suc (length level)) level' ≡ some r =
      rw widths (sym e ∙ done) in
    let front : length (leaves hashes mac_key version 0 tags)
        ≡ length (leaves hashes mac_key version' 0 tags') =
      length-leaves hashes mac_key version 0 tags
      ∙ h
      ∙ sym (length-leaves hashes mac_key version' 0 tags') in
    and_then hashes mac_key
      (climb-inj hashes mac_key (suc (length level)) level level' r widths v.macs v'.macs done
        done')
      (λ same.
        leaves-inj hashes mac_key 0 version version' tags tags' hv hv' h
          (append-inj (leaves hashes mac_key version 0 tags)
            (leaves hashes mac_key version' 0 tags') _ _ front same).0)
