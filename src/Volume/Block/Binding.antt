-- ===== src/Volume/Block/Binding.antt =====
-- `seal_block`, `open_block` and `block_tag` of crates/blindkey-core/src/volume/block.rs.
use blindkey.Prelude.{
  ℕ, ◌+◌, ◌-◌, ◌^◌, ◌<◌, ◌≡◌, ◌↔◌, ◌≤◌, refl, sym, ap, ◌∙◌, arith, false, Option, none, some, List,
  [], ◌∷◌, ◌++◌, length, take, drop, length-append, length-take, take-append-drop, ltb, Bool-cases,
  inl, inr, drop-append_at, length-drop,
}
use blindkey.Result.{Error, ok, err, volume_open_failed, crypto_failed, >>=-eq-ok}
use blindkey.Bytes.{u64_mod, le_bytes, from_le_bytes, length-le_bytes, from_le_bytes-le_bytes}
use blindkey.Primitives.{Hashes, Aead, ok_or}
use blindkey.Volume.Block.{
  nonce_len, tag_len, block_nonce, block_aad, seal_block, block_tag, open_block,
}

pub length-block_nonce :
    (hashes : Hashes) (nonce_key : List ℕ) (block_id version : ℕ)
    → length (block_nonce hashes nonce_key block_id version) ≡ nonce_len
unfolding block_nonce
length-block_nonce hashes nonce_key block_id version =
    let msg : List ℕ = le_bytes 8 block_id ++ le_bytes 8 version in
    omega (
      arith,
      length-take nonce_len (hashes.hmac_sha256 nonce_key msg),
      hashes.length-hmac_sha256 nonce_key msg,
    )

pub ok_or-eq-ok {ℓ} :
    {A : Type ℓ} (e : Error) (r : Option A) {a : A} → ok_or e r ≡ ok a → r ≡ some a
ok_or-eq-ok e none h = cc
ok_or-eq-ok e (some a) h = cc

-- Every plaintext of less than 2^32 bytes is sealed into a block of 40 bytes more, which opens to the
-- plaintext under the same keys, place, version and kind; the tag of the block is its last 16 bytes.
pub open_block-seal_block :
    (aead : Aead) (hashes : Hashes) (volume_key nonce_key volume_id : List ℕ)
    (block_id version kind : ℕ) (plaintext : List ℕ)
    → length plaintext < 2 ^ 32
    → (on_disk : List ℕ) × (seal_block aead hashes volume_key nonce_key volume_id block_id version
          kind plaintext
        ≡ ok on_disk)
      × (length on_disk ≡ length plaintext + 40)
      × (open_block aead hashes volume_key nonce_key volume_id block_id version kind on_disk
          ≡ ok plaintext)
      × (front : List ℕ) × (tag : List ℕ) × (block_tag on_disk ≡ ok tag)
      × (on_disk ≡ front ++ tag)
      × (length tag ≡ 16)
unfolding seal_block open_block block_tag
open_block-seal_block aead hashes volume_key nonce_key volume_id block_id version kind plaintext
      small =
    let nonce : List ℕ = block_nonce hashes nonce_key block_id version in
    let aad : List ℕ = block_aad volume_id block_id version kind in
    let (ct, sealed) = aead.seals volume_key nonce aad plaintext small in
    let size_nonce = length-block_nonce hashes nonce_key block_id version in
    let size_ct = aead.length-seal volume_key nonce aad plaintext ct sealed in
    let size : length (nonce ++ ct) ≡ length plaintext + 40 =
      omega (arith, length-append nonce ct, size_nonce, size_ct) in
    let enough : ltb (length (nonce ++ ct)) (nonce_len + tag_len) ≡ false = ground (arith, size) in
    let cut : ℕ = length (nonce ++ ct) - tag_len in
    (
      nonce ++ ct,
      rw sealed refl,
      size,
      rw
          (
            enough,
            drop-append_at nonce_len nonce ct size_nonce,
            aead.unseal-seal volume_key nonce aad plaintext ct sealed,
          )
          refl,
      take cut (nonce ++ ct),
      drop cut (nonce ++ ct),
      rw enough refl,
      sym (take-append-drop cut (nonce ++ ct)),
      omega (arith, length-drop cut (nonce ++ ct), size),
    )

pub le_bytes-inj : (w m n : ℕ) → m < 256 ^ w → n < 256 ^ w → le_bytes w m ≡ le_bytes w n → m ≡ n
le_bytes-inj w m n hm hn e =
    sym (from_le_bytes-le_bytes w m hm) ∙ ap from_le_bytes e ∙ from_le_bytes-le_bytes w n hn

pub append-inj {ℓ} :
    {A : Type ℓ} (xs xs' ys ys' : List A)
    → length xs ≡ length xs'
    → xs ++ ys ≡ xs' ++ ys'
    → (xs ≡ xs') × (ys ≡ ys')
append-inj [] [] ys ys' h e = (refl, e)
append-inj [] (x ∷ xs') ys ys' h e = absurd (omega arith)
append-inj (x ∷ xs) [] ys ys' h e = absurd (omega arith)
append-inj (x ∷ xs) (x' ∷ xs') ys ys' h e =
    let hd : x ≡ x' = cc in
    let tl : xs ++ ys ≡ xs' ++ ys' = cc in
    let r = append-inj xs xs' ys ys' (omega arith) tl in (rw (hd, r.0) refl, r.1)

seal_block-inv :
    (aead : Aead) (hashes : Hashes) (volume_key nonce_key volume_id : List ℕ)
    (block_id version kind : ℕ) (plaintext ct : List ℕ)
    → seal_block aead hashes volume_key nonce_key volume_id block_id version kind plaintext
      ≡ ok (block_nonce hashes nonce_key block_id version ++ ct)
    → aead.seal volume_key
        (block_nonce hashes nonce_key block_id version)
        (block_aad volume_id block_id version kind)
        plaintext
      ≡ some ct
unfolding seal_block
seal_block-inv aead hashes volume_key nonce_key volume_id block_id version kind plaintext ct h =
    let nonce : List ℕ = block_nonce hashes nonce_key block_id version in
    let (ct', sealed, is) = >>=-eq-ok (ok_or crypto_failed _) _ h in
    let whole : nonce ++ ct' ≡ nonce ++ ct = cc in
    let same : ct' ≡ ct = (append-inj nonce nonce ct' ct refl whole).1 in
    ok_or-eq-ok _ _ sealed ∙ ap some same

-- A string opens to a plaintext at a place, version and kind exactly if it is any 24 bytes followed by
-- what sealing the plaintext at this place, version and kind puts behind the nonce; so the nonce that
-- is stored does not count.
pub open_block_iff :
    (aead : Aead) (hashes : Hashes) (volume_key nonce_key volume_id : List ℕ)
    (block_id version kind : ℕ) (on_disk plaintext : List ℕ)
    → (open_block aead hashes volume_key nonce_key volume_id block_id version kind on_disk
        ≡ ok plaintext)
      ↔ ((stored ct : List ℕ) × (on_disk ≡ stored ++ ct)
          × (length stored ≡ 24)
          × (seal_block aead hashes volume_key nonce_key volume_id block_id version kind plaintext
              ≡ ok (block_nonce hashes nonce_key block_id version ++ ct)))
unfolding seal_block open_block
open_block_iff aead hashes volume_key nonce_key volume_id block_id version kind on_disk plaintext =
    let nonce : List ℕ = block_nonce hashes nonce_key block_id version in
    let aad : List ℕ = block_aad volume_id block_id version kind in
    (
      λ h. elim (Bool-cases (ltb (length on_disk) (nonce_len + tag_len))) [
        | inl short ↦ let refused : err volume_open_failed ≡ ok plaintext = (rw short at h) in cc
        | inr enough ↦
            let opened = ok_or-eq-ok volume_open_failed _ (rw enough at h) in
            let sealed =
              aead.seal-unseal volume_key nonce aad plaintext (drop nonce_len on_disk) opened in
            let long : 40 ≤ length on_disk = ground (arith, enough) in
            (
              take nonce_len on_disk,
              drop nonce_len on_disk,
              sym (take-append-drop nonce_len on_disk),
              omega (arith, length-take nonce_len on_disk, long),
              rw sealed refl,
            )
      ],
      λ (stored, ct, whole, size, seals).
          let sealed =
            seal_block-inv aead hashes volume_key nonce_key volume_id block_id version kind
              plaintext ct seals in
          let size_ct = aead.length-seal volume_key nonce aad plaintext ct sealed in
          let enough : ltb (length (stored ++ ct)) (nonce_len + tag_len) ≡ false =
            ground (arith, length-append stored ct, size, size_ct) in
          rw
            (
              whole,
              enough,
              drop-append_at nonce_len stored ct size,
              aead.unseal-seal volume_key nonce aad plaintext ct sealed,
            )
            refl,
    )

-- Blocks of one volume have the same associated data only if they have the same place, version and kind.
pub block_aad-inj :
    (volume_id : List ℕ) (block_id block_id' version version' kind kind' : ℕ)
    → block_id < u64_mod
    → block_id' < u64_mod
    → version < u64_mod
    → version' < u64_mod
    → block_aad volume_id block_id version kind ≡ block_aad volume_id block_id' version' kind'
    → (block_id ≡ block_id') × (version ≡ version') × (kind ≡ kind')
unfolding block_aad
block_aad-inj volume_id b b' v v' k k' hb hb' hv hv' e =
    let r₀ = append-inj volume_id volume_id _ _ refl e in
    let r₁ =
      append-inj (le_bytes 8 b) (le_bytes 8 b') _ _
        (length-le_bytes 8 b ∙ sym (length-le_bytes 8 b')) r₀.1 in
    let r₂ =
      append-inj (le_bytes 8 v) (le_bytes 8 v') _ _
        (length-le_bytes 8 v ∙ sym (length-le_bytes 8 v')) r₁.1 in
    (
      le_bytes-inj 8 b b' (omega arith) (omega arith) r₁.0,
      le_bytes-inj 8 v v' (omega arith) (omega arith) r₂.0,
      let last : k ∷ [] ≡ k' ∷ [] = r₂.1 in cc,
    )
