-- ===== src/Entry/Revealed.antt =====
-- The fields of an entry of crates/blindkey-core/src/format/entry.rs, whichever form its secrets
-- are kept in.
use blindkey.Prelude.{◌≡◌, refl, sym, ap, ◌∙◌, Option, none, some, List, [], ◌∷◌, All}
use blindkey.Primitives.Cipher.{StreamCipher}
use blindkey.InnerStream.{InnerStream, SealKey, apply, open_at-apply}
use blindkey.Entry.{
  Protected, plain, sealed, CustomValue, plain_text, secret, CustomField, Entry, expose,
}
use blindkey.Entry.Parts.{behind, resealed}
use blindkey.Entry.Whole.{
  Optional, behind_otp, resealed_otp, behind_value, resealed_value, resealed_fields, behind_fields,
  resealed_entry, behind_entry,
}

-- The entry with every secret as plain bytes.
abbrev pub revealed_value : StreamCipher → CustomValue → CustomValue
revealed_value cipher (plain_text s) = plain_text s
revealed_value cipher (secret p) = secret (plain (expose cipher p))

abbrev pub revealed_otp : StreamCipher → Option Protected → Option Protected
revealed_otp cipher none = none
revealed_otp cipher (some p) = some (plain (expose cipher p))

abbrev pub revealed_fields : StreamCipher → List CustomField → List CustomField
revealed_fields cipher [] = []
revealed_fields cipher (f ∷ fs) =
    record f { value = revealed_value cipher f.value } ∷ revealed_fields cipher fs

abbrev pub revealed : StreamCipher → Entry → Entry
revealed cipher e = record e {
  password = plain (expose cipher e.password);
  otp_secret = revealed_otp cipher e.otp_secret;
  custom_fields = revealed_fields cipher e.custom_fields;
}

module _ (cipher : StreamCipher) (key : SealKey) where
  expose-resealed :
      (p : Protected) (i : InnerStream)
      → key.key ≡ i.key
      → expose cipher (resealed cipher key p i) ≡ expose cipher p
  unfolding expose
  expose-resealed p i e = open_at-apply cipher i key (expose cipher p) e

  revealed_otp-resealed_otp :
      (o : Option Protected) (i : InnerStream)
      → key.key ≡ i.key
      → revealed_otp cipher (resealed_otp cipher key o i none) ≡ revealed_otp cipher o
  revealed_otp-resealed_otp none i e = refl
  revealed_otp-resealed_otp (some p) i e = ap (λ s. some (plain s)) (expose-resealed p i e)

  key_behind_otp :
      (o : Option Protected) (i : InnerStream) → (behind_otp cipher key o i).key ≡ i.key
  unfolding apply
  key_behind_otp none i = refl
  key_behind_otp (some p) i = refl

  key_behind_value : (v : CustomValue) (i : InnerStream) → (behind_value cipher key v i).key ≡ i.key
  unfolding apply
  key_behind_value (plain_text s) i = refl
  key_behind_value (secret p) i = refl

  revealed_value-resealed_value :
      (v : CustomValue) (i : InnerStream)
      → key.key ≡ i.key
      → revealed_value cipher (resealed_value cipher key v i) ≡ revealed_value cipher v
  revealed_value-resealed_value (plain_text s) i e = refl
  revealed_value-resealed_value (secret p) i e = ap (λ s. secret (plain s)) (expose-resealed p i e)

  revealed_fields-resealed_fields :
      (fs : List CustomField) (i : InnerStream)
      → key.key ≡ i.key
      → revealed_fields cipher (resealed_fields cipher key fs i) ≡ revealed_fields cipher fs
  revealed_fields-resealed_fields [] i e = refl
  revealed_fields-resealed_fields (f ∷ fs) i e =
      rw
        (
          revealed_value-resealed_value f.value i e,
          revealed_fields-resealed_fields fs (behind_value cipher key f.value i)
              (e ∙ sym (key_behind_value f.value i)),
        )
        refl

  key_behind : (p : Protected) (i : InnerStream) → (behind cipher p i).key ≡ i.key
  unfolding apply
  key_behind p i = refl

  -- Its fields are the old ones, and its secrets decrypt to the old ones.
  pub revealed-resealed_entry :
      (e : Entry) (i : InnerStream)
      → key.key ≡ i.key
      → revealed cipher (resealed_entry cipher key e i) ≡ revealed cipher e
  revealed-resealed_entry e i same =
      let i' : InnerStream = behind cipher e.password i in
      let same' : key.key ≡ i'.key = same ∙ sym (key_behind e.password i) in
      rw
        (
          expose-resealed e.password i same,
          revealed_otp-resealed_otp e.otp_secret i' same',
          revealed_fields-resealed_fields e.custom_fields (behind_otp cipher key e.otp_secret i')
              (same' ∙ sym (key_behind_otp e.otp_secret i')),
        )
        refl

  key_behind_fields :
      (fs : List CustomField) (i : InnerStream) → (behind_fields cipher key fs i).key ≡ i.key
  key_behind_fields [] i = refl
  key_behind_fields (f ∷ fs) i =
      key_behind_fields fs (behind_value cipher key f.value i) ∙ key_behind_value f.value i

  -- The stream keeps its key.
  pub key_behind_entry : (e : Entry) (i : InnerStream) → (behind_entry cipher key e i).key ≡ i.key
  key_behind_entry e i =
      let i' : InnerStream = behind cipher e.password i in
      key_behind_fields e.custom_fields (behind_otp cipher key e.otp_secret i')
      ∙ key_behind_otp e.otp_secret i'
      ∙ key_behind e.password i

-- Every secret of the entry is kept encrypted, under one key.
abbrev pub IsSealed : SealKey → Protected → Type 0
IsSealed key (plain s) = ⊥
IsSealed key (sealed ct k offset) = k ≡ key

abbrev pub ValueSealed : SealKey → CustomValue → Type 0
ValueSealed key (plain_text s) = Unit {0}
ValueSealed key (secret p) = IsSealed key p

abbrev pub SecretsSealed : SealKey → Entry → Type 0
SecretsSealed key e =
    IsSealed key e.password
    × Optional (IsSealed key) e.otp_secret
    × All (λ f. ValueSealed key f.value) e.custom_fields

module _ (cipher : StreamCipher) (key : SealKey) where
  otp-IsSealed :
      (o : Option Protected) (i : InnerStream)
      → Optional (IsSealed key) (resealed_otp cipher key o i none)
  otp-IsSealed none i = tt
  otp-IsSealed (some p) i = refl

  value_sealed :
      (v : CustomValue) (i : InnerStream) → ValueSealed key (resealed_value cipher key v i)
  value_sealed (plain_text s) i = tt
  value_sealed (secret p) i = refl

  fields_sealed :
      (fs : List CustomField) (i : InnerStream)
      → All (λ f. ValueSealed key f.value) (resealed_fields cipher key fs i)
  fields_sealed [] i = tt
  fields_sealed (f ∷ fs) i =
      (value_sealed f.value i, fields_sealed fs (behind_value cipher key f.value i))

  -- The parser keeps no secret in the clear.
  pub resealed_entry-SecretsSealed :
      (e : Entry) (i : InnerStream) → SecretsSealed key (resealed_entry cipher key e i)
  resealed_entry-SecretsSealed e i = (
    refl,
    otp-IsSealed e.otp_secret (behind cipher e.password i),
    fields_sealed e.custom_fields (behind_otp cipher key e.otp_secret (behind cipher e.password i)),
  )
