-- ===== src/Entry/Whole.antt =====
-- The parts of an entry that repeat or may be missing, and the whole entry, of
-- crates/blindkey-core/src/format/entry.rs.
use blindkey.Prelude.{
  ℕ, ◌≤◌, ◌<◌, ◌≡◌, refl, sym, ap, ◌∙◌, arith, true, false, Option, none, some, List, [], ◌∷◌, ◌++◌,
  length, All, append-nil, append_assoc,
}
use blindkey.Result.{ok}
use blindkey.Bytes.{u64_mod}
use blindkey.Volume.Fs.Utf8.{is_utf8}
use blindkey.Tlv.{write_record, max_field_len}
use blindkey.Tlv.Loop.{write_all, write_record-append, run_records, unless_ended}
use blindkey.Primitives.Cipher.{StreamCipher}
use blindkey.InnerStream.{InnerStream, SealKey, apply, length-apply}
use blindkey.Entry.{
  Protected, CustomValue, plain_text, secret, CustomField, Entry, Output, expose, write_plain,
  write_protected, write_tags, write_otp, write_expiry, write_value, write_custom, tag_custom_name,
  tag_custom_value, tag_custom_value_protected,
}
use blindkey.Entry.Parse.{take_field, set_field, close_name, taken_name, seal_protected}
use blindkey.Entry.Parts.{Part, Part-then, Part-none, between, behind, resealed}
use blindkey.Entry.Fields.{text_taken, tag-Part, expires_at-Part, otp_secret-Part}

-- A text, or a secret, of up to a mebibyte.
abbrev pub IsText : List ℕ → Type 0
IsText s = (is_utf8 s ≡ true) × (length s ≤ max_field_len)

abbrev pub IsSecret : StreamCipher → Protected → Type 0
IsSecret cipher p = length (expose cipher p) ≤ max_field_len

abbrev pub IsValue : StreamCipher → CustomValue → Type 0
IsValue cipher (plain_text s) = IsText s
IsValue cipher (secret p) = IsSecret cipher p

abbrev pub IsField : StreamCipher → CustomField → Type 0
IsField cipher f = IsText f.name × IsValue cipher f.value

abbrev pub Optional {ℓ} : {A : Type ℓ} → (A → Type 0) → Option A → Type 0
Optional P none = Unit {0}
Optional P (some a) = P a

pub Part-effect :
    {key : SealKey} {write : Output → Output} {i j : InnerStream} {E : Entry → Entry}
    (F : Entry → Entry)
    → ((x : Entry) → E x ≡ F x)
    → Part key write i j E
    → Part key write i j F
Part-effect {j} F same p = record {
  recs = p.recs;
  fits = p.fits;
  writes = p.writes;
  runs = λ x. p.runs x ∙ ap (λ y. ok (between y j.position, false)) (same x);
}

write_two :
    (out : List ℕ) (t : ℕ) (v : List ℕ) (t' : ℕ) (v' : List ℕ)
    → write_record (write_record out t v) t' v' ≡ out ++ write_all ((t, v) ∷ (t', v') ∷ [])
unfolding write_all
write_two out t v t' v' =
    write_record-append (write_record out t v) t' v'
    ∙ ap (λ o. o ++ write_record [] t' v') (write_record-append out t v)
    ∙ append_assoc out (write_record [] t v) (write_record [] t' v')
    ∙ ap (λ o. out ++ (write_record [] t v ++ o)) (sym (append-nil (write_record [] t' v')))

module _ (cipher : StreamCipher) (key : SealKey) where
  pub tags-Part :
      (i : InnerStream) (ts : List (List ℕ))
      → All IsText ts
      → Part key (write_tags cipher ts) i i (λ x. record x { tags = x.tags ++ ts })
  unfolding write_tags
  tags-Part i [] h =
      Part-effect _ (λ x. ap {B = Entry} (λ ts. record x { tags = ts }) (sym (append-nil x.tags)))
        (Part-none i)
  tags-Part i (t ∷ ts) (h, hs) =
      Part-effect _
        (λ x. ap {B = Entry} (λ us. record x { tags = us }) (append_assoc x.tags (t ∷ []) ts))
        (Part-then (tag-Part cipher key i t h.0 h.1) (tags-Part i ts hs))

  abbrev pub behind_otp : Option Protected → InnerStream → InnerStream
  behind_otp none i = i
  behind_otp (some p) i = behind cipher p i

  abbrev pub resealed_otp : Option Protected → InnerStream → Option Protected → Option Protected
  resealed_otp none i old = old
  resealed_otp (some p) i old = some (resealed cipher key p i)

  pub otp-Part :
      (i : InnerStream) (otp : Option Protected)
      → Optional (IsSecret cipher) otp
      → Part key
          (write_otp cipher otp)
          i
          (behind_otp otp i)
          (λ x. record x { otp_secret = resealed_otp otp i x.otp_secret })
  unfolding write_otp
  otp-Part i none h = Part-none i
  otp-Part i (some p) h = otp_secret-Part cipher key i p h

  abbrev pub later_expiry : Option ℕ → Option ℕ → Option ℕ
  later_expiry none old = old
  later_expiry (some time) old = some time

  pub expiry-Part :
      (i : InnerStream) (expiry : Option ℕ)
      → Optional (λ time. time < u64_mod) expiry
      → Part key
          (write_expiry cipher expiry)
          i
          i
          (λ x. record x { expires_at = later_expiry expiry x.expires_at })
  unfolding write_expiry
  expiry-Part i none h = Part-none i
  expiry-Part i (some time) h = expires_at-Part cipher key i time h

  abbrev pub behind_value : CustomValue → InnerStream → InnerStream
  behind_value (plain_text s) i = i
  behind_value (secret p) i = behind cipher p i

  abbrev pub resealed_value : CustomValue → InnerStream → CustomValue
  resealed_value (plain_text s) i = plain_text s
  resealed_value (secret p) i = secret (resealed cipher key p i)

  abbrev pub resealed_field : CustomField → InnerStream → CustomField
  resealed_field f i = record { name = f.name; value = resealed_value f.value i }

  abbrev pub write_field : List ℕ → CustomValue → Output → Output
  write_field name value o = write_value cipher value (write_plain cipher tag_custom_name name o)

  field-Part :
      (i : InnerStream) (name : List ℕ) (value : CustomValue)
      → IsText name
      → IsValue cipher value
      → Part key (write_field name value) i (behind_value value i) (λ x. record x {
        custom_fields =
            x.custom_fields ++ (record { name = name; value = resealed_value value i } ∷ []);
      })
  unfolding write_value write_protected take_field set_field close_name taken_name seal_protected
      run_records unless_ended write_all apply
  field-Part i name (plain_text s) h hv = record {
    recs = (tag_custom_name, name) ∷ (tag_custom_value, s) ∷ [];
    fits = ((omega arith, h.1, omega (arith, h.1)), ((omega arith, hv.1, omega (arith, hv.1)), tt));
    writes = λ out.
        ap {B = Output} (λ o. (o, i)) (write_two out tag_custom_name name tag_custom_value s);
    runs = λ x. rw (text_taken name h.0, text_taken s hv.0) refl;
  }
  field-Part i name (secret p) h hv =
      let size : length (apply cipher i (expose cipher p)).0 ≡ length (expose cipher p) =
        length-apply cipher i (expose cipher p) in
      record {
        recs =
            (tag_custom_name, name)
            ∷ (tag_custom_value_protected, (apply cipher i (expose cipher p)).0)
            ∷ [];
        fits = (
          (omega arith, h.1, omega (arith, h.1)),
          ((omega arith, omega (arith, hv, size), omega (arith, hv, size)), tt),
        );
        writes = λ out.
            ap {B = Output} (λ o. (o, behind cipher p i))
              (write_two out tag_custom_name name tag_custom_value_protected _);
        runs = λ x. rw (text_taken name h.0, size) refl;
      }

  abbrev pub behind_fields : List CustomField → InnerStream → InnerStream
  behind_fields [] i = i
  behind_fields (f ∷ fs) i = behind_fields fs (behind_value f.value i)

  abbrev pub resealed_fields : List CustomField → InnerStream → List CustomField
  resealed_fields [] i = []
  resealed_fields (f ∷ fs) i = resealed_field f i ∷ resealed_fields fs (behind_value f.value i)

  pub custom-Part :
      (i : InnerStream) (fs : List CustomField)
      → All (IsField cipher) fs
      → Part key
          (write_custom cipher fs)
          i
          (behind_fields fs i)
          (λ x. record x { custom_fields = x.custom_fields ++ resealed_fields fs i })
  unfolding write_custom
  custom-Part i [] h =
      Part-effect _
        (λ x.
          ap {B = Entry} (λ fs. record x { custom_fields = fs }) (sym (append-nil x.custom_fields)))
        (Part-none i)
  custom-Part i (f ∷ fs) (h, hs) =
      Part-effect _
        (λ x.
          ap {B = Entry} (λ gs. record x { custom_fields = gs })
            (append_assoc x.custom_fields (resealed_field f i ∷ []) _))
        (Part-then (field-Part i f.name f.value h.0 h.1)
          (custom-Part (behind_value f.value i) fs hs))

  -- The entry as the parser keeps it: every secret encrypted at its place in the stream.
  abbrev pub resealed_entry : Entry → InnerStream → Entry
  resealed_entry e i =
      let i' = behind cipher e.password i in
      let i'' = behind_otp e.otp_secret i' in
      record e {
        password = resealed cipher key e.password i;
        otp_secret = resealed_otp e.otp_secret i' none;
        custom_fields = resealed_fields e.custom_fields i'';
      }

  -- The stream behind the last secret of an entry.
  abbrev pub behind_entry : Entry → InnerStream → InnerStream
  behind_entry e i =
      behind_fields e.custom_fields (behind_otp e.otp_secret (behind cipher e.password i))
