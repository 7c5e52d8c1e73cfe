-- ===== src/Payload/Tests.antt =====
-- A payload of one entry with every kind of field.
use blindkey.Prelude.{
  ◌≡◌, ◌≤◌, ◌<◌, refl, arith, true, some, [], ◌∷◌, ◌++◌, length, replicate, map, codes,
}
use blindkey.Result.{ok}
use blindkey.Prelude.{All}
use blindkey.Bytes.{le_bytes, u64_mod}
use blindkey.Volume.Fs.Utf8.{is_utf8}
use blindkey.Tlv.{write_record, max_entry_len}
use blindkey.Pad.Mode.{PadMode, to_byte}
use blindkey.Frecency.{is_empty, serialize as serialize_usage}
use blindkey.Primitives.Cipher.{apply_keystream}
use blindkey.Primitives.ToyStream.{toy_cipher}
use blindkey.InnerStream.{new, new_seal_key, apply}
use blindkey.Entry.{
  Entry, plain, secret, expose, serialize as serialize_entry, write_protected, write_tags,
  write_otp, write_expiry, write_value, write_custom,
}
use blindkey.Entry.RoundTrip.{IsEntry}
use blindkey.Entry.Revealed.{SecretsSealed, revealed}
use blindkey.Payload.{Payload, write_entries, serialize}
use blindkey.Payload.Parse.{parse}
use blindkey.Payload.RoundTrip.{IsPayload, parse-serialize_padded}

abbrev mail : Entry
mail = record {
  id = replicate 16 1;
  title = codes "mail";
  username = codes "me";
  password = plain (codes "pw");
  url = codes "u";
  notes = [];
  tags = codes "home" ∷ [];
  otp_secret = some (plain (codes "otp"));
  created_at = 7;
  modified_at = 8;
  expires_at = some 9;
  custom_fields = record { name = codes "pin"; value = secret (plain (codes "12")) } ∷ [];
}

mail-IsEntry : IsEntry toy_cipher mail
unfolding expose is_utf8
mail-IsEntry = record {
  id_length = refl;
  title = (refl, omega arith);
  username = (refl, omega arith);
  password = omega arith;
  url = (refl, omega arith);
  notes = (refl, omega arith);
  tags = ((refl, omega arith), tt);
  otp_secret = omega arith;
  created_at = omega arith;
  modified_at = omega arith;
  expires_at = omega arith;
  custom_fields = (((refl, omega arith), omega arith), tt);
}

abbrev sample : Payload
sample = record {
  inner_stream_key = plain (replicate 64 3);
  pad_mode = PadMode.padme;
  vault_version = 5;
  yubikey_strict = true;
  entries = mail ∷ [];
  usage = [];
}

mail_size : length (serialize_entry toy_cipher mail (new (replicate 64 3))).0 ≤ max_entry_len
unfolding serialize_entry write_protected write_tags write_otp write_expiry write_value write_custom
    expose apply apply_keystream write_record le_bytes new
mail_size = omega arith

sample-IsPayload : IsPayload toy_cipher sample
unfolding expose serialize_usage
sample-IsPayload = record {
  key_length = refl;
  version_fits = omega arith;
  entries = (mail-IsEntry, mail_size, tt);
  usage = tt;
  usage_order = tt;
  usage_short = omega arith;
}

sample_size : length (serialize toy_cipher sample ++ replicate 3 0) < u64_mod
unfolding serialize write_entries serialize_entry write_protected write_tags write_otp write_expiry
    write_value write_custom expose apply apply_keystream write_record le_bytes new is_empty to_byte
sample_size = omega arith

parse-serialize_padded_example :
    (q : Payload) × (parse toy_cipher (serialize toy_cipher sample ++ replicate 3 0) ≡ ok q)
    × (q ≡ record sample { inner_stream_key = plain (replicate 64 3); entries = q.entries })
    × (map (revealed toy_cipher) q.entries ≡ map (revealed toy_cipher) (mail ∷ []))
    × All (SecretsSealed (new_seal_key (replicate 64 3))) q.entries
unfolding expose
parse-serialize_padded_example =
    parse-serialize_padded toy_cipher sample sample-IsPayload (replicate 3 0) sample_size
