-- ===== src/Kdf/Toy.antt =====
-- A password hash that can be computed, to run the code on.
use blindkey.Prelude.{true, some, ◌++◌, replicate}
use blindkey.Primitives.Toy.{mix}
use blindkey.Kdf.Argon.{Argon}

abbrev pub toy_argon : Argon
toy_argon = record {
  nfc = λ text. text;
  accepts = λ m t p. true;
  hash_password = λ password salt m t p. some (replicate 32 (mix (password ++ salt)));
}
