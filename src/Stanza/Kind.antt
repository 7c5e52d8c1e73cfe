-- ===== src/Stanza/Kind.antt =====
-- The stanza types and their names, of the same file.
use blindkey.Prelude.{
  ℕ, ◌+◌, ◌≡◌, arith, Option, none, some, List, map, ◌&&◌, ◌||◌, leb, ◌==◌, codes, bytes_eq,
  if◌then◌else◌,
}

abbrev pub password : ℕ
password = 1

abbrev pub fido2 : ℕ
fido2 = 2

abbrev pub yubikey : ℕ
yubikey = 3

abbrev pub tpm : ℕ
tpm = 4

abbrev pub keychain : ℕ
keychain = 5

abbrev pub dpapi : ℕ
dpapi = 6

abbrev pub pw_yubikey : ℕ
pw_yubikey = 7

abbrev pub pw_keyfile : ℕ
pw_keyfile = 8

unfoldable pub kind_name : ℕ → List ℕ
kind_name t =
    if t == password
    then codes "password"
    else if t == fido2
    then codes "fido2"
    else if t == yubikey
    then codes "yubikey"
    else if t == tpm
    then codes "tpm"
    else if t == keychain
    then codes "keychain"
    else if t == dpapi
    then codes "dpapi"
    else if t == pw_yubikey
    then codes "pw-yubikey"
    else if t == pw_keyfile
    then codes "pw-keyfile"
    else codes "unknown"

-- `to_ascii_lowercase` of the standard library on one byte.
unfoldable pub ascii_lower : ℕ → ℕ
ascii_lower c = if leb b'A' c && leb c b'Z' then c + 32 else c

kind_of_lower : List ℕ → Option ℕ
unfolding bytes_eq
kind_of_lower name =
    if bytes_eq name (codes "password")
    then some password
    else if bytes_eq name (codes "fido2")
    then some fido2
    else if bytes_eq name (codes "yubikey")
    then some yubikey
    else if bytes_eq name (codes "tpm")
    then some tpm
    else if bytes_eq name (codes "keychain") || bytes_eq name (codes "secure-enclave")
    then some keychain
    else if bytes_eq name (codes "dpapi")
    then some dpapi
    else if bytes_eq name (codes "pw-yubikey") || bytes_eq name (codes "pw_yubikey")
    then some pw_yubikey
    else if bytes_eq name (codes "pw-keyfile") || bytes_eq name (codes "pw_keyfile")
    then some pw_keyfile
    else none

unfoldable pub parse_kind_name : List ℕ → Option ℕ
unfolding kind_of_lower
parse_kind_name name = kind_of_lower (map ascii_lower name)

-- The name of a stanza type parses back to it exactly for the eight known types: for every other
-- type the name does not parse.
pub parse_kind_name-kind_name :
    (t : ℕ) → parse_kind_name (kind_name t) ≡ (if leb 1 t && leb t 8 then some t else none)
unfolding kind_name parse_kind_name ascii_lower
parse_kind_name-kind_name t = ground arith
