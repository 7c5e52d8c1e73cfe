-- ===== src/Vault/Entries.antt =====
-- The operations of crates/blindkey-core/src/vault.rs on the entries of an opened vault. The lower
-- case of a text, `str::to_lowercase`, is a parameter.
use blindkey.Prelude.{
  ℕ, Bool, not, Option, none, some, List, [], ◌∷◌, ◌++◌, length, ◌==◌, bytes_eq, if◌then◌else◌,
}
use blindkey.Frecency.{FrecencyStore, record_use as record_usage, forget}
use blindkey.Entry.{Entry}
use blindkey.Vault.{Vault}

abbrev pub with_entries : Vault → List Entry → Vault
with_entries v es = record v { payload = record v.payload { entries = es } }

unfoldable pub add_entry : Vault → Entry → Vault
add_entry v entry = with_entries v (v.payload.entries ++ (entry ∷ []))

unfoldable pub record_use : Vault → List ℕ → ℕ → Vault
record_use v id now = record v {
  payload = record v.payload { usage = record_usage v.payload.usage id now };
}

unfoldable pub forget_all : List (List ℕ) → FrecencyStore → FrecencyStore
forget_all [] usage = usage
forget_all (id ∷ ids) usage = forget_all ids (forget usage id)

module _ (to_lowercase : List ℕ → List ℕ) where
  abbrev pub matches : List ℕ → Entry → Bool
  matches t e = bytes_eq (to_lowercase e.title) t

  unfoldable pub find_entry : List Entry → List ℕ → Option Entry
  find_entry [] t = none
  find_entry (e ∷ es) t = let later = find_entry es t in if matches t e then some e else later

  -- `entry_mut` lends the same entry.
  unfoldable pub get : Vault → List ℕ → Option Entry
  get v title = find_entry v.payload.entries (to_lowercase title)

  unfoldable pub retain_others : List ℕ → List Entry → List Entry
  retain_others t [] = []
  retain_others t (e ∷ es) = let rest = retain_others t es in if matches t e then rest else e ∷ rest

  unfoldable pub removed_ids : List ℕ → List Entry → List (List ℕ)
  removed_ids t [] = []
  removed_ids t (e ∷ es) = let rest = removed_ids t es in if matches t e then e.id ∷ rest else rest

  -- The vault, and whether an entry was removed.
  unfoldable pub remove : Vault → List ℕ → Vault × Bool
  remove v title =
      let t = to_lowercase title in
      let kept = retain_others t v.payload.entries in
      let usage = forget_all (removed_ids t v.payload.entries) v.payload.usage in
      (
        record v { payload = record v.payload { entries = kept; usage = usage } },
        not (length kept == length v.payload.entries),
      )
