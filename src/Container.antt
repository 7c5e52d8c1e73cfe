-- ===== src/Container.antt =====
-- The container kinds of crates/blindkey-core/src/lib.rs.
use blindkey.Prelude.{
  ℕ, Bool, true, false, ◌≡◌, refl, arith, Option, none, some, List, [], ◌∷◌, codes, bytes_eq,
  bytes_eq→eq, if◌then◌else◌,
}

abbrev pub format_version : ℕ
format_version = 1

abbrev pub magic_vlt : List ℕ
magic_vlt = 0x56 ∷ 0x4C ∷ 0x54 ∷ 0x00 ∷ []

abbrev pub magic_vltf : List ℕ
magic_vltf = codes "VLTF"

abbrev pub magic_vltd : List ℕ
magic_vltd = codes "VLTD"

pub data ContainerKind : Type 0 where
  vault sealed_file volume : ContainerKind

unfoldable pub magic : ContainerKind → List ℕ
magic vault = magic_vlt
magic sealed_file = magic_vltf
magic volume = magic_vltd

unfoldable pub from_magic : List ℕ → Option ContainerKind
from_magic m =
    if bytes_eq m magic_vlt
    then some vault
    else if bytes_eq m magic_vltf
    then some sealed_file
    else if bytes_eq m magic_vltd
    then some volume
    else none

unfoldable pub kind_eq : ContainerKind → ContainerKind → Bool
kind_eq vault vault = true
kind_eq sealed_file sealed_file = true
kind_eq volume volume = true
kind_eq _ _ = false

pub from_magic-magic : (k : ContainerKind) → from_magic (magic k) ≡ some k
unfolding from_magic magic bytes_eq
from_magic-magic vault = refl
from_magic-magic sealed_file = refl
from_magic-magic volume = refl

pub magic_of_from_magic : (m : List ℕ) (k : ContainerKind) → from_magic m ≡ some k → magic k ≡ m
unfolding from_magic magic
magic_of_from_magic m k h =
    ground (arith, bytes_eq→eq m magic_vlt, bytes_eq→eq m magic_vltf, bytes_eq→eq m magic_vltd)
