-- ===== src/Volume.antt =====
-- crates/blindkey-core/src/volume: the sealed blocks of a volume, the tree over their tags, the
-- inner header, the local anchor, and the paths and the table of its files.
pub mod Reader
pub mod Block
pub mod Inner
pub mod Merkle
pub mod Anchor
pub mod Fs
mod Tests
