-- ===== src/Lib.antt =====
-- Verification of the core of blindkey, a local credential vault written in Rust: the formats that
-- it reads from untrusted bytes, the encryption of its payload, the blocks and metadata of its
-- encrypted volumes, the anchors that notice an old copy, the vault with its entries and key stanzas,
-- and the broker that uses its secrets on behalf of an agent.
--
-- Parts and how they interact. Paths are relative to crates/blindkey-core/src but for the agent's.
--   Cursor        format/cursor.rs: the reader that every parser below runs in. A method that takes
--                 `&mut self` and may fail is an action of `Read`. Cursor.Reads says what an action
--                 returns in front of given bytes, Cursor.Takes which bytes it took where it
--                 succeeds; both are closed under the steps of a `do` block, so a parser's round
--                 trip and soundness follow its text.
--   Tlv           format/tlv.rs and tlv_incremental.rs (`write_record`, `read_record`, `feed`,
--                 `try_next_record`). Tlv.Loop is the loop over records that the parsers share.
--   InnerStream, Entry, Payload
--                 format/inner_stream.rs, entry.rs and payload.rs: the plaintext of a vault. Entries
--                 are records of fields, whose secrets are encrypted by one keystream that runs over
--                 all entries (`apply`) and stay encrypted in memory with their position
--                 (`open_at`). Payload.Parse is `Payload::parse`, Payload.Streamed the reading from
--                 decrypted chunks.
--   Envelope      envelope/mod.rs: the data key wrapped in a stanza under a password, or a password
--                 with the response of a YubiKey or a keyfile; the key comes from crypto/kdf.rs
--                 (Kdf.Argon).
--   Vault         vault.rs: `open`, `open_2fa` and `open_keyfile` over the header, the blocks, the
--                 stream and the payload; the operations on stanzas (Vault.Stanzas), on entries
--                 (Vault.Entries) and saving (Vault.Save). A call that fails after it has changed
--                 the vault gives the changed vault with the error.
--   Agent         crates/blindkey-agent/src: handle.rs and store.rs (Agent.Handle, Agent.Store),
--                 approval.rs, protocol.rs, audit.rs and inject.rs (Agent.Approval, Agent.Session)
--                 and broker/unix.rs (Agent.Broker). `handle_use` is `begin_use`, up to the start of
--                 the command, and `finish_use`, which counts the use in the handles loaded before;
--                 `interrupted_use` is the same with what other processes make of the file
--                 between them, such as `cmd_revoke` of crates/blindkey-cli/src/agent.rs.
--   Stanza, Kdf, Container, Header
--                 format/stanza.rs, the parameter policy of crypto/mod.rs, `ContainerKind` of lib.rs
--                 and format/header.rs. The struct `Header` is a `Span`, which the tags cover, and
--                 the tags; `parse_with_kind` is `read_header`, cut where the last stanza ends.
--   BlockStream   format/block_stream.rs (`frame`, `read`): the body around the payload stream.
--   Stream        crypto/stream.rs (`encrypt`, `decrypt` and their incremental forms).
--   FileArchive   format/file_archive.rs: the files inside a sealed container (`encode_hdr`,
--                 `decode_hdr`, `parse_all`, and `feed` for pieces).
--   Pad, Frecency pad.rs and frecency.rs: the length and the usage records inside the payload.
--   Rollback      rollback/mod.rs (`check`, `read_anchor`, `advance_anchor`) over one file of Files.
--   Volume        volume/block.rs, merkle.rs, inner.rs, anchor.rs and fs.rs: a block is sealed under
--                 its place, version and kind (Volume.Block), the tags of all blocks hang in a tree
--                 (Volume.Merkle), whose root stands in the doubly stored inner header
--                 (Volume.Inner) and in the local anchor (Volume.Anchor); Volume.Fs has the paths
--                 and the table of files.
--   Primitives    what the crates sha2, hmac, hkdf and chacha20poly1305 provide, as records that
--                 the definitions take: hash functions with the length of their output, and an
--                 authenticated cipher that opens exactly what it seals. Primitives.Cipher is the
--                 keystream of chacha20, which undoes itself. Primitives.Toy and ToyStream fill them
--                 with functions that can be computed.
--   Prelude, Result, Bytes
--                 shared names, the error type of error.rs, and little-endian integers.
--
-- Conventions. Bytes are native numbers below 256 where a theorem says so, and byte strings are
-- lists of them; an array `[u8; N]` is a list whose length a theorem asks for. Casts that drop
-- bits are written `% 2 ^ w`, `checked_add` and `checked_mul` as a comparison with the limit;
-- `usize` has 64 bits. An index out of range, which panics, is `none` in the tree. Random nonces
-- and what the operating system answers are arguments. Argon2id and the normalization of texts are
-- a parameter (Kdf.Argon) and so is the JSON of the handles' file (Agent.Store), with its round
-- trip as the law. Messages of the operating system are kept as the call that failed.
-- `to_lowercase` is that of ASCII where the agent's answer is compared with yes, and a parameter
-- for titles. A score is counted in quarters instead of f64.
--
-- Fuel. The loops of `read`, `push`, `decrypt` and `parse` run on the length of their input and
-- one more, since each round takes a byte at least; doubling the width of the tree runs on the
-- number of its leaves, and climbing on the length of a level. The theorems that give a result
-- show that this is enough. The loops over an archive run on the same fuel and end in an error
-- without it; that it is enough is not stated for them, nor for the loops over chunks and records
-- of Payload.Streamed, where a round takes six bytes at least. The loop of Tlv.Loop runs on the
-- length of its input and one more, a round takes the six bytes of a record's head. `bits` has one
-- round for each of the 64 bits.
--
-- Not modelled: keys in memory and their erasure, the advisory lock of the rollback anchor (its
-- body is one step), path building, threads, the creation of a vault and the search in it, FIDO2
-- and TPM stanzas, the sealed files, the synchronization of volumes and working copies, the
-- agent's sockets and its MCP server, and all interfaces to users and devices.
pub mod Agent
pub mod BlockStream
pub mod Bytes
pub mod Container
pub mod Cursor
pub mod Entry
pub mod Envelope
pub mod FileArchive
pub mod Files
pub mod Frecency
pub mod Header
pub mod InnerStream
pub mod Kdf
pub mod Pad
pub mod Payload
pub mod Prelude
pub mod Primitives
pub mod Result
pub mod Rollback
pub mod Stanza
pub mod Stream
pub mod Tlv
pub mod Vault
pub mod Volume
