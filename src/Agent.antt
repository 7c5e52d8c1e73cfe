-- ===== src/Agent.antt =====
-- crates/blindkey-agent: the broker that uses an unlocked vault on behalf of an agent. Texts are
-- lists of their characters.
pub mod Handle
pub mod Store
pub mod Approval
pub mod Session
pub mod Broker
pub mod Text
mod Toy
