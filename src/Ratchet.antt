-- ===== src/Ratchet.antt =====
-- impl/eh2/ratchet.ts: the double ratchet over the EH-2 handshake. The closure variables of
-- `ratchetFrom` are the fields of a record; the clock, fresh keys and the randomness of ML-KEM are
-- arguments of each call. Wiping of buffers is not modelled: no wiped buffer is read again.
pub mod Headers
pub mod Skipped
pub mod State
pub mod Sending
pub mod Receiving
pub mod Transaction
pub mod Store
pub mod Spent
pub mod Opened
pub mod Replay
pub mod Waiting
pub mod Overtaken
pub mod Delivery
mod Tests
