-- ===== src/Lib.antt =====
-- Encedo Chat: the engine of the TypeScript client (impl/).
--
-- Two people who hold each other's keys meet on a topic of a relay, agree on a session by the
-- EH-2 handshake, and exchange messages sealed by a double ratchet; a file may go straight down a
-- DataChannel. The modules below follow these parts.
--
-- - Wc (impl/lib/wc.ts): the byte helpers.
--
-- - Wire (impl/eh2/wire.ts): the three handshake frames as bytes. `encode_msg1` and so on are
--   `encodeMsg1` and so on; a thrown `WireError` is an error value. Cursor has the lemmas on
--   reading, RoundTrip and Canonical the two directions of the codec.
--
-- - Handshake (impl/eh2/handshake.ts): the four steps of EH-2. What a step throws is an error
--   value; what it draws is an argument. Honest runs the steps of two parties against each other,
--   Session takes the results to the ratchets, Guards is about what a step that returned has
--   checked.
--
-- - Establish (impl/eh2/establish.ts): the two objects that are fed with frames. A msg3 that was
--   refused leaves the pending state wiped, as in the source. Gate is about any frames at all,
--   Run about those of two honest parties.
--
-- - Senderkey (impl/lib/senderkey.ts): the sending chain of a group member and the receiving
--   chain that the others keep of it. `seal` and `open_text` are `seal` and
--   `SenderReceiver.open`, which answers null, a plaintext or a thrown bound. Order and Arrivals
--   are about messages that come in any order, InStep about those that come in theirs.
--
-- - Group (impl/lib/group.ts, the class GroupSession, and impl/lib/derive.ts): one member's
--   session of a group at one epoch. Wire and Records are the frame, Delivery and Talk two
--   members, Verified what a frame must prove, Keys how a sender's key comes and what was held
--   for it, Holding how much is held. A callback of the session is an event in its answer;
--   `release`, which the source starts and does not wait for, runs to its end.
--
-- - GroupManager (impl/lib/group.ts, the class GroupManager): all groups of an identity.
--   `apply_skd` is `applySkd`, with what it throws as the outcome; Advance is about any
--   distributions, Joining about the admin's own; Snapshot is what the cache keeps of the groups,
--   with its round trip. Random keys are arguments. A public key or an id of a key is its base64
--   text; texts that are not base64, where `atob` throws, are left out.
--
-- - Xfer (impl/lib/xfer.ts, and the loop of impl/lib/xfer-session.ts): the protocol of a direct
--   file transfer. Sender and Receiver are the two state machines, their closure variables the
--   fields of a record; Receiver has its Invariant, what is Reached from an offer, and the Order
--   of the chunks kept; Transfer runs the two against each other.
--
-- - Ratchet (impl/eh2/ratchet.ts): the double ratchet with its hybrid steps. The closure
--   variables of `ratchetFrom` are the record Ratchet; what a call draws (time, fresh keys,
--   randomness) is the record World; `decrypt` answers null, a plaintext or a thrown bound. State
--   is the record and how it starts, Sending is `encrypt`, Receiving is `decrypt`, Headers the
--   frame header and its codec, Skipped the store of keys for messages that have not come yet;
--   Transaction, Delivery, Spent, Opened, Replay, Waiting, Overtaken and Store hold the proofs.
--
-- - Outbox (impl/cli/outbox.ts): the queue of the daemon's notifications. Sorting is about its
--   filters and its sort, Caps about how many wait, Keeps about what an entry that is added does
--   to those that wait, Windows about what may go and when.
--
-- - Queue (impl/cli/queue.ts): the outbox, driven. `flush`, `tick`, `submit` and `ack` take what
--   the room answers as an argument and run to their end; Keeps is about what a flush does to the
--   entries that wait.
--
-- - Nodepick (impl/lib/nodepick.ts): which relay to dial and when to leave it, by its Best,
--   Rebalance and Order. Rolls are whole millionths.
--
-- - Envelope (impl/lib/fileenvelope.ts): the prefix of an uploaded file.
--
-- - Seen (impl/lib/seen.ts): what the record of a contact says of it.
--
-- - Toy: a toy of the cryptography for the tests.
--
-- - Crypto and JsMap: the cryptographic primitives as a parameter, and JavaScript's Map.
--
-- Byte strings are lists of numbers, times are natural numbers of milliseconds, and where the
-- source subtracts times the difference is cut at 0: the tests there ask whether it passes a
-- bound that is not negative or reaches one that is positive, and a negative difference does
-- neither, as 0 does not.
--
-- The loop of a transfer recurs on the number of chunks of the offer, which is enough for it to
-- end.
--
-- Not modelled: the UI, the network transports, the hardware key store, and the cryptographic
-- primitives, which are parameters.
pub mod Prelude
pub mod JsMap
pub mod Crypto
pub mod Wc
pub mod Wire
pub mod Xfer
pub mod Ratchet
pub mod Outbox
pub mod Nodepick
pub mod Envelope
pub mod Seen
pub mod Handshake
pub mod Establish
pub mod Toy
pub mod Senderkey
pub mod Group
pub mod GroupManager
pub mod Queue
