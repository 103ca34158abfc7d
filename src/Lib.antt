-- ===== src/Lib.antt =====
-- bristlemouth_rs: the protocol logic of a Bristlemouth node, from the crate bm-wire.
--
-- The program has a crate for the wire formats and the protocol state of a node, bm-wire, which does
-- no input or output: a runtime (bm-stack) hands it frames and the time and sends what it asks for.
-- What is modelled here is the state that bm-wire keeps.
--
-- Neighbor: bm-wire/src/neighbor.rs. A heartbeat from the network goes through `on_heartbeat`, and
-- `check` is called with the time to find the neighbours that went silent. Invariant, Lookup,
-- Capacity and Liveness hold what is proved of the two.
--
-- Dfu: the firmware update. Dfu.Message is bm-wire/src/bcmp/dfu.rs, the messages; the rest is
-- bm-wire/src/bcmp/dfu_core.rs: Dfu.Event the states, events and errors, Dfu.Queue the ring of
-- waiting events, Dfu.Core the data that the client and the host work on with the timers,
-- Dfu.Machine the state machine, Dfu.Client and its children the client of
-- bm-wire/src/bcmp/dfu_client.rs, Dfu.Host the host of dfu_host.rs in the same folder with its
-- stream buffer in Dfu.Stream. A message from the network becomes an event of the queue by
-- `on_message`, a timer does by `advance_to`, a local request by `initiate_update`; `step` takes one
-- event and runs it.
--
-- Pubsub: bm-wire/src/pubsub.rs, the publications and the table of subscriptions. The topics are
-- matched by `bm_wildcard_match` of bm-wire/src/util.rs, in Util.Wildcard.
--
-- Service: bm-wire/src/service/table.rs, the table of services that a request, which comes as a
-- publication, is looked up in, and the headers of requests and replies.
--
-- L2: bm-wire/src/l2.rs, which stamps the port that a frame leaves on into the frame, with the
-- checksum kept in step, and takes the stamp off again.
--
-- Util: the functions of bm-wire/src/util.rs that these use. Common: lists, byte strings and
-- results, with bm-wire/src/le.rs in Common.Bytes.
--
-- Correspondence. A struct is a record and an enum a data type with the source's fields and
-- variants. An array of which only the first `len` elements are ever read is the list of those, and
-- its length a field; the ring of Dfu.Queue keeps its slots. Integers are natural numbers: u32
-- arithmetic is written out modulo 2 ^ 32, and `as i32` as a test against 2 ^ 31. A method on `&mut
-- self` takes the value and returns it beside the result. A byte string is a list of numbers.
--
-- The loop of `fire_due` runs on fuel, three rounds for three timers, and a theorem says that these
-- always suffice. The loop of `bm_wildcard_match` runs on fuel taken from the two lengths, and a
-- theorem says that it ends within it.
--
-- The traits `Roles` and `Effects` are parameters of the machine: records of functions on the
-- machine and on the state of its surroundings. Of the roles some theorems assume that they do not
-- write the field `state`, which is private to dfu_core.rs; the client alone and the client with the
-- host fill the record. A method of these with the core and the effects at hand is a function on the
-- record `Dfu` of Dfu.Machine, which holds the three. Of the flash, `StoresWrites`, `ReadsSlot` and
-- `WritesSucceed` say what is relied on. The client's two accesses to the configuration store are
-- fields of `Effects`.
--
-- The transfer is related to the list of the bytes received: Dfu.Client.Transfer has the relation,
-- its children the steps, up to the event of the whole machine. Crc is bm-wire/src/crc.rs;
-- Crc.Reference holds the shift register that crc16_ccitt is compared with, and Crc.Xor the laws of
-- exclusive or. Checksum is bm-wire/src/checksum.rs: its u32 wraps around, and three rounds of the
-- fold are enough for any u32; Checksum.Folding has the one's complement numbers that the folded sum
-- stands for, Checksum.Rfc2460 the layout of the RFC that the sum is compared with.
--
-- Bcmp is the header of bm-wire/src/bcmp/header.rs and `accept` of bm-wire/src/bcmp/rx.rs: it gives
-- back the frame as it leaves it, beside the outcome, in which the panic of `expect` is `none`.
-- Bcmp.Fields says what the clears of a frame leave of its fields. Bcmp.Transmit is
-- bm-wire/src/bcmp/tx.rs, Bcmp.Forward is bm-wire/src/bcmp/forward.rs; Bcmp.Framing has the frame
-- that both make, a message with its checksum behind headers, and Bcmp.Sealing what `accept` makes
-- of it. Addr is what they use of bm-wire/src/addr.rs, with the headers of bm-wire/src/frame.rs.
--
-- Registry is bm-wire/src/bcmp/registry.rs: the sequence number that a message is sent with comes
-- from `on_serialize`, and a message that `accept` takes goes through `on_received`. Registry.Sweep
-- says what becomes of each request; the loop of `sweep` runs as many rounds as there are requests,
-- which is enough, since each round passes or removes one.
--
-- Configuration is bm-wire/src/configuration.rs: a partition is the list of the bytes of its image,
-- which the operations edit at the offsets of the layout, and its values are read by the heads of
-- Configuration.Head. What the cbor2 crate writes for a head is the argument `Encoder`, and the
-- flash that an image is read from is an argument of `load_with`. Configuration.Places has the
-- offsets of the slots, Configuration.Counting what a write leaves of the size and the count,
-- Configuration.Storing and Configuration.Found what it leaves of the keys; Configuration.Sealing
-- and Configuration.Loading are about the CRC. The loop of `copy_string` runs on fuel, one round
-- more than the slot has bytes; a chunk has a byte at least, which Configuration.Chunks is about.
--
-- Not modelled: `next_deadline` of the core, which only reads; the logging and formatting of the
-- client and the host; the names of the BCMP message types; the other message codecs, the CBOR map
-- of a partition, the rest of the service layer, the firmware image crates (bm-mcuboot, bm-image),
-- the runtime and the drivers, and the crates that bind and compare the C library.
pub mod Common
pub mod Util
pub mod Crc
pub mod Checksum
pub mod Addr
pub mod Bcmp
pub mod Neighbor
pub mod Pubsub
pub mod L2
pub mod Registry
pub mod Configuration
pub mod Service
pub mod Dfu
pub mod Tests
