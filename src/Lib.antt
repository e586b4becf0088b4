-- ===== src/Lib.antt =====
-- Norr is an encrypted tunnel for IP packets. A packet read from the tunnel device is parsed, routed
-- to a peer, queued by its class, sealed by that peer's session and sent as a datagram; a datagram
-- that arrives is parsed, opened by the session that its key id names, checked against the replay
-- window and the sender's prefixes, and delivered or sent on. This library models those parts of the
-- program as functions on values and proves what they promise.
--
-- The parts, and where they stand:
--   Packet      src/packet.cpp, include/norr/packet.hpp: the 16-byte header. `parse_packet`,
--               `serialize_header` and `serialize_packet` go by their names in the code; the fields
--               are read and written by the helpers in Wire.
--   Nonce       src/nonce.cpp: `make_nonce` and the send counter `PacketCounter::next`.
--   Replay      src/replay_window.cpp: `ReplayWindow::accept` over a bitmap of 8192 counters. Its
--               specification, a ledger that remembers every counter, is in Replay/Ledger.
--   Crypto      src/crypto.cpp: `TrafficKeys::seal` and `open` (`seal_text`, `open_text`) of the build
--               with libsodium. The two library calls are the parameter `Aead`; what they document
--               is the hypothesis `AeadLaws`.
--   Session     src/session.cpp, class Session: counters, sealing, opening, loss samples. Every
--               method that takes the session's lock is one function of the state, and Session/Calls
--               lets them come in any order, as threads interleave them.
--   SessionTable  src/session.cpp, class SessionTable: key ids, rekeys, retired sessions. Maps are
--               lists of keys and values (Prelude/Maps).
--   Address     src/address.cpp: `Address`, `Prefix::create`, `Prefix::contains`.
--   AddressText  src/address.cpp: `parse_address`, `parse_prefix` and `to_string`.
--   IpPacket    src/ip_packet.cpp: `parse_ip_packet`, `declared_ip_length` and the address classes.
--   Routing     src/routing.cpp, include/norr/routing.hpp: `RoutingTable::add`, `add_local`,
--               `clear_peer_routes`, `lookup`, `is_authorized` and `classify`. The table's lock makes
--               each call one function.
--   Qos         src/qos.cpp: `classify` and the `Scheduler` with its three queues.
--   FlowHash    src/flow_hash.cpp: `flow_key_of`, `hash_flow` and `worker_for`.
--   Timers      src/timers.cpp: `TimerWheel` and `retry_backoff`.
--   HandshakeFrame  src/handshake_frame.cpp: the envelope of handshake messages and its two codes.
--   SshFramer, DnsFramer  src/ssh_framer.cpp, src/dns_framer.cpp: tunnel frames inside SSH records and
--               DNS messages.
--   Blake2s     src/blake2s.cpp: `Blake2s` (Hash), `hmac_blake2s`, `hkdf_extract` and `hkdf_expand`
--               (Hmac). Streaming and Blocks read `update` byte by byte and block by block, and
--               Expand the rounds of `hkdf_expand`. Rfc is the hash as RFC 7693 defines it, written
--               from its text with tables and rotations of its own; Words, Compression and
--               Conformance compare the code with it.
--   KeySchedule  src/key_schedule.cpp: `make_key_label`, the labels that keys are derived under.
--   Cookie      src/cookie.cpp: `CookieIssuer`, `CookieHolder` and the bytes of a reply. libsodium is
--               the parameter `Sodium`, with what it documents in `SodiumLaws`; what `random_bytes`
--               draws is an argument of the call that draws it.
--   Fec         src/fec.cpp: the header of a symbol, the field of 256 elements, `FecEncoder` and
--               `FecDecoder`. Field and Vector have the arithmetic and its loops over buffers,
--               Encoder and Decoder the two classes, and Elimination the solving of equations in
--               `try_recover` (`solve`). The rest is on the way to Delivery: Cauchy to Columns on
--               the independence of the matrix, Dot to System on the elimination. Open to Steps
--               follow a receiver's block from its first symbol, also when the sender flushed it
--               before it was full, and Receipt is `receive` as a whole.
--   Spoof       src/spoof_pool.cpp and src/spoof_feedback.cpp: `SpoofPool`, which chooses a source
--               address and lets it cool down (Pool), the receipts and their bytes (Receipts), and
--               `SpoofFeedback`, which judges each source by a receipt (Feedback).
--   Wire        include/norr/error.hpp and the 16- and 64-bit fields of the packet header.
--   Prelude     shared names, Boolean tests, lists, maps, results, bits of words, bytes in buffers.
--
-- How the code is read. A `std::uint64_t` or `std::size_t` is a natural number, and an operation
-- that can wrap is written with its remainder (u8, u16, u64, sub64). A byte is a number below 256, a
-- span or a vector the list of its bytes. `std::expected` is `Result`, `std::optional` is `Option`.
-- A method is a function from the state to its result and the new state. A call that writes into a
-- caller's buffer gives the bytes that it wrote; what is left in the buffer after an error is not
-- modelled. Times are numbers of nanoseconds, and a difference of times that is compared with a
-- constant is written as a sum on the other side. Floating-point values stand as the exact integers
-- or fractions that they approximate: the delay totals of Qos, the loss sample of Session and the loss
-- of an FEC plan. `parity_needed`, which works in floating point, is a parameter of `FecEncoder`, and
-- `vector`, the bytes that a vector instruction takes at a time, one of the arithmetic on buffers.
-- `FecDecoder` without `spare_`, a store of emptied buffers, gives the same results. `healthy_best` in
-- `SpoofPool::pick`, an index or a value that stands for none, is an `Option`.
--
-- Loops and fuel. Loops over a list or a counter are structural. The others run on fuel: the clearing
-- loop of the replay window (8192 rounds, since `clear_range` enters it only for a shorter range),
-- the loop over key ids (65536 attempts, the code's own bound), the labels of a DNS name (the
-- length of the message, since every round passes a byte), the labels of a domain (one round more
-- than its characters, since every round but the last passes a dot), the hextets of an IPv6
-- address (likewise with colons), the loops of `Blake2s::update` and `hkdf_expand` (the bytes of the
-- input or the output, since every round takes one) and the expiry of timers (the
-- number of timers, since every round removes one).
--
-- Not modelled: sockets, threads, devices and processes, whose code is system calls; the TLS, QUIC and
-- cryptographic libraries, which are not part of the repository; text output. Nor are these parts: the
-- adaptive choice of an FEC plan, which is floating point, the control plane, the Noise handshake,
-- the envelope and the sender of spoofed packets, rate limits, path selection, obfuscation and
-- configuration.
pub mod Prelude
pub mod Wire
pub mod Address
pub mod AddressText
pub mod IpPacket
pub mod Routing
pub mod Qos
pub mod HandshakeFrame
pub mod Packet
pub mod Nonce
pub mod Replay
pub mod Spoof
pub mod SshFramer
pub mod DnsFramer
pub mod Timers
pub mod Fec
pub mod FlowHash
pub mod Blake2s
pub mod Crypto
pub mod KeySchedule
pub mod Cookie
pub mod Session
pub mod SessionTable
