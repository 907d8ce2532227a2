-- ===== src/Lib.antt =====
-- tuntom carries IP packets between two peers over UDP, and between the ports of local switches.
--
-- The parts, and the files that model them. Paths are from the repository's root.
--   Packet           src/packet_types.hpp, src/protocol_constants.hpp: the packet of every session, and
--                    the limits that the other parts share.
--   Wire             src/wire.hpp: big-endian integers, `store_be64`, `load_be64` and the like, as
--                    functions between numbers and lists of bytes.
--   Fragmentation    src/fragmentation.hpp and the cutting loop of `Tunnel::send_data` in
--                    src/tunnel.hpp: a packet becomes a plan, and the plan a list of packets.
--   Reassembly       src/reassembly.hpp: the pool that puts fragments together again. `accept` takes the
--                    pool, a fragment and the time, and gives the pool and the packet, if one is
--                    complete. `std::unordered_map` is a list of pairs in the order of arrival; the
--                    iterators into the two orders are the identifiers themselves.
--   Replay           src/replay.hpp: the numbers that a sender gives to its packets, and the window of
--                    the receiver that takes each number once.
--   Ascon            the interface of src/ascon.hpp, a record of functions and two of their laws.
--   Info             src/info_codec.hpp: the lines of an INFO packet, decoded into fields.
--   ProtocolV5       src/protocol.hpp: the codec. `encode_into` gives the bytes of a packet or an error,
--                    `decode_with_scratch` the packet or nothing.
--   KeySchedule      src/akdf.hpp, src/x25519.hpp and the expansions of src/session.hpp: how the keys of
--                    a session come about.
--   Session          src/session.hpp: the handshake and the sessions of both roles. Each operation takes
--                    the configuration and the state, the times, and what `random_bytes` answers.
--   Pmtud            src/tunnel.hpp, `start_pmtud` to `advance_pmtud_search`: the search for the largest
--                    datagram that the path carries. The codec, the socket and the clock are a record of
--                    functions, `Link`.
--   UdpTxQueue       src/udp_tx_queue.hpp: the ring of datagrams that the socket did not take.
--   AuthState        src/v5_auth_state.hpp: the states of the authentication of a session.
--   AdaptivePolling  src/adaptive_polling.hpp: the state that decides how many packets the event loop
--                    takes in a round.
--   LruCache         src/adapter/lru_cache.hpp: the cache of the exit adapter, for any keys and values.
--   V5Extension      src/v5_extension.hpp: the messages of authentication and relocation, `encode` and
--                    `decode` with the name of the message.
--   RetryQueue       src/ipc/retry_queue.hpp: the ring of records that a local socket did not take.
--   StackMatch       src/switch_stack_match.hpp: the stacks of labels that a switch rule accepts.
--   SwitchAdmission  src/accept_backoff.hpp, and `limited_to` of src/switch_admission.hpp: when a switch
--                    accepts again, and how its descriptors are shared out.
--   BufferPool       src/switch_mp/queues.hpp, `Buffer` and `Pool`: the buffers of a switch port.
--   Spsc             src/switch_mp/queues.hpp, `Spsc`: the ring of one producer and one consumer, each
--                    atomic access a step; the two interleave in any order.
--   Via              src/via/codec.hpp: the envelope in a stack of labels, `attach` and `split`.
--   Relay            src/relay/protocol.hpp: the records between a relay and its endpoints, and the
--                    directory of channels in a snapshot.
--   SwitchProtocol   src/ipc/switch_protocol.hpp: the frames between a switch and its ports.
--   Base             the names and lemmas that the parts share.
--
-- A packet that is too large goes through Fragmentation at the sender and Reassembly at the receiver;
-- the plan's size limit comes from the transport MTU that Pmtud finds. Datagrams that the socket refuses
-- wait in UdpTxQueue. ProtocolV5 makes the datagrams, with the keys that Session has agreed on. At the receiver, Replay refuses a datagram before Reassembly sees it, and
-- AuthState decides whether data may pass at all. Wire serves the frames of SwitchProtocol.
--
-- Integers are natural numbers with the wrap-around written out where the source can reach it; times are
-- nanoseconds of the clock. A C++ exception is an error value, an output parameter with a Boolean result
-- is an option. Allocation failures are left out. Atomic accesses are single steps
-- of a sequentially consistent memory.
--
-- Loops are structural recursion or recursion on fuel. The eviction loop of the pool is given one more
-- than the number of entries, since each round takes one entry off. `send_mtu_probe` and
-- `advance_pmtud_search` call each other after a failed send: each failed size is smaller than the last,
-- so fuel above the largest size is enough. The loops of the queue get as many rounds as it has entries.
--
-- Not modelled: the cipher and the curve, which are parameters, the event loops, sockets, TUN
-- devices and the control plane, the switch's rules and processes, the relay's registry and endpoint, the divert programs and the via switch,
-- and the tools around them (fabric, deploy, experiments, tests).
pub mod Base
pub mod Wire
pub mod Packet
pub mod Ascon
pub mod Info
pub mod ProtocolV5
pub mod KeySchedule
pub mod Session
pub mod Replay
pub mod SwitchProtocol
pub mod Reassembly
pub mod Fragmentation
pub mod Pmtud
pub mod AuthState
pub mod UdpTxQueue
pub mod AdaptivePolling
pub mod LruCache
pub mod V5Extension
pub mod RetryQueue
pub mod StackMatch
pub mod SwitchAdmission
pub mod BufferPool
pub mod Spsc
pub mod Via
pub mod Relay
