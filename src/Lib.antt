-- ===== src/Lib.antt =====
-- MuMuDVB: a program that reads MPEG transport streams from DVB cards, and sends each channel over
-- the network.
--
-- Parts and how they interact. A packet of 188 bytes from the card goes to those that want its PID:
-- autoconfiguration and the rewriting of tables put the sections of PAT, PMT, SDT and EIT together
-- with `get_ts_packet` (src/ts.c), which asks the checksum of each (src/crc32.c); the packets of a
-- channel are gathered in a buffer, which goes out as multicast or to the HTTP clients of the
-- channel, where each client has a queue for what could not be sent (src/unicast_queue.c).
--
-- Which file models which part:
-- - Prelude and below it: Boolean tests on ℕ, arrays as lists of a fixed length, with `memcpy` into
--   the middle of one, and 32-bit words with their exclusive or.
-- - Crc: `crc32_table` (src/crc32.c), and the loop of `ts_check_raw_crc32` (src/ts.c) with its
--   32-bit register. A byte is a number, read modulo 2^8 (`u8`).
-- - Ts: `mumudvb_ts_packet_t` (src/ts.h) is the record `TsPacket` in Ts/Packet, with the arrays as
--   lists. Ts/Section, Ts/Full, Ts/Add and Ts/Get have `ts_check_raw_crc32`, `ts_check_crc32`,
--   `ts_partial_full`, `ts_move_part_to_full`, `add_ts_packet_data` and `get_ts_packet`; Ts/Header
--   reads the fields of headers. Each function takes the state and gives the new one, with the
--   result of the function beside it. The other files of Ts hold the proofs: Store (the buffer of
--   full sections as a queue), Valid (valid states), Keep, FirstHalf, Continue, Loop (they stay
--   so), Output, Deliver, Run (what calls of `get_ts_packet` hand out), Assemble, Whole, Several
--   (sections over several packets, and several in one). Ts/Begin has `get_ts_begin`, and
--   Ts/Service `check_pmt_service_id`.
-- - Unicast: Unicast/Queue has the five functions on the queue of a client, with the answers of
--   `malloc` as arguments; the chain of nodes is a list. Unicast/Client has `unicast_data_send`,
--   with the answers of `send`, the clock and `errno`, and gives the bytes that reached the socket.
--   Counts are natural numbers; where a count would go below zero in the source, which no queue
--   with right counts does, they stop at zero. The proofs are in Refine (a queue is a list of
--   packets), Rounds and Sending (the parts of the sending), Bounds (the size of the queue), Order
--   and Dequeue (the bytes in their order), Skip (the clients of a channel in turn), and Broken (a
--   node whose `malloc` failed).
--   Unicast/Clients has src/unicast_clients.c, with the clients in a store and what `calloc` and
--   `write` answer as arguments; the proofs below it see the list of all clients, and that of a
--   channel, as a list. A client that was freed keeps its place in the store, but in no list.
-- - Channel: Channel/Rtp has src/rtp.c, with the calls of `rand` as arguments, and Channel/Buffer
--   has `send_func` and the end of `buffer_func` of src/mumudvb_common.c, with the bytes that go
--   out. The proofs are in Sequence (headers), Multicast (what goes to the
--   multicast sockets) and Datagrams (packets in their order); the ring buffer to which
--   `buffer_func` gives the packets of a channel that is descrambled in software is not modelled.
-- - Rewrite: the rewriting of PAT, PMT, SDT and EIT. Rewrite/Table has the fields and the changes that all
--   of it makes (with `set_continuity_counter` of src/rewrite.c), Rewrite/Finish the closing of a
--   section, which stands in each of src/rewrite_pat.c, src/rewrite_pmt.c and src/rewrite_sdt.c: the
--   bytes that were written to `buf_dest` are a list, and `unsigned long` has 64 bits. Closed and
--   Sound say what such a packet is, Delivered that the reassembly reads it. Rewrite/Pat, Rewrite/Pmt
--   and Rewrite/Sdt have the functions of those three files, each with its part of
--   `rewrite_parameters_t` and `mumudvb_channel_t`, and below them the proofs: Pat/Programs and Kept
--   (the programmes of a channel), Generated, State, Made (which packet is a right one), Sent, Next; Pmt/Parts (a PMT in several
--   packets), Streams, Generated, Stale; Sdt/Packets has what is done with each packet of the SDT, and
--   the proofs are in Sdt/Descriptors, Endless, Found, Generated. The result of a
--   function that also changes a packet is the packet, where one is to be sent. Rewrite/Bytes reads
--   bytes in the middle of a table. Rewrite/Eit has what src/rewrite_eit.c stores: the chain of
--   `eit_packet_t` is a list, its arrays of 256 sections are functions, and what `calloc` answers is
--   an argument; Rewrite/Eit/Send has what is sent to a channel, as the packets that go to
--   `buffer_func`. The proofs are in Eit/Chain (where an entry stands), Sent (what is sent was
--   stored), Turn (the section to be sent is found), Carry, Calls, Pieces, Delivered (the packets are
--   read back).
-- - Autoconf: Autoconf/Pat has src/autoconf_pat.c and the loop of `autoconf_new_packet`
--   (src/autoconf.c) that calls it, Autoconf/Channel the fields of a channel that it uses, with
--   `mumu_init_chan` (src/mumudvb_channels.c). The channels are the list of the first
--   `number_of_channels`, which are 128 at most, and a new one begins as it is when the program starts;
--   what `malloc` answers is an argument, and that there was no memory is part of the result. The
--   proofs are in Pat/Places and Updated (the channel of a service), Complete (when all
--   sections were read), Statuses (what becomes of a channel when a section is read), Whole (a PAT of one section), Services and Numbers (the places of the
--   channels).
-- - T2mi: src/t2mi.c, with its static variables as the record `T2mi` and the output buffer with its
--   offset, its size and `output_bytes` as `Output`; the sums of `unsigned int` are modulo 2^32, and
--   `char` is signed. The proofs are in T2mi/Bounds (where the output ends), Unwrap (the packets that
--   are taken out) and Gather (how a T2-MI packet is put together).
-- - Examples: sections, packets, queues and channels, on which all is run.
--
-- Fuel: `add_ts_packet_data` calls itself on the bytes behind a complete section, fewer each time,
-- so its fuel is `data_left + 1`; `unicast_queue_clear` counts one packet less in each round, so
-- it has `packets_in_queue` rounds; the sending has the `packets_left` of the source. The loops over
-- the programmes, streams and services of a table move on by four bytes or more in each round, so the
-- length of the table is enough; the reading of waiting sections has 17 rounds, since 15 wait at most
-- and one may come with the packet; the loop over descriptors moves on by a byte or never, and one
-- that is running when its fuel is used up is the result `none`; the walks over a list of clients
-- have as many rounds as clients are counted. The search for an EIT table goes over 17 tables in as
-- many rounds, that for a section has as many as the table has sections, and a section is sent in at
-- most as many packets as it has bytes. The position in a T2-MI packet grows by 187 in each round and
-- ends at 65612 at the latest, so 352 rounds are enough.
--
-- A byte that the source reads from behind an array is 0, or an argument where it matters, and one
-- that it writes there is lost.
--
-- Not modelled: log messages, the mutex of a packet (one thread owns each state), the devices,
-- sockets and files, and the parts of the program other than those above.
pub mod Prelude
pub mod Crc
pub mod Ts
pub mod T2mi
pub mod Unicast
pub mod Autoconf
pub mod Channel
pub mod Rewrite
mod Examples
