-- ===== src/Unicast.antt =====
-- src/unicast_queue.c and src/unicast_clients.c: the packets that wait for an HTTP client, the
-- sending of a channel's buffer to its clients, and the lists of clients.
pub mod Queue
pub mod Refine
pub mod Broken
pub mod Client
pub mod Sending
pub mod Rounds
pub mod Bounds
pub mod Order
pub mod Dequeue
pub mod Skip
pub mod Clients
