-- ===== src/Channel.antt =====
-- The buffer of a channel and its RTP header: `buffer_func` and `send_func` of
-- src/mumudvb_common.c, and src/rtp.c.
pub mod Rtp
pub mod Buffer
pub mod Sequence
pub mod Multicast
pub mod Datagrams
