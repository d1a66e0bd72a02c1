-- ===== src/Video.antt =====
-- video: the tools on dumps of RTP packets.
pub mod MediaFileParser
pub mod Stream
