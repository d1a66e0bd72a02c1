-- ===== src/Media.antt =====
-- media: what receives RTP packets, prints them and dumps them to a file.
pub mod RtpUtil
pub mod UdpServer
mod Tests
