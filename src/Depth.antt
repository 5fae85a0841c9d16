-- ===== src/Depth.antt =====
-- The market data server, Depth Data 20151224.
pub mod Bimap
pub mod Book
pub mod Token
pub mod Stream
pub mod Tests
