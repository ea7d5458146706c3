-- ===== src/Parser/Message.antt =====
-- An HTTP/1.x message as a client writes it, and which messages the parser can express. This is the
-- description against which the parser is checked; the repository has no printer of requests.
mod Line
pub mod Headers
pub mod Body
pub mod Read
pub mod Format
pub mod ZeroLength
