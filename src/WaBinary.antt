-- ===== src/WaBinary.antt =====
-- ngenorca-whatsapp-web/src/binary.rs: the WABinary codec, its token dictionary, nodes, encoder and
-- decoder. Strings and buffers are lists of bytes.
pub mod Tokens
pub mod Utf8
pub mod Node
pub mod Encoder
pub mod Decoder
mod TokenLaws
mod Written
mod Strings
pub mod Fits
mod Contents
mod Parts
pub mod RoundTrip
mod Progress
pub mod Termination
pub mod Frames
mod Tests
