-- ===== src/Common.antt =====
-- common/: helpers over words, and the codec of token names.
pub mod Words
pub mod Token
pub mod TokenCodec
mod TokenTest
