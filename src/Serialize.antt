-- ===== src/Serialize.antt =====
-- serialize/: the binary codec of the network messages and of the database.
pub mod Buffer
pub mod Types
pub mod Writer
pub mod Reader
pub mod Cursor
pub mod Spec
pub mod Scalars
pub mod Prefix
pub mod RoundTrip
pub mod Totality
pub mod Safety
mod Tests
