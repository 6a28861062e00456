-- ===== src/Core.antt =====
-- source/Core: the bytes of a network message and the buffers that hold them.
pub mod Endian
pub mod Message
pub mod Buffer
