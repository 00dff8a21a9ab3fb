-- ===== src/Vfs.antt =====
-- The virtual file system of src/vfs.c.
pub mod Path
pub mod Mount
pub mod Ops
pub mod Window
mod Tests
