-- ===== src/Mem.antt =====
-- src/kernel/drivers/mem.c.
pub mod Bitmap
pub mod Frames
pub mod Init
pub mod Heap
pub mod Inspect
mod Tests
