-- ===== src/Memory.antt =====
-- src/memory: physical frames, the bitmap of a region, and the allocator over all regions.
pub mod Addr
pub mod Frame
pub mod Bitmap
pub mod Region
pub mod Allocator
pub mod Boot
pub mod Translate
pub mod Pages
pub mod Paging
pub mod Facade
pub mod Tests
