-- ===== src/Malloc.antt =====
-- labs/08-malloc: the heap that the allocator gets its memory from, and the check of the driver that the
-- payloads it hands out do not overlap. A pointer is its address, and sums of addresses do not wrap.
pub mod Heap
pub mod Ranges
mod Tests
