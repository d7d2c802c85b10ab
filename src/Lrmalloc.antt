-- ===== src/Lrmalloc.antt =====
-- src/allocator/lrmalloc: the parts of the allocator. A pointer is its address, null is 0.
pub mod Anchor
pub mod SizeClasses
pub mod Stack
pub mod Cache
pub mod Descriptor
pub mod Slots
pub mod Partial
pub mod Heap
pub mod Allocator
pub mod Tests
