-- ===== src/Memory.antt =====
-- Memory as a function from indices to cells: `memcpy` into and out of it, and windows that go
-- round a ring of `size` cells.
pub mod Copy
pub mod Window
pub mod Messages
