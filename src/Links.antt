-- ===== src/Links.antt =====
-- Doubly linked lists in a store: an address is a number, and 0 is the null pointer.
pub mod Segments
pub mod Ends
pub mod Removal
pub mod Payload
