-- ===== src/Db.antt =====
-- The database library, db/db.c and db/apue_db.h.
pub mod State
pub mod Disk
pub mod Ops
pub mod Open
pub mod Line
pub mod Records
pub mod Chain
pub mod Search
pub mod Writers
pub mod Reread
pub mod Layout
pub mod Pairs
pub mod Valid
pub mod Insert
pub mod Unlink
pub mod Between
pub mod Found
pub mod Remove
pub mod Delete
pub mod Append
pub mod Overwrite
pub mod Insertion
pub mod Reuse
pub mod Fetch
pub mod Fresh
pub mod Next
pub mod Branches
pub mod Store
mod Tests
