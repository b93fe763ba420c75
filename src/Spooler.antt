-- ===== src/Spooler.antt =====
-- The print spooler, printer/printd.c, printer/print.c and printer/util.c.
pub mod Jobs
pub mod Pending
pub mod Workers
pub mod Unreached
pub mod Ipp
pub mod Header
pub mod Files
pub mod Accept
pub mod Stored
pub mod Threads
pub mod Printing
pub mod Response
pub mod Rounds
pub mod Restart
pub mod Recovery
pub mod Jobno
pub mod Client
pub mod Config
mod Tests
