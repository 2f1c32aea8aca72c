-- ===== src/Rlc.antt =====
-- kernel/rlc.c and kernel/rlc.h of the RLC test: producers put packets on the to-send list, and
-- consumers give each a sequence number, move it, and put it on the sent list. A core's code between
-- two accesses to what the cores share is one step: a section under a lock (`SpinLock` says why it
-- may count as one), an atomic operation, or one packet's transfer.
pub mod Context
pub mod Memdiff
pub mod Core
mod Tally
pub mod Invariant
pub mod Steps
pub mod Packets
pub mod Orders
pub mod Safety
pub mod Stopping
pub mod LeftBehind
mod Examples
