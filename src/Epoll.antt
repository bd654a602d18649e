-- ===== src/Epoll.antt =====
-- venti/platform/linux/epoll.h and epollimpl.h: the operations under way, one to a socket, started
-- by `Submit…` and finished either at once or by `Wait`.
pub mod Slot
pub mod Submit
pub mod Wait
pub mod Outcome
pub mod Submission
pub mod Branches
pub mod Handling
pub mod Local
pub mod Frame
pub mod Steps
pub mod Stepping
pub mod Faults
pub mod Lost
pub mod Safety
pub mod View
pub mod Request
pub mod Asking
pub mod Ledger
pub mod Refinement
