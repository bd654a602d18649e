-- ===== src/Win.antt =====
-- venti/platform/win/: the Windows build's sockets.
pub mod Os
pub mod Map
pub mod Select
pub mod Sock
pub mod Signal
pub mod Iocp
