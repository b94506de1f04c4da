-- ===== src/Vcs.antt =====
-- bridge/vcs/bridge_vcs.c: the simulator's side of the bridge, over a transport.
pub mod Cache
pub mod Poll
pub mod Drain
pub mod Delivery
pub mod Dma
pub mod Answers
pub mod Complete
pub mod Replies
pub mod Shared
pub mod Scalar
pub mod Requests
