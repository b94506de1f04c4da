-- ===== src/Eth.antt =====
-- The Ethernet link between two nodes: bridge/common/eth_types.h, bridge/common/eth_shm.c and
-- bridge/eth/*.c.
pub mod Shm
pub mod Frames
pub mod Port
pub mod Order
pub mod Dpi
