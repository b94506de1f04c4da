-- ===== src/Tcp.antt =====
-- bridge/common/transport_tcp.c: the transport between the two simulators over TCP.
pub mod Socket
pub mod TypeOf
pub mod Codec
pub mod Structs
pub mod StructRoundtrip
pub mod Channels
pub mod ChannelRoundtrip
pub mod Message
pub mod Roundtrip
pub mod Peek
pub mod Handshake
