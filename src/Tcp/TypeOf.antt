-- ===== src/Tcp/TypeOf.antt =====
-- bridge/common/transport_tcp.h: the type of a message on the wire, `tcp_msg_type_t`.
use qemu_vcs.Base.{ℕ}

abbrev pub handshake : ℕ
handshake = 0

abbrev pub sync : ℕ
sync = 1

abbrev pub tlp : ℕ
tlp = 2

abbrev pub cpl : ℕ
cpl = 3

abbrev pub dma_req : ℕ
dma_req = 4

abbrev pub dma_cpl : ℕ
dma_cpl = 5

abbrev pub msi : ℕ
msi = 6

abbrev pub eth_frame : ℕ
eth_frame = 7

abbrev pub dma_data : ℕ
dma_data = 8

abbrev pub query_topology : ℕ
query_topology = 16

abbrev pub topology_resp : ℕ
topology_resp = 17

abbrev pub vf_event : ℕ
vf_event = 18
