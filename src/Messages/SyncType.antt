-- ===== src/Messages/SyncType.antt =====
-- bridge/common/cosim_types.h: the kinds of a synchronisation message, `sync_msg_type_t`.
use qemu_vcs.Base.{ℕ}

abbrev pub tlp_ready : ℕ
tlp_ready = 0

abbrev pub cpl_ready : ℕ
cpl_ready = 1

abbrev pub mode_switch : ℕ
mode_switch = 2

abbrev pub shutdown : ℕ
shutdown = 3

abbrev pub dma_req : ℕ
dma_req = 4

abbrev pub dma_cpl : ℕ
dma_cpl = 5

abbrev pub msi : ℕ
msi = 6

abbrev pub clock_step : ℕ
clock_step = 7

abbrev pub clock_ack : ℕ
clock_ack = 8

abbrev pub query_topology : ℕ
query_topology = 16

abbrev pub topology_resp : ℕ
topology_resp = 17

abbrev pub vf_event : ℕ
vf_event = 18
