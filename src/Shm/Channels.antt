-- ===== src/Shm/Channels.antt =====
-- bridge/common/transport_shm.c: the channels of the transport over shared memory that are rings.
-- `none` is the -1 of a full ring or of an empty one.
use mathlib.Core.Option
use qemu_vcs.Base.{ℕ, Bool, Option, List, if◌then◌else◌}
use qemu_vcs.Messages.{Tlp, Cpl, DmaReq, DmaCpl, MsiEvent}
use qemu_vcs.Ring.{Ring, enqueue, dequeue}
use qemu_vcs.Tcp.Structs.{
  tlp_bytes, parse_tlp, cpl_bytes, parse_cpl, dma_req_bytes, parse_dma_req, dma_cpl_bytes,
  parse_dma_cpl, msi_bytes, parse_msi,
}
use qemu_vcs.Shm.{Shm}

abbrev pub set_req : Shm → Ring → Shm
set_req s r = record s { req_ring = r }

abbrev pub set_cpl : Shm → Ring → Shm
set_cpl s r = record s { cpl_ring = r }

abbrev pub set_dma_req : Shm → Ring → Shm
set_dma_req s r = record s { dma_req_ring = r }

abbrev pub set_dma_cpl : Shm → Ring → Shm
set_dma_cpl s r = record s { dma_cpl_ring = r }

abbrev pub set_msi : Shm → Ring → Shm
set_msi s r = record s { msi_ring = r }

-- The bytes taken from a ring, as the structure that they are copied into.
abbrev pub taken_as : {A : Type 0} → (List ℕ → A) → (Ring → Shm) → List ℕ × Ring → A × Shm
taken_as parse set (bytes, r) = (parse bytes, set r)

-- `shm_send_tlp`
unfoldable pub send_tlp : Shm → Tlp → Option Shm
unfolding enqueue tlp_bytes
send_tlp s x = Option.map (set_req s) (enqueue s.req_ring (tlp_bytes x))

-- `shm_recv_tlp`
unfoldable pub recv_tlp : Shm → Option (Tlp × Shm)
unfolding dequeue parse_tlp
recv_tlp s = Option.map (taken_as parse_tlp (set_req s)) (dequeue s.req_ring)

-- `shm_send_cpl`
unfoldable pub send_cpl : Shm → Cpl → Option Shm
unfolding enqueue cpl_bytes
send_cpl s x = Option.map (set_cpl s) (enqueue s.cpl_ring (cpl_bytes x))

-- `shm_recv_cpl`
unfoldable pub recv_cpl : Shm → Option (Cpl × Shm)
unfolding dequeue parse_cpl
recv_cpl s = Option.map (taken_as parse_cpl (set_cpl s)) (dequeue s.cpl_ring)

-- `shm_send_dma_req`
unfoldable pub send_dma_req : Shm → DmaReq → Option Shm
unfolding enqueue dma_req_bytes
send_dma_req s x = Option.map (set_dma_req s) (enqueue s.dma_req_ring (dma_req_bytes x))

-- `shm_recv_dma_req`, and `shm_recv_dma_req_nb`, whose 1 is `none`
unfoldable pub recv_dma_req : Shm → Option (DmaReq × Shm)
unfolding dequeue parse_dma_req
recv_dma_req s = Option.map (taken_as parse_dma_req (set_dma_req s)) (dequeue s.dma_req_ring)

-- `shm_send_dma_cpl`
unfoldable pub send_dma_cpl : Shm → DmaCpl → Option Shm
unfolding enqueue dma_cpl_bytes
send_dma_cpl s x = Option.map (set_dma_cpl s) (enqueue s.dma_cpl_ring (dma_cpl_bytes x))

-- `shm_recv_dma_cpl`
unfoldable pub recv_dma_cpl : Shm → Option (DmaCpl × Shm)
unfolding dequeue parse_dma_cpl
recv_dma_cpl s = Option.map (taken_as parse_dma_cpl (set_dma_cpl s)) (dequeue s.dma_cpl_ring)

-- `shm_send_msi`
unfoldable pub send_msi : Shm → MsiEvent → Option Shm
unfolding enqueue msi_bytes
send_msi s x = Option.map (set_msi s) (enqueue s.msi_ring (msi_bytes x))

-- `shm_recv_msi`, and `shm_recv_msi_nb`, whose 1 is `none`
unfoldable pub recv_msi : Shm → Option (MsiEvent × Shm)
unfolding dequeue parse_msi
recv_msi s = Option.map (taken_as parse_msi (set_msi s)) (dequeue s.msi_ring)

-- `shm_peer_ready`, for the server and for the client
unfoldable pub peer_ready : Bool → Shm → ℕ
peer_ready is_server s = if is_server then s.ctrl.vcs_ready else s.ctrl.qemu_ready

-- `shm_set_ready`
unfoldable pub set_ready : Bool → Shm → Shm
set_ready is_server s =
    if is_server
    then record s { ctrl = record (s.ctrl) { qemu_ready = 1 } }
    else record s { ctrl = record (s.ctrl) { vcs_ready = 1 } }
