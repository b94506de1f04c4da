-- ===== src/Transport.antt =====
-- bridge/common/cosim_transport.h: the table of functions that a transport offers to the bridges,
-- as far as they use it. `T` is the transport's state.
pub mod Wires
use qemu_vcs.Base.{ℕ, ◌≤◌, ◌<◌, ◌≡◌, Option, Bool, List}
use qemu_vcs.Messages.{SyncMsg, Tlp, Cpl, DmaReq, DmaCpl, Topology}
use qemu_vcs.Tcp.Message.{DmaData}

-- What a timed receive returns: -1, 1 or 0 with a message.
pub data Timed : Type 0 where
  failed nothing : Timed
  item : SyncMsg → Timed

-- `cosim_transport_t`. A `Bool` is true for the 0 of a send; `none` is the -1 of a receive.
pub record Transport (T : Type 0) : Type 0 where
  pub send_sync : T → SyncMsg → Bool × T
  pub recv_sync : T → Option SyncMsg × T
  pub recv_sync_timed : T → ℕ → Timed × T
  pub recv_tlp : T → Option Tlp × T
  pub send_cpl : T → Cpl → Bool × T
  pub send_dma_req : T → DmaReq → Bool × T
  pub send_dma_cpl : T → DmaCpl → Bool × T
  pub recv_dma_cpl : T → Option DmaCpl × T
  pub send_dma_data : T → DmaData → Bool × T
  pub recv_dma_data : T → Option DmaData × T
  pub send_topology : T → Topology → Bool × T

-- The peer has sent finitely many messages: a receive that gives one leaves fewer to come, and
-- the other calls make none.
pub record Finite {T : Type 0} (ops : Transport T) : Type 0 where
  pub pending : T → ℕ
  pub after_item :
      (t : T) (ms : ℕ) {m : SyncMsg} {t' : T}
      → ops.recv_sync_timed t ms ≡ (item m, t')
      → pending t' < pending t
  pub after_tlp : (t : T) → pending (ops.recv_tlp t).1 ≤ pending t
  pub after_send_sync : (t : T) (m : SyncMsg) → pending (ops.send_sync t m).1 ≤ pending t
  pub after_send_topology : (t : T) (x : Topology) → pending (ops.send_topology t x).1 ≤ pending t
