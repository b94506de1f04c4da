-- ===== src/Device/Dma.antt =====
-- qemu-plugin/cosim_pcie_rc.c and cosim_pcie_pf.c: the DMA requests of the simulator on the guest's
-- memory.
pub mod Guest
use qemu_vcs.Base.{
  ℕ, ◌+◌, Bool, true, false, Option, none, some, List, if◌then◌else◌, ltb, ◌==◌, length, write_at,
  read_at,
}
use mathlib.Core.Option
use qemu_vcs.Messages.{DmaReq, dir_write}
use qemu_vcs.Tcp.Message.{DmaData}
use qemu_vcs.Transport.{Transport}
use qemu_vcs.Shm.{Shm}
use qemu_vcs.Socket.{Socket}
use qemu_vcs.Qemu.Shared.{complete_dma_shm}
use qemu_vcs.Vcs.Dma.{complete_dma, complete_dma_with_data}

-- The guest's memory: `pci_dma_write` or `cpu_physical_memory_write`, and
-- `cpu_physical_memory_read`.
pub record GuestMemory (M : Type 0) : Type 0 where
  pub write : M → ℕ → List ℕ → M
  pub read : M → ℕ → ℕ → List ℕ

-- The size of the callbacks' local buffers.
abbrev pub buf_size : ℕ
buf_size = 65536

-- What a callback leaves: the guest's memory and the transport, or a write past the buffer.
pub data Served (M T : Type 0) : Type 0 where
  served : M → T → Served M T
  overrun : Served M T

module _ {M : Type 0} (guest : GuestMemory M) where
  module _ {T : Type 0} (ops : Transport T) where
    -- A write: the data come behind the request.
    unfoldable pub serve_write : M → DmaReq → Option DmaData × T → Served M T
    unfolding complete_dma
    serve_write m req (none, t) = served m (complete_dma ops t req.tag 1).1
    serve_write m req (some d, t) =
        if ltb buf_size (length d.bytes)
        then overrun
        else served (guest.write m req.host_addr d.bytes) (complete_dma ops t req.tag 0).1

    -- A read: what does not fit the buffer is cut off.
    unfoldable pub serve_read : M → DmaReq → T → Served M T
    unfolding complete_dma_with_data
    serve_read m req t =
        let len = if ltb buf_size req.len then buf_size else req.len in
        served m
          (complete_dma_with_data ops t 0 (record {
            tag = req.tag;
            direction = req.direction;
            host_addr = req.host_addr;
            bytes = guest.read m req.host_addr len;
          })).1

    -- `cosim_dma_cb` and `cosim_pf_dma_cb` with a transport.
    unfoldable pub dma_cb : M → DmaReq → T → Served M T
    unfolding serve_write serve_read
    dma_cb m req t =
        if req.direction == dir_write
        then serve_write m req (ops.recv_dma_data t)
        else serve_read m req t

  -- The callbacks over the shared memory: the data are in the DMA area, at the offset of the
  -- request.
  unfoldable pub dma_cb_shm : {K : Type 0} → Socket Shm K → M → DmaReq → Shm → K → M × (Shm × K)
  unfolding complete_dma_shm
  dma_cb_shm sock m req s k =
      if req.direction == dir_write
      then (
        guest.write m req.host_addr (read_at s.dma_buf req.dma_offset req.len),
        (complete_dma_shm sock req.tag 0 s k).1,
      )
      else (
        m,
        (complete_dma_shm sock req.tag 0
            (record s {
              dma_buf = write_at s.dma_buf req.dma_offset (guest.read m req.host_addr req.len);
            })
            k).1,
      )
