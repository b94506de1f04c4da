-- ===== src/Poller/Served.antt =====
-- The thread of bridge/qemu/irq_poller.c with the DMA callback of qemu-plugin, over the shared
-- memory.
use mathlib.Core.Option
use qemu_vcs.Base.{ℕ, ◌≡◌, refl, Option, length, ◌==◌, write_at, read_at, List, if◌then◌else◌}
use qemu_vcs.Fifo.{Impl}
use qemu_vcs.Fifo.Encoded.{Coding, Part, encoded}
use qemu_vcs.Messages.{DmaReq, dir_write}
use qemu_vcs.Ring.{Ring}
use qemu_vcs.Ring.Refine.{ring_fifo}
use qemu_vcs.Tcp.Codec.{le16, le32, le64}
use qemu_vcs.Tcp.Structs.{dma_req_bytes, parse_dma_req}
use qemu_vcs.Tcp.StructRoundtrip.{FitsDmaReq, parse_dma_req_lem}
use qemu_vcs.Shm.{Shm, dma_req_entry_size}
use qemu_vcs.Shm.Channels.{set_dma_req}
use qemu_vcs.Socket.{Socket}
use qemu_vcs.Device.Dma.{GuestMemory, dma_cb_shm}

abbrev req_coding : Coding DmaReq
req_coding = record {
  encode = dma_req_bytes;
  decode = parse_dma_req;
  Fits = FitsDmaReq;
  decode_lem = parse_dma_req_lem;
}

abbrev req_part : Part Shm Ring
req_part = record {
  part = λ s. s.dma_req_ring;
  put_part = set_dma_req;
  part-put_part = λ s r. refl;
}

length-dma_req_bytes : (x : DmaReq) → FitsDmaReq x → length (dma_req_bytes x) ≡ dma_req_entry_size
unfolding dma_req_bytes le16 le32 le64
length-dma_req_bytes x i = refl

abbrev req_fifo : ℕ → Impl DmaReq
req_fifo cap = encoded (ring_fifo cap dma_req_entry_size) req_coding req_part length-dma_req_bytes

-- What the completions do not touch: the ring of requests and the DMA area.
abbrev kept_part : Shm → Ring × List ℕ
kept_part s = (s.dma_req_ring, s.dma_buf)

module _ {M K : Type 0} (guest : GuestMemory M) (sock : Socket Shm K) where
  -- `cosim_dma_cb` as the poller calls it, on the guest's memory and the socket.
  abbrev pub serve : DmaReq → M × K → Shm → (M × K) × Shm
  serve req (m, k) s = let (m', (s', k')) = dma_cb_shm guest sock m req s k in ((m', k'), s')

  -- What a request asks for, on the guest's memory and the DMA area: a write copies the bytes at its
  -- offset of the area to its address, and a read copies those at its address to its offset.
  abbrev pub transfer : DmaReq → M × List ℕ → M × List ℕ
  transfer req (m, area) =
      if req.direction == dir_write
      then (guest.write m req.host_addr (read_at area req.dma_offset req.len), area)
      else (m, write_at area req.dma_offset (guest.read m req.host_addr req.len))

  -- The guest's memory and the DMA area.
  abbrev pub seen : M × K → Shm → M × List ℕ
  seen w s = (w.0, s.dma_buf)
