-- ===== src/Tests/Regions.antt =====
-- The shared memory of two processes.
use qemu_vcs.Base.{◌+◌, ◌-◌, ◌<◌, ◌≡◌, refl, some, true, [], ◌∷◌, arith, map}
use qemu_vcs.Fifo.{put, get, send, receive, run}
use qemu_vcs.Ring.{slots}
use qemu_vcs.Ring.Refine.{contents}
use qemu_vcs.Tcp.Structs.{parse_tlp}
use qemu_vcs.Shm.{
  created, create, req_size, tlp_size, cpl_size, total_size, ctrl_offset, ctrl_size, req_offset,
  cpl_offset, dma_req_offset, dma_req_size, dma_cpl_offset, dma_cpl_size, msi_offset, msi_size,
  dma_buf_offset,
}
use qemu_vcs.Shm.Layout.{open_shm-create}
use qemu_vcs.Shm.Channels.{send_tlp, recv_tlp}
use qemu_vcs.Shm.Queues.{tlps_in_order}
use qemu_vcs.Tests.Messages.{read_tlp, read_tlp-FitsTlp}

succeeds : create true ≡ some created
unfolding create
succeeds = refl

tlps_in_order_example :
    run send_tlp recv_tlp created (send read_tlp ∷ receive ∷ receive ∷ [])
    ≡ run
        (put (slots req_size tlp_size - 1))
        get
        (map parse_tlp (contents created.req_ring))
        (send read_tlp ∷ receive ∷ receive ∷ [])
tlps_in_order_example =
    tlps_in_order (slots req_size tlp_size) created (send read_tlp ∷ receive ∷ receive ∷ [])
      (open_shm-create true {s = created} succeeds).0.req_fresh.0 (read_tlp-FitsTlp, tt)

-- Each region of the shared memory begins where the one before it ends.
regions_adjoin :
    (ctrl_offset + ctrl_size ≡ req_offset)
    × (req_offset + req_size ≡ cpl_offset)
    × (cpl_offset + cpl_size ≡ dma_req_offset)
    × (dma_req_offset + dma_req_size ≡ dma_cpl_offset)
    × (dma_cpl_offset + dma_cpl_size ≡ msi_offset)
    × (msi_offset + msi_size ≡ dma_buf_offset)
    × (dma_buf_offset < total_size)
regions_adjoin = (refl, refl, refl, refl, refl, refl, omega arith)
