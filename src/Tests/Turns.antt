-- ===== src/Tests/Turns.antt =====
-- A ring with two DMA requests, for a turn of the poller over the shared memory.
use qemu_vcs.Base.{ℕ, ◌*◌, none, true, List, [], ◌∷◌, ◌++◌, replicate}
use qemu_vcs.Messages.{SyncMsg}
use qemu_vcs.Ring.{Ring}
use qemu_vcs.Transport.{nothing}
use qemu_vcs.Shm.{Shm}
use qemu_vcs.Socket.{Socket}
use qemu_vcs.Device.Dma.{GuestMemory}

abbrev empty_ring : ℕ → Ring
empty_ring size = record {
  hdr = record { head = 0; tail = 0; capacity = 3; element_size = size };
  bytes = replicate (3 * size) 0;
}

-- Three slots, with a read of four bytes and a write of two.
abbrev requests : Ring
requests = record {
  hdr = record { head = 0; tail = 2; capacity = 3; element_size = 32 };
  bytes = replicate 20 0 ++ (4 ∷ replicate 19 0 ++ (1 ∷ replicate 11 0 ++ (2 ∷ replicate 43 0)));
}

abbrev memory : Shm
memory = record {
  ctrl = record {
    magic = 0;
    version = 1;
    mode = 0;
    qemu_ready = 1;
    vcs_ready = 1;
    sim_time_ns = 0;
    irq_status = [];
    mode_switch_pending = 0;
    target_mode = 0;
    precise_cycles_pending = 0;
  };
  req_ring = empty_ring 112;
  cpl_ring = empty_ring 84;
  dma_req_ring = requests;
  dma_cpl_ring = empty_ring 16;
  msi_ring = empty_ring 16;
  dma_buf = replicate 64 0;
}

-- A guest that reads sevens, and a socket that keeps what is sent.
abbrev sevens : GuestMemory (List ℕ)
sevens = record { write = λ m addr bytes. bytes; read = λ m addr len. replicate len 7 }

abbrev kept : Socket Shm (List SyncMsg)
kept = record {
  send = λ k m. (true, k ++ (m ∷ []));
  recv_sync = λ s k. (none, (s, k));
  recv_sync_timed = λ s k ms. (nothing, (s, k));
}
