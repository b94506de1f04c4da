-- ===== src/Tests/Simulator.antt =====
-- Two writes on a small ring, an answered wait, and calls for two root complexes.
use qemu_vcs.Base.{
  ℕ, ◌+◌, ◌%◌, ◌≡◌, ◌≤◌, refl, some, none, true, false, Option, Bool, List, [], ◌∷◌, ◌++◌, arith,
  replicate, length-replicate, read_at,
}
use qemu_vcs.Messages.{DmaCpl}
use qemu_vcs.Messages.SyncType
use qemu_vcs.Ring.{Ring, dequeue, enqueue}
use qemu_vcs.Tcp.Structs.{dma_req_bytes, parse_dma_cpl}
use qemu_vcs.Transport.{item}
use qemu_vcs.Transport.Wires.{Wires, wires}
use qemu_vcs.Shm.{Shm}
use qemu_vcs.Shm.Channels.{recv_dma_cpl, send_dma_req}
use qemu_vcs.Tcp.Codec.{from_le}
use qemu_vcs.Vcs.Cache.{Rc}
use qemu_vcs.Vcs.Poll.{Polled, empty, sync}
use qemu_vcs.Vcs.Dma.{dma_read_bytes, dma_write_bytes, read_failed}
use qemu_vcs.Vcs.Shared.{
  Side, Statics, area_size, aligned_len, place, Submitted, submitted, ring_full, past_area,
  submit_write, wait_cpl,
}
use qemu_vcs.Vcs.Shared.Area.{IsPlaced, place-IsPlaced, submit_write_overwrites}
use qemu_vcs.Vcs.Shared.Answered.{Event, script, announced, wait_cpl-Answered}
use qemu_vcs.Vcs.Scalar.{Slot, Globals, init_ex_rc, set_cpl_data_rc, send_cpl_scalar_rc}
use qemu_vcs.Vcs.Scalar.Slots.{inits, sends, sets_word, calls_keep, init_ex_rc-dma_fails}
use qemu_vcs.Tests.Bridges.{rc}

-- The last transfer ended 64 bytes before the end of the area.
abbrev near_end : Statics
near_end = record { bump = 14086080; next_tag = 5000 }

near_end-IsPlaced : IsPlaced near_end
near_end-IsPlaced = record { within = omega arith; on_grid = omega arith }

place-IsPlaced_example :
    ((place near_end 100).0 % 64 ≡ 0)
    × ((place near_end 100).0 + 100 ≤ area_size)
    × IsPlaced (place near_end 100).1
place-IsPlaced_example = place-IsPlaced near_end 100 near_end-IsPlaced (omega arith)

-- Rings of three slots, the one of completions with that of tag 6000.
abbrev ring_of : ℕ → ℕ → List ℕ → Ring
ring_of tail size bytes = record {
  hdr = record { head = 0; tail = tail; capacity = 3; element_size = size };
  bytes = bytes;
}

abbrev own_cpl : DmaCpl
own_cpl = record { tag = 6000; status = 0; timestamp = 0 }

abbrev cpl_bytes : List ℕ
cpl_bytes = 112 ∷ 23 ∷ replicate 14 0

abbrev small_shm : List ℕ → Shm
small_shm dma_buf = record {
  ctrl = record {
    magic = 0;
    version = 1;
    mode = 0;
    qemu_ready = 1;
    vcs_ready = 1;
    sim_time_ns = 0;
    irq_status = [];
    mode_switch_pending = 0;
    target_mode = 0;
    precise_cycles_pending = 0;
  };
  req_ring = ring_of 0 112 [];
  cpl_ring = ring_of 0 84 [];
  dma_req_ring = ring_of 0 32 (replicate 96 0);
  dma_cpl_ring = ring_of 1 16 (cpl_bytes ++ replicate 32 0);
  msi_ring = ring_of 0 16 [];
  dma_buf = dma_buf;
}

abbrev side : Side (List Event)
side = record {
  shm = small_shm [];
  topology_area = none;
  sock = [];
  rc = rc;
  pending_tlp_ready = 1;
}

abbrev after_cpl : Shm
after_cpl = record (small_shm []) {
  dma_cpl_ring = record (ring_of 1 16 (cpl_bytes ++ replicate 32 0)) {
    hdr = record { head = 1; tail = 1; capacity = 3; element_size = 16 };
  };
}

own_first : recv_dma_cpl (small_shm []) ≡ some (own_cpl, after_cpl)
unfolding recv_dma_cpl dequeue parse_dma_cpl from_le read_at
own_first = refl

wait_cpl-Answered_example :
    wait_cpl script 1000 6000 (record side {
      sock = (item (sync SyncType.tlp_ready), λ s. s) ∷ (item (sync SyncType.dma_cpl), λ s. s) ∷ [];
    })
    ≡ (true, record side { shm = after_cpl; pending_tlp_ready = 2 })
wait_cpl-Answered_example =
    wait_cpl-Answered (announced (λ s. s) ∷ []) 1000 6000 side (λ s. s) [] own_cpl after_cpl
      (omega arith) own_first refl refl

-- The first transfers of two of the functions.
abbrev requests : Statics
requests = record { bump = 0; next_tag = 1000 }

abbrev writes : Statics
writes = record { bump = 0; next_tag = 6000 }

abbrev result : Shm → Submitted → Shm
result s (submitted offset s') = s'
result s (ring_full s') = s'
result s past_area = s

abbrev first_shm : List ℕ → Shm
first_shm dma_buf =
    result (small_shm dma_buf) (submit_write requests 4096 (1 ∷ 2 ∷ []) (small_shm dma_buf))

abbrev second_shm : List ℕ → Shm
second_shm dma_buf =
    result (first_shm dma_buf) (submit_write writes 8192 (3 ∷ 4 ∷ []) (first_shm dma_buf))

first_submitted :
    (dma_buf : List ℕ)
    → submit_write requests 4096 (1 ∷ 2 ∷ []) (small_shm dma_buf) ≡ submitted 0 (first_shm dma_buf)
unfolding submit_write place aligned_len send_dma_req enqueue dma_req_bytes
first_submitted dma_buf = refl

second_submitted :
    (dma_buf : List ℕ)
    → submit_write writes 8192 (3 ∷ 4 ∷ []) (first_shm dma_buf) ≡ submitted 0 (second_shm dma_buf)
unfolding submit_write place aligned_len send_dma_req enqueue dma_req_bytes
second_submitted dma_buf = refl

abbrev area : List ℕ
area = replicate area_size 0

submit_write_overwrites_example :
    (read_at (first_shm area).dma_buf 0 2 ≡ 1 ∷ 2 ∷ [])
    × (read_at (second_shm area).dma_buf 0 2 ≡ 3 ∷ 4 ∷ [])
submit_write_overwrites_example =
    submit_write_overwrites requests writes 4096 8192 (1 ∷ 2 ∷ []) (3 ∷ 4 ∷ []) (small_shm area)
      (first_shm area) (second_shm area) {o1 = 0} {o2 = 0} (length-replicate {A = ℕ} area_size 0)
      refl refl (first_submitted area) (second_submitted area)

abbrev blank_slot : Slot ℕ
blank_slot = record {
  rc = rc;
  link = 0;
  has_transport = false;
  poll_type = 0;
  poll_addr = 0;
  poll_len = 0;
  poll_tag = 0;
  poll_data = replicate 16 0;
  cpl_words = replicate 16 0;
  bar_base = replicate 6 0;
}

abbrev fresh : Globals ℕ
fresh = record { slots = λ r. blank_slot; num_rc = 1; initialized = false; bdf_bar_base = λ h b. 0 }

abbrev nothing_polled : Rc → ℕ → Option (Polled × (Rc × ℕ))
nothing_polled c t = some (empty, (c, t))

abbrev counted : ℕ → ℕ → List ℕ → ℕ → Bool × ℕ
counted t tag words len = (true, t + 1)

abbrev started : Globals ℕ
started = (init_ex_rc fresh 1 false true true (some 9)).1

calls_keep_example :
    (send_cpl_scalar_rc nothing_polled counted (set_cpl_data_rc started 1 0 7) 2 5 4).1.slots 0
    ≡ fresh.slots 0
calls_keep_example =
    calls_keep nothing_polled counted
      (inits 1 false true true (some 9) ∷ sets_word 1 0 7 ∷ sends 2 5 4 ∷ []) fresh 0
      {g' = (send_cpl_scalar_rc nothing_polled counted (set_cpl_data_rc started 1 0 7) 2 5 4).1}
      ((λ e. omega arith), ((λ e. omega arith), ((λ e. omega arith), tt))) refl

abbrev idle : Wires
idle = record {
  ctrl_in = [];
  tlp_in = [];
  aux_in = [];
  ctrl_out = [];
  cpl_out = [];
  aux_out = [];
  topology_out = [];
}

init_ex_rc-dma_fails_example :
    let g' = (init_ex_rc fresh 1 false true true (some 9)).1 in
    (dma_read_bytes wires g'.initialized 5000 4096 16 rc idle ≡ (read_failed, (rc, idle)))
    × (dma_write_bytes wires g'.initialized 5000 4096 (1 ∷ []) rc idle ≡ (false, (rc, idle)))
init_ex_rc-dma_fails_example =
    init_ex_rc-dma_fails wires fresh 1 9 5000 4096 16 (1 ∷ []) rc idle refl
