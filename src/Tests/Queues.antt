-- ===== src/Tests/Queues.antt =====
-- Small rings and pools for the queues and the allocator.
use qemu_vcs.Base.{ℕ, ◌-◌, ◌≤◌, ◌≡◌, refl, some, false, List, [], ◌∷◌, arith}
use qemu_vcs.Fifo.{put, get, Op, send, receive, run}
use qemu_vcs.Ring.{Ring, enqueue, dequeue}
use qemu_vcs.Ring.Inv.{IsValid}
use qemu_vcs.Ring.Refine.{contents}
use qemu_vcs.Ring.Order.{ring_run}
use qemu_vcs.DmaPool.{Pool, alloc_among, alloc_loop, aligned, Round}
use qemu_vcs.DmaPool.Regions
use qemu_vcs.DmaPool.Regions.{alloc_all, alloc_all-Packed, alloc_among-Atomic, Atomic, Packed}

-- Three slots of two bytes, one of them in use.
abbrev small_ring : Ring
small_ring = record {
  hdr = record { head = 2; tail = 0; capacity = 3; element_size = 2 };
  bytes = 0 ∷ 0 ∷ 0 ∷ 0 ∷ 7 ∷ 8 ∷ [];
}

small_ring-IsValid : IsValid small_ring
small_ring-IsValid = record {
  two = omega arith;
  sized = omega arith;
  head_in = omega arith;
  tail_in = omega arith;
  fits = omega arith;
  small = omega arith;
}

abbrev calls : List (Op (List ℕ))
calls = send (1 ∷ 2 ∷ []) ∷ send (3 ∷ 4 ∷ []) ∷ receive ∷ receive ∷ receive ∷ []

ring_run_example :
    run enqueue dequeue small_ring calls ≡ run (put (3 - 1)) get (contents small_ring) calls
ring_run_example = ring_run 3 2 small_ring calls (small_ring-IsValid, refl, refl) (refl, (refl, tt))

-- A region of 22 bytes holds the header and three elements of two bytes.
abbrev region : Ring
region = record {
  hdr = record { head = 9; tail = 9; capacity = 9; element_size = 9 };
  bytes = 0 ∷ 0 ∷ 0 ∷ 0 ∷ 0 ∷ 0 ∷ [];
}

abbrev ready : Ring
ready = record region { hdr = record { head = 0; tail = 0; capacity = 3; element_size = 2 } }

abbrev pool : Pool
pool = record { total_size = 4096; next_free = 64; used_bytes = 64 }

pool-IsValid : Regions.IsValid pool
pool-IsValid = record { within = omega arith; on_grid = refl }

alloc_all-Packed_example :
    Packed 64
      (alloc_all pool (100 ∷ 5000 ∷ 1 ∷ [])).0
      (alloc_all pool (100 ∷ 5000 ∷ 1 ∷ [])).1.next_free
    × ((alloc_all pool (100 ∷ 5000 ∷ 1 ∷ [])).1.next_free ≤ 4096)
alloc_all-Packed_example =
    alloc_all-Packed pool (100 ∷ 5000 ∷ 1 ∷ []) (omega arith, (omega arith, (omega arith, tt)))
      pool-IsValid

-- Another thread takes 64 bytes before the first compare-exchange.
abbrev disturbed : List Round
disturbed =
    record { others = λ q. record q { next_free = 128 }; spurious = false }
    ∷ record { others = λ q. q; spurious = false }
    ∷ []

disturbed_result :
    alloc_among pool 100 disturbed
    ≡ some (128, record { total_size = 4096; next_free = 256; used_bytes = 192 })
unfolding alloc_among alloc_loop aligned
disturbed_result = refl

alloc_among-Atomic_example :
    Atomic pool 100 disturbed (128, record { total_size = 4096; next_free = 256; used_bytes = 192 })
alloc_among-Atomic_example =
    alloc_among-Atomic pool 100 disturbed
      (128, record { total_size = 4096; next_free = 256; used_bytes = 192 })
      ((λ q. refl), ((λ q. refl), tt)) disturbed_result
