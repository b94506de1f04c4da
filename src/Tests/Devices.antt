-- ===== src/Tests/Devices.antt =====
-- A small endpoint, a guest of one memory and a queue with one interrupt for the devices.
use qemu_vcs.Base.{
  ℕ, ◌%◌, ◌^◌, ◌*◌, ◌≡◌, refl, none, some, true, List, [], ◌∷◌, ◌++◌, arith, replicate,
  length-replicate,
}
use qemu_vcs.Fifo.{put, get, Op, send, receive, run}
use qemu_vcs.Messages.{dir_read, dir_write}
use qemu_vcs.Transport.Wires.{Wires, wires, req, data_block}
use qemu_vcs.Tests.Bridges.{rc}
use qemu_vcs.Vcs.Dma.{dma_read_bytes, dma_write_bytes, bytes_read}
use qemu_vcs.Qemu.{Bridge}
use qemu_vcs.Device.Irq.{Irq, next_irq}
use qemu_vcs.Device.Irq.Order
use qemu_vcs.Device.Irq.Order.{contents, enqueue, irq_run, bottom_half_all}
use qemu_vcs.Device.Mmio.{mmio_read, mmio_write}
use qemu_vcs.Device.Mmio.Endpoint.{Quad, Endpoint, endpoint}
use qemu_vcs.Device.Mmio.Bytes.{AreBytes, half1, mmio_read-mmio_write}
use qemu_vcs.Device.Dma.{GuestMemory, dma_cb}
use qemu_vcs.Device.Dma.Guest.{
  request, block, emulator, answered, memory, write_served, read_served,
}

-- Vector 5 waits in slot 255; the indices are past the end of the array.
abbrev one_waits : Irq ℕ
one_waits = record { slots = replicate 255 0 ++ (5 ∷ []); head = 511; tail = 512 }

one_waits-IsValid : Order.IsValid one_waits
one_waits-IsValid = record { length_ok = refl; ordered = omega arith; bounded = omega arith }

abbrev interrupts : List (Op ℕ)
interrupts = send 7 ∷ receive ∷ send 0xFFFE ∷ receive ∷ receive ∷ receive ∷ []

irq_run_example :
    run enqueue (next_irq 0) one_waits interrupts
    ≡ run (put 256) get (contents 0 one_waits) interrupts
irq_run_example = irq_run 0 one_waits interrupts one_waits-IsValid (omega arith) (tt, (tt, tt))

abbrev quad : Quad
quad = record { b0 = 1; b1 = 2; b2 = 3; b3 = 4 }

quad-AreBytes : AreBytes quad
quad-AreBytes = record {
  b0_ok = omega arith;
  b1_ok = omega arith;
  b2_ok = omega arith;
  b3_ok = omega arith;
}

abbrev device : Bridge Endpoint
device = record {
  transport = record { mem = λ a. quad; answer = none };
  next_tag = 255;
  tag_mask = 255;
}

mmio_read-mmio_write_example :
    (mmio_read endpoint
      (mmio_write endpoint (some device) 0xFE000000 0x11 0xABCD1234 2)
      0xFE000000
      0x11
      2).0
    ≡ 0xABCD1234 % 2 ^ (8 * 2)
mmio_read-mmio_write_example =
    mmio_read-mmio_write half1 0x3F800004 0xFE000000 0x11 device 0xABCD1234 (refl, omega arith)
      quad-AreBytes

-- A guest whose memory is the last write, and that reads zeros.
abbrev last_write : GuestMemory (ℕ × List ℕ)
last_write = record { write = λ m addr bytes. (addr, bytes); read = λ m addr len. replicate len 0 }

abbrev idle : Wires
idle = emulator []

abbrev written : List ℕ
written = 8 ∷ 9 ∷ []

write_served_example :
    let asked = request 3000 dir_write 0xFEE00000 2 in
    let sent = block 3000 dir_write 0xFEE00000 written in
    let end = dma_cb last_write wires (0, []) asked (emulator (data_block sent ∷ [])) in
    (dma_write_bytes wires true 3000 0xFEE00000 written rc (answered idle end)
      ≡ (true, (rc, record idle { aux_out = req asked ∷ data_block sent ∷ [] })))
    × (memory (0, []) end ≡ (0xFEE00000, written))
write_served_example =
    write_served last_write (0, []) 3000 0xFEE00000 written rc idle (omega arith) (omega arith)

read_served_example :
    let end = dma_cb last_write wires (0, []) (request 2000 dir_read 4096 3) (emulator []) in
    (dma_read_bytes wires true 2000 4096 3 rc (answered idle end) ≡ (
      bytes_read (replicate 3 0),
      (rc, record idle { aux_out = req (request 2000 dir_read 4096 3) ∷ [] }),
    ))
    × (memory (0, []) end ≡ (0, []))
read_served_example =
    read_served last_write (0, []) 2000 4096 3 rc idle (λ a n. length-replicate {A = ℕ} n 0)
      (omega arith) (omega arith)
