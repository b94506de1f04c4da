-- ===== src/Device/Dma/Guest.antt =====
-- A DMA of bridge/vcs/bridge_vcs.c that the callback of qemu-plugin serves reads or writes the
-- guest's memory.
use qemu_vcs.Base.{
  suc, ℕ, ◌≤◌, ◌<◌, ◌≡◌, refl, sym, ap, ◌∙◌, List, [], ◌∷◌, ◌++◌, true, false, ltb, ◌==◌, ◌!=◌,
  arith, length, take, take_all,
}
use qemu_vcs.Messages.{DmaReq, dir_read, dir_write}
use qemu_vcs.Messages.SyncType
use qemu_vcs.Tcp.Message.{DmaData}
use qemu_vcs.Transport.Wires.{
  Wires, wires, Aux, req, cpl, data_block, next_sync, next_cpl, next_data,
}
use qemu_vcs.Vcs.Cache.{Rc}
use qemu_vcs.Vcs.Dma.{
  bytes_read, overrun, stale_size, complete_dma, complete_dma_with_data, wait_read, wait_write,
  dma_read_bytes, dma_write_bytes,
}
use qemu_vcs.Device.Dma.{GuestMemory, buf_size, served, dma_cb, serve_write, serve_read, Served}

-- The requests of `bridge_dma_write_bytes` and `bridge_dma_read_bytes`.
abbrev pub request : ℕ → ℕ → ℕ → ℕ → DmaReq
request tag direction host_addr len = record {
  requester_id = 0;
  tag = tag;
  direction = direction;
  host_addr = host_addr;
  len = len;
  dma_offset = 0;
  timestamp = 0;
}

abbrev pub block : ℕ → ℕ → ℕ → List ℕ → DmaData
block tag direction host_addr bytes = record {
  tag = tag;
  direction = direction;
  host_addr = host_addr;
  bytes = bytes;
}

-- The emulator, once its poller has taken a request off the auxiliary channel, with what follows
-- there, and nothing sent before.
abbrev pub emulator : List Aux → Wires
emulator behind = record {
  ctrl_in = [];
  tlp_in = [];
  aux_in = behind;
  ctrl_out = [];
  cpl_out = [];
  aux_out = [];
  topology_out = [];
}

-- What the simulator receives when the emulator has served a request.
abbrev pub answered : {M : Type 0} → Wires → Served M Wires → Wires
answered w (served m q) = record w { ctrl_in = q.ctrl_out; aux_in = q.aux_out }
answered w Served.overrun = w

abbrev pub memory : {M : Type 0} → M → Served M Wires → M
memory m (served m' q) = m'
memory m Served.overrun = m

-- What the emulator has sent when it has answered with some blocks and a completion.
abbrev pub replied : ℕ → List Aux → List Aux → Wires
replied tag behind blocks = record (emulator behind) {
  ctrl_out = record { kind = SyncType.dma_cpl; payload = tag } ∷ [];
  aux_out = blocks ++ (cpl (record { tag = tag; status = 0; timestamp = 0 }) ∷ []);
}

-- The simulator's wires with that reply on them.
abbrev reply_on : Wires → ℕ → List Aux → Wires
reply_on w tag blocks = record w {
  ctrl_in = record { kind = SyncType.dma_cpl; payload = tag } ∷ [];
  aux_in = blocks ++ (cpl (record { tag = tag; status = 0; timestamp = 0 }) ∷ []);
}

abbrev drained : Wires → Wires
drained w = record w { ctrl_in = []; aux_in = [] }

wait_write_reply :
    (rounds tag : ℕ) (c : Rc) (w : Wires)
    → wait_write wires (suc rounds) tag c (reply_on w tag []) ≡ (true, (c, drained w))
unfolding wait_write next_sync next_cpl
wait_write_reply rounds tag c w =
    let own : (tag == tag) ≡ true = ground arith in rw (wait_write, own) refl

wait_read_reply :
    (rounds tag len : ℕ) (d : DmaData) (c : Rc) (w : Wires)
    → length d.bytes ≤ stale_size
    → wait_read wires (suc rounds) tag len c (reply_on w tag (data_block d ∷ []))
      ≡ (bytes_read (take len d.bytes), (c, drained w))
unfolding wait_read next_sync next_cpl next_data
wait_read_reply rounds tag len d c w fits =
    let room : ltb stale_size (length d.bytes) ≡ false = ground arith in
    let own : (tag != tag) ≡ false = ground arith in rw (wait_read, room, own) refl

wait_read_long :
    (rounds tag len : ℕ) (d : DmaData) (c : Rc) (w : Wires)
    → stale_size < length d.bytes
    → (wait_read wires (suc rounds) tag len c (reply_on w tag (data_block d ∷ []))).0 ≡ overrun
unfolding wait_read next_sync next_data
wait_read_long rounds tag len d c w long =
    let over : ltb stale_size (length d.bytes) ≡ true = ground arith in rw (wait_read, over) refl

-- The wires with a request on them.
abbrev asked_on : Wires → DmaReq → Wires
asked_on w r = record w { aux_out = w.aux_out ++ (req r ∷ []) }

write_waits :
    (tag host_addr : ℕ) (buf : List ℕ) (c : Rc) (w : Wires)
    → 0 < length buf
    → dma_write_bytes wires true tag host_addr buf c w
      ≡ wait_write wires 1000 tag c (record w {
        aux_out =
            (w.aux_out ++ (req (request tag dir_write host_addr (length buf)) ∷ []))
            ++ (data_block (block tag dir_write host_addr buf) ∷ []);
      })
unfolding dma_write_bytes
write_waits tag host_addr buf c w some_bytes =
    let nonempty : (length buf == 0) ≡ false = ground arith in rw nonempty refl

read_waits :
    (tag host_addr len : ℕ) (c : Rc) (w : Wires)
    → 0 < len
    → dma_read_bytes wires true tag host_addr len c w
      ≡ wait_read wires 1000 tag len c (asked_on w (request tag dir_read host_addr len))
unfolding dma_read_bytes
read_waits tag host_addr len c w some_bytes =
    let nonempty : (len == 0) ≡ false = ground arith in rw nonempty refl

module _ {M : Type 0} (guest : GuestMemory M) where
  serves_write :
      (m : M) (tag host_addr : ℕ) (buf : List ℕ)
      → length buf ≤ buf_size
      → dma_cb guest wires m
          (request tag dir_write host_addr (length buf))
          (emulator (data_block (block tag dir_write host_addr buf) ∷ []))
        ≡ served (guest.write m host_addr buf) (replied tag [] [])
  unfolding dma_cb serve_write complete_dma next_data
  serves_write m tag host_addr buf fits =
      let short : ltb buf_size (length buf) ≡ false = ground arith in rw short refl

  serves_read :
      (m : M) (tag host_addr len : ℕ)
      → len ≤ buf_size
      → dma_cb guest wires m (request tag dir_read host_addr len) (emulator [])
        ≡ served m (
            replied tag []
              (data_block (block tag dir_read host_addr (guest.read m host_addr len)) ∷ []))
  unfolding dma_cb serve_read complete_dma_with_data complete_dma
  serves_read m tag host_addr len fits =
      let short : ltb buf_size len ≡ false = ground arith in rw short refl

  -- A DMA write of the simulator, of at most 65536 bytes, that the emulator serves ends well; the
  -- request and its data have gone out, in this order, and the guest's memory has the bytes at the
  -- address.
  pub write_served :
      (m : M) (tag host_addr : ℕ) (buf : List ℕ) (c : Rc) (w : Wires)
      → 0 < length buf
      → length buf ≤ buf_size
      → let asked = request tag dir_write host_addr (length buf) in
        let sent = block tag dir_write host_addr buf in
        let end = dma_cb guest wires m asked (emulator (data_block sent ∷ [])) in
        (dma_write_bytes wires true tag host_addr buf c (answered w end) ≡ (
          true,
          (
            c,
            record w {
              ctrl_in = [];
              aux_in = [];
              aux_out = (w.aux_out ++ (req asked ∷ [])) ++ (data_block sent ∷ []);
            },
          ),
        ))
        × (memory m end ≡ guest.write m host_addr buf)
  write_served m tag host_addr buf c w some_bytes fits =
      let e = serves_write m tag host_addr buf fits in
      let w' = reply_on w tag [] in
      (
        ap (λ x. dma_write_bytes wires true tag host_addr buf c (answered w x)) e
            ∙ write_waits tag host_addr buf c w' some_bytes
            ∙ wait_write_reply 999 tag c (record w {
              aux_out =
                  (w.aux_out ++ (req (request tag dir_write host_addr (length buf)) ∷ []))
                  ++ (data_block (block tag dir_write host_addr buf) ∷ []);
            }),
        ap (memory m) e,
      )

  -- A DMA read of the simulator, of at most 4096 bytes, that the emulator serves ends with the bytes
  -- that the guest's memory has at the address, and changes nothing there; the request that is
  -- served is the one that has gone out, and nothing else has.
  pub read_served :
      (m : M) (tag host_addr len : ℕ) (c : Rc) (w : Wires)
      → ((a n : ℕ) → length (guest.read m a n) ≡ n)
      → 0 < len
      → len ≤ stale_size
      → let asked = request tag dir_read host_addr len in
        let end = dma_cb guest wires m asked (emulator []) in
        (dma_read_bytes wires true tag host_addr len c (answered w end) ≡ (
          bytes_read (guest.read m host_addr len),
          (c, record w { ctrl_in = []; aux_in = []; aux_out = w.aux_out ++ (req asked ∷ []) }),
        ))
        × (memory m end ≡ m)
  read_served m tag host_addr len c w exact some_bytes fits =
      let bytes = guest.read m host_addr len in
      let d = block tag dir_read host_addr bytes in
      let e = serves_read m tag host_addr len (omega arith) in
      (
        ap (λ x. dma_read_bytes wires true tag host_addr len c (answered w x)) e
            ∙ read_waits tag host_addr len c (reply_on w tag (data_block d ∷ [])) some_bytes
            ∙ wait_read_reply 999 tag len d c (asked_on w (request tag dir_read host_addr len))
                (omega (arith, exact host_addr len))
            ∙ ap
                (λ bs.
                  (bytes_read bs, (c, drained (asked_on w (request tag dir_read host_addr len)))))
                (ap (λ n. take n bytes) (sym (exact host_addr len)) ∙ take_all bytes),
        ap (memory m) e,
      )

  -- A DMA read of more than 4096 bytes, and at most 65536, that the emulator serves writes past the
  -- end of the local buffer of `bridge_dma_read_bytes`.
  pub read_overruns :
      (m : M) (tag host_addr len : ℕ) (c : Rc) (w : Wires)
      → ((a n : ℕ) → length (guest.read m a n) ≡ n)
      → stale_size < len
      → len ≤ buf_size
      → (dma_read_bytes wires true tag host_addr len c
          (answered w (dma_cb guest wires m (request tag dir_read host_addr len) (emulator [])))).0
        ≡ overrun
  read_overruns m tag host_addr len c w exact long fits =
      let d = block tag dir_read host_addr (guest.read m host_addr len) in
      ap (λ x. (dma_read_bytes wires true tag host_addr len c (answered w x)).0)
        (serves_read m tag host_addr len fits)
      ∙ ap (λ x. x.0)
          (read_waits tag host_addr len c (reply_on w tag (data_block d ∷ [])) (omega arith))
      ∙ wait_read_long 999 tag len d c (asked_on w (request tag dir_read host_addr len))
          (omega (arith, exact host_addr len))
