-- ===== src/Vq/Receive.antt =====
-- bridge/vcs/virtqueue_dma.c: the receive queue. The frames that the port has for it are a list:
-- each call of `vcs_eth_mac_recv_raw` takes the first.
use qemu_vcs.Base.{
  ℕ, zero, suc, ◌+◌, ◌-◌, Bool, true, false, none, some, List, [], ◌∷◌, if◌then◌else◌, ltb, ◌==◌,
  ◌&&◌, not, length, take, drop, u32, u64,
}
use qemu_vcs.Tcp.Codec.{from_le, le16}
use qemu_vcs.Vq.{
  Queue, Guest, Desc, read_desc, has_next, is_writable, max_chain, avail_entry, put_used, advance,
}

-- `vnet_hdr`: twelve bytes, with `num_buffers` 1.
abbrev pub vnet_hdr : List ℕ
vnet_hdr = 0 ∷ 0 ∷ 0 ∷ 0 ∷ 0 ∷ 0 ∷ 0 ∷ 0 ∷ 0 ∷ 0 ∷ 1 ∷ 0 ∷ []

module _ {M : Type 0} (guest : Guest M) where
  -- What the walk along a chain carries: the memory, whether the header is written, the bytes of
  -- the frame that are left, and `total_written`.
  pub record Walk : Type 0 where
    pub mem : M
    pub hdr_written : Bool
    pub left : List ℕ
    pub total : ℕ

  -- The end of a walk, or of a step: -1 leaves the memory as the writes before it made it.
  pub data Injected : Type 0 where
    walked : Walk → Injected
    failed : M → Injected

  -- The bytes of the frame that go to an address with so much room, where there is any.
  unfoldable pub put_data : Walk → ℕ → ℕ → Injected
  put_data w addr room =
      let bytes = take room w.left in
      elim (guest.dma_write w.mem addr bytes) [
        | none ↦ failed w.mem
        | some m ↦
            walked
              (record w { mem = m; left = drop room w.left; total = u32 (w.total + length bytes) })
      ]

  -- The first writable descriptor: the header, and data behind it.
  unfoldable pub put_header : Walk → Desc → Injected
  unfolding put_data
  put_header w d =
      let hdr_len = if ltb d.len 12 then d.len else 12 in
      elim (guest.dma_write w.mem d.addr (take hdr_len vnet_hdr)) [
        | none ↦ failed w.mem
        | some m ↦
            let w' = record w { mem = m; hdr_written = true; total = u32 (w.total + hdr_len) } in
            if ltb 0 (d.len - hdr_len) && ltb 0 (length w.left)
            then put_data w' (u64 (d.addr + hdr_len)) (d.len - hdr_len)
            else walked w'
      ]

  -- What `rx_inject_one` does with one descriptor.
  unfoldable pub put_desc : Walk → Desc → Injected
  unfolding put_header put_data
  put_desc w d =
      if not (is_writable d)
      then walked w
      else (if w.hdr_written
          then (if ltb 0 (length w.left) then put_data w d.addr d.len else walked w)
          else put_header w d)

  -- The loop of `rx_inject_one`, for at most so many descriptors more.
  unfoldable pub inject : ℕ → Queue → ℕ → Walk → Injected
  unfolding put_desc
  inject zero q cur w = walked w
  inject (suc n) q cur w = elim (read_desc guest q w.mem cur) [
    | none ↦ failed w.mem
    | some d ↦ elim (put_desc w d) [
      | failed m ↦ failed m
      | walked w' ↦ elim (has_next d) [ true ↦ inject n q d.next w' | false ↦ walked w' ]
    ]
  ]

  -- `rx_inject_one`
  unfoldable pub inject_one : Queue → M → ℕ → List ℕ → Injected
  unfolding inject
  inject_one q m head_idx frame =
      inject max_chain q head_idx (record { mem = m; hdr_written = false; left = frame; total = 0 })

  -- The end of `vcs_vq_process_rx`: the frames injected, the queue, the memory and the frames that
  -- the port still has; or a division by 0.
  pub data RxEnd : Type 0 where
    injected : ℕ → Queue → M → List (List ℕ) → RxEnd
    undefined : RxEnd

  -- One round of the loop with a frame that the port has: it stops before the frame is taken; it
  -- stops after; the frame is injected; or the ring's size is 0.
  pub data Round : Type 0 where
    kept : Round
    lost : Queue → M → Round
    done : Queue → M → Round
    divides : Round

  -- The used entry of a frame, and the index that is published after it.
  unfoldable pub complete : Queue → ℕ → Walk → Round
  unfolding put_used
  complete q head w = elim (put_used guest q w.mem head w.total) [
    | none ↦ lost q w.mem
    | some m ↦
        let q' = advance guest q in
        elim (guest.dma_write m (u64 (q.used_gpa + 2)) (le16 q'.last_used)) [
          | none ↦ lost q' m
          | some m' ↦ done q' m'
        ]
  ]

  -- What follows once the frame is taken.
  unfoldable pub deliver : Queue → M → List ℕ → Round
  unfolding inject_one avail_entry complete
  deliver q m frame = if q.size == 0 then divides else elim (avail_entry guest q m) [
    | none ↦ lost q m
    | some head ↦ elim (inject_one q m head frame) [
      | failed m' ↦ lost q m'
      | walked w ↦ complete q head w
    ]
  ]

  unfoldable pub round : Queue → M → List ℕ → Round
  unfolding deliver
  round q m frame = elim (guest.dma_read m q.avail_gpa 4) [
    | none ↦ kept
    | some hdr ↦
        if q.last_avail == from_le (drop 2 hdr)
        then kept
        else (if length frame == 0 then lost q m else deliver q m frame)
  ]

  -- The loop of `vcs_vq_process_rx`.
  unfoldable pub rx_loop : Queue → M → ℕ → List (List ℕ) → RxEnd
  unfolding round
  rx_loop q m n [] = injected n q m []
  rx_loop q m n (f ∷ fs) = elim (round q m f) [
    | kept ↦ injected n q m (f ∷ fs)
    | lost q' m' ↦ injected n q' m' fs
    | done q' m' ↦ rx_loop q' m' (n + 1) fs
    | divides ↦ undefined
  ]

  -- `vcs_vq_process_rx`
  unfoldable pub process_rx : Queue → M → List (List ℕ) → RxEnd
  unfolding rx_loop
  process_rx q m frames = if q.configured then rx_loop q m 0 frames else injected 0 q m frames
