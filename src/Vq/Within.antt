-- ===== src/Vq/Within.antt =====
-- The receive queue of bridge/vcs/virtqueue_dma.c writes frames inside the guest's buffers only.
use qemu_vcs.Base.{
  ℕ, zero, suc, ◌+◌, ◌-◌, ◌^◌, ◌≤◌, ◌<◌, ◌≡◌, refl, sym, ◌∙◌, Bool, true, false, Option, none, some,
  List, if◌then◌else◌, ltb, ◌&&◌, length, take, drop, length-take, u32, u64, arith, Bool-cases, inl,
  inr,
}
use qemu_vcs.Vq.{Queue, Guest, Desc, read_desc, has_next, is_writable, max_chain}
use qemu_vcs.Vq.Receive.{
  vnet_hdr, Walk, Injected, walked, failed, put_data, put_header, put_desc, inject, inject_one,
}

module _ {M : Type 0} (guest : Guest M) where
  -- A descriptor of the table, as the memory has it when the frame is injected.
  abbrev pub InTable : Queue → M → Desc → Type 0
  InTable q start d = (cur : ℕ) × (cur < q.size) × (read_desc guest q start cur ≡ some d)

  -- A property of the memory that writes into the queue's buffers keep, those that lie within the
  -- buffer of a writable descriptor of the table; where it holds, the table is what it was.
  pub record KeptWithin (q : Queue) (start : M) (P : M → Type 0) : Type 0 where
    pub kept_by :
        (m : M) (d : Desc) (addr : ℕ) (bytes : List ℕ) {m' : M}
        → InTable q start d
        → is_writable d ≡ true
        → d.addr ≤ addr
        → addr + length bytes ≤ d.addr + d.len
        → guest.dma_write m addr bytes ≡ some m'
        → P m
        → P m'
    pub table_kept :
        (m : M) (cur : ℕ)
        → P m
        → cur < q.size
        → read_desc guest q m cur ≡ read_desc guest q start cur

  -- The memory at the end of an injection.
  abbrev pub memory : Injected guest → M
  memory (walked w) = w.mem
  memory (failed m) = m

  -- The buffers do not reach past the end of the address space, and the links stay in the table.
  pub record IsTable (q : Queue) (start : M) : Type 0 where
    pub bound : (d : Desc) → InTable q start d → d.addr + d.len < 2 ^ 64
    pub linked : (d : Desc) → InTable q start d → has_next d ≡ true → d.next < q.size

  module _ (q : Queue) (start : M) (P : M → Type 0) (kept_within : KeptWithin q start P) where
    put_data-keeps :
        (w : Walk guest) (d : Desc) (addr room : ℕ)
        → InTable q start d
        → is_writable d ≡ true
        → d.addr ≤ addr
        → addr + room ≤ d.addr + d.len
        → P w.mem
        → P (memory (put_data guest w addr room))
    unfolding put_data
    put_data-keeps w d addr room read writable low high p =
        step (guest.dma_write w.mem addr (take room w.left)) refl
      where
        step :
            (r : Option M)
            → guest.dma_write w.mem addr (take room w.left) ≡ r
            → P (
                memory (elim r as (λ _. Injected guest) [
                  | none ↦ failed w.mem
                  | some m ↦ walked (record w {
                    mem = m;
                    left = drop room w.left;
                    total = u32 (w.total + length (take room w.left));
                  })
                ]))
        step none e = p
        step (some m) e =
            kept_within.kept_by w.mem d addr (take room w.left) read writable low
              (omega (arith, length-take room w.left)) e p

    put_header-keeps :
        (w : Walk guest) (d : Desc)
        → InTable q start d
        → is_writable d ≡ true
        → d.addr + d.len < 2 ^ 64
        → P w.mem
        → P (memory (put_header guest w d))
    unfolding put_header
    put_header-keeps w d read writable bound p =
        step (guest.dma_write w.mem d.addr (take hdr_len vnet_hdr)) refl
      where
        hdr_len : ℕ
        hdr_len = if ltb d.len 12 then d.len else 12

        after : M → Walk guest
        after m = record w { mem = m; hdr_written = true; total = u32 (w.total + hdr_len) }

        data_part :
            (m : M) (test : Bool)
            → P m
            → P (
                memory (
                  if test
                  then put_data guest (after m) (u64 (d.addr + hdr_len)) (d.len - hdr_len)
                  else walked (after m)))
        data_part m true p' =
            put_data-keeps (after m) d (u64 (d.addr + hdr_len)) (d.len - hdr_len) read writable
              (ground arith) (ground arith) p'
        data_part m false p' = p'

        step :
            (r : Option M)
            → guest.dma_write w.mem d.addr (take hdr_len vnet_hdr) ≡ r
            → P (
                memory (elim r as (λ _. Injected guest) [
                  | none ↦ failed w.mem
                  | some m ↦
                      if ltb 0 (d.len - hdr_len) && ltb 0 (length w.left)
                      then put_data guest (after m) (u64 (d.addr + hdr_len)) (d.len - hdr_len)
                      else walked (after m)
                ]))
        step none e = p
        step (some m) e = data_part m (ltb 0 (d.len - hdr_len) && ltb 0 (length w.left)) (
            kept_within.kept_by w.mem d d.addr (take hdr_len vnet_hdr) read writable (omega arith)
              (ground (arith, length-take hdr_len vnet_hdr)) e p)

    put_desc-keeps :
        (w : Walk guest) (d : Desc)
        → InTable q start d
        → d.addr + d.len < 2 ^ 64
        → P w.mem
        → P (memory (put_desc guest w d))
    unfolding put_desc
    put_desc-keeps w d read bound p = elim (Bool-cases (is_writable d)) [
      | inr closed ↦ rw closed p
      | inl writable ↦ elim (Bool-cases w.hdr_written) [
        | inr first ↦ simp (writable, first) (put_header-keeps w d read writable bound p)
        | inl later ↦ elim (Bool-cases (ltb 0 (length w.left))) [
          | inl more ↦
              simp (writable, later, more)
                (put_data-keeps w d d.addr d.len read writable (omega arith) (omega arith) p)
          | inr over ↦ simp (writable, later, over) p
        ]
      ]
    ]

    inject-keeps :
        (n cur : ℕ) (w : Walk guest)
        → IsTable q start
        → cur < q.size
        → P w.mem
        → P (memory (inject guest n q cur w))
    unfolding inject
    inject-keeps zero cur w table inside p = p
    inject-keeps (suc n) cur w table inside p =
        step (read_desc guest q w.mem cur) refl
          (λ next w' inside' p'. inject-keeps n next w' table inside' p')
      where
        Rest : Type 0
        Rest =
            (next : ℕ) (w' : Walk guest)
            → next < q.size
            → P w'.mem
            → P (memory (inject guest n q next w'))

        chain :
            (d : Desc) (r : Injected guest)
            → InTable q start d
            → P (memory r)
            → Rest
            → P (
                memory (elim r as (λ _. Injected guest) [
                  | failed m ↦ failed m
                  | walked w' ↦ elim (has_next d) [
                    | true ↦ inject guest n q d.next w'
                    | false ↦ walked w'
                  ]
                ]))
        chain d (failed m) read p' rest = p'
        chain d (walked w') read p' rest = elim (Bool-cases (has_next d)) [
          | inl more ↦ rw more (rest d.next w' (table.linked d read more) p')
          | inr last ↦ rw last p'
        ]

        step :
            (r : Option Desc)
            → read_desc guest q w.mem cur ≡ r
            → Rest
            → P (
                memory (elim r as (λ _. Injected guest) [
                  | none ↦ failed w.mem
                  | some d ↦ elim (put_desc guest w d) as (λ _. Injected guest) [
                    | failed m ↦ failed m
                    | walked w' ↦ elim (has_next d) [
                      | true ↦ inject guest n q d.next w'
                      | false ↦ walked w'
                    ]
                  ]
                ]))
        step none e rest = p
        step (some d) e rest =
            let read : InTable q start d =
              (cur, inside, sym (kept_within.table_kept w.mem cur p inside) ∙ e) in
            chain d (put_desc guest w d) read (put_desc-keeps w d read (table.bound d read) p) rest

    -- However the guest links the descriptors of its table, the injection of a frame writes only
    -- inside the buffers of the table's writable descriptors: whatever such writes keep holds of the
    -- memory afterwards, when the injection fails as well. The buffers end below 2 ^ 64, the links
    -- stay in the table, and the buffers do not overlap it.
    pub inject_one-keeps :
        (head : ℕ) (frame : List ℕ)
        → IsTable q start
        → head < q.size
        → P start
        → P (memory (inject_one guest q start head frame))
    unfolding inject_one
    inject_one-keeps head frame table inside p =
        inject-keeps max_chain head
          (record { mem = start; hdr_written = false; left = frame; total = 0 }) table inside p
