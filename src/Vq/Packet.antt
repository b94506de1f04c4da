-- ===== src/Vq/Packet.antt =====
-- The packets of bridge/vcs/virtqueue_dma.c: the bound on what the transmit queue gathers.
use qemu_vcs.Base.{
  ℕ, zero, suc, ◌+◌, ◌-◌, ◌^◌, ◌≤◌, ◌<◌, ◌≡◌, refl, true, false, Option, none, some, List, [], ◌++◌,
  if◌then◌else◌, ltb, leb, ◌==◌, length, u64, arith, Bool-cases, inl, inr, length-append,
}
use qemu_vcs.Vq.{
  Queue, Guest, Desc, read_desc, Gathered, packet, dma_failed, overflow, gather_data, gather,
  tx_packet, pkt_buf, max_chain, net_header, has_next, is_too_long,
}

-- What a read of the guest's memory keeps to: it fails, or gives as many bytes as were asked for.
pub record Exact {M : Type 0} (guest : Guest M) : Type 0 where
  pub read_length :
      (m : M) (addr len : ℕ) {bs : List ℕ} → guest.dma_read m addr len ≡ some bs → length bs ≡ len

-- The packet stays inside its buffer.
abbrev pub Fits : Gathered → Type 0
Fits (packet pkt) = length pkt ≤ pkt_buf
Fits dma_failed = Unit
Fits overflow = ⊥

module _ {M : Type 0} (guest : Guest M) (exact : Exact guest) where
  gather_data-Fits :
      (m : M) (addr len : ℕ) (pkt : List ℕ)
      → length pkt ≤ pkt_buf
      → len + pkt_buf < 2 ^ 31
      → Fits (gather_data guest m addr len pkt)
  unfolding gather_data
  gather_data-Fits m addr len pkt h h' = elim (Bool-cases (len == 0)) [
    | inl nothing ↦ rw nothing h
    | inr something ↦
        let to_read = if is_too_long guest (length pkt) len then pkt_buf - length pkt else len in
        let inside : length pkt + to_read ≤ pkt_buf = ground arith in
        let test : ltb pkt_buf (length pkt + to_read) ≡ false = ground arith in
        rw (something, test) (step (guest.dma_read m addr to_read) refl inside)
  ]
    where
      step :
          {n : ℕ} (r : Option (List ℕ))
          → guest.dma_read m addr n ≡ r
          → length pkt + n ≤ pkt_buf
          → Fits (elim r as (λ _. Gathered) [ none ↦ dma_failed | some bs ↦ packet (pkt ++ bs) ])
      step none e inside = tt
      step {n} (some bs) e inside =
          omega (arith, exact.read_length m addr n e, length-append pkt bs)

  -- The descriptors that the guest has put up have lengths below 2 ^ 31 - 9216.
  pub record IsSmall (q : Queue) (m : M) : Type 0 where
    pub len_ok : (cur : ℕ) {d : Desc} → read_desc guest q m cur ≡ some d → d.len + pkt_buf < 2 ^ 31

  gather-Fits :
      (n : ℕ) (q : Queue) (m : M) (cur hdr : ℕ) (pkt : List ℕ)
      → IsSmall q m
      → length pkt ≤ pkt_buf
      → Fits (gather guest n q m cur hdr pkt)
  unfolding gather
  gather-Fits zero q m cur hdr pkt small h = h
  gather-Fits (suc n) q m cur hdr pkt small h =
      step (read_desc guest q m cur) refl
        (λ cur' hdr' pkt' h'. gather-Fits n q m cur' hdr' pkt' small h')
    where
      Rest : Type 0
      Rest =
          (cur' hdr' : ℕ) (pkt' : List ℕ)
          → length pkt' ≤ pkt_buf
          → Fits (gather guest n q m cur' hdr' pkt')

      chain :
          (d : Desc) (hdr' : ℕ) (g : Gathered)
          → Fits g
          → Rest
          → Fits (elim g as (λ _. Gathered) [
            | dma_failed ↦ dma_failed
            | overflow ↦ overflow
            | packet pkt' ↦ elim (has_next d) [
              | true ↦ gather guest n q m d.next hdr' pkt'
              | false ↦ packet pkt'
            ]
          ])
      chain d hdr' dma_failed fits rest = tt
      chain d hdr' overflow fits rest = fits
      chain d hdr' (packet pkt') fits rest = elim (Bool-cases (has_next d)) [
        | inl more ↦ rw more (rest d.next hdr' pkt' fits)
        | inr last ↦ rw last fits
      ]

      step :
          (r : Option Desc)
          → read_desc guest q m cur ≡ r
          → Rest
          → Fits (elim r as (λ _. Gathered) [
            | none ↦ dma_failed
            | some d ↦
                let skip = if leb d.len hdr then d.len else hdr in
                elim (gather_data guest m (u64 (d.addr + skip)) (d.len - skip) pkt)
                  as (λ _. Gathered) [
                    | dma_failed ↦ dma_failed
                    | overflow ↦ overflow
                    | packet pkt' ↦ elim (has_next d) [
                      | true ↦ gather guest n q m d.next (hdr - skip) pkt'
                      | false ↦ packet pkt'
                    ]
                  ]
          ])
      step none e rest = tt
      step (some d) e rest =
          let skip = if leb d.len hdr then d.len else hdr in
          chain d (hdr - skip) (gather_data guest m (u64 (d.addr + skip)) (d.len - skip) pkt)
            (gather_data-Fits m (u64 (d.addr + skip)) (d.len - skip) pkt h
              (omega (arith, small.len_ok cur e)))
            rest

  -- However the guest links its descriptors, a packet is gathered within its buffer of 9216 bytes,
  -- provided that every descriptor has a length below 2 ^ 31 - 9216.
  pub tx_packet-Fits :
      (q : Queue) (m : M) (head : ℕ) → IsSmall q m → Fits (tx_packet guest q m head)
  unfolding tx_packet
  tx_packet-Fits q m head small = gather-Fits max_chain q m head net_header [] small (omega arith)
