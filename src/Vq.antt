-- ===== src/Vq.antt =====
-- bridge/vcs/virtqueue_dma.c: the virtqueues of the network device, walked by DMA.
pub mod Packet
pub mod Loop
pub mod Receive
pub mod Injection
pub mod Lossless
pub mod Within
use qemu_vcs.Base.{
  ℕ, zero, suc, ◌+◌, ◌-◌, ◌*◌, ◌/◌, ◌%◌, ◌^◌, Bool, true, false, Option, none, some, List, [], ◌∷◌,
  ◌++◌, if◌then◌else◌, ltb, leb, ◌==◌, ◌!=◌, ◌&&◌, ◌||◌, length, take, drop, u16, u32, u64, bit_and,
  not,
}
use qemu_vcs.Tcp.Codec.{from_le, le16, le32}

-- `vq_state_t`
pub record Queue : Type 0 where
  pub desc_gpa : ℕ
  pub avail_gpa : ℕ
  pub used_gpa : ℕ
  pub size : ℕ
  pub last_avail : ℕ
  pub last_used : ℕ
  pub configured : Bool

-- `vcs_vq_configure` on one of the two queues.
unfoldable pub configure : Queue → ℕ → ℕ → ℕ → ℕ → Queue
configure q desc_gpa avail_gpa used_gpa size =
    if q.configured
      && ((q.desc_gpa == desc_gpa)
          && ((q.avail_gpa == avail_gpa) && ((q.used_gpa == used_gpa) && (q.size == u16 size))))
    then q
    else record {
      desc_gpa = desc_gpa;
      avail_gpa = avail_gpa;
      used_gpa = used_gpa;
      size = u16 size;
      last_avail = 0;
      last_used = 0;
      configured = true;
    }

-- `bridge_dma_read_bytes` and `bridge_dma_write_bytes` on the guest's memory; `none` is -1.
pub record Guest (M : Type 0) : Type 0 where
  pub dma_read : M → ℕ → ℕ → Option (List ℕ)
  pub dma_write : M → ℕ → List ℕ → Option M

-- `struct virtq_desc`
pub record Desc : Type 0 where
  pub addr : ℕ
  pub len : ℕ
  pub flags : ℕ
  pub next : ℕ

abbrev pub parse_desc : List ℕ → Desc
parse_desc bs = record {
  addr = from_le (take 8 bs);
  len = from_le (take 4 (drop 8 bs));
  flags = from_le (take 2 (drop 12 bs));
  next = from_le (take 2 (drop 14 bs));
}

-- `VQ_PKT_BUF`, `VQ_MAX_CHAIN` and the size of the virtio-net header
abbrev pub pkt_buf : ℕ
pkt_buf = 9216

abbrev pub max_chain : ℕ
max_chain = 16

abbrev pub net_header : ℕ
net_header = 12

-- `flags & VIRTQ_DESC_F_NEXT` and `flags & VIRTQ_DESC_F_WRITE`
abbrev pub has_next : Desc → Bool
has_next d = bit_and d.flags 1 != 0

abbrev pub is_writable : Desc → Bool
is_writable d = bit_and d.flags 2 != 0

-- The end of a walk along a chain of descriptors: the packet, a DMA that failed, or a write past
-- the end of `pkt_buf`.
pub data Gathered : Type 0 where
  packet : List ℕ → Gathered
  dma_failed : Gathered
  overflow : Gathered

module _ {M : Type 0} (guest : Guest M) where
  unfoldable pub read_desc : Queue → M → ℕ → Option Desc
  read_desc q m cur = elim (guest.dma_read m (u64 (q.desc_gpa + cur * 16)) 16) [
    | none ↦ none
    | some bs ↦ some (parse_desc bs)
  ]

  -- `pkt_len + (int)to_read > VQ_PKT_BUF`: a length of 2 ^ 31 or more is a negative `int`, and a sum
  -- past the largest `int` wraps to a negative one.
  abbrev pub is_too_long : ℕ → ℕ → Bool
  is_too_long pkt_len to_read =
      ltb (u32 (pkt_len + to_read)) (2 ^ 31) && ltb pkt_buf (u32 (pkt_len + to_read))

  -- The bytes of one descriptor after the header, put behind the packet.
  unfoldable pub gather_data : M → ℕ → ℕ → List ℕ → Gathered
  gather_data m buf_addr buf_len pkt =
      let to_read = if is_too_long (length pkt) buf_len then pkt_buf - length pkt else buf_len in
      if buf_len == 0
      then packet pkt
      else (if ltb pkt_buf (length pkt + to_read)
          then overflow
          else elim (guest.dma_read m buf_addr to_read) [
            | none ↦ dma_failed
            | some bs ↦ packet (pkt ++ bs)
          ])

  -- The walk of `vcs_vq_process_tx` along a chain, for at most so many descriptors more.
  unfoldable pub gather : ℕ → Queue → M → ℕ → ℕ → List ℕ → Gathered
  unfolding read_desc gather_data
  gather zero q m cur hdr pkt = packet pkt
  gather (suc n) q m cur hdr pkt = elim (read_desc q m cur) [
    | none ↦ dma_failed
    | some d ↦
        let skip = if leb d.len hdr then d.len else hdr in
        elim (gather_data m (u64 (d.addr + skip)) (d.len - skip) pkt) [
          | dma_failed ↦ dma_failed
          | overflow ↦ overflow
          | packet pkt' ↦ elim (has_next d) [
            | true ↦ gather n q m d.next (hdr - skip) pkt'
            | false ↦ packet pkt'
          ]
        ]
  ]

  -- The packet of the chain that starts at `head_idx`.
  unfoldable pub tx_packet : Queue → M → ℕ → Gathered
  unfolding gather
  tx_packet q m head_idx = gather max_chain q m head_idx net_header []

  -- The entry of the available ring that comes next.
  unfoldable pub avail_entry : Queue → M → Option ℕ
  avail_entry q m = elim (guest.dma_read m (u64 (q.avail_gpa + 4 + q.last_avail % q.size * 2)) 2) [
    | none ↦ none
    | some bs ↦ some (from_le bs)
  ]

  -- The used ring's next entry.
  unfoldable pub put_used : Queue → M → ℕ → ℕ → Option M
  put_used q m id len =
      guest.dma_write m (u64 (q.used_gpa + 4 + q.last_used % q.size * 8)) (le32 id ++ le32 len)

  abbrev pub advance : Queue → Queue
  advance q = record q { last_avail = u16 (q.last_avail + 1); last_used = u16 (q.last_used + 1) }

  -- The end of `vcs_vq_process_tx`: the number of packets with the queue, the memory and what was
  -- handed to the port; -1; a write past the buffer or a division by 0.
  pub data TxEnd : Type 0 where
    processed : ℕ → Queue → M → List (List ℕ) → TxEnd
    failed : Queue → M → List (List ℕ) → TxEnd
    undefined : TxEnd
    unfinished : TxEnd

  -- `vcs_vq_process_tx`'s loop: `sent` is what has been handed to the port, whose answer is only
  -- printed.
  unfoldable pub tx_loop : ℕ → Queue → M → ℕ → ℕ → List (List ℕ) → TxEnd
  unfolding tx_packet avail_entry put_used
  tx_loop zero q m avail_idx n sent = unfinished
  tx_loop (suc rounds) q m avail_idx n sent = elim (q.last_avail == avail_idx) [
    | true ↦ processed n q m sent
    | false ↦ elim (q.size == 0) [
      | true ↦ undefined
      | false ↦ elim (avail_entry q m) [
        | none ↦ failed q m sent
        | some head ↦ elim (tx_packet q m head) [
          | dma_failed ↦ failed q m sent
          | overflow ↦ undefined
          | packet pkt ↦
              let sent' = if length pkt == 0 then sent else sent ++ (pkt ∷ []) in
              elim (put_used q m head 0) [
                | none ↦ failed q m sent'
                | some m' ↦ tx_loop rounds (advance q) m' avail_idx (n + 1) sent'
              ]
        ]
      ]
    ]
  ]

  -- The new index of the used ring is published once, when there is one.
  abbrev pub publish : ℕ → Queue → M → List (List ℕ) → TxEnd
  publish n q m sent =
      elim (guest.dma_write m (u64 (q.used_gpa + 2)) (le16 q.last_used)) as (λ _. TxEnd) [
        | none ↦ failed q m sent
        | some m' ↦ processed n q m' sent
      ]

  abbrev pub finish : TxEnd → TxEnd
  finish unfinished = unfinished
  finish undefined = undefined
  finish (failed q m sent) = failed q m sent
  finish (processed n q m sent) = if n == 0 then processed n q m sent else publish n q m sent

  -- The rounds that the loop is given: the indices are of 16 bits.
  abbrev pub rounds_max : ℕ
  rounds_max = 2 ^ 16

  -- `vcs_vq_process_tx`
  unfoldable pub process_tx : Queue → M → TxEnd
  unfolding tx_loop
  process_tx q m =
      if q.configured
      then elim (guest.dma_read m q.avail_gpa 4) [
        | none ↦ failed q m []
        | some bs ↦ finish (tx_loop rounds_max q m (from_le (drop 2 bs)) 0 [])
      ]
      else failed q m []
