-- ===== src/Tcp/Roundtrip.antt =====
-- bridge/common/transport_tcp.c: what one side sends, the other side receives.
use qemu_vcs.Base.{
  ℕ, ◌+◌, ◌^◌, ◌≤◌, ◌<◌, ◌≡◌, refl, sym, ap, ap₂, ◌∙◌, List, [], ◌∷◌, ◌++◌, true, false, arith,
  length, take, ltb, leb, ◌!=◌, take-append, drop-append, Bool-cases, inl, inr, append_assoc, u32,
  replicate,
}
use qemu_vcs.Tcp.Codec.{
  le16, le32, le64, from_le, from_le-le16, from_le-le32, from_le-le64, read-append,
}
use qemu_vcs.Tcp.Message.{
  Stream, Header, header_bytes, frame_bytes, Recv, reading, reading_header, parse_header,
  recv_typed, DmaData, dma_header, send_dma_data, recv_dma_data, eth_header, send_eth,
  recv_eth_ready, dma_header_size, after_typed, after_dma_data, after_dma_header, dma_data_len,
  parse_dma_header, after_eth, after_eth_header, parse_eth_header, eth_payload, got,
}
use qemu_vcs.Tcp.TypeOf
use qemu_vcs.Eth.Shm.{Frame, max_data}

pub length-header_bytes : (h : Header) → length (header_bytes h) ≡ 8
unfolding header_bytes le32
length-header_bytes h = refl

-- A header with two words of 32 bits is read as it was written.
pub parse_header_lem :
    (t n : ℕ)
    → t < 2 ^ 32
    → n < 2 ^ 32
    → parse_header (header_bytes (record { msg_type = t; payload_len = n }))
      ≡ record { msg_type = t; payload_len = n }
unfolding header_bytes le32
parse_header_lem t n h h' =
    ap₂ (λ x y. record { msg_type = x; payload_len = y })
      (ap from_le (take-append (le32 t) (le32 n)) ∙ from_le-le32 t h)
      (ap from_le (drop-append (le32 t) (le32 n)) ∙ from_le-le32 n h')

pub reading_lem :
    {A : Type 0} (bs rest : Stream) (n : ℕ) (k : List ℕ → Stream → Recv A)
    → length bs ≡ n
    → reading n (bs ++ rest) k ≡ k bs rest
reading_lem bs rest n k e = rw (reading, read-append n bs rest e) refl

-- What a receiver does on a stream that starts with a header.
pub reading_header_lem :
    {A : Type 0} (t n : ℕ) (rest : Stream) (k : Header → Stream → Recv A)
    → t < 2 ^ 32
    → n < 2 ^ 32
    → reading_header (header_bytes (record { msg_type = t; payload_len = n }) ++ rest) k
      ≡ k (record { msg_type = t; payload_len = n }) rest
reading_header_lem t n rest k h h' =
    reading_lem (header_bytes (record { msg_type = t; payload_len = n })) rest 8
      (λ bs left. k (parse_header bs) left) (length-header_bytes _)
    ∙ ap (λ header. k header rest) (parse_header_lem t n h h')

pub same_type : (t : ℕ) → (t != t) ≡ false
same_type t = ground arith

-- A message whose type is checked, TLP, CPL, DMA_REQ, DMA_CPL and MSI, comes back with what
-- follows it on the stream.
pub recv_typed-send_msg :
    (t : ℕ) (payload rest : Stream)
    → t < 2 ^ 32
    → length payload < 2 ^ 32
    → recv_typed t (length payload) (frame_bytes t payload ++ rest) ≡ got payload rest
unfolding frame_bytes recv_typed
recv_typed-send_msg t payload rest h h' =
    ap (λ s. reading_header s (after_typed t (length payload)))
      (append_assoc (header_bytes (record { msg_type = t; payload_len = length payload })) payload
        rest)
    ∙ reading_header_lem t (length payload) (payload ++ rest) (after_typed t (length payload)) h h'
    ∙ rw (same_type t) (reading_lem payload rest (length payload) (λ bs left. got bs left) refl)

-- The fields of a DMA_DATA header come back from its 24 bytes.
dma_data_len_lem :
    (d : DmaData) → length d.bytes < 2 ^ 32 → dma_data_len (dma_header d) ≡ length d.bytes
unfolding dma_header le32 le64
dma_data_len_lem d h = from_le-le32 (length d.bytes) h

parse_dma_header_lem :
    (d : DmaData)
    → d.tag < 2 ^ 32
    → d.direction < 2 ^ 32
    → d.host_addr < 2 ^ 64
    → parse_dma_header (dma_header d) d.bytes ≡ d
unfolding dma_header le32 le64
parse_dma_header_lem d h h' h'' i = record {
  tag = from_le-le32 d.tag h i;
  direction = from_le-le32 d.direction h' i;
  host_addr = from_le-le64 d.host_addr h'' i;
  bytes = d.bytes;
}

length-dma_header : (d : DmaData) → length (dma_header d) ≡ dma_header_size
unfolding dma_header le32 le64
length-dma_header d = refl

after_dma_header_lem :
    (d : DmaData) (rest : Stream)
    → d.tag < 2 ^ 32
    → d.direction < 2 ^ 32
    → d.host_addr < 2 ^ 64
    → dma_header_size + length d.bytes < 2 ^ 32
    → after_dma_header
        (record {
          msg_type = TypeOf.dma_data;
          payload_len = u32 (dma_header_size + length d.bytes);
        })
        (dma_header d)
        (d.bytes ++ rest)
      ≡ got d rest
after_dma_header_lem d rest h h' h'' fits =
    rw (dma_data_len_lem d (omega arith), same_type (u32 (dma_header_size + length d.bytes)))
      (reading_lem d.bytes rest (length d.bytes)
          (λ bytes left. got (parse_dma_header (dma_header d) bytes) left) refl
        ∙ ap (λ x. got x rest) (parse_dma_header_lem d h h' h''))

-- DMA data of less than 2 ^ 32 - 24 bytes comes back with its tag, direction and address, and with
-- what follows it on the stream.
pub recv_dma_data-send_dma_data :
    (d : DmaData) (rest : Stream)
    → d.tag < 2 ^ 32
    → d.direction < 2 ^ 32
    → d.host_addr < 2 ^ 64
    → dma_header_size + length d.bytes < 2 ^ 32
    → recv_dma_data (send_dma_data [] d ++ rest) ≡ got d rest
unfolding send_dma_data recv_dma_data
recv_dma_data-send_dma_data d rest h h' h'' fits =
    let header : Header = record {
      msg_type = TypeOf.dma_data;
      payload_len = u32 (dma_header_size + length d.bytes);
    } in
    let long : ltb (u32 (dma_header_size + length d.bytes)) dma_header_size ≡ false =
      ground arith in
    ap recv_dma_data (
      append_assoc (header_bytes header) (dma_header d ++ d.bytes) rest
      ∙ ap (λ s. header_bytes header ++ s) (append_assoc (dma_header d) d.bytes rest))
    ∙ reading_header_lem TypeOf.dma_data (u32 (dma_header_size + length d.bytes))
        (dma_header d ++ (d.bytes ++ rest)) after_dma_data (omega arith) (omega arith)
    ∙ rw long (
        reading_lem (dma_header d) (d.bytes ++ rest) dma_header_size (after_dma_header header)
          (length-dma_header d)
        ∙ after_dma_header_lem d rest h h' h'' fits)

-- A frame that the C structure can hold: words of their width, and the data of its length.
pub record FitsFrame (f : Frame) : Type 0 where
  pub len_ok : f.len ≤ max_data
  pub flags_ok : f.flags < 2 ^ 16
  pub seq_ok : f.seq < 2 ^ 32
  pub timestamp_ok : f.timestamp_ns < 2 ^ 64
  pub payload_ok : length f.payload ≡ f.len

eth_len_lem : (f : Frame) → FitsFrame f → from_le (take 2 (eth_header f)) ≡ f.len
unfolding eth_header le16 le32 le64
eth_len_lem f fits = let h = fits.len_ok in from_le-le16 f.len (omega arith)

parse_eth_header_lem : (f : Frame) → FitsFrame f → parse_eth_header (eth_header f) f.payload ≡ f
unfolding eth_header le16 le32 le64
parse_eth_header_lem f fits i = record {
  len = eth_len_lem f fits i;
  flags = from_le-le16 f.flags fits.flags_ok i;
  seq = from_le-le32 f.seq fits.seq_ok i;
  timestamp_ns = from_le-le64 f.timestamp_ns fits.timestamp_ok i;
  payload = f.payload;
}

length-eth_header : (f : Frame) → length (eth_header f) ≡ 16
unfolding eth_header le16 le32 le64
length-eth_header f = refl

length_zero : (xs : List ℕ) → length xs ≡ 0 → xs ≡ []
length_zero [] e = refl
length_zero (x ∷ xs) e = absurd (omega arith)

eth_payload_lem :
    (f : Frame) (rest : Stream)
    → FitsFrame f
    → eth_payload (eth_header f) f.len (f.payload ++ rest) ≡ got f rest
eth_payload_lem f rest fits = elim (Bool-cases (ltb 0 f.len)) [
  | inl some_data ↦
      let short : leb f.len max_data ≡ true = let h = fits.len_ok in ground arith in
      rw (some_data, short)
        (reading_lem f.payload rest f.len
            (λ bytes left. got (parse_eth_header (eth_header f) bytes) left) fits.payload_ok
          ∙ ap (λ x. got x rest) (parse_eth_header_lem f fits))
  | inr none_sent ↦
      let empty : f.payload ≡ [] =
        let e = fits.payload_ok in length_zero f.payload (ground arith) in
      rw none_sent (
        ap₂ got (ap (parse_eth_header (eth_header f)) (sym empty) ∙ parse_eth_header_lem f fits)
          (ap (λ p. p ++ rest) empty))
]

after_eth_header_lem :
    (f : Frame) (rest : Stream)
    → FitsFrame f
    → after_eth_header (eth_header f) (f.payload ++ rest) ≡ got f rest
after_eth_header_lem f rest fits =
    ap (λ n. eth_payload (eth_header f) n (f.payload ++ rest)) (eth_len_lem f fits)
    ∙ eth_payload_lem f rest fits

-- An Ethernet frame whose fields fit their widths, of at most 9216 bytes, comes back with what
-- follows it on the stream.
pub recv_eth-send_eth :
    (f : Frame) (rest : Stream) → FitsFrame f → recv_eth_ready (send_eth [] f ++ rest) ≡ got f rest
unfolding send_eth recv_eth_ready
recv_eth-send_eth f rest fits =
    let header : Header = record { msg_type = TypeOf.eth_frame; payload_len = 16 + f.len } in
    let h = fits.len_ok in
    let sent = take f.len (f.payload ++ replicate f.len 0) in
    let whole : sent ≡ f.payload =
      ap (λ n. take n (f.payload ++ replicate f.len 0)) (sym fits.payload_ok)
      ∙ take-append f.payload (replicate f.len 0) in
    ap recv_eth_ready (
      append_assoc (header_bytes header) (eth_header f ++ sent) rest
      ∙ ap (λ s. header_bytes header ++ s)
          (append_assoc (eth_header f) sent rest ∙ ap (λ p. eth_header f ++ (p ++ rest)) whole))
    ∙ reading_header_lem TypeOf.eth_frame (16 + f.len) (eth_header f ++ (f.payload ++ rest))
        after_eth (omega arith) (omega arith)
    ∙ reading_lem (eth_header f) (f.payload ++ rest) 16 after_eth_header (length-eth_header f)
    ∙ after_eth_header_lem f rest fits
