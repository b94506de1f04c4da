-- ===== src/Tcp/Message.antt =====
-- The messages of bridge/common/transport_tcp.c. A stream is the bytes on their way through one
-- socket in one direction, oldest first. The payloads of fixed size are images of C structures,
-- which this layer only copies: lists of bytes of that size.
use qemu_vcs.Base.{
  ℕ, zero, suc, ◌+◌, ◌-◌, Option, none, some, List, [], ◌++◌, ◌&&◌, ◌||◌, length, take, drop,
  replicate, u32, ltb, leb, ◌==◌, ◌!=◌, if◌then◌else◌,
}
use qemu_vcs.Tcp.Codec.{le32, le64, le16, from_le, read}
use qemu_vcs.Tcp.TypeOf
use qemu_vcs.Eth.Shm.{Frame, max_data}

abbrev pub Stream : Type 0
Stream = List ℕ

-- `tcp_msg_hdr_t`
pub record Header : Type 0 where
  pub msg_type : ℕ
  pub payload_len : ℕ

unfoldable pub header_bytes : Header → List ℕ
header_bytes h = le32 h.msg_type ++ le32 h.payload_len

-- The bytes of a message: its header and its payload.
unfoldable pub frame_bytes : ℕ → List ℕ → List ℕ
frame_bytes msg_type payload =
    header_bytes (record { msg_type = msg_type; payload_len = length payload }) ++ payload

-- `tcp_send_msg`
unfoldable pub send_msg : Stream → ℕ → List ℕ → Stream
unfolding frame_bytes
send_msg s msg_type payload = s ++ frame_bytes msg_type payload

-- What a receive function returns: 0 with a value, 1 for no data, or -1; and the stream after it,
-- since a refusal may have consumed a part of a message.
pub data Recv (A : Type 0) : Type 0 where
  got : A → Stream → Recv A
  no_data : Stream → Recv A
  error : Stream → Recv A

-- The next `n` bytes are read and handed to `k`; a stream that ends before is an error.
abbrev pub reading : {A : Type 0} → ℕ → Stream → (List ℕ → Stream → Recv A) → Recv A
reading n s k = elim (read n s) [ none ↦ error [] | some (bs, rest) ↦ k bs rest ]

abbrev pub parse_header : List ℕ → Header
parse_header bs = record { msg_type = from_le (take 4 bs); payload_len = from_le (drop 4 bs) }

-- `tcp_recv_hdr`
abbrev pub reading_header : {A : Type 0} → Stream → (Header → Stream → Recv A) → Recv A
reading_header s k = reading 8 s (λ bs rest. k (parse_header bs) rest)

-- The rest of a receive function, once the header is there.
abbrev pub after_typed : ℕ → ℕ → Header → Stream → Recv (List ℕ)
after_typed msg_type size h rest =
    if h.msg_type != msg_type then error rest else reading size rest (λ bs left. got bs left)

abbrev pub after_checked : ℕ → ℕ → Header → Stream → Recv (List ℕ)
after_checked msg_type size h rest =
    if (h.msg_type != msg_type) || (h.payload_len != size)
    then error rest
    else reading size rest (λ bs left. got bs left)

abbrev pub after_any : ℕ → Header → Stream → Recv (List ℕ)
after_any size h rest = reading size rest (λ bs left. got bs left)

-- `tcp_recv_tlp`, `tcp_recv_cpl`, `tcp_recv_dma_req`, `tcp_recv_dma_cpl`, `tcp_recv_msi`: the type
-- is checked, the length is not.
unfoldable pub recv_typed : ℕ → ℕ → Stream → Recv (List ℕ)
recv_typed msg_type size s = reading_header s (after_typed msg_type size)

-- `tcp_recv_sync`, `tcp_recv_topology`, `tcp_recv_vf_event`: both are checked.
unfoldable pub recv_checked : ℕ → ℕ → Stream → Recv (List ℕ)
recv_checked msg_type size s = reading_header s (after_checked msg_type size)

-- The answer of `poll`: an error, a signal, the time is up, an error on the socket, or data.
pub data Poll : Type 0 where
  poll_failed : Poll
  poll_interrupted : Poll
  timed_out : Poll
  hung_up : Poll
  readable : Poll

-- `tcp_recv_timed`, in `tcp_recv_sync_timed`.
unfoldable pub recv_sync_timed : Poll → Stream → Recv (List ℕ)
recv_sync_timed poll_failed s = error s
recv_sync_timed poll_interrupted s = no_data s
recv_sync_timed timed_out s = no_data s
recv_sync_timed hung_up s = error s
recv_sync_timed readable s = recv_checked TypeOf.sync 8 s

-- `tcp_peek_aux_msg_type`: nothing is consumed. A part of a header does not count.
unfoldable pub peek_type : Poll → Stream → Option ℕ
peek_type readable s = elim (read 8 s) [
  | none ↦ none
  | some (bs, rest) ↦ some (parse_header bs).msg_type
]
peek_type _ s = none

-- `tcp_recv_dma_req_nb` and `tcp_recv_msi_nb`
unfoldable pub recv_nb : ℕ → ℕ → Poll → Stream → Recv (List ℕ)
recv_nb msg_type size poll s = elim (peek_type poll s) [
  | none ↦ no_data s
  | some t ↦ if t != msg_type then no_data s else reading_header s (after_any size)
]

-- The loop of `tcp_skip_aux_msg`: pieces of at most 4096 bytes are read and dropped.
unfoldable pub discard : ℕ → ℕ → Stream → Option Stream
discard zero remaining s = if remaining == 0 then some s else none
discard (suc fuel) remaining s =
    let chunk = if ltb remaining 4096 then remaining else 4096 in
    let more : Option Stream = elim (read chunk s) [
      | none ↦ none
      | some (bs, rest) ↦ discard fuel (remaining - chunk) rest
    ] in
    if remaining == 0 then some s else more

abbrev pub after_skipped : Header → Stream → Recv (Unit {0})
after_skipped h rest = elim (discard h.payload_len h.payload_len rest) [
  | none ↦ error []
  | some left ↦ got tt left
]

-- `tcp_skip_aux_msg`
unfoldable pub skip_msg : Stream → Recv (Unit {0})
skip_msg s = reading_header s after_skipped

-- `tcp_dma_data_hdr_t`, and the bytes that follow it.
pub record DmaData : Type 0 where
  pub tag : ℕ
  pub direction : ℕ
  pub host_addr : ℕ
  pub bytes : List ℕ

abbrev pub dma_header_size : ℕ
dma_header_size = 24

unfoldable pub dma_header : DmaData → List ℕ
dma_header d =
    le32 d.tag ++ (le32 d.direction ++ (le64 d.host_addr ++ (le32 (length d.bytes) ++ le32 0)))

-- `tcp_send_dma_data`; the length of the payload is a `uint32_t`.
unfoldable pub send_dma_data : Stream → DmaData → Stream
unfolding dma_header header_bytes
send_dma_data s d =
    s
    ++ (header_bytes (record {
      msg_type = TypeOf.dma_data;
      payload_len = u32 (dma_header_size + length d.bytes);
    })
        ++ (dma_header d ++ d.bytes))

abbrev pub dma_data_len : List ℕ → ℕ
dma_data_len bs = from_le (take 4 (drop 16 bs))

abbrev pub parse_dma_header : List ℕ → List ℕ → DmaData
parse_dma_header bs bytes = record {
  tag = from_le (take 4 bs);
  direction = from_le (take 4 (drop 4 bs));
  host_addr = from_le (take 8 (drop 8 bs));
  bytes = bytes;
}

abbrev pub after_dma_header : Header → List ℕ → Stream → Recv DmaData
after_dma_header h bs after =
    if h.payload_len != u32 (dma_header_size + dma_data_len bs)
    then error after
    else reading (dma_data_len bs) after (λ bytes left. got (parse_dma_header bs bytes) left)

abbrev pub after_dma_data : Header → Stream → Recv DmaData
after_dma_data h rest =
    if h.msg_type != TypeOf.dma_data
    then error rest
    else (if ltb h.payload_len dma_header_size
        then error rest
        else reading dma_header_size rest (after_dma_header h))

-- `tcp_recv_dma_data`, with a buffer. The length is the sender's: what the buffer holds is not
-- asked.
unfoldable pub recv_dma_data : Stream → Recv DmaData
recv_dma_data s = reading_header s after_dma_data

-- The first 16 bytes of an `eth_frame_t`; `len` is a `uint16_t`.
unfoldable pub eth_header : Frame → List ℕ
eth_header f = le16 f.len ++ (le16 f.flags ++ (le32 f.seq ++ le64 f.timestamp_ns))

-- `tcp_send_eth`: `len` bytes of the buffer, of which `payload` is the part that is filled.
unfoldable pub send_eth : Stream → Frame → Stream
unfolding eth_header header_bytes
send_eth s f =
    s
    ++ (header_bytes (record { msg_type = TypeOf.eth_frame; payload_len = 16 + f.len })
        ++ (eth_header f ++ take f.len (f.payload ++ replicate f.len 0)))

abbrev pub parse_eth_header : List ℕ → List ℕ → Frame
parse_eth_header bs payload = record {
  len = from_le (take 2 bs);
  flags = from_le (take 2 (drop 2 bs));
  seq = from_le (take 4 (drop 4 bs));
  timestamp_ns = from_le (take 8 (drop 8 bs));
  payload = payload;
}

abbrev pub eth_payload : List ℕ → ℕ → Stream → Recv Frame
eth_payload bs len after =
    if (ltb 0 len) && (leb len max_data)
    then reading len after (λ bytes left. got (parse_eth_header bs bytes) left)
    else got (parse_eth_header bs []) after

abbrev pub after_eth_header : List ℕ → Stream → Recv Frame
after_eth_header bs after = eth_payload bs (from_le (take 2 bs)) after

abbrev pub after_eth : Header → Stream → Recv Frame
after_eth h rest =
    if h.msg_type != TypeOf.eth_frame then error rest else reading 16 rest after_eth_header

-- `tcp_recv_eth` once `poll` says that there is data. A frame that is too long keeps its length and
-- no data, and its bytes stay on the stream.
unfoldable pub recv_eth_ready : Stream → Recv Frame
recv_eth_ready s = reading_header s after_eth

-- `tcp_recv_eth`
unfoldable pub recv_eth : Poll → Stream → Recv Frame
recv_eth poll_failed s = error s
recv_eth poll_interrupted s = no_data s
recv_eth timed_out s = no_data s
recv_eth hung_up s = error s
recv_eth readable s = recv_eth_ready s
