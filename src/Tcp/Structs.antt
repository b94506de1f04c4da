-- ===== src/Tcp/Structs.antt =====
-- bridge/common/cosim_types.h: the packed structures as the bytes that a little-endian host puts
-- on a stream, padding included.
use qemu_vcs.Base.{ℕ, ◌%◌, List, [], ◌∷◌, ◌++◌, take, drop, replicate}
use qemu_vcs.Messages.{SyncMsg, Tlp, Cpl, DmaReq, DmaCpl, MsiEvent}
use qemu_vcs.Tcp.Codec.{le16, le32, le64, from_le}

-- The word of `width` bytes at an offset.
abbrev pub word : ℕ → ℕ → List ℕ → ℕ
word width offset bs = from_le (take width (drop offset bs))

abbrev pub byte : ℕ → List ℕ
byte n = n % 256 ∷ []

-- `sync_msg_t`: the enumeration is an `int`.
unfoldable pub sync_bytes : SyncMsg → List ℕ
sync_bytes m = le32 m.kind ++ le32 m.payload

unfoldable pub parse_sync : List ℕ → SyncMsg
parse_sync bs = record { kind = word 4 0 bs; payload = word 4 4 bs }

-- The fields of a `tlp_entry_t` before `data`, and those behind it.
unfoldable pub tlp_head : Tlp → List ℕ
tlp_head t =
    byte t.type
    ++ (byte 0
        ++ (le16 t.tag
            ++ (le16 t.len
                ++ (byte t.msg_code
                    ++ (byte t.atomic_op_size
                        ++ (le16 t.vendor_id
                            ++ (le16 t.requester_id
                                ++ (le16 t.target_bdf ++ (le16 0 ++ le64 t.addr)))))))))

unfoldable pub tlp_tail : Tlp → List ℕ
tlp_tail t =
    le64 t.dma_offset
    ++ (le64 t.timestamp ++ (byte t.first_be ++ (byte t.last_be ++ replicate 6 0)))

-- `tlp_entry_t`, 112 bytes
unfoldable pub tlp_bytes : Tlp → List ℕ
unfolding tlp_head tlp_tail
tlp_bytes t = tlp_head t ++ (t.data_bytes ++ tlp_tail t)

unfoldable pub parse_tlp : List ℕ → Tlp
parse_tlp bs = record {
  type = word 1 0 bs;
  tag = word 2 2 bs;
  len = word 2 4 bs;
  msg_code = word 1 6 bs;
  atomic_op_size = word 1 7 bs;
  vendor_id = word 2 8 bs;
  requester_id = word 2 10 bs;
  target_bdf = word 2 12 bs;
  addr = word 8 16 bs;
  data_bytes = take 64 (drop 24 bs);
  dma_offset = word 8 88 bs;
  timestamp = word 8 96 bs;
  first_be = word 1 104 bs;
  last_be = word 1 105 bs;
}

unfoldable pub cpl_head : Cpl → List ℕ
cpl_head c =
    byte c.type
    ++ (byte c.status
        ++ (le16 c.tag ++ (le16 c.requester_id ++ (le16 c.completer_id ++ le32 c.len))))

-- `cpl_entry_t`, 84 bytes
unfoldable pub cpl_bytes : Cpl → List ℕ
unfolding cpl_head
cpl_bytes c = cpl_head c ++ (c.data_bytes ++ le64 c.timestamp)

unfoldable pub parse_cpl : List ℕ → Cpl
parse_cpl bs = record {
  type = word 1 0 bs;
  status = word 1 1 bs;
  tag = word 2 2 bs;
  requester_id = word 2 4 bs;
  completer_id = word 2 6 bs;
  len = word 4 8 bs;
  data_bytes = take 64 (drop 12 bs);
  timestamp = word 8 76 bs;
}

-- `dma_req_t`, 32 bytes
unfoldable pub dma_req_bytes : DmaReq → List ℕ
dma_req_bytes r =
    le16 r.requester_id
    ++ (le16 0
        ++ (le32 r.tag
            ++ (le32 r.direction
                ++ (le64 r.host_addr ++ (le32 r.len ++ (le32 r.dma_offset ++ le32 r.timestamp))))))

unfoldable pub parse_dma_req : List ℕ → DmaReq
parse_dma_req bs = record {
  requester_id = word 2 0 bs;
  tag = word 4 4 bs;
  direction = word 4 8 bs;
  host_addr = word 8 12 bs;
  len = word 4 20 bs;
  dma_offset = word 4 24 bs;
  timestamp = word 4 28 bs;
}

-- `dma_cpl_t`, 16 bytes
unfoldable pub dma_cpl_bytes : DmaCpl → List ℕ
dma_cpl_bytes c = le32 c.tag ++ (le32 c.status ++ le64 c.timestamp)

unfoldable pub parse_dma_cpl : List ℕ → DmaCpl
parse_dma_cpl bs = record { tag = word 4 0 bs; status = word 4 4 bs; timestamp = word 8 8 bs }

-- `msi_event_t`, 16 bytes
unfoldable pub msi_bytes : MsiEvent → List ℕ
msi_bytes e = le16 e.requester_id ++ (le16 e.vector ++ (le32 0 ++ le64 e.timestamp))

unfoldable pub parse_msi : List ℕ → MsiEvent
parse_msi bs = record { requester_id = word 2 0 bs; vector = word 2 2 bs; timestamp = word 8 8 bs }
