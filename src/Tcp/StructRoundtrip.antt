-- ===== src/Tcp/StructRoundtrip.antt =====
-- The packed structures of bridge/common/cosim_types.h come back from their bytes.
use qemu_vcs.Base.{
  ℕ, ◌-◌, ◌≤◌, ◌^◌, ◌<◌, ◌≡◌, sym, ap, ◌∙◌, List, ◌++◌, arith, length, take, drop, take-append,
  drop_past,
}
use qemu_vcs.Messages.{SyncMsg, Tlp, Cpl, DmaReq, DmaCpl, MsiEvent}
use qemu_vcs.Tcp.Codec.{le16, le32, le64, from_le, from_le-le16, from_le-le32, from_le-le64}
use qemu_vcs.Tcp.Structs.{
  byte, word, sync_bytes, parse_sync, tlp_head, tlp_tail, tlp_bytes, parse_tlp, cpl_head, cpl_bytes,
  parse_cpl, dma_req_bytes, parse_dma_req, dma_cpl_bytes, parse_dma_cpl, msi_bytes, parse_msi,
}

-- The fields of a `tlp_entry_t` have their widths.
pub record FitsTlp (t : Tlp) : Type 0 where
  pub type_ok : t.type < 2 ^ 8
  pub tag_ok : t.tag < 2 ^ 16
  pub len_ok : t.len < 2 ^ 16
  pub msg_code_ok : t.msg_code < 2 ^ 8
  pub atomic_ok : t.atomic_op_size < 2 ^ 8
  pub vendor_ok : t.vendor_id < 2 ^ 16
  pub requester_ok : t.requester_id < 2 ^ 16
  pub target_ok : t.target_bdf < 2 ^ 16
  pub addr_ok : t.addr < 2 ^ 64
  pub data_ok : length t.data_bytes ≡ 64
  pub offset_ok : t.dma_offset < 2 ^ 64
  pub timestamp_ok : t.timestamp < 2 ^ 64
  pub first_ok : t.first_be < 2 ^ 8
  pub last_ok : t.last_be < 2 ^ 8

-- The fields of a `cpl_entry_t` have their widths.
pub record FitsCpl (c : Cpl) : Type 0 where
  pub type_ok : c.type < 2 ^ 8
  pub status_ok : c.status < 2 ^ 8
  pub tag_ok : c.tag < 2 ^ 16
  pub requester_ok : c.requester_id < 2 ^ 16
  pub completer_ok : c.completer_id < 2 ^ 16
  pub len_ok : c.len < 2 ^ 32
  pub data_ok : length c.data_bytes ≡ 64
  pub timestamp_ok : c.timestamp < 2 ^ 64

-- The fields of a `dma_req_t` have their widths.
pub record FitsDmaReq (r : DmaReq) : Type 0 where
  pub requester_ok : r.requester_id < 2 ^ 16
  pub tag_ok : r.tag < 2 ^ 32
  pub direction_ok : r.direction < 2 ^ 32
  pub addr_ok : r.host_addr < 2 ^ 64
  pub len_ok : r.len < 2 ^ 32
  pub offset_ok : r.dma_offset < 2 ^ 32
  pub timestamp_ok : r.timestamp < 2 ^ 32

from_le-byte : (n : ℕ) → n < 2 ^ 8 → from_le (byte n) ≡ n
unfolding from_le
from_le-byte n h = omega arith

pub parse_sync_lem :
    (m : SyncMsg) → m.kind < 2 ^ 32 → m.payload < 2 ^ 32 → parse_sync (sync_bytes m) ≡ m
unfolding parse_sync sync_bytes le32
parse_sync_lem m h h' i = record {
  kind = from_le-le32 m.kind h i;
  payload = from_le-le32 m.payload h' i;
}

pub parse_dma_req_lem : (r : DmaReq) → FitsDmaReq r → parse_dma_req (dma_req_bytes r) ≡ r
unfolding parse_dma_req dma_req_bytes le16 le32 le64
parse_dma_req_lem r fits i = record {
  requester_id = from_le-le16 r.requester_id fits.requester_ok i;
  tag = from_le-le32 r.tag fits.tag_ok i;
  direction = from_le-le32 r.direction fits.direction_ok i;
  host_addr = from_le-le64 r.host_addr fits.addr_ok i;
  len = from_le-le32 r.len fits.len_ok i;
  dma_offset = from_le-le32 r.dma_offset fits.offset_ok i;
  timestamp = from_le-le32 r.timestamp fits.timestamp_ok i;
}

pub parse_dma_cpl_lem :
    (c : DmaCpl)
    → c.tag < 2 ^ 32
    → c.status < 2 ^ 32
    → c.timestamp < 2 ^ 64
    → parse_dma_cpl (dma_cpl_bytes c) ≡ c
unfolding parse_dma_cpl dma_cpl_bytes le32 le64
parse_dma_cpl_lem c h h' h'' i = record {
  tag = from_le-le32 c.tag h i;
  status = from_le-le32 c.status h' i;
  timestamp = from_le-le64 c.timestamp h'' i;
}

pub parse_msi_lem :
    (e : MsiEvent)
    → e.requester_id < 2 ^ 16
    → e.vector < 2 ^ 16
    → e.timestamp < 2 ^ 64
    → parse_msi (msi_bytes e) ≡ e
unfolding parse_msi msi_bytes le16 le32 le64
parse_msi_lem e h h' h'' i = record {
  requester_id = from_le-le16 e.requester_id h i;
  vector = from_le-le16 e.vector h' i;
  timestamp = from_le-le64 e.timestamp h'' i;
}

-- The data of a structure, and what follows them, where they have their 64 bytes.
taken :
    (data_bytes after : List ℕ)
    → length data_bytes ≡ 64
    → take 64 (data_bytes ++ after) ≡ data_bytes
taken data_bytes after e =
    ap (λ n. take n (data_bytes ++ after)) (sym e) ∙ take-append data_bytes after

behind :
    (width n : ℕ) (data_bytes after : List ℕ)
    → length data_bytes ≡ 64
    → 64 ≤ n
    → word width n (data_bytes ++ after) ≡ word width (n - 64) after
behind width n data_bytes after e far =
    ap (λ bs. from_le (take width bs))
      (drop_past n data_bytes after (omega arith) ∙ ap (λ k. drop (n - k) after) e)

end64 : (n : ℕ) → n < 2 ^ 64 → word 8 0 (le64 n) ≡ n
unfolding le64
end64 n h = from_le-le64 n h

pub parse_cpl_lem : (c : Cpl) → FitsCpl c → parse_cpl (cpl_bytes c) ≡ c
unfolding parse_cpl cpl_bytes cpl_head le16 le32 le64
parse_cpl_lem c fits i = record {
  type = from_le-byte c.type fits.type_ok i;
  status = from_le-byte c.status fits.status_ok i;
  tag = from_le-le16 c.tag fits.tag_ok i;
  requester_id = from_le-le16 c.requester_id fits.requester_ok i;
  completer_id = from_le-le16 c.completer_id fits.completer_ok i;
  len = from_le-le32 c.len fits.len_ok i;
  data_bytes = taken c.data_bytes (le64 c.timestamp) fits.data_ok i;
  timestamp =
      (behind 8 64 c.data_bytes (le64 c.timestamp) fits.data_ok (omega arith)
          ∙ end64 c.timestamp fits.timestamp_ok)
        i;
}

-- The fields behind the data of a TLP.
dma_offset_lem : (t : Tlp) → FitsTlp t → word 8 0 (tlp_tail t) ≡ t.dma_offset
unfolding tlp_tail le64
dma_offset_lem t fits = from_le-le64 t.dma_offset fits.offset_ok

timestamp_lem : (t : Tlp) → FitsTlp t → word 8 8 (tlp_tail t) ≡ t.timestamp
unfolding tlp_tail le64
timestamp_lem t fits = from_le-le64 t.timestamp fits.timestamp_ok

first_be_lem : (t : Tlp) → FitsTlp t → word 1 16 (tlp_tail t) ≡ t.first_be
unfolding tlp_tail le64
first_be_lem t fits = from_le-byte t.first_be fits.first_ok

last_be_lem : (t : Tlp) → FitsTlp t → word 1 17 (tlp_tail t) ≡ t.last_be
unfolding tlp_tail le64
last_be_lem t fits = from_le-byte t.last_be fits.last_ok

pub parse_tlp_lem : (t : Tlp) → FitsTlp t → parse_tlp (tlp_bytes t) ≡ t
unfolding parse_tlp tlp_bytes tlp_head le16 le64
parse_tlp_lem t fits i = record {
  type = from_le-byte t.type fits.type_ok i;
  tag = from_le-le16 t.tag fits.tag_ok i;
  len = from_le-le16 t.len fits.len_ok i;
  msg_code = from_le-byte t.msg_code fits.msg_code_ok i;
  atomic_op_size = from_le-byte t.atomic_op_size fits.atomic_ok i;
  vendor_id = from_le-le16 t.vendor_id fits.vendor_ok i;
  requester_id = from_le-le16 t.requester_id fits.requester_ok i;
  target_bdf = from_le-le16 t.target_bdf fits.target_ok i;
  addr = from_le-le64 t.addr fits.addr_ok i;
  data_bytes = taken t.data_bytes (tlp_tail t) fits.data_ok i;
  dma_offset =
      (behind 8 64 t.data_bytes (tlp_tail t) fits.data_ok (omega arith) ∙ dma_offset_lem t fits) i;
  timestamp =
      (behind 8 72 t.data_bytes (tlp_tail t) fits.data_ok (omega arith) ∙ timestamp_lem t fits) i;
  first_be =
      (behind 1 80 t.data_bytes (tlp_tail t) fits.data_ok (omega arith) ∙ first_be_lem t fits) i;
  last_be =
      (behind 1 81 t.data_bytes (tlp_tail t) fits.data_ok (omega arith) ∙ last_be_lem t fits) i;
}
