-- ===== src/Tests/Messages.antt =====
-- Structures on a stream, the poller's turn, and the completions of a read.
use qemu_vcs.Base.{
  ℕ, ◌≡◌, refl, List, ap, Bool-cases, inl, inr, if◌then◌else◌, ◌==◌, [], ◌∷◌, ◌++◌, arith,
  replicate, length-replicate, take, some, none,
}
use qemu_vcs.Messages.{Tlp, zero_tlp, Cpl, DmaReq, MsiEvent, dir_write}
use qemu_vcs.Tcp.TypeOf
use qemu_vcs.Tcp.Message.{
  Stream, Recv, got, no_data, error, frame_bytes, DmaData, send_dma_data, recv_dma_data,
}
use qemu_vcs.Tcp.Roundtrip.{recv_dma_data-send_dma_data}
use qemu_vcs.Tcp.Channels.{send_tlp, recv_tlp, send_dma_req}
use qemu_vcs.Tcp.StructRoundtrip.{FitsTlp, FitsDmaReq}
use qemu_vcs.Tcp.ChannelRoundtrip.{recv_tlp-send_tlp}
use qemu_vcs.Poller.{Call, dma_cb, msi_cb, dispatch}
use qemu_vcs.Poller.Tcp.{FitsCall, aux, sent, Idle-nil, dispatch_all, blocked}
use qemu_vcs.Transport.Wires.{Wires}
use qemu_vcs.Qemu.{Bridge, send_tlp_and_wait}
use qemu_vcs.Qemu.Completion.{Link, link}
use qemu_vcs.Vcs.Replies.{Reply, cpl_of, reply_all, connected, wait_gets_reply}

abbrev pub read_tlp : Tlp
read_tlp = record zero_tlp {
  type = 1;
  tag = 700;
  len = 4;
  addr = 0xFEE00000;
  data_bytes = replicate 64 0;
  first_be = 15;
}

pub read_tlp-FitsTlp : FitsTlp read_tlp
read_tlp-FitsTlp = record {
  type_ok = omega arith;
  tag_ok = omega arith;
  len_ok = omega arith;
  msg_code_ok = omega arith;
  atomic_ok = omega arith;
  vendor_ok = omega arith;
  requester_ok = omega arith;
  target_ok = omega arith;
  addr_ok = omega arith;
  data_ok = length-replicate {A = ℕ} 64 0;
  offset_ok = omega arith;
  timestamp_ok = omega arith;
  first_ok = omega arith;
  last_ok = omega arith;
}

recv_tlp-send_tlp_example :
    recv_tlp (send_tlp [] read_tlp ++ (1 ∷ 2 ∷ [])) ≡ got read_tlp (1 ∷ 2 ∷ [])
recv_tlp-send_tlp_example = recv_tlp-send_tlp read_tlp (1 ∷ 2 ∷ []) read_tlp-FitsTlp

abbrev pub answer : Cpl
answer = record {
  type = 4;
  status = 0;
  tag = 700;
  requester_id = 0;
  completer_id = 8;
  len = 4;
  data_bytes = replicate 64 170;
  timestamp = 0;
}

abbrev dma : DmaReq
dma = record {
  requester_id = 8;
  tag = 5000;
  direction = 0;
  host_addr = 4096;
  len = 16;
  dma_offset = 0;
  timestamp = 0;
}

abbrev dma_write : DmaReq
dma_write = record dma { direction = 1 }

dma_write-FitsDmaReq : FitsDmaReq dma_write
dma_write-FitsDmaReq = record {
  requester_ok = omega arith;
  tag_ok = omega arith;
  direction_ok = omega arith;
  addr_ok = omega arith;
  len_ok = omega arith;
  offset_ok = omega arith;
  timestamp_ok = omega arith;
}

dma-FitsDmaReq : FitsDmaReq dma
dma-FitsDmaReq = record {
  requester_ok = omega arith;
  tag_ok = omega arith;
  direction_ok = omega arith;
  addr_ok = omega arith;
  len_ok = omega arith;
  offset_ok = omega arith;
  timestamp_ok = omega arith;
}

abbrev vector_3 : MsiEvent
vector_3 = record { requester_id = 8; vector = 3; timestamp = 0 }

-- The data that follow a write request, and a callback that receives them.
abbrev write_data : DmaReq → DmaData
write_data r = record {
  tag = r.tag;
  direction = r.direction;
  host_addr = r.host_addr;
  bytes = replicate 16 7;
}

abbrev left_by : Recv DmaData → Stream
left_by (got d rest) = rest
left_by (no_data rest) = rest
left_by (error rest) = rest

abbrev take_data : Call → Stream → Stream
take_data (dma_cb r) s = if r.direction == dir_write then left_by (recv_dma_data s) else s
take_data (msi_cb e) s = s

abbrev put_data : Call → Stream
put_data (dma_cb r) = if r.direction == dir_write then send_dma_data [] (write_data r) else []
put_data (msi_cb e) = []

takes_data : (c : Call) (s : Stream) → FitsCall c → take_data c (put_data c ++ s) ≡ s
takes_data (dma_cb r) s fits = elim (Bool-cases (r.direction == dir_write)) [
  | inl writes ↦ rw writes (
      ap left_by (
        recv_dma_data-send_dma_data (write_data r) s fits.tag_ok (omega (arith, fits.direction_ok))
          fits.addr_ok (omega arith)))
  | inr reads ↦ rw reads refl
]
takes_data (msi_cb e) s fits = refl

abbrev two_writes : List Call
two_writes = dma_cb dma_write ∷ dma_cb dma_write ∷ dma_cb dma ∷ msi_cb vector_3 ∷ []

dispatch_all_example : dispatch aux take_data 64 (sent put_data two_writes []) ≡ (two_writes, [])
dispatch_all_example =
    dispatch_all take_data put_data 64 two_writes [] takes_data
      (
        dma_write-FitsDmaReq,
        (dma_write-FitsDmaReq, (dma-FitsDmaReq, ((omega arith, omega arith, omega arith), tt))),
      )
      Idle-nil (omega arith)

blocked_example :
    dispatch aux take_data 64 (frame_bytes TypeOf.dma_data (7 ∷ []) ++ send_dma_req [] dma)
    ≡ ([], frame_bytes TypeOf.dma_data (7 ∷ []) ++ send_dma_req [] dma)
blocked_example =
    blocked take_data 64 TypeOf.dma_data (7 ∷ []) (send_dma_req [] dma) (omega arith) (omega arith)
      (λ e. omega arith) (λ e. omega arith)

abbrev reply : ℕ → Reply
reply tag = record { tag = tag; words = replicate 64 170; len = 4 }

abbrev no_traffic : Wires
no_traffic = record {
  ctrl_in = [];
  tlp_in = [];
  aux_in = [];
  ctrl_out = [];
  cpl_out = [];
  aux_out = [];
  topology_out = [];
}

abbrev unused : Link
unused = record { sent = []; notices = []; incoming = []; completions = []; topology = none }

abbrev ctx : Bridge Link
ctx = record {
  transport = connected unused (reply_all no_traffic (reply 4 ∷ reply 5 ∷ []));
  next_tag = 5;
  tag_mask = 1023;
}

wait_gets_reply_example :
    ((send_tlp_and_wait link ctx read_tlp).0 ≡ some (cpl_of (reply 5)))
    × (take 4 (cpl_of (reply 5)).data_bytes ≡ take 4 (replicate 64 170))
unfolding cpl_of
wait_gets_reply_example =
    wait_gets_reply read_tlp (reply 4 ∷ []) (reply 5) [] unused no_traffic ctx refl refl refl
      ((λ e. omega arith), tt) refl (omega arith) (omega arith) (length-replicate {A = ℕ} 64 170)
