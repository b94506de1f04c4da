-- ===== src/Shm/Queues.antt =====
-- The channels of bridge/common/transport_shm.c are bounded queues of the structures sent.
use qemu_vcs.Base.{ℕ, ◌-◌, ◌≡◌, refl, List, map}
use qemu_vcs.Messages.{Tlp, Cpl}
use qemu_vcs.Fifo.{put, get, Op, run, Sends}
use qemu_vcs.Fifo.Laws.{run_refines}
use qemu_vcs.Fifo.Encoded.{Coding, Part, encoded}
use qemu_vcs.Ring.{Ring}
use qemu_vcs.Ring.Refine.{contents, Sized, ring_fifo}
use qemu_vcs.Tcp.Structs.{tlp_bytes, parse_tlp, cpl_bytes, parse_cpl}
use qemu_vcs.Tcp.StructRoundtrip.{FitsTlp, parse_tlp_lem, FitsCpl, parse_cpl_lem}
use qemu_vcs.Tcp.ChannelRoundtrip.{length-tlp_bytes, length-cpl_bytes}
use qemu_vcs.Shm.{Shm, tlp_size, cpl_entry_size}
use qemu_vcs.Shm.Channels.{set_req, set_cpl, send_tlp, recv_tlp, send_cpl, recv_cpl}

abbrev tlp_coding : Coding Tlp
tlp_coding = record {
  encode = tlp_bytes;
  decode = parse_tlp;
  Fits = FitsTlp;
  decode_lem = parse_tlp_lem;
}

abbrev cpl_coding : Coding Cpl
cpl_coding = record {
  encode = cpl_bytes;
  decode = parse_cpl;
  Fits = FitsCpl;
  decode_lem = parse_cpl_lem;
}

abbrev req_part : Part Shm Ring
req_part = record { part = λ s. s.req_ring; put_part = set_req; part-put_part = λ s r. refl }

abbrev cpl_part : Part Shm Ring
cpl_part = record { part = λ s. s.cpl_ring; put_part = set_cpl; part-put_part = λ s r. refl }

-- Sends and receives of TLPs over shared memory, in any order, get the replies of a first-in
-- first-out queue of at most `cap - 1` TLPs, where the fields of the TLPs sent fit their widths and
-- the request ring is valid with `cap` slots for TLPs.
pub tlps_in_order :
    (cap : ℕ) (s : Shm) (ops : List (Op Tlp))
    → Sized cap tlp_size s.req_ring
    → Sends FitsTlp ops
    → run send_tlp recv_tlp s ops
      ≡ run (put (cap - 1)) get (map parse_tlp (contents s.req_ring)) ops
unfolding send_tlp recv_tlp
tlps_in_order cap s ops v a =
    run_refines (encoded (ring_fifo cap tlp_size) tlp_coding req_part length-tlp_bytes) s ops v a

-- Sends and receives of completions over shared memory, in any order, get the replies of a
-- first-in first-out queue of at most `cap - 1` completions, where the fields of those sent fit
-- their widths and the completion ring is valid with `cap` slots for completions.
pub cpls_in_order :
    (cap : ℕ) (s : Shm) (ops : List (Op Cpl))
    → Sized cap cpl_entry_size s.cpl_ring
    → Sends FitsCpl ops
    → run send_cpl recv_cpl s ops
      ≡ run (put (cap - 1)) get (map parse_cpl (contents s.cpl_ring)) ops
unfolding send_cpl recv_cpl
cpls_in_order cap s ops v a =
    run_refines (encoded (ring_fifo cap cpl_entry_size) cpl_coding cpl_part length-cpl_bytes) s ops
      v a
