-- ===== src/Tcp/ChannelRoundtrip.antt =====
-- What bridge/common/transport_tcp.c sends, its receive functions give back.
use qemu_vcs.Base.{ℕ, ◌^◌, ◌<◌, ◌≡◌, sym, ap, ◌∙◌, List, ◌++◌, [], length, length-append, arith}
use qemu_vcs.Messages.{Tlp, Cpl}
use qemu_vcs.Tcp.TypeOf
use qemu_vcs.Tcp.Message.{Stream, got, frame_bytes, recv_typed, send_msg}
use qemu_vcs.Tcp.Codec.{le16, le32, le64}
use qemu_vcs.Tcp.Structs.{tlp_head, tlp_tail, tlp_bytes, parse_tlp, cpl_head, cpl_bytes}
use qemu_vcs.Tcp.StructRoundtrip.{FitsTlp, FitsCpl, parse_tlp_lem}
use qemu_vcs.Tcp.Roundtrip.{recv_typed-send_msg}
use qemu_vcs.Tcp.Channels.{read_as, send_tlp, recv_tlp}

pub length-tlp_bytes : (t : Tlp) → FitsTlp t → length (tlp_bytes t) ≡ 112
unfolding tlp_bytes tlp_head tlp_tail le16 le64
length-tlp_bytes t fits = omega (arith, fits.data_ok, length-append t.data_bytes (tlp_tail t))

pub length-cpl_bytes : (c : Cpl) → FitsCpl c → length (cpl_bytes c) ≡ 84
unfolding cpl_bytes cpl_head le16 le32 le64
length-cpl_bytes c fits = omega (arith, fits.data_ok, length-append c.data_bytes (le64 c.timestamp))

-- A structure of `size` bytes, sent as a message of its type, is received as its bytes.
typed_lem :
    {A : Type 0} (parse : List ℕ → A) (t size : ℕ) (bytes rest : Stream)
    → t < 2 ^ 32
    → size < 2 ^ 32
    → length bytes ≡ size
    → read_as parse (recv_typed t size (frame_bytes t bytes ++ rest)) ≡ got (parse bytes) rest
typed_lem parse t size bytes rest h h' e =
    ap (λ n. read_as parse (recv_typed t n (frame_bytes t bytes ++ rest))) (sym e)
    ∙ ap (read_as parse) (recv_typed-send_msg t bytes rest h (omega (arith, e)))

-- A TLP whose fields fit their widths, with 64 bytes of data, is received as it was sent, and the
-- rest of the stream is left.
pub recv_tlp-send_tlp :
    (t : Tlp) (rest : Stream) → FitsTlp t → recv_tlp (send_tlp [] t ++ rest) ≡ got t rest
unfolding recv_tlp send_tlp send_msg
recv_tlp-send_tlp t rest fits =
    typed_lem parse_tlp TypeOf.tlp 112 (tlp_bytes t) rest (omega arith) (omega arith)
      (length-tlp_bytes t fits)
    ∙ ap (λ x. got x rest) (parse_tlp_lem t fits)
