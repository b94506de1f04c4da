-- ===== src/Poller/Tcp.antt =====
-- The poller of bridge/qemu/irq_poller.c on the auxiliary channel of bridge/common/transport_tcp.c.
use qemu_vcs.Base.{
  none, some, ℕ, zero, suc, ◌^◌, ◌<◌, ◌≡◌, refl, ap, ◌∙◌, List, [], ◌∷◌, ◌++◌, length, arith,
}
use qemu_vcs.Messages.{DmaReq, MsiEvent}
use qemu_vcs.Tcp.TypeOf
use qemu_vcs.Tcp.Message.{
  Stream, Recv, got, no_data, error, readable, send_msg, frame_bytes, recv_nb, peek_type,
}
use qemu_vcs.Tcp.Channels.{send_dma_req, recv_dma_req_nb, send_msi, recv_msi_nb, read_as}
use qemu_vcs.Tcp.StructRoundtrip.{FitsDmaReq, parse_dma_req_lem, parse_msi_lem}
use qemu_vcs.Tcp.Structs.{dma_req_bytes, msi_bytes, parse_dma_req, parse_msi}
use qemu_vcs.Tcp.Codec.{le16, le32, le64, read}
use qemu_vcs.Tcp.Peek.{recv_nb_own, recv_nb_other}
use qemu_vcs.Poller.{
  Polled, item, nothing, failed, Source, Call, dma_cb, msi_cb, called, after_msi, after_req, round,
  dispatch, dispatch_lem,
}

unfoldable pub outcome : {A : Type 0} → Recv A → Polled A × Stream
outcome (got x rest) = (item x, rest)
outcome (no_data rest) = (nothing, rest)
outcome (error rest) = (failed, rest)

-- The auxiliary channel, on which `poll` reports the bytes that have come.
abbrev pub aux : Source Stream
aux = record {
  recv_dma_req_nb = λ s. outcome (recv_dma_req_nb readable s);
  recv_msi_nb = λ s. outcome (recv_msi_nb readable s);
}

-- The messages that make the calls, each with what its sender puts behind it, and what follows.
unfoldable pub sent : (Call → Stream) → List Call → Stream → Stream
unfolding send_dma_req send_msi
sent behind [] rest = rest
sent behind (dma_cb r ∷ calls) rest =
    send_dma_req [] r ++ (behind (dma_cb r) ++ sent behind calls rest)
sent behind (msi_cb e ∷ calls) rest = send_msi [] e ++ (behind (msi_cb e) ++ sent behind calls rest)

-- The fields of a call's message have their widths.
abbrev pub FitsCall : Call → Type 0
FitsCall (dma_cb r) = FitsDmaReq r
FitsCall (msi_cb e) = (e.requester_id < 2 ^ 16) × (e.vector < 2 ^ 16) × (e.timestamp < 2 ^ 64)

abbrev pub AllFit : List Call → Type 0
AllFit [] = Unit
AllFit (c ∷ calls) = FitsCall c × AllFit calls

own_req :
    (r : DmaReq) (rest : Stream)
    → FitsDmaReq r
    → recv_dma_req_nb readable (send_dma_req [] r ++ rest) ≡ got r rest
unfolding recv_dma_req_nb send_dma_req send_msg dma_req_bytes le16 le32 le64
own_req r rest fits =
    ap (read_as parse_dma_req)
      (recv_nb_own TypeOf.dma_req (dma_req_bytes r) rest (omega arith) (omega arith))
    ∙ ap (λ x. got x rest) (parse_dma_req_lem r fits)

own_msi :
    (e : MsiEvent) (rest : Stream)
    → FitsCall (msi_cb e)
    → recv_msi_nb readable (send_msi [] e ++ rest) ≡ got e rest
unfolding recv_msi_nb send_msi send_msg msi_bytes le16 le32 le64
own_msi e rest (h, h', h'') =
    ap (read_as parse_msi) (recv_nb_own TypeOf.msi (msi_bytes e) rest (omega arith) (omega arith))
    ∙ ap (λ x. got x rest) (parse_msi_lem e h h' h'')

-- A message of another type is left alone by both receives.
other_req :
    (t : ℕ) (payload rest : Stream)
    → t < 2 ^ 32
    → length payload < 2 ^ 32
    → ¬ (t ≡ TypeOf.dma_req)
    → recv_dma_req_nb readable (frame_bytes t payload ++ rest)
      ≡ no_data (frame_bytes t payload ++ rest)
unfolding recv_dma_req_nb
other_req t payload rest h h' differ =
    ap (read_as parse_dma_req) (recv_nb_other t TypeOf.dma_req 32 payload rest h h' differ)

other_msi :
    (t : ℕ) (payload rest : Stream)
    → t < 2 ^ 32
    → length payload < 2 ^ 32
    → ¬ (t ≡ TypeOf.msi)
    → recv_msi_nb readable (frame_bytes t payload ++ rest) ≡ no_data (frame_bytes t payload ++ rest)
unfolding recv_msi_nb
other_msi t payload rest h h' differ =
    ap (read_as parse_msi) (recv_nb_other t TypeOf.msi 16 payload rest h h' differ)

req_on_msi :
    (e : MsiEvent) (rest : Stream)
    → recv_dma_req_nb readable (send_msi [] e ++ rest) ≡ no_data (send_msi [] e ++ rest)
unfolding send_msi send_msg msi_bytes le16 le32 le64
req_on_msi e rest =
    other_req TypeOf.msi (msi_bytes e) rest (omega arith) (omega arith) (λ e. omega arith)

-- Nothing on the channel, or a message that the poller does not take.
abbrev pub Idle : Stream → Type 0
Idle s = (recv_dma_req_nb readable s ≡ no_data s) × (recv_msi_nb readable s ≡ no_data s)

pub Idle-nil : Idle []
unfolding recv_dma_req_nb recv_msi_nb recv_nb peek_type read
Idle-nil = (refl, refl)

pub Idle-other :
    (t : ℕ) (payload rest : Stream)
    → t < 2 ^ 32
    → length payload < 2 ^ 32
    → ¬ (t ≡ TypeOf.dma_req)
    → ¬ (t ≡ TypeOf.msi)
    → Idle (frame_bytes t payload ++ rest)
Idle-other t payload rest h h' no_req no_msi =
    (other_req t payload rest h h' no_req, other_msi t payload rest h h' no_msi)

round_req :
    (r : DmaReq) (rest : Stream)
    → FitsDmaReq r
    → round aux (send_dma_req [] r ++ rest) ≡ (some (dma_cb r), rest)
unfolding round after_req outcome
round_req r rest fit = ap (λ x. after_req aux (outcome x)) (own_req r rest fit)

-- Where the first receive finds nothing, the second decides.
round_other :
    (s : Stream) {x : Recv MsiEvent}
    → recv_dma_req_nb readable s ≡ no_data s
    → recv_msi_nb readable s ≡ x
    → round aux s ≡ after_msi aux (outcome x)
unfolding round after_req outcome
round_other s no_req e =
    ap (λ x. after_req aux (outcome x)) no_req ∙ ap (λ x. after_msi aux (outcome x)) e

round_msi :
    (e : MsiEvent) (rest : Stream)
    → FitsCall (msi_cb e)
    → round aux (send_msi [] e ++ rest) ≡ (some (msi_cb e), rest)
unfolding after_msi outcome
round_msi e rest fit = round_other (send_msi [] e ++ rest) (req_on_msi e rest) (own_msi e rest fit)

round-Idle : (s : Stream) → Idle s → round aux s ≡ (none, s)
unfolding after_msi outcome
round-Idle s (no_req, no_msi) = round_other s no_req no_msi

-- DMA requests and interrupts that have come in, with fields of their widths and fewer than the
-- rounds, are all handed over in the order in which they were sent, where each callback receives
-- exactly what the sender has put behind its message, and the poller stops before what follows, if
-- that is neither of the two.
pub dispatch_all :
    (callback : Call → Stream → Stream) (behind : Call → Stream) (rounds : ℕ) (calls : List Call)
    (rest : Stream)
    → ((c : Call) (s : Stream) → FitsCall c → callback c (behind c ++ s) ≡ s)
    → AllFit calls
    → Idle rest
    → length calls < rounds
    → dispatch aux callback rounds (sent behind calls rest) ≡ (calls, rest)
unfolding dispatch sent outcome
dispatch_all callback behind zero calls rest takes fits idle h = absurd (omega arith)
dispatch_all callback behind (suc rounds) [] rest takes fits idle h =
    dispatch_lem aux callback rounds rest none (round-Idle rest idle)
dispatch_all callback behind (suc rounds) (dma_cb r ∷ calls) rest takes (fit, fits) idle h =
    let left = behind (dma_cb r) ++ sent behind calls rest in
    dispatch_lem aux callback rounds (send_dma_req [] r ++ left) (some (dma_cb r))
      (round_req r left fit)
    ∙ ap (λ s. called (dma_cb r) (dispatch aux callback rounds s)) (takes (dma_cb r) _ fit)
    ∙ ap (called (dma_cb r))
        (dispatch_all callback behind rounds calls rest takes fits idle (omega arith))
dispatch_all callback behind (suc rounds) (msi_cb e ∷ calls) rest takes (fit, fits) idle h =
    let left = behind (msi_cb e) ++ sent behind calls rest in
    dispatch_lem aux callback rounds (send_msi [] e ++ left) (some (msi_cb e))
      (round_msi e left fit)
    ∙ ap (λ s. called (msi_cb e) (dispatch aux callback rounds s)) (takes (msi_cb e) _ fit)
    ∙ ap (called (msi_cb e))
        (dispatch_all callback behind rounds calls rest takes fits idle (omega arith))

-- A message of another type at the head of the channel, an Ethernet frame for instance, is never
-- skipped: in no number of rounds does the poller take anything.
pub blocked :
    (callback : Call → Stream → Stream) (rounds t : ℕ) (payload rest : Stream)
    → t < 2 ^ 32
    → length payload < 2 ^ 32
    → ¬ (t ≡ TypeOf.dma_req)
    → ¬ (t ≡ TypeOf.msi)
    → dispatch aux callback rounds (frame_bytes t payload ++ rest)
      ≡ ([], frame_bytes t payload ++ rest)
unfolding dispatch outcome
blocked callback zero t payload rest h h' no_req no_msi = refl
blocked callback (suc rounds) t payload rest h h' no_req no_msi =
    dispatch_lem aux callback rounds (frame_bytes t payload ++ rest) none
      (round-Idle (frame_bytes t payload ++ rest) (Idle-other t payload rest h h' no_req no_msi))
