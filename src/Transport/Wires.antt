-- ===== src/Transport/Wires.antt =====
-- A transport that loses nothing: each channel is the list of the messages on their way, oldest
-- first. It stands for the sockets of bridge/common/transport_tcp.c at the level of whole messages.
use qemu_vcs.Base.{
  ◌≤◌, ◌<◌, ◌≡◌, refl, Option, none, some, true, List, [], ◌∷◌, ◌++◌, length, arith,
}
use qemu_vcs.Messages.{SyncMsg, Tlp, Cpl, DmaReq, DmaCpl, Topology}
use qemu_vcs.Tcp.Message.{DmaData}
use qemu_vcs.Transport.{Transport, Timed, nothing, item, Finite}

-- A message of the auxiliary channel.
pub data Aux : Type 0 where
  req : DmaReq → Aux
  cpl : DmaCpl → Aux
  data_block : DmaData → Aux

pub record Wires : Type 0 where
  pub ctrl_in : List SyncMsg
  pub tlp_in : List Tlp
  pub aux_in : List Aux
  pub ctrl_out : List SyncMsg
  pub cpl_out : List Cpl
  pub aux_out : List Aux
  pub topology_out : List Topology

unfoldable pub next_sync : Wires → List SyncMsg → Option SyncMsg × Wires
next_sync w [] = (none, w)
next_sync w (m ∷ ms) = (some m, record w { ctrl_in = ms })

unfoldable pub next_timed : Wires → List SyncMsg → Timed × Wires
next_timed w [] = (nothing, w)
next_timed w (m ∷ ms) = (item m, record w { ctrl_in = ms })

unfoldable pub next_tlp : Wires → List Tlp → Option Tlp × Wires
next_tlp w [] = (none, w)
next_tlp w (m ∷ ms) = (some m, record w { tlp_in = ms })

-- A receive of one kind fails on a message of another, which it has consumed.
unfoldable pub next_cpl : Wires → List Aux → Option DmaCpl × Wires
next_cpl w [] = (none, w)
next_cpl w (cpl x ∷ ms) = (some x, record w { aux_in = ms })
next_cpl w (req x ∷ ms) = (none, record w { aux_in = ms })
next_cpl w (data_block x ∷ ms) = (none, record w { aux_in = ms })

unfoldable pub next_data : Wires → List Aux → Option DmaData × Wires
next_data w [] = (none, w)
next_data w (data_block x ∷ ms) = (some x, record w { aux_in = ms })
next_data w (req x ∷ ms) = (none, record w { aux_in = ms })
next_data w (cpl x ∷ ms) = (none, record w { aux_in = ms })

abbrev pub wires : Transport Wires
wires = record {
  send_sync = λ w m. (true, record w { ctrl_out = w.ctrl_out ++ (m ∷ []) });
  recv_sync = λ w. next_sync w w.ctrl_in;
  recv_sync_timed = λ w ms. next_timed w w.ctrl_in;
  recv_tlp = λ w. next_tlp w w.tlp_in;
  send_cpl = λ w x. (true, record w { cpl_out = w.cpl_out ++ (x ∷ []) });
  send_dma_req = λ w x. (true, record w { aux_out = w.aux_out ++ (req x ∷ []) });
  send_dma_cpl = λ w x. (true, record w { aux_out = w.aux_out ++ (cpl x ∷ []) });
  recv_dma_cpl = λ w. next_cpl w w.aux_in;
  send_dma_data = λ w x. (true, record w { aux_out = w.aux_out ++ (data_block x ∷ []) });
  recv_dma_data = λ w. next_data w w.aux_in;
  send_topology = λ w x. (true, record w { topology_out = w.topology_out ++ (x ∷ []) });
}

-- Every timed receive that gives a message shortens the control channel.
pub wires-Finite : Finite wires
unfolding next_timed next_tlp
wires-Finite = record {
  pending = λ w. length w.ctrl_in;
  after_item = λ w ms {m} {t'} e. shorter w w.ctrl_in e;
  after_tlp = λ w. same w w.tlp_in;
  after_send_sync = λ w m. omega arith;
  after_send_topology = λ w x. omega arith;
}
  where
    shorter :
        (w : Wires) (l : List SyncMsg) {m : SyncMsg} {w' : Wires}
        → next_timed w l ≡ (item m, w')
        → length w'.ctrl_in < length l
    shorter w [] e = ground arith
    shorter w (x ∷ l) e = ground arith

    same : (w : Wires) (l : List Tlp) → length (next_tlp w l).1.ctrl_in ≤ length w.ctrl_in
    same w [] = omega arith
    same w (x ∷ l) = omega arith

pub pending_lem : (w : Wires) → wires-Finite.pending w ≡ length w.ctrl_in
unfolding wires-Finite
pending_lem w = refl
