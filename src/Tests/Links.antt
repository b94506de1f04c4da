-- ===== src/Tests/Links.antt =====
-- A link with a rate, a burst and a window, and a short session on it.
use qemu_vcs.Base.{ℕ, ◌+◌, ◌≡◌, refl, true, false, List, [], ◌∷◌, ◌++◌, arith, some}
use qemu_vcs.Link.{LinkModel, serialize_ns, should_drop, fc_can_send}
use qemu_vcs.Link.Rate.{horizon, deadlines, AllAtRate, deadlines-AllAtRate}
use qemu_vcs.Eth.Shm.{zero_frame, a, b, FrameRing, EthShm, tx_ring, enqueue}
use qemu_vcs.Eth.Frames
use qemu_vcs.Eth.Port.{Port, send, queued, transmit, publish}
use qemu_vcs.Eth.Dpi.{send_raw, recv_raw, bytes_of}
use qemu_vcs.Eth.Dpi.Delivery.{recv_raw-send_raw}
use qemu_vcs.Eth.Order
use qemu_vcs.Eth.Order.{Rising, Sender, send-Sender, session-Rising, session, outgoing}

-- Every frame starts a burst of three.
abbrev lossy : LinkModel
lossy = record {
  drop_rate_ppm = 1000000;
  burst_drop_len = 3;
  rate_mbps = 1000;
  latency_ns = 50;
  fc_window = 2;
  rng_state = 1;
  burst_remaining = 0;
  token_bucket_ns = 100;
  outstanding = 1;
}

abbrev clean : LinkModel
clean = record lossy { drop_rate_ppm = 0 }

abbrev queued_frames : List (ℕ × ℕ)
queued_frames = (1500, 90) ∷ (64, 95) ∷ (64, 20000) ∷ []

deadlines-AllAtRate_example :
    AllAtRate clean (100 + 50) queued_frames (deadlines clean queued_frames).0
unfolding horizon serialize_ns
deadlines-AllAtRate_example =
    deadlines-AllAtRate clean queued_frames (omega arith)
      (omega arith, (omega arith, (omega arith, tt))) (omega arith)

abbrev two_slots : FrameRing
two_slots = record {
  head = 0;
  tail = 0;
  depth = 3;
  slots = zero_frame ∷ zero_frame ∷ zero_frame ∷ [];
}

abbrev shm : EthShm
shm = record {
  ctrl = record {
    magic = 0;
    version = 1;
    ready_flag = record { of_a = 1; of_b = 1 };
    node_time_ns = record { of_a = 0; of_b = 0 };
    link_up = 1;
  };
  a_to_b = two_slots;
  b_to_a = two_slots;
}

abbrev port : Port
port = record { role = a; link = clean; seq_tx = 5; owned_shm = true }

two_slots-IsValid : Frames.IsValid two_slots
two_slots-IsValid = record {
  two = omega arith;
  head_in = omega arith;
  tail_in = omega arith;
  fits = omega arith;
  small = omega arith;
}

port-Sender : Sender 5 port shm
unfolding tx_ring
port-Sender = record { ring = two_slots-IsValid; rising = omega arith }

send-Sender_example : Sender 5 (send port shm zero_frame 7).port (send port shm zero_frame 7).shm
send-Sender_example = send-Sender 5 port shm zero_frame 7 (omega arith) port-Sender

abbrev events : List Order.Event
events = Order.submit zero_frame 7 ∷ Order.submit zero_frame 9 ∷ Order.consume ∷ []

session-Rising_example :
    Rising 5
      ((session port shm events).received
        ++ outgoing (session port shm events).port (session port shm events).shm)
      (session port shm events).port.seq_tx
session-Rising_example = session-Rising 5 port shm events (omega arith) port-Sender

-- The node at the other end.
abbrev other_port : Port
other_port = record { role = b; link = clean; seq_tx = 0; owned_shm = false }

three_bytes-queued : (send_raw (some port) shm (1 ∷ 2 ∷ 3 ∷ [])).code ≡ some queued
unfolding send_raw send fc_can_send should_drop transmit publish enqueue tx_ring
three_bytes-queued = refl

recv_raw-send_raw_example :
    (recv_raw (some other_port) (send_raw (some port) shm (1 ∷ 2 ∷ 3 ∷ [])).shm 64).0
    ≡ bytes_of (1 ∷ 2 ∷ 3 ∷ [])
unfolding tx_ring
recv_raw-send_raw_example =
    recv_raw-send_raw port other_port shm (1 ∷ 2 ∷ 3 ∷ []) 64 refl two_slots-IsValid refl
      three_bytes-queued (omega arith) (omega arith)
