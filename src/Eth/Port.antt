-- ===== src/Eth/Port.antt =====
-- bridge/eth/eth_port.c: one node's handle on the link. The port's own fields are `Port`; the
-- shared memory, which both nodes see, is passed beside it.
use qemu_vcs.Base.{
  ℕ, ◌+◌, ◌-◌, ◌^◌, Option, none, some, Bool, List, [], ◌∷◌, u32, u64, ltb, ◌==◌, if◌then◌else◌,
}
use qemu_vcs.Link.{LinkModel, reset, fc_can_send, should_drop, deadline, inc_outstanding}
use qemu_vcs.Link.{dec_outstanding}
use qemu_vcs.Eth.Shm.{
  Frame, Role, a, b, EthShm, FrameRing, Os, open_shm, mark_ready, enqueue, dequeue, tx_ring,
  rx_ring, set_tx, set_rx, advance_time,
}

-- `eth_port_t`
pub record Port : Type 0 where
  pub role : Role
  pub link : LinkModel
  pub seq_tx : ℕ
  pub owned_shm : Bool

abbrev pub seed_of : Role → ℕ
seed_of a = 0xA11CE
seed_of b = 0xB0B

-- `eth_port_open`: the configuration of the link model is the caller's.
unfoldable pub open_port : Os → Role → Bool → LinkModel → EthShm → Option (Port × EthShm)
open_port os role create link region = elim (open_shm os create region) [
  | none ↦ none
  | some shm ↦ some (
    record { role = role; link = reset link (seed_of role); seq_tx = 0; owned_shm = create },
    mark_ready shm role,
  )
]

-- The return values 0, -1, -2 and -3 of `eth_port_send`.
pub data SendCode : Type 0 where
  queued ring_full blocked dropped : SendCode

-- What `eth_port_send` leaves behind: the port, the shared memory and the caller's frame.
pub record Sent : Type 0 where
  pub code : SendCode
  pub port : Port
  pub shm : EthShm
  pub frame : Frame

-- The end of `eth_port_send`: the port and the frame are stamped, and `ring` is the answer of
-- the transmit ring.
unfoldable pub publish : Port → EthShm → Frame → Option FrameRing → Sent
publish p shm f none = record { code = ring_full; port = p; shm = shm; frame = f }
publish p shm f (some ring) = record {
  code = queued;
  port = record p { link = inc_outstanding p.link };
  shm = advance_time (set_tx shm p.role ring) p.role f.timestamp_ns;
  frame = f;
}

-- The frame with its sequence number and deadline, and the port after both.
unfoldable pub stamp : Port → Frame → ℕ → Port × Frame
stamp p f now_ns =
    let (t, link) = deadline p.link f.len now_ns in
    (
      record p { link = link; seq_tx = u32 (p.seq_tx + 1) },
      record f { seq = p.seq_tx; timestamp_ns = t },
    )

-- `eth_port_send` after its two guards: stamp, enqueue, publish.
unfoldable pub transmit : Port → EthShm → Frame → ℕ → Sent
unfolding stamp
transmit p shm f now_ns =
    let (p', f') = stamp p f now_ns in publish p' shm f' (enqueue (tx_ring shm p.role) f')

-- `eth_port_send`
unfoldable pub send : Port → EthShm → Frame → ℕ → Sent
send p shm f now_ns =
    let p' = record p { link = (should_drop p.link).1 } in
    if fc_can_send p.link
    then (if (should_drop p.link).0
        then record { code = dropped; port = p'; shm = shm; frame = f }
        else transmit p' shm f now_ns)
    else record { code = blocked; port = p; shm = shm; frame = f }

-- What happens between two attempts to receive: the peer may change the shared memory, and the
-- clock shows a time afterwards.
pub record Moment : Type 0 where
  pub peer : EthShm → EthShm
  pub now : ℕ

pub data Received : Type 0 where
  got : Frame → EthShm → Received
  empty : EthShm → Received
  waiting : EthShm → Received

-- One attempt: `retry` is what follows when there is no frame.
unfoldable pub attempt : Role → EthShm → Received → Received
attempt role shm retry = elim (dequeue (rx_ring shm role)) [
  | some (f, ring) ↦ got f (set_rx shm role ring)
  | none ↦ retry
]

-- The loop of `eth_port_recv`, entered at time `start`, over the moments that follow one
-- another. Each round starts with an attempt, and ends with a look at the clock.
unfoldable pub recv_loop : Role → ℕ → ℕ → EthShm → List Moment → Received
recv_loop role start timeout_ns shm [] =
    attempt role shm (if timeout_ns == 0 then empty shm else waiting shm)
recv_loop role start timeout_ns shm (m ∷ ms) =
    let rest = recv_loop role start timeout_ns (m.peer shm) ms in
    let timed_out = ltb timeout_ns (u64 (m.now + 2 ^ 64 - start)) in
    attempt role shm
      (if timeout_ns == 0 then empty shm else (if timed_out then empty shm else rest))

-- `eth_port_recv`
unfoldable pub recv : Port → EthShm → ℕ → ℕ → List Moment → Received
recv p shm timeout_ns start moments = recv_loop p.role start timeout_ns shm moments

-- `eth_port_tx_complete`
unfoldable pub tx_complete : Port → Port
tx_complete p = record p { link = dec_outstanding p.link }
