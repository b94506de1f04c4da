-- ===== src/Eth/Order.antt =====
-- Frames arrive in the order in which they were sent: the sequence numbers that a node receives
-- rise, whatever was dropped, blocked or refused on the way.
use qemu_vcs.Base.{
  ℕ, suc, ◌+◌, ◌^◌, ◌≤◌, ◌<◌, ◌≡◌, refl, sym, ap, ◌∙◌, Option, none, some, List, [], ◌∷◌, ◌++◌,
  arith, length, Bool-cases, Option-cases, inl, inr,
}
use qemu_vcs.Link.{fc_can_send, should_drop}
use qemu_vcs.Eth.Shm.{
  Frame, Role, a, b, peer_of, EthShm, FrameRing, enqueue, dequeue, tx_ring, rx_ring, set_tx, set_rx,
  advance_time,
}
use qemu_vcs.Eth.Frames.{
  IsValid, contents, enqueue-IsValid, dequeue-IsValid, contents-enqueue, contents-dequeue,
}
use qemu_vcs.Eth.Port.{Port, publish, stamp, transmit, send}

-- Sequence numbers from `lo` on, rising, below `hi`.
abbrev pub Rising : ℕ → List Frame → ℕ → Type 0
Rising lo [] hi = lo ≤ hi
Rising lo (f ∷ fs) hi = (lo ≤ f.seq) × Rising (suc f.seq) fs hi

pub Rising-later :
    (lo : ℕ) (fs : List Frame) (hi hi' : ℕ) → hi ≤ hi' → Rising lo fs hi → Rising lo fs hi'
Rising-later lo [] hi hi' h r = omega arith
Rising-later lo (f ∷ fs) hi hi' h r = (r.0, Rising-later (suc f.seq) fs hi hi' h r.1)

Rising-snoc :
    (lo : ℕ) (fs : List Frame) (hi : ℕ) (f : Frame)
    → f.seq ≡ hi
    → Rising lo fs hi
    → Rising lo (fs ++ (f ∷ [])) (suc hi)
Rising-snoc lo [] hi f e r = (omega arith, omega arith)
Rising-snoc lo (g ∷ fs) hi f e r = (r.0, Rising-snoc (suc g.seq) fs hi f e r.1)

-- The frames on their way from this port.
abbrev pub outgoing : Port → EthShm → List Frame
outgoing p shm = contents (tx_ring shm p.role)

-- What is true of a sender whose frames on the way begin at `lo`.
pub record Sender (lo : ℕ) (p : Port) (shm : EthShm) : Type 0 where
  pub ring : IsValid (tx_ring shm p.role)
  pub rising : Rising lo (outgoing p shm) p.seq_tx

tx_ring-published :
    (role : Role) (shm : EthShm) (ring : FrameRing) (ns : ℕ)
    → tx_ring (advance_time (set_tx shm role ring) role ns) role ≡ ring
unfolding tx_ring advance_time
tx_ring-published a shm ring ns = refl
tx_ring-published b shm ring ns = refl

publish-Sender :
    (lo : ℕ) (p : Port) (shm : EthShm) (f : Frame) (o : Option FrameRing)
    → IsValid (tx_ring shm p.role)
    → enqueue (tx_ring shm p.role) f ≡ o
    → Rising lo (outgoing p shm) f.seq
    → p.seq_tx ≡ suc f.seq
    → Sender lo (publish p shm f o).port (publish p shm f o).shm
unfolding publish
publish-Sender lo p shm f none v e r s = record {
  ring = v;
  rising = Rising-later lo _ f.seq p.seq_tx (omega arith) r;
}
publish-Sender lo p shm f (some ring) v e r s =
    let back = tx_ring-published p.role shm ring f.timestamp_ns in
    record {
      ring = rw back (enqueue-IsValid (tx_ring shm p.role) f v e);
      rising =
          rw (back, contents-enqueue (tx_ring shm p.role) f v e, s)
            (Rising-snoc lo (outgoing p shm) f.seq f refl r);
    }

transmit-Sender :
    (lo : ℕ) (p : Port) (shm : EthShm) (f : Frame) (now_ns : ℕ)
    → p.seq_tx + 1 < 2 ^ 32
    → Sender lo p shm
    → Sender lo (transmit p shm f now_ns).port (transmit p shm f now_ns).shm
unfolding transmit
transmit-Sender lo p shm f now_ns small s =
    publish-Sender lo (stamp p f now_ns).0 shm (stamp p f now_ns).1
      (enqueue (tx_ring shm p.role) (stamp p f now_ns).1) s.ring refl s.rising (omega arith)

-- `eth_port_send` keeps the frames on the way in rising order, on each of its four outcomes.
pub send-Sender :
    (lo : ℕ) (p : Port) (shm : EthShm) (f : Frame) (now_ns : ℕ)
    → p.seq_tx + 1 < 2 ^ 32
    → Sender lo p shm
    → Sender lo (send p shm f now_ns).port (send p shm f now_ns).shm
unfolding send
send-Sender lo p shm f now_ns small s = elim (Bool-cases (fc_can_send p.link)) [
  | inr closed ↦ rw closed s
  | inl free ↦ elim (Bool-cases (should_drop p.link).0) [
    | inl lost ↦ rw (free, lost) (record { ring = s.ring; rising = s.rising })
    | inr kept ↦
        rw (free, kept)
          (transmit-Sender lo (record p { link = (should_drop p.link).1 }) shm f now_ns small
            (record { ring = s.ring; rising = s.rising }))
  ]
]

publish-keeps :
    (p : Port) (shm : EthShm) (f : Frame) (o : Option FrameRing)
    → ((publish p shm f o).port.seq_tx ≡ p.seq_tx) × ((publish p shm f o).port.role ≡ p.role)
unfolding publish
publish-keeps p shm f none = (refl, refl)
publish-keeps p shm f (some ring) = (refl, refl)

-- A call uses up one sequence number at most, and the port keeps its role.
pub seq_tx-send :
    (p : Port) (shm : EthShm) (f : Frame) (now_ns : ℕ)
    → ((send p shm f now_ns).port.seq_tx ≤ p.seq_tx + 1)
      × ((send p shm f now_ns).port.role ≡ p.role)
unfolding send transmit
seq_tx-send p shm f now_ns = ground (
  arith,
  publish-keeps (stamp (record p { link = (should_drop p.link).1 }) f now_ns).0 shm
      (stamp (record p { link = (should_drop p.link).1 }) f now_ns).1
      (enqueue (tx_ring shm p.role)
        (stamp (record p { link = (should_drop p.link).1 }) f now_ns).1),
)

-- What happens on one direction of the link: the sender submits a frame at a time, or the node at
-- the other end asks for one.
pub data Event : Type 0 where
  submit : Frame → ℕ → Event
  consume : Event

-- What the receiver was handed, and what the sender and the shared memory have become.
pub record Session : Type 0 where
  pub received : List Frame
  pub port : Port
  pub shm : EthShm

unfoldable pub session : Port → EthShm → List Event → Session
session p shm [] = record { received = []; port = p; shm = shm }
session p shm (submit f now_ns ∷ es) =
    session (send p shm f now_ns).port (send p shm f now_ns).shm es
session p shm (consume ∷ es) = elim (dequeue (rx_ring shm (peer_of p.role))) [
  | none ↦ session p shm es
  | some (f, ring) ↦
      let rest = session p (set_rx shm (peer_of p.role) ring) es in
      record rest { received = f ∷ rest.received }
]

rx_ring-peer : (role : Role) (shm : EthShm) → rx_ring shm (peer_of role) ≡ tx_ring shm role
unfolding rx_ring tx_ring
rx_ring-peer a shm = refl
rx_ring-peer b shm = refl

tx_ring-set_rx :
    (role : Role) (shm : EthShm) (ring : FrameRing)
    → tx_ring (set_rx shm (peer_of role) ring) role ≡ ring
unfolding tx_ring
tx_ring-set_rx a shm ring = refl
tx_ring-set_rx b shm ring = refl

-- On any interleaving of sends and receives, the frames received, followed by those still on the
-- way, have rising sequence numbers: none is repeated and none overtakes another. The sequence
-- counter does not wrap.
pub session-Rising :
    (lo : ℕ) (p : Port) (shm : EthShm) (es : List Event)
    → p.seq_tx + length es < 2 ^ 32
    → Sender lo p shm
    → Rising lo
        ((session p shm es).received ++ outgoing (session p shm es).port (session p shm es).shm)
        (session p shm es).port.seq_tx
unfolding session
session-Rising lo p shm [] small s = s.rising
session-Rising lo p shm (submit f now_ns ∷ es) small s =
    session-Rising lo (send p shm f now_ns).port (send p shm f now_ns).shm es
      (omega (arith, seq_tx-send p shm f now_ns)) (send-Sender lo p shm f now_ns (omega arith) s)
session-Rising lo p shm (consume ∷ es) small s =
    elim (Option-cases (dequeue (rx_ring shm (peer_of p.role)))) [
      | inl none_left ↦ rw (none_left, session) (session-Rising lo p shm es (omega arith) s)
      | inr ((f, ring), e) ↦
          let e' = sym (ap dequeue (rx_ring-peer p.role shm)) ∙ e in
          let first = contents-dequeue (tx_ring shm p.role) s.ring e' in
          let r : Rising lo (f ∷ contents ring) p.seq_tx = rw first at s.rising in
          let back = tx_ring-set_rx p.role shm ring in
          rw (e, session)
            (
              r.0,
              session-Rising (suc f.seq) p (set_rx shm (peer_of p.role) ring) es (omega arith)
                  (record {
                    ring = rw back (dequeue-IsValid (tx_ring shm p.role) s.ring e');
                    rising = rw back r.1;
                  }),
            )
    ]
