-- ===== src/Eth/Dpi/Delivery.antt =====
-- A frame that one process sends by bridge/eth/eth_mac_dpi.c is what the other process polls.
use qemu_vcs.Base.{
  if◌then◌else◌, ℕ, ◌^◌, ◌<◌, ◌≤◌, ◌≡◌, refl, sym, ap, ◌∙◌, Option, none, some, List, [], ◌∷◌, ◌++◌,
  false, length, take, replicate, take-append, ltb, ◌==◌, ◌||◌, arith, Bool-cases, Option-cases,
  inl, inr,
}
use mathlib.Core.Option
use qemu_vcs.Fifo
use qemu_vcs.Link.{fc_can_send, should_drop}
use qemu_vcs.Eth.Shm.{
  Frame, Role, a, b, EthShm, FrameRing, max_data, peer_of, tx_ring, rx_ring, set_tx, set_rx,
  advance_time, enqueue, dequeue,
}
use qemu_vcs.Eth.Frames.{
  IsValid, contents, enqueue-IsValid, contents-enqueue, contents-dequeue, dequeue_refines,
}
use qemu_vcs.Eth.Port.{
  Port, queued, send, transmit, stamp, publish, recv, recv_loop, attempt, Received, got, empty,
}
use qemu_vcs.Eth.Dpi.{
  array, overread, frame_of, send_raw, bytes_of, copy_out, copy_length, after_recv, recv_raw,
}

-- A ring that is not empty hands out its first frame.
dequeue_first :
    (r : FrameRing) (f : Frame) (later : List Frame)
    → IsValid r
    → contents r ≡ f ∷ later
    → (r' : FrameRing) × (dequeue r ≡ some (f, r'))
unfolding Fifo.get
dequeue_first r f later v e = elim (Option-cases (dequeue r)) [
  | inl nothing ↦ absurd (no_refusal (sym (dequeue_refines r v) ∙ ap (Option.map held_by) nothing))
  | inr ((g, r'), found) ↦
      let same : g ∷ contents r' ≡ f ∷ later = sym (contents-dequeue r v found) ∙ e in
      (r', found ∙ ap (λ x. some (x, r')) (head_eq same))
]
  where
    held_by : Frame × FrameRing → Frame × List Frame
    held_by (g, r') = (g, contents r')

    refused : {x : Frame × List Frame} → some x ≡ none → ⊥
    refused h = cc

    no_refusal : Fifo.get (contents r) ≡ none → ⊥
    no_refusal none_left = refused (sym (ap Fifo.get e) ∙ none_left)

    head_eq : {g : Frame} {gs : List Frame} → g ∷ gs ≡ f ∷ later → g ≡ f
    head_eq eq = cc

-- The memory after a frame was queued: the other node's ring holds the stamped frame at its end.
record Queued (role : Role) (shm after : EthShm) (f : Frame) : Type 0 where
  ring : FrameRing
  stamped : Frame
  enqueued : enqueue (tx_ring shm role) stamped ≡ some ring
  same_payload : stamped.payload ≡ f.payload
  same_len : stamped.len ≡ f.len
  seen : rx_ring after (peer_of role) ≡ ring

rx_ring-published :
    (role : Role) (shm : EthShm) (ring : FrameRing) (ns : ℕ)
    → rx_ring (advance_time (set_tx shm role ring) role ns) (peer_of role) ≡ ring
unfolding rx_ring advance_time
rx_ring-published a shm ring ns = refl
rx_ring-published b shm ring ns = refl

publish-Queued :
    (p : Port) (shm : EthShm) (stamped f : Frame) (o : Option FrameRing)
    → enqueue (tx_ring shm p.role) stamped ≡ o
    → stamped.payload ≡ f.payload
    → stamped.len ≡ f.len
    → (publish p shm stamped o).code ≡ queued
    → Queued p.role shm (publish p shm stamped o).shm f
unfolding publish
publish-Queued p shm stamped f none e payload len code = absurd cc
publish-Queued p shm stamped f (some ring) e payload len code = record {
  ring = ring;
  stamped = stamped;
  enqueued = e;
  same_payload = payload;
  same_len = len;
  seen = rx_ring-published p.role shm ring stamped.timestamp_ns;
}

send-Queued :
    (p : Port) (shm : EthShm) (f : Frame) (now_ns : ℕ)
    → (send p shm f now_ns).code ≡ queued
    → Queued p.role shm (send p shm f now_ns).shm f
unfolding send transmit stamp
send-Queued p shm f now_ns code = elim (Bool-cases (fc_can_send p.link)) [
  | inr closed ↦ let c = rw closed at code in absurd cc
  | inl free ↦ elim (Bool-cases (should_drop p.link).0) [
    | inl lost ↦ let c = rw (free, lost) at code in absurd cc
    | inr kept ↦
        rw (free, kept)
          (publish-Queued (stamp (record p { link = (should_drop p.link).1 }) f now_ns).0 shm
            (stamp (record p { link = (should_drop p.link).1 }) f now_ns).1 f
            (enqueue (tx_ring shm p.role)
              (stamp (record p { link = (should_drop p.link).1 }) f now_ns).1)
            refl refl refl (rw (free, kept) at code))
  ]
]

-- What a poll of `eth_port_recv` without a wait gives, where the ring has a first frame.
recv_first :
    (q : Port) (shm : EthShm) (f : Frame) {ring : FrameRing}
    → dequeue (rx_ring shm q.role) ≡ some (f, ring)
    → recv q shm 0 0 [] ≡ got f (set_rx shm q.role ring)
unfolding recv recv_loop attempt
recv_first q shm f e =
    ap
      (λ (o : Option (Frame × FrameRing)). elim o as (λ _. Received) [
        | some (g, ring) ↦ got g (set_rx shm q.role ring)
        | none ↦ empty shm
      ])
      e

take-array :
    (f : Frame) (data_bytes : List ℕ)
    → f.payload ≡ data_bytes
    → take (length data_bytes) (array f) ≡ data_bytes
unfolding array
take-array f data_bytes e =
    ap (λ bs. take (length data_bytes) (bs ++ replicate max_data 0)) e
    ∙ take-append data_bytes (replicate max_data 0)

copy_whole :
    (f : Frame) (data_bytes : List ℕ) (max_len : ℕ)
    → f.payload ≡ data_bytes
    → f.len ≡ length data_bytes
    → length data_bytes ≤ max_len
    → length data_bytes ≤ max_data
    → max_len < 2 ^ 16
    → copy_out f max_len ≡ bytes_of data_bytes
unfolding copy_out
copy_whole f data_bytes max_len same_payload same_len room short small =
    let n : copy_length f max_len ≡ length data_bytes = ground arith in
    let fits : ltb max_data (length data_bytes) ≡ false = ground arith in
    ap (λ k. if ltb max_data k then overread else bytes_of (take k (array f))) n
    ∙ rw fits (ap bytes_of (take-array f data_bytes same_payload))

-- Bytes that one process sends into an empty ring, and that `eth_port_send` takes, are the bytes
-- that a poll of the other process gives, if its buffer has room for them and is shorter than
-- 65536.
pub recv_raw-send_raw :
    (p q : Port) (shm : EthShm) (data_bytes : List ℕ) (max_len : ℕ)
    → q.role ≡ peer_of p.role
    → IsValid (tx_ring shm p.role)
    → contents (tx_ring shm p.role) ≡ []
    → (send_raw (some p) shm data_bytes).code ≡ some queued
    → length data_bytes ≤ max_len
    → max_len < 2 ^ 16
    → (recv_raw (some q) (send_raw (some p) shm data_bytes).shm max_len).0 ≡ bytes_of data_bytes
unfolding send_raw recv_raw after_recv
recv_raw-send_raw p q shm data_bytes max_len other v idle code room small =
    elim (Bool-cases ((length data_bytes == 0) || ltb max_data (length data_bytes))) [
      | inl refused ↦ let c = rw refused at code in absurd cc
      | inr fine ↦
          let c = rw fine at code in
          let out = send-Queued p shm (frame_of data_bytes) 0 cc in
          let w = enqueue-IsValid (tx_ring shm p.role) out.stamped v out.enqueued in
          let here : contents out.ring ≡ out.stamped ∷ [] =
            contents-enqueue (tx_ring shm p.role) out.stamped v out.enqueued
            ∙ ap (λ l. l ++ (out.stamped ∷ [])) idle in
          let (after, found) = dequeue_first out.ring out.stamped [] w here in
          let some_room : (max_len == 0) ≡ false = ground arith in
          rw (fine, some_room)
            (ap (λ x. (after_recv q max_len x).0)
                (recv_first q (send p shm (frame_of data_bytes) 0).shm out.stamped (
                  ap dequeue
                    (ap (rx_ring (send p shm (frame_of data_bytes) 0).shm) other ∙ out.seen)
                  ∙ found))
              ∙ copy_whole out.stamped data_bytes max_len out.same_payload out.same_len room
                  (ground arith) small)
    ]
