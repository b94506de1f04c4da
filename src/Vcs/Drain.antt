-- ===== src/Vcs/Drain.antt =====
-- The polling of bridge/vcs/bridge_vcs.c: it ends, and it loses and reorders no TLP.
use qemu_vcs.Base.{
  ℕ, zero, suc, ◌+◌, ◌*◌, ◌/◌, ◌^◌, ◌≤◌, ◌<◌, ◌≡◌, refl, ap, ◌∙◌, Option, none, some, true, false,
  ◌==◌, bit_and, bit_or, arith, Bool-cases, inl, inr,
}
use qemu_vcs.Base.Bits.{bit_and_mask, bit_or_shifted}
use qemu_vcs.Messages.{SyncMsg, Tlp, VfEvent}
use qemu_vcs.Messages.SyncType
use qemu_vcs.Transport.{Transport, Timed, failed, nothing, item, Finite}
use qemu_vcs.Vcs.Cache.{Rc}
use qemu_vcs.Vcs.Poll.{
  encode_vf_event, decode_vf_event, Drained, clear, stopped, unfinished, handle_topology_query,
  on_message, drain, cache_received, sync,
}

-- A VF event with fields of 8, 8 and 16 bits comes back from the payload that carries it.
pub decode-encode_vf_event :
    (ev : VfEvent)
    → ev.event_type < 2 ^ 8
    → ev.pf_index < 2 ^ 8
    → ev.num_vfs < 2 ^ 16
    → decode_vf_event (encode_vf_event ev) ≡ ev
unfolding decode_vf_event encode_vf_event
decode-encode_vf_event ev h h' h'' i = record {
  event_type = low i;
  pf_index = middle i;
  num_vfs = high i;
}
  where
    packed :
        bit_or (bit_or ev.event_type (ev.pf_index * 2 ^ 8)) (ev.num_vfs * 2 ^ 16)
        ≡ ev.event_type + ev.pf_index * 2 ^ 8 + ev.num_vfs * 2 ^ 16
    packed =
        ap (λ n. bit_or n (ev.num_vfs * 2 ^ 16)) (bit_or_shifted 8 ev.event_type ev.pf_index h)
        ∙ bit_or_shifted 16 (ev.event_type + ev.pf_index * 2 ^ 8) ev.num_vfs (omega arith)

    low : bit_and (encode_vf_event ev) 0xFF ≡ ev.event_type
    low = omega (arith, packed, bit_and_mask 8 (encode_vf_event ev))

    middle : bit_and (encode_vf_event ev / 2 ^ 8) 0xFF ≡ ev.pf_index
    middle = omega (arith, packed, bit_and_mask 8 (encode_vf_event ev / 2 ^ 8))

    high : bit_and (encode_vf_event ev / 2 ^ 16) 0xFFFF ≡ ev.num_vfs
    high = omega (arith, packed, bit_and_mask 16 (encode_vf_event ev / 2 ^ 16))

module _ {T : Type 0} (ops : Transport T) (finite : Finite ops) where
  query_pending :
      (c : Rc) (t : T) → finite.pending (handle_topology_query ops c t).1 ≤ finite.pending t
  unfolding handle_topology_query
  query_pending c t = elim (Bool-cases c.topology_ready) [
    | inr not_ready ↦ rw not_ready (omega arith)
    | inl ready ↦ elim (Bool-cases (ops.send_sync t (sync SyncType.topology_resp)).0) [
      | inr not_sent ↦ rw (ready, not_sent) (finite.after_send_sync t (sync SyncType.topology_resp))
      | inl sent ↦
          rw (ready, sent)
            (omega (
              arith,
              finite.after_send_sync t (sync SyncType.topology_resp),
              finite.after_send_topology (ops.send_sync t (sync SyncType.topology_resp)).1
                  c.topology,
            ))
    ]
  ]

  received_pending : (c : Rc) (r : Option Tlp × T) → (cache_received ops c r).1 ≡ r.1
  received_pending c (none, t) = refl
  received_pending c (some e, t) = refl

  -- A round leaves no more messages to come.
  on_message_pending :
      (c : Rc) (msg : SyncMsg) (t : T)
      → finite.pending (on_message ops c msg t).1 ≤ finite.pending t
  unfolding on_message
  on_message_pending c msg t = elim (Bool-cases (msg.kind == SyncType.query_topology)) [
    | inl query ↦ rw query (query_pending c t)
    | inr other ↦ elim (Bool-cases (msg.kind == SyncType.tlp_ready)) [
      | inl ready ↦ rw (other, ready, received_pending c (ops.recv_tlp t)) (finite.after_tlp t)
      | inr unready ↦ elim (Bool-cases (msg.kind == SyncType.vf_event)) [
        | inl vf ↦ rw (other, unready, vf) (omega arith)
        | inr none_of_these ↦ rw (other, unready, none_of_these) (omega arith)
      ]
    ]
  ]

  abbrev pub IsDone : Drained T → Type 0
  IsDone unfinished = ⊥
  IsDone (clear c t) = Unit
  IsDone (stopped c t) = Unit

  -- On a transport with finitely many messages to come, more rounds than there are of them are
  -- enough for the loop of a poll to end.
  pub drain_total :
      (fuel : ℕ) (c : Rc) (t : T) → finite.pending t < fuel → IsDone (drain ops fuel c t)
  unfolding drain
  drain_total zero c t h = absurd (omega arith)
  drain_total (suc fuel) c t h =
      step (ops.recv_sync_timed t 0) refl (λ c' t' lt. drain_total fuel c' t' lt)
    where
      step :
          (r : Timed × T)
          → ops.recv_sync_timed t 0 ≡ r
          → ((c' : Rc) (t' : T) → finite.pending t' < fuel → IsDone (drain ops fuel c' t'))
          → IsDone (
              let (received, t') = r in
              elim received as (λ _. Drained T) [
                | failed ↦ stopped c t'
                | nothing ↦ clear c t'
                | item msg ↦ elim (msg.kind == SyncType.shutdown) as (λ _. Drained T) [
                  | true ↦ stopped c t'
                  | false ↦ let (c', t'') = on_message ops c msg t' in drain ops fuel c' t''
                ]
              ])
      step (failed, t') e rounds = tt
      step (nothing, t') e rounds = tt
      step (item msg, t') e rounds = elim (Bool-cases (msg.kind == SyncType.shutdown)) [
        | inl down ↦ rw down tt
        | inr up ↦ rw up (
            rounds (on_message ops c msg t').0 (on_message ops c msg t').1
              (omega (arith, finite.after_item t 0 e, on_message_pending c msg t')))
      ]
