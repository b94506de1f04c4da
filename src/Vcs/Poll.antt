-- ===== src/Vcs/Poll.antt =====
-- bridge/vcs/bridge_vcs.c: `poll_tlp_ctx` over a transport, and what it calls.
use qemu_vcs.Base.{
  ℕ, zero, suc, ◌+◌, ◌*◌, ◌/◌, ◌^◌, Option, none, some, Bool, true, false, ltb, ◌==◌, if◌then◌else◌,
  set, bit_and, bit_or, u32, u16, u8,
}
use qemu_vcs.Messages.{SyncMsg, Tlp, VfEvent, PfTopology}
use qemu_vcs.Messages.SyncType
use qemu_vcs.Transport.{Transport, failed, nothing, item}
use qemu_vcs.Vcs.Cache.{Rc, cache_push, cache_pop}

-- `bridge_send_vf_event` of bridge/qemu/bridge_qemu.c: the event packed into a payload.
unfoldable pub encode_vf_event : VfEvent → ℕ
encode_vf_event ev = bit_or (bit_or ev.event_type (ev.pf_index * 2 ^ 8)) (ev.num_vfs * 2 ^ 16)

-- What `poll_tlp_ctx` takes out of it.
unfoldable pub decode_vf_event : ℕ → VfEvent
decode_vf_event payload = record {
  event_type = bit_and payload 0xFF;
  pf_index = bit_and (payload / 2 ^ 8) 0xFF;
  num_vfs = bit_and (payload / 2 ^ 16) 0xFFFF;
}

abbrev pub take_vf_event : Rc → ℕ → Rc
take_vf_event c payload = record c { vf_event = decode_vf_event payload; vf_event_pending = true }

-- `bridge_vcs_poll_vf_event`
unfoldable pub poll_vf_event : Rc → Option VfEvent × Rc
poll_vf_event c =
    if c.vf_event_pending
    then (some c.vf_event, record c { vf_event_pending = false })
    else (none, c)

-- `bridge_vcs_finalize_topology`
unfoldable pub finalize_topology : Rc → ℕ → ℕ → Rc
finalize_topology c num_pfs tag_width = record c {
  topology = record (c.topology) {
    header = record { num_pfs = u8 num_pfs; tag_width = u8 tag_width };
  };
  topology_ready = true;
}

-- `COSIM_MAX_PFS`
abbrev pub max_pfs : ℕ
max_pfs = 8

-- The fields are of 16 bits, and given as `int`s; the sizes are of 64.
unfoldable pub narrow : PfTopology → PfTopology
narrow pf = record pf {
  bdf = u16 pf.bdf;
  num_vfs = u16 pf.num_vfs;
  vf_device_id = u16 pf.vf_device_id;
  vendor_id = u16 pf.vendor_id;
  device_id = u16 pf.device_id;
  msix_vectors = u16 pf.msix_vectors;
  vf_msix_vectors = u16 pf.vf_msix_vectors;
}

-- `bridge_vcs_set_pf_topology` with an index that is not negative.
unfoldable pub set_pf_topology : Rc → ℕ → PfTopology → Rc
unfolding narrow
set_pf_topology c pf_idx pf =
    if ltb pf_idx max_pfs
    then record c { topology = record (c.topology) { pfs = set c.topology.pfs pf_idx (narrow pf) } }
    else c

-- What a poll returns: 0 with a TLP, 1, or -1.
pub data Polled : Type 0 where
  tlp : Tlp → Polled
  empty : Polled
  error : Polled

-- The end of the loop that drains the control channel: the channel is empty, the function
-- returns -1, or the rounds have run out.
pub data Drained (T : Type 0) : Type 0 where
  clear : Rc → T → Drained T
  stopped : Rc → T → Drained T
  unfinished : Drained T

-- A synchronisation message with nothing to say.
abbrev pub sync : ℕ → SyncMsg
sync k = record { kind = k; payload = 0 }

module _ {T : Type 0} (ops : Transport T) where
  -- `handle_topology_query_ctx` with a transport.
  unfoldable pub handle_topology_query : Rc → T → Bool × T
  handle_topology_query c t =
      let (sent, t') = ops.send_sync t (sync SyncType.topology_resp) in
      if c.topology_ready
      then (if sent then ops.send_topology t' c.topology else (false, t'))
      else (false, t)

  -- `tlp_cache_push_ctx` when its result is dropped, as the loop does.
  abbrev pub cache_or_drop : Rc → Tlp → Rc
  cache_or_drop c e = elim (cache_push c e) [ none ↦ c | some c' ↦ c' ]

  abbrev pub cache_received : Rc → Option Tlp × T → Rc × T
  cache_received c (none, t) = (c, t)
  cache_received c (some e, t) = (cache_or_drop c e, t)

  -- One round of the loop, on a message that is not a shutdown.
  unfoldable pub on_message : Rc → SyncMsg → T → Rc × T
  on_message c msg t =
      if msg.kind == SyncType.query_topology
      then (c, (handle_topology_query c t).1)
      else (if msg.kind == SyncType.tlp_ready
          then cache_received c (ops.recv_tlp t)
          else (if msg.kind == SyncType.vf_event then (take_vf_event c msg.payload, t) else (c, t)))

  -- Phase 2 of `poll_tlp_ctx`, for at most so many rounds.
  unfoldable pub drain : ℕ → Rc → T → Drained T
  unfolding on_message
  drain zero c t = unfinished
  drain (suc fuel) c t =
      let (received, t') = ops.recv_sync_timed t 0 in
      elim received [
        | failed ↦ stopped c t'
        | nothing ↦ clear c t'
        | item msg ↦ elim (msg.kind == SyncType.shutdown) [
          | true ↦ stopped c t'
          | false ↦ let (c', t'') = on_message c msg t' in drain fuel c' t''
        ]
      ]

  abbrev pub timeout_ms : ℕ → ℕ
  timeout_ms streak = if ltb streak 5 then 1 else (if ltb streak 20 then 5 else 50)

  abbrev pub deliver : Rc → Tlp → T → Polled × (Rc × T)
  deliver c e t = (tlp e, (record c { last_entry = e }, t))

  abbrev pub deliver_received : Rc → Option Tlp × T → Polled × (Rc × T)
  deliver_received c (none, t) = (empty, (c, t))
  deliver_received c (some e, t) = deliver c e t

  -- A message of phase 4.
  unfoldable pub on_waited : Rc → SyncMsg → T → Polled × (Rc × T)
  on_waited c msg t =
      if msg.kind == SyncType.shutdown
      then (error, (c, t))
      else (if msg.kind == SyncType.query_topology
          then (empty, (c, (handle_topology_query c t).1))
          else (if msg.kind == SyncType.vf_event
              then (empty, (take_vf_event c msg.payload, t))
              else (if msg.kind == SyncType.tlp_ready
                  then deliver_received c (ops.recv_tlp t)
                  else (empty, (c, t)))))

  -- Phase 4
  unfoldable pub wait : Rc → T → Polled × (Rc × T)
  unfolding on_waited
  wait c t =
      let (received, t') = ops.recv_sync_timed t (timeout_ms c.empty_streak) in
      elim received [
        | failed ↦ (error, (c, t'))
        | nothing ↦ (empty, (record c { empty_streak = u32 (c.empty_streak + 1) }, t'))
        | item msg ↦ on_waited (record c { empty_streak = 0 }) msg t'
      ]

  -- `poll_tlp_ctx` with a transport; `none` when the rounds of phase 2 have run out.
  unfoldable pub poll_tlp : ℕ → Rc → T → Option (Polled × (Rc × T))
  unfolding drain wait
  poll_tlp fuel c t =
      let counted = record c { poll_count = u32 (c.poll_count + 1) } in
      elim (cache_pop counted) [
        | some (e, c') ↦ some (deliver c' e t)
        | none ↦ elim (drain fuel counted t) [
          | unfinished ↦ none
          | stopped c' t' ↦ some (error, (c', t'))
          | clear c' t' ↦ elim (cache_pop c') [
            | some (e, c'') ↦ some (deliver c'' e t')
            | none ↦ some (wait c' t')
          ]
        ]
      ]
