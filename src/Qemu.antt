-- ===== src/Qemu.antt =====
-- bridge/qemu/bridge_qemu.c: the emulator's side of the bridge. The control flow is the same over
-- a transport and over the shared memory with its socket; `TlpTransport` is either.
pub mod Completion
pub mod Tags
pub mod Shared
pub mod Clock
use qemu_vcs.Base.{
  ℕ, zero, suc, ◌+◌, ◌==◌, ◌!=◌, Bool, true, false, Option, none, some, List, [], ◌∷◌,
  if◌then◌else◌, bit_and,
}
use qemu_vcs.Messages.{SyncMsg, Tlp, Cpl, VfEvent, Topology}
use qemu_vcs.Messages.SyncType
use qemu_vcs.Vcs.Poll.{encode_vf_event}

-- The functions of `cosim_transport_t` that this side uses, or the rings, the socket and the
-- topology that the shared memory holds.
pub record TlpTransport (T : Type 0) : Type 0 where
  pub send_tlp : T → Tlp → Bool × T
  pub send_sync : T → SyncMsg → Bool × T
  pub recv_sync : T → Option SyncMsg × T
  pub recv_cpl : T → Option Cpl × T
  pub recv_topology : T → Option Topology × T

-- `bridge_ctx_t`
pub record Bridge (T : Type 0) : Type 0 where
  pub transport : T
  pub next_tag : ℕ
  pub tag_mask : ℕ

-- `bridge_init` and `bridge_init_ex`, once the transport is open.
unfoldable pub init_ex : {T : Type 0} → T → Bridge T
init_ex t = record { transport = t; next_tag = 0; tag_mask = 0x03FF }

-- `tag_width_to_mask`
unfoldable pub tag_width_to_mask : ℕ → ℕ
tag_width_to_mask width =
    if width == 0
    then 0x001F
    else (if width == 1 then 0x00FF else (if width == 2 then 0x03FF else 0x001F))

module _ {T : Type 0} (ops : TlpTransport T) where
  -- The end of `bridge_send_tlp`: the TLP first, then the notice.
  unfoldable pub put_tlp : T → Tlp → Bool × T
  put_tlp t req =
      let (sent, t') = ops.send_tlp t req in
      if sent
      then ops.send_sync t' (record { kind = SyncType.tlp_ready; payload = 0 })
      else (false, t')

  -- `bridge_send_tlp`: the result, the caller's TLP with its tag, and the bridge.
  unfoldable pub send_tlp : Bridge T → Tlp → Bool × Tlp × Bridge T
  unfolding put_tlp
  send_tlp ctx req =
      let req' = record req { tag = bit_and ctx.next_tag ctx.tag_mask } in
      let (sent, t') = put_tlp ctx.transport req' in
      (
        sent,
        req',
        record ctx { transport = t'; next_tag = bit_and (ctx.next_tag + 1) ctx.tag_mask },
      )

  -- The loop of `bridge_wait_completion`: completions with another tag are dropped.
  unfoldable pub wait_loop : ℕ → ℕ → T → Option Cpl × T
  wait_loop zero tag t = (none, t)
  wait_loop (suc guard) tag t =
      let (received, t') = ops.recv_sync t in
      elim received [
        | none ↦ (none, t')
        | some msg ↦ elim (msg.kind != SyncType.cpl_ready) [
          | true ↦ (none, t')
          | false ↦
              let (answer, t'') = ops.recv_cpl t' in
              elim answer [
                | none ↦ (none, t'')
                | some c ↦ elim (c.tag == tag) [
                  | true ↦ (some c, t'')
                  | false ↦ wait_loop guard tag t''
                ]
              ]
        ]
      ]

  -- `drain_guard`
  abbrev pub drain_guard : ℕ
  drain_guard = 256

  -- `bridge_wait_completion`
  unfoldable pub wait_completion : Bridge T → ℕ → Option Cpl × Bridge T
  unfolding wait_loop
  wait_completion ctx tag =
      let (answer, t') = wait_loop drain_guard tag ctx.transport in
      (answer, record ctx { transport = t' })

  -- `bridge_send_tlp_and_wait`: it waits for the tag that the TLP was given.
  unfoldable pub send_tlp_and_wait : Bridge T → Tlp → Option Cpl × Bridge T
  unfolding send_tlp wait_completion
  send_tlp_and_wait ctx req =
      let (sent, req', ctx') = send_tlp ctx req in
      if sent then wait_completion ctx' req'.tag else (none, ctx')

  -- `bridge_send_tlp_fire`
  unfoldable pub send_tlp_fire : Bridge T → Tlp → Bool × Bridge T
  unfolding send_tlp
  send_tlp_fire ctx req = let (sent, req', ctx') = send_tlp ctx req in (sent, ctx')

  abbrev pub with_bdf : Tlp → ℕ → ℕ → Tlp
  with_bdf req requester_id target_bdf = record req {
    requester_id = requester_id;
    target_bdf = target_bdf;
  }

  -- `bridge_send_tlp_bdf`
  unfoldable pub send_tlp_bdf : Bridge T → Tlp → ℕ → ℕ → Bool × Tlp × Bridge T
  unfolding send_tlp
  send_tlp_bdf ctx req requester_id target_bdf = send_tlp ctx (with_bdf req requester_id target_bdf)

  -- `bridge_send_tlp_and_wait_bdf`
  unfoldable pub send_tlp_and_wait_bdf : Bridge T → Tlp → ℕ → ℕ → Option Cpl × Bridge T
  unfolding send_tlp_and_wait
  send_tlp_and_wait_bdf ctx req requester_id target_bdf =
      send_tlp_and_wait ctx (with_bdf req requester_id target_bdf)

  -- `bridge_query_topology`
  unfoldable pub query_topology : T → Option Topology × T
  query_topology t =
      let (asked, t1) = ops.send_sync t (record { kind = SyncType.query_topology; payload = 0 }) in
      let (received, t2) = ops.recv_sync t1 in
      if asked
      then elim received [
        | none ↦ (none, t2)
        | some resp ↦
            if resp.kind != SyncType.topology_resp then (none, t2) else ops.recv_topology t2
      ]
      else (none, t1)

  -- `bridge_send_vf_event`: the fields of a `vf_event_t` in one word.
  unfoldable pub send_vf_event : T → VfEvent → Bool × T
  unfolding encode_vf_event
  send_vf_event t ev =
      ops.send_sync t (record { kind = SyncType.vf_event; payload = encode_vf_event ev })
