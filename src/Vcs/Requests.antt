-- ===== src/Vcs/Requests.antt =====
-- bridge/vcs/bridge_vcs.c: the requests of the simulator over a transport that are not reads or
-- writes of bytes, its clock steps and its events.
use qemu_vcs.Base.{
  ℕ, ◌==◌, ◌||◌, not, Bool, false, Option, none, some, List, if◌then◌else◌, take, u32,
}
use qemu_vcs.Messages.{DmaReq, VfEvent, dir_read, dir_write}
use qemu_vcs.Messages.SyncType
use qemu_vcs.Tcp.Message.{DmaData}
use qemu_vcs.Transport.{Transport}
use qemu_vcs.Socket.{Socket}
use qemu_vcs.Vcs.Cache.{Rc}
use qemu_vcs.Vcs.Poll.{encode_vf_event, sync}
use qemu_vcs.Vcs.Dma.{ReadEnd, read_failed, wait_read_sync, wait_write}

abbrev pub request_for : ℕ → ℕ → ℕ → ℕ → DmaReq
request_for tag direction host_addr len = record {
  requester_id = 0;
  tag = tag;
  direction = direction;
  host_addr = host_addr;
  len = len;
  dma_offset = 0;
  timestamp = 0;
}

-- The data of a write; `len` is not negative.
abbrev pub data_for : ℕ → ℕ → List ℕ → ℕ → DmaData
data_for tag host_addr words len = record {
  tag = tag;
  direction = dir_write;
  host_addr = host_addr;
  bytes = take len words;
}

module _ {T : Type 0} (ops : Transport T) where
  abbrev pub ask : ℕ → ℕ → ℕ → ℕ → T → Option ℕ × T
  ask tag direction host_addr len t =
      let (sent, t') = ops.send_dma_req t (request_for tag direction host_addr len) in
      (if sent then some tag else none, t')

  -- `bridge_vcs_dma_request` with a transport: the data of a write go before the request. `tag` is
  -- the value of `next_tag`, and `none` the -1.
  unfoldable pub dma_request_over : ℕ → ℕ → ℕ → List ℕ → ℕ → T → Option ℕ × T
  dma_request_over tag direction host_addr words len t =
      let (sent, t') = ops.send_dma_data t (data_for tag host_addr words len) in
      if direction == dir_write
      then (if sent then ask tag direction host_addr len t' else (none, t'))
      else ask tag direction host_addr len t

  -- `bridge_vcs_dma_read_sync` with a transport.
  unfoldable pub dma_read_sync : Bool → ℕ → ℕ → ℕ → Rc → T → ReadEnd × (Rc × T)
  dma_read_sync initialized tag host_addr len c t =
      let (sent, t') = ops.send_dma_req t (request_for tag dir_read host_addr len) in
      if not initialized || (len == 0)
      then (read_failed, (c, t))
      else (if sent then wait_read_sync ops 1000 tag len c t' else (read_failed, (c, t')))

  -- `bridge_vcs_dma_write_sync` with a transport: the request goes before the data.
  unfoldable pub dma_write_sync : Bool → ℕ → ℕ → List ℕ → ℕ → Rc → T → Bool × (Rc × T)
  dma_write_sync initialized tag host_addr words len c t =
      let (asked, t') = ops.send_dma_req t (request_for tag dir_write host_addr len) in
      let (sent, t'') = ops.send_dma_data t' (data_for tag host_addr words len) in
      if not initialized || (len == 0)
      then (false, (c, t))
      else (if asked
          then (if sent then wait_write ops 1000 tag c t'' else (false, (c, t'')))
          else (false, (c, t')))

  -- `bridge_vcs_send_vf_event` with a transport, whose `send_vf_event` is the first argument.
  unfoldable pub send_vf_event_over : (T → VfEvent → Bool × T) → VfEvent → T → Bool × T
  send_vf_event_over send_event ev t =
      let (sent, t') = send_event t ev in
      if sent then ops.send_sync t' (sync SyncType.vf_event) else (false, t')

-- What `bridge_vcs_wait_clock_step` returns: 0 with the cycles, the kind of another message, or -1.
pub data ClockStep : Type 0 where
  steps other_kind : ℕ → ClockStep
  no_step : ClockStep

module _ {S K : Type 0} (sock : Socket S K) where
  -- `bridge_vcs_wait_clock_step`; the Boolean says whether there is a transport.
  unfoldable pub wait_clock_step : Bool → S → K → ClockStep × (S × K)
  wait_clock_step has_transport s k =
      let (received, sk) = sock.recv_sync s k in
      if has_transport then (no_step, (s, k)) else elim received [
        | none ↦ (no_step, sk)
        | some msg ↦
            (if msg.kind == SyncType.clock_step then steps msg.payload else other_kind msg.kind, sk)
      ]

  -- `bridge_vcs_clock_ack`
  unfoldable pub clock_ack : Bool → ℕ → K → Bool × K
  clock_ack has_transport cycles k =
      if has_transport
      then (false, k)
      else sock.send k (record { kind = SyncType.clock_ack; payload = u32 cycles })

  -- `bridge_vcs_send_vf_event` without a transport.
  unfoldable pub send_vf_event_shm : VfEvent → K → Bool × K
  send_vf_event_shm ev k =
      sock.send k (record { kind = SyncType.vf_event; payload = u32 (encode_vf_event ev) })
