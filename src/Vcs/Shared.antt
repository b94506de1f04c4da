-- ===== src/Vcs/Shared.antt =====
-- bridge/vcs/bridge_vcs.c over the shared memory with its socket.
pub mod Area
pub mod Answered
use qemu_vcs.Base.{
  ℕ, zero, suc, ◌+◌, ◌-◌, ◌*◌, ◌/◌, Bool, true, false, Option, none, some, List, ◌==◌, ◌!=◌, ◌&&◌,
  ◌||◌, not, ltb, if◌then◌else◌, length, take, bit_and, read_at, write_at, u16, u32, min,
}
use qemu_vcs.Messages.{SyncMsg, Tlp, DmaReq, dir_read, dir_write, Topology}
use qemu_vcs.Messages.SyncType
use qemu_vcs.Transport.{failed, nothing, item}
use qemu_vcs.Shm.{Shm, total_size, dma_buf_offset}
use qemu_vcs.Shm.Channels.{recv_tlp, send_cpl, send_dma_req, recv_dma_cpl, send_msi}
use qemu_vcs.Socket.{Socket}
use qemu_vcs.Vcs.Cache.{Rc}
use qemu_vcs.Vcs.Poll.{Polled, tlp, empty, error, take_vf_event, sync}
use qemu_vcs.Vcs.Dma.{ReadEnd, bytes_read, read_failed, overrun}
use qemu_vcs.Vcs.Complete.{completion}

-- The globals: `g_shm`, the topology behind its control block, `g_sock_fd`, and the root complex
-- with its `pending_tlp_ready`.
pub record Side (K : Type 0) : Type 0 where
  pub shm : Shm
  pub topology_area : Option Topology
  pub sock : K
  pub rc : Rc
  pub pending_tlp_ready : ℕ

-- `dma_buf_size`
abbrev pub area_size : ℕ
area_size = total_size - dma_buf_offset

-- The two static variables of each DMA function: `bump_offset`, `rd_bump` or `wr_bump`, and
-- `next_tag`, `rd_tag` or `wr_tag`.
pub record Statics : Type 0 where
  pub bump : ℕ
  pub next_tag : ℕ

-- `(len + 63) & ~63`
unfoldable pub aligned_len : ℕ → ℕ
aligned_len len = bit_and (u32 (len + 63)) 0xFFFFFFC0

-- The place of a transfer in the DMA area, and the variables after it.
unfoldable pub place : Statics → ℕ → ℕ × Statics
unfolding aligned_len
place v len =
    let offset = if ltb area_size (u32 (v.bump + aligned_len len)) then 0 else v.bump in
    (offset, record { bump = u32 (offset + aligned_len len); next_tag = u32 (v.next_tag + 1) })

abbrev pub request_at : ℕ → ℕ → ℕ → ℕ → ℕ → DmaReq
request_at tag direction host_addr len offset = record {
  requester_id = 0;
  tag = tag;
  direction = direction;
  host_addr = host_addr;
  len = len;
  dma_offset = offset;
  timestamp = 0;
}

-- A request that goes out: its offset, or the -1 of a full ring, or a copy past the DMA area.
pub data Submitted : Type 0 where
  submitted : ℕ → Shm → Submitted
  ring_full : Shm → Submitted
  past_area : Submitted

abbrev pub enqueued : ℕ → Shm → Option Shm → Submitted
enqueued offset s none = ring_full s
enqueued offset s (some s') = submitted offset s'

-- The request of a read, and that of a write behind its data.
unfoldable pub submit_read : Statics → ℕ → ℕ → Shm → Submitted
submit_read v host_addr len s =
    let offset = (place v len).0 in
    enqueued offset s (send_dma_req s (request_at v.next_tag dir_read host_addr len offset))

unfoldable pub submit_write : Statics → ℕ → List ℕ → Shm → Submitted
submit_write v host_addr buf s =
    let offset = (place v (length buf)).0 in
    let s' = record s { dma_buf = write_at s.dma_buf offset buf } in
    if ltb area_size (offset + length buf)
    then past_area
    else enqueued offset s'
        (send_dma_req s' (request_at v.next_tag dir_write host_addr (length buf) offset))

-- `bridge_vcs_dma_request`, with a length that is not negative; the data of a read are not looked
-- at. The variables are those of the function.
unfoldable pub dma_request : Statics → ℕ → ℕ → List ℕ → ℕ → Shm → Submitted × Statics
dma_request v direction host_addr words len s = (
  if direction == dir_write
      then submit_write v host_addr (take len words) s
      else (let offset = (place v len).0 in
          enqueued offset s
            (send_dma_req s (request_at v.next_tag direction host_addr len offset))),
  (place v len).1,
)

-- The end of a write.
pub data WriteEnd : Type 0 where
  bytes_written write_failed wrote_past_area : WriteEnd

module _ {K : Type 0} (ops : Socket Shm K) where
  abbrev pub after_wait : Side K → Shm × K → Side K
  after_wait g (s, k) = record g { shm = s; sock = k }

  -- The wait of the DMA functions for a completion, for at most so many rounds of five seconds.
  unfoldable pub wait_cpl : ℕ → ℕ → Side K → Bool × Side K
  wait_cpl zero tag g = (false, g)
  wait_cpl (suc rounds) tag g =
      let (received, sk) = ops.recv_sync_timed g.shm g.sock 5000 in
      let g' = after_wait g sk in
      elim received [
        | failed ↦ (false, g')
        | nothing ↦ wait_cpl rounds tag g'
        | item msg ↦ elim (msg.kind == SyncType.shutdown) [
          | true ↦ (false, g')
          | false ↦ elim (msg.kind == SyncType.dma_cpl) [
            | true ↦ elim (recv_dma_cpl g'.shm) [
              | none ↦ wait_cpl rounds tag g'
              | some (c, s) ↦ ((c.tag == tag) && (c.status == 0), record g' { shm = s })
            ]
            | false ↦ elim (msg.kind == SyncType.tlp_ready) [
              | true ↦
                  wait_cpl rounds tag (record g' { pending_tlp_ready = g'.pending_tlp_ready + 1 })
              | false ↦ wait_cpl rounds tag g'
            ]
          ]
        ]
      ]

  -- The bytes at an offset of the DMA area.
  abbrev pub copied : ℕ → ℕ → Bool × Side K → ReadEnd × Side K
  copied offset len (false, g) = (read_failed, g)
  copied offset len (true, g) = (
    if ltb area_size (offset + len) then overrun else bytes_read (read_at g.shm.dma_buf offset len),
    g,
  )

  abbrev pub read_after : ℕ → ℕ → Side K → Submitted → ReadEnd × Side K
  read_after tag len g (submitted offset s) =
      copied offset len (wait_cpl 1000 tag (record g { shm = s }))
  read_after tag len g (ring_full s) = (read_failed, record g { shm = s })
  read_after tag len g past_area = (overrun, g)

  -- `bridge_dma_read_bytes` with a buffer.
  unfoldable pub dma_read_bytes_shm : Bool → Statics → ℕ → ℕ → Side K → ReadEnd × (Statics × Side K)
  dma_read_bytes_shm initialized v host_addr len g =
      let (end, g') = read_after v.next_tag len g (submit_read v host_addr len g.shm) in
      if not initialized || (len == 0) then (read_failed, (v, g)) else (end, ((place v len).1, g'))

  -- `bridge_vcs_dma_read_sync`, with a length that is not negative: at most sixteen words.
  unfoldable pub dma_read_sync_shm : Bool → Statics → ℕ → ℕ → Side K → ReadEnd × (Statics × Side K)
  dma_read_sync_shm initialized v host_addr len g =
      let words = min ((len + 3) / 4) 16 in
      let (end, g') = read_after v.next_tag (words * 4) g (submit_read v host_addr len g.shm) in
      if not initialized || (len == 0) then (read_failed, (v, g)) else (end, ((place v len).1, g'))

  abbrev pub written : Bool × Side K → WriteEnd × Side K
  written (false, g) = (write_failed, g)
  written (true, g) = (bytes_written, g)

  abbrev pub write_after : ℕ → Side K → Submitted → WriteEnd × Side K
  write_after tag g (submitted offset s) = written (wait_cpl 1000 tag (record g { shm = s }))
  write_after tag g (ring_full s) = (write_failed, record g { shm = s })
  write_after tag g past_area = (wrote_past_area, g)

  -- `bridge_dma_write_bytes` with a buffer.
  unfoldable pub dma_write_bytes_shm :
      Bool → Statics → ℕ → List ℕ → Side K → WriteEnd × (Statics × Side K)
  dma_write_bytes_shm initialized v host_addr buf g =
      let (end, g') = write_after v.next_tag g (submit_write v host_addr buf g.shm) in
      if not initialized || (length buf == 0)
      then (write_failed, (v, g))
      else (end, ((place v (length buf)).1, g'))

  -- `bridge_vcs_dma_write_sync`, with a length that is not negative.
  unfoldable pub dma_write_sync_shm :
      Bool → Statics → ℕ → List ℕ → ℕ → Side K → WriteEnd × (Statics × Side K)
  dma_write_sync_shm initialized v host_addr words len g =
      let (end, g') = write_after v.next_tag g (submit_write v host_addr (take len words) g.shm) in
      if not initialized || (len == 0) then (write_failed, (v, g)) else (end, ((place v len).1, g'))

  -- `handle_topology_query_ctx`; what it returns is not looked at.
  unfoldable pub handle_topology_query_shm : Side K → Side K
  handle_topology_query_shm g =
      if g.rc.topology_ready
      then record g {
        topology_area = some g.rc.topology;
        sock = (ops.send g.sock (sync SyncType.topology_resp)).1;
      }
      else g

  abbrev pub delivered : Side K → Option (Tlp × Shm) → Polled × Side K
  delivered g none = (empty, g)
  delivered g (some (e, s)) = (tlp e, record g { shm = s; rc = record (g.rc) { last_entry = e } })

  abbrev pub on_poll : Side K → SyncMsg → Polled × Side K
  on_poll g msg =
      if msg.kind == SyncType.query_topology
      then (empty, handle_topology_query_shm g)
      else (if msg.kind == SyncType.shutdown
          then (error, g)
          else (if msg.kind == SyncType.vf_event
              then (empty, record g { rc = take_vf_event g.rc msg.payload })
              else (if msg.kind == SyncType.tlp_ready
                  then delivered g (recv_tlp g.shm)
                  else (empty, g))))

  -- The poll of the socket, which does not wait.
  unfoldable pub poll_socket : Side K → Polled × Side K
  poll_socket g =
      let (received, sk) = ops.recv_sync_timed g.shm g.sock 0 in
      let g' = after_wait g sk in
      elim received [ failed ↦ (error, g') | nothing ↦ (empty, g') | item msg ↦ on_poll g' msg ]

  -- `poll_tlp_ctx` without a transport.
  unfoldable pub poll_tlp_shm : Side K → Polled × Side K
  poll_tlp_shm g =
      let g' = record g { rc = record (g.rc) { poll_count = u32 (g.rc.poll_count + 1) } } in
      if ltb 0 g.pending_tlp_ready
      then elim (recv_tlp g'.shm) [
        | none ↦ poll_socket (record g' { pending_tlp_ready = 0 })
        | some (e, s) ↦
            delivered (record g' { pending_tlp_ready = g.pending_tlp_ready - 1 }) (some (e, s))
      ]
      else poll_socket g'

  -- `send_completion_ctx` without a transport; true is 0.
  unfoldable pub send_completion_shm : ℕ → List ℕ → ℕ → Side K → Bool × Side K
  send_completion_shm tag words len g = elim (send_cpl g.shm (completion tag words len)) [
    | none ↦ (false, g)
    | some s ↦
        let (sent, k) = ops.send g.sock (sync SyncType.cpl_ready) in
        (sent, record g { shm = s; sock = k })
  ]

-- `bridge_vcs_raise_msi` without a transport; `none` is the -1 of a full ring.
unfoldable pub raise_msi_shm : ℕ → Shm → Option Shm
unfolding send_msi
raise_msi_shm vector s =
    send_msi s (record { requester_id = 0; vector = u16 vector; timestamp = 0 })
