-- ===== src/Eth/Dpi.antt =====
-- bridge/eth/eth_mac_dpi.c: the one port of a simulator process. `none` is a process whose port is
-- not open; the memory that both nodes share is passed beside it.
pub mod Delivery
use qemu_vcs.Base.{
  ℕ, ◌^◌, ◌<◌, ◌≤◌, ◌||◌, Bool, true, false, Option, none, some, List, [], ◌∷◌, ◌++◌, ltb, ◌==◌,
  if◌then◌else◌, take, replicate, length, u16,
}
use qemu_vcs.Link.{LinkModel}
use qemu_vcs.Eth.Shm.{Frame, zero_frame, Role, a, b, EthShm, Os, max_data, peer_ready}
use qemu_vcs.Eth.Port.{
  Port, open_port, SendCode, queued, ring_full, blocked, dropped, send, Received, got, empty,
  waiting, recv, tx_complete,
}

-- A link model of zeros.
abbrev pub zero_link : LinkModel
zero_link = record {
  drop_rate_ppm = 0;
  burst_drop_len = 0;
  rate_mbps = 0;
  latency_ns = 0;
  fc_window = 0;
  rng_state = 0;
  burst_remaining = 0;
  token_bucket_ns = 0;
  outstanding = 0;
}

-- The roles 0 and 1.
abbrev pub role_of : ℕ → Option Role
role_of n = if n == 0 then some a else (if n == 1 then some b else none)

-- `vcs_eth_mac_init_dpi`; true is 0.
unfoldable pub init_dpi : Os → ℕ → Bool → Option Port → EthShm → Bool × (Option Port × EthShm)
init_dpi os role create (some p) shm = (false, (some p, shm))
init_dpi os role create none shm = elim (role_of role) [
  | none ↦ (false, (none, shm))
  | some r ↦ elim (open_port os r create zero_link shm) [
    | none ↦ (false, (none, shm))
    | some (p, shm') ↦ (true, (some p, shm'))
  ]
]

-- What a send leaves: the code of `eth_port_send`, none for the -1 of the first test, and the state.
pub record DpiSent : Type 0 where
  pub code : Option SendCode
  pub port : Option Port
  pub shm : EthShm

-- The frame that a send fills in for its bytes.
abbrev pub frame_of : List ℕ → Frame
frame_of data_bytes = record zero_frame { len = length data_bytes; payload = data_bytes }

-- `vcs_eth_mac_send_raw` and `vcs_eth_mac_send_frame_dpi`, with a buffer of the length given.
unfoldable pub send_raw : Option Port → EthShm → List ℕ → DpiSent
send_raw none shm data_bytes = record { code = none; port = none; shm = shm }
send_raw (some p) shm data_bytes =
    let out = send p shm (frame_of data_bytes) 0 in
    if (length data_bytes == 0) || ltb max_data (length data_bytes)
    then record { code = none; port = some p; shm = shm }
    else record { code = some out.code; port = some out.port; shm = out.shm }

-- The result of a poll: -1, 0, the bytes of a frame, or a copy past the end of the frame.
pub data Taken : Type 0 where
  rejected no_frame overread : Taken
  bytes_of : List ℕ → Taken

-- `f.len < (uint16_t)max_len ? f.len : max_len`
abbrev pub copy_length : Frame → ℕ → ℕ
copy_length f max_len = if ltb f.len (u16 max_len) then f.len else max_len

-- The array of a frame, which is 0 behind the bytes that were filled in.
unfoldable pub array : Frame → List ℕ
array f = f.payload ++ replicate max_data 0

-- The copy out of a frame.
unfoldable pub copy_out : Frame → ℕ → Taken
unfolding array
copy_out f max_len =
    if ltb max_data (copy_length f max_len)
    then overread
    else bytes_of (take (copy_length f max_len) (array f))

-- The end of a poll, on what the port received.
unfoldable pub after_recv : Port → ℕ → Received → Taken × (Option Port × EthShm)
unfolding copy_out
after_recv p max_len (got f shm) = (copy_out f max_len, (some (tx_complete p), shm))
after_recv p max_len (empty shm) = (no_frame, (some p, shm))
after_recv p max_len (waiting shm) = (no_frame, (some p, shm))

-- `vcs_eth_mac_recv_raw` and `vcs_eth_mac_poll_frame_dpi`, with a buffer. The port does not wait.
unfoldable pub recv_raw : Option Port → EthShm → ℕ → Taken × (Option Port × EthShm)
unfolding after_recv
recv_raw none shm max_len = (rejected, (none, shm))
recv_raw (some p) shm max_len =
    if max_len == 0 then (rejected, (some p, shm)) else after_recv p max_len (recv p shm 0 0 [])

-- `vcs_eth_mac_link_up_dpi` and `vcs_eth_mac_link_down_dpi`
unfoldable pub set_link : Option Port → ℕ → EthShm → EthShm
set_link none up shm = shm
set_link (some p) up shm = record shm { ctrl = record (shm.ctrl) { link_up = up } }

-- `vcs_eth_mac_peer_ready_dpi`
unfoldable pub peer_ready_dpi : Option Port → EthShm → Bool
peer_ready_dpi none shm = false
peer_ready_dpi (some p) shm = peer_ready shm p.role

-- `vcs_eth_mac_configure_link_dpi`, with a burst length that is not negative.
unfoldable pub configure_link : Option Port → ℕ → ℕ → ℕ → ℕ → ℕ → Option Port
configure_link none ppm burst mbps latency window = none
configure_link (some p) ppm burst mbps latency window = some (record p {
  link = record (p.link) {
    drop_rate_ppm = ppm;
    burst_drop_len = u16 burst;
    rate_mbps = mbps;
    latency_ns = latency;
    fc_window = window;
  };
})
