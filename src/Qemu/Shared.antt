-- ===== src/Qemu/Shared.antt =====
-- bridge/qemu/bridge_qemu.c over the shared memory: completions of DMA, the mode and the clock.
use qemu_vcs.Base.{ℕ, ◌==◌, ◌!=◌, Bool, false, none, some, if◌then◌else◌, u32}
use qemu_vcs.Messages.SyncType
use qemu_vcs.Shm.{Shm}
use qemu_vcs.Shm.Channels.{send_dma_cpl}
use qemu_vcs.Socket.{Socket}

-- `COSIM_MODE_FAST` and `COSIM_MODE_PRECISE`
abbrev pub mode_fast : ℕ
mode_fast = 0

abbrev pub mode_precise : ℕ
mode_precise = 1

module _ {K : Type 0} (sock : Socket Shm K) where
  -- `bridge_complete_dma` and `bridge_complete_dma_with_data` over the shared memory; true is 0.
  unfoldable pub complete_dma_shm : ℕ → ℕ → Shm → K → Bool × (Shm × K)
  unfolding send_dma_cpl
  complete_dma_shm tag status s k =
      elim (send_dma_cpl s (record { tag = tag; status = status; timestamp = 0 })) [
        | none ↦ (false, (s, k))
        | some s' ↦
            let (sent, k') = sock.send k (record { kind = SyncType.dma_cpl; payload = tag }) in
            (sent, (s', k'))
      ]

  -- `bridge_request_mode_switch`
  unfoldable pub request_mode_switch : ℕ → Shm → K → Bool × (Shm × K)
  request_mode_switch target s k =
      let (sent, k') = sock.send k (record { kind = SyncType.mode_switch; payload = target }) in
      (
        sent,
        (record s { ctrl = record (s.ctrl) { target_mode = target; mode_switch_pending = 1 } }, k'),
      )

  -- `bridge_advance_clock`
  unfoldable pub advance_clock : ℕ → Shm → K → Bool × (Shm × K)
  advance_clock cycles s k =
      let (sent, k') = sock.send k (record { kind = SyncType.clock_step; payload = u32 cycles }) in
      let (ack, sk) = sock.recv_sync s k' in
      if s.ctrl.mode != mode_precise
      then (false, (s, k))
      else (if sent
          then elim ack [ none ↦ (false, sk) | some m ↦ (m.kind == SyncType.clock_ack, sk) ]
          else (false, (s, k')))

-- `bridge_get_mode`
unfoldable pub get_mode : Shm → ℕ
get_mode s = s.ctrl.mode
