-- ===== src/Qemu/Clock.antt =====
-- The clock steps of bridge/qemu/bridge_qemu.c and bridge/vcs/bridge_vcs.c, one answering the other.
use qemu_vcs.Base.{
  ℕ, ◌+◌, ◌≡◌, refl, true, false, Option, none, some, List, [], ◌∷◌, ◌++◌, arith, ◌!=◌, u32,
}
use qemu_vcs.Messages.{SyncMsg}
use qemu_vcs.Transport.{nothing}
use qemu_vcs.Shm.{Shm}
use qemu_vcs.Socket.{Socket}
use qemu_vcs.Qemu.Shared.{advance_clock, mode_precise}
use qemu_vcs.Vcs.Requests.{ClockStep, steps, other_kind, no_step, wait_clock_step, clock_ack}

-- The socket between the two, and the cycles that the simulator has run.
pub record Line : Type 0 where
  pub to_vcs : List SyncMsg
  pub to_qemu : List SyncMsg
  pub cycles : ℕ

abbrev pub for_vcs : Line → Option SyncMsg × Line
for_vcs w = elim w.to_vcs [ [] ↦ (none, w) | m ∷ ms ↦ (some m, record w { to_vcs = ms }) ]

abbrev pub for_qemu : Line → Option SyncMsg × Line
for_qemu w = elim w.to_qemu [ [] ↦ (none, w) | m ∷ ms ↦ (some m, record w { to_qemu = ms }) ]

abbrev pub vcs_end : Socket (Unit {0}) Line
vcs_end = record {
  send = λ w m. (true, record w { to_qemu = w.to_qemu ++ (m ∷ []) });
  recv_sync = λ u w. let (m, w') = for_vcs w in (m, (u, w'));
  recv_sync_timed = λ u w ms. (nothing, (u, w));
}

-- The simulator's turn: it waits for a step, runs it and acknowledges it.
abbrev pub run_step : ClockStep × (Unit {0} × Line) → Line
run_step (steps n, (u, w)) = (clock_ack vcs_end false n (record w { cycles = w.cycles + n })).1
run_step (other_kind k, (u, w)) = w
run_step (no_step, (u, w)) = w

abbrev pub qemu_end : Socket Shm Line
qemu_end = record {
  send = λ w m. (true, record w { to_vcs = w.to_vcs ++ (m ∷ []) });
  recv_sync =
      λ s w. let (m, w') = for_qemu (run_step (wait_clock_step vcs_end false tt w)) in (m, (s, w'));
  recv_sync_timed = λ s w ms. (nothing, (s, w));
}

abbrev pub idle_line : ℕ → Line
idle_line n = record { to_vcs = []; to_qemu = []; cycles = n }

-- In the precise mode a clock step of the emulator that the simulator answers ends well, and the
-- simulator has run its cycles, cut to 32 bits.
pub advance_clock-run_step :
    (cycles before : ℕ) (s : Shm)
    → s.ctrl.mode ≡ mode_precise
    → advance_clock qemu_end cycles s (idle_line before)
      ≡ (true, (s, idle_line (before + u32 cycles)))
unfolding advance_clock wait_clock_step clock_ack
advance_clock-run_step cycles before s precise =
    let test : (s.ctrl.mode != mode_precise) ≡ false = ground arith in rw test refl
