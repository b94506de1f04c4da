-- ===== src/Vcs/Shared/Answered.antt =====
-- The wait of bridge/vcs/bridge_vcs.c for a completion over the shared memory.
use qemu_vcs.Base.{
  ℕ, zero, suc, ◌+◌, ◌<◌, ◌≡◌, refl, ap, ◌∙◌, true, none, some, List, [], ◌∷◌, ◌++◌, arith, length,
  ◌==◌,
}
use qemu_vcs.Messages.{DmaCpl}
use qemu_vcs.Messages.SyncType
use qemu_vcs.Transport.{Timed, failed, nothing, item}
use qemu_vcs.Shm.{Shm}
use qemu_vcs.Shm.Channels.{recv_dma_cpl}
use qemu_vcs.Socket.{Socket}
use qemu_vcs.Vcs.Poll.{sync}
use qemu_vcs.Vcs.Shared.{Side, wait_cpl}

-- What a timed receive gives, and what the emulator has done to the memory by then.
abbrev pub Event : Type 0
Event = Timed × (Shm → Shm)

abbrev pub next_event : Shm → List Event → Timed × (Shm × List Event)
next_event s [] = (failed, (s, []))
next_event s ((received, change) ∷ rest) = (received, (change s, rest))

-- A socket with the events to come, on which every send ends well.
abbrev pub script : Socket Shm (List Event)
script = record {
  send = λ k m. (true, k);
  recv_sync = λ s k. (none, (s, k));
  recv_sync_timed = λ s k ms. next_event s k;
}

-- What may come before the completion: a timeout, or the notice of a TLP.
pub data Before : Type 0 where
  quiet announced : (Shm → Shm) → Before

abbrev pub events : List Before → List Event
events [] = []
events (quiet change ∷ bs) = (nothing, change) ∷ events bs
events (announced change ∷ bs) = (item (sync SyncType.tlp_ready), change) ∷ events bs

abbrev pub notices : List Before → ℕ
notices [] = 0
notices (quiet change ∷ bs) = notices bs
notices (announced change ∷ bs) = suc (notices bs)

abbrev pub changed : List Before → Shm → Shm
changed [] s = s
changed (quiet change ∷ bs) s = changed bs (change s)
changed (announced change ∷ bs) s = changed bs (change s)

answered_step :
    (rounds tag : ℕ) (g : Side (List Event)) (change : Shm → Shm) (rest : List Event) (c : DmaCpl)
    (s : Shm)
    → recv_dma_cpl (change g.shm) ≡ some (c, s)
    → c.tag ≡ tag
    → c.status ≡ 0
    → wait_cpl script
        (suc rounds)
        tag
        (record g { sock = (item (sync SyncType.dma_cpl), change) ∷ rest })
      ≡ (true, record g { shm = s; sock = rest })
unfolding wait_cpl
answered_step rounds tag g change rest c s answer own ok =
    let tags : (c.tag == tag) ≡ true = ground arith in
    let fine : (c.status == 0) ≡ true = ground arith in rw (wait_cpl, answer, tags, fine) refl

-- A DMA over the shared memory waits for its own completion through all timeouts and notices of
-- TLPs that come in less than so many rounds, whatever the emulator does to the memory meanwhile,
-- and adds the number of these notices to `g_pending_tlp_ready`.
pub wait_cpl-Answered :
    (before : List Before) (rounds tag : ℕ) (g : Side (List Event)) (change : Shm → Shm)
    (rest : List Event) (c : DmaCpl) (s : Shm)
    → length before < rounds
    → recv_dma_cpl (change (changed before g.shm)) ≡ some (c, s)
    → c.tag ≡ tag
    → c.status ≡ 0
    → wait_cpl script rounds tag
        (record g { sock = events before ++ ((item (sync SyncType.dma_cpl), change) ∷ rest) })
      ≡ (
        true,
        record g { shm = s; sock = rest; pending_tlp_ready = g.pending_tlp_ready + notices before },
      )
unfolding wait_cpl
wait_cpl-Answered before zero tag g change rest c s few answer own ok = absurd (omega arith)
wait_cpl-Answered [] (suc rounds) tag g change rest c s few answer own ok =
    answered_step rounds tag g change rest c s answer own ok
    ∙ ap (λ n. (true, record g { shm = s; sock = rest; pending_tlp_ready = n })) (omega arith)
wait_cpl-Answered (quiet f ∷ before) (suc rounds) tag g change rest c s few answer own ok =
    wait_cpl-Answered before rounds tag (record g { shm = f g.shm }) change rest c s (omega arith)
      answer own ok
wait_cpl-Answered (announced f ∷ before) (suc rounds) tag g change rest c s few answer own ok =
    let counted = record g { shm = f g.shm; pending_tlp_ready = g.pending_tlp_ready + 1 } in
    wait_cpl-Answered before rounds tag counted change rest c s (omega arith) answer own ok
    ∙ ap (λ n. (true, record g { shm = s; sock = rest; pending_tlp_ready = n })) (omega arith)
