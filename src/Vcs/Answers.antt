-- ===== src/Vcs/Answers.antt =====
-- A DMA read of bridge/vcs/bridge_vcs.c against the answers of bridge/qemu/bridge_qemu.c.
use qemu_vcs.Base.{
  ℕ, zero, suc, ◌≤◌, ◌<◌, ◌≡◌, refl, sym, ap, ap₂, ◌∙◌, List, [], ◌∷◌, ◌++◌, true, false, ◌==◌,
  ◌!=◌, ◌||◌, ltb, arith, length, append_assoc, take,
}
use qemu_vcs.Messages.{SyncMsg}
use qemu_vcs.Messages.SyncType
use qemu_vcs.Tcp.Message.{DmaData}
use qemu_vcs.Transport.Wires.{Wires, wires, Aux, cpl, data_block, next_sync, next_cpl, next_data}
use qemu_vcs.Vcs.Cache.{Rc}
use qemu_vcs.Vcs.Delivery.{append_nil}
use qemu_vcs.Vcs.Dma.{
  bytes_read, read_failed, stale_size, complete_dma, complete_dma_with_data, wait_read,
  wait_read_sync, wait_write,
}

-- An answer of the QEMU side to a read, which `bridge_complete_dma_with_data` gives: the block of
-- data, with its tag, and the status.
pub record Answer : Type 0 where
  pub status : ℕ
  pub block : DmaData

-- What the answers look like on the control channel and on the auxiliary channel.
abbrev pub notices : List Answer → List SyncMsg
notices [] = []
notices (a ∷ answers) = record { kind = SyncType.dma_cpl; payload = a.block.tag } ∷ notices answers

abbrev pub blocks : List Answer → List Aux
blocks [] = []
blocks (a ∷ answers) =
    data_block a.block
    ∷ cpl (record { tag = a.block.tag; status = a.status; timestamp = 0 })
    ∷ blocks answers

-- The QEMU side gives its answers one after the other.
abbrev pub answer_all : Wires → List Answer → Wires
answer_all w [] = w
answer_all w (a ∷ answers) = answer_all (complete_dma_with_data wires w a.status a.block).1 answers

pub answer_all_lem :
    (w : Wires) (answers : List Answer)
    → ((answer_all w answers).ctrl_out ≡ w.ctrl_out ++ notices answers)
      × ((answer_all w answers).aux_out ≡ w.aux_out ++ blocks answers)
unfolding complete_dma_with_data complete_dma
answer_all_lem w [] = (sym (append_nil w.ctrl_out), sym (append_nil w.aux_out))
answer_all_lem w (a ∷ answers) =
    let w' = (complete_dma_with_data wires w a.status a.block).1 in
    let (ctrl, aux) = answer_all_lem w' answers in
    let last : Aux = cpl (record { tag = a.block.tag; status = a.status; timestamp = 0 }) in
    (
      ctrl
          ∙ append_assoc w.ctrl_out (record { kind = SyncType.dma_cpl; payload = a.block.tag } ∷ [])
              (notices answers),
      aux
          ∙ append_assoc (w.aux_out ++ (data_block a.block ∷ [])) (last ∷ []) (blocks answers)
          ∙ append_assoc w.aux_out (data_block a.block ∷ []) (last ∷ blocks answers),
    )

-- The VCS side's view of what the QEMU side has sent.
abbrev pub receives : Wires → List SyncMsg → List Aux → Wires
receives w ctrl aux = record w { ctrl_in = ctrl; aux_in = aux }

-- An answer to another read, or one with an error, that fits the local buffer.
pub record IsStale (tag : ℕ) (a : Answer) : Type 0 where
  pub fits : length a.block.bytes ≤ stale_size
  pub other : ((a.block.tag != tag) || (a.status != 0)) ≡ true

abbrev pub AllStale : ℕ → List Answer → Type 0
AllStale tag [] = Unit
AllStale tag (a ∷ answers) = IsStale tag a × AllStale tag answers

fits_lem : (bs : List ℕ) → length bs ≤ stale_size → ltb stale_size (length bs) ≡ false
fits_lem bs h = ground arith

-- The wait drops the stale answers, and ends with the bytes of its own.
wait_read_own :
    (rounds tag len : ℕ) (stale : List Answer) (own : Answer) (c : Rc) (w : Wires)
    → AllStale tag stale
    → own.block.tag ≡ tag
    → own.status ≡ 0
    → length own.block.bytes ≤ stale_size
    → length stale < rounds
    → wait_read wires rounds tag len c
        (receives w (notices (stale ++ (own ∷ []))) (blocks (stale ++ (own ∷ []))))
      ≡ (bytes_read (take len own.block.bytes), (c, receives w [] []))
unfolding wait_read next_sync next_cpl next_data
wait_read_own zero tag len stale own c w all mine ok fits h = absurd (omega arith)
wait_read_own (suc rounds) tag len [] own c w all mine ok fits h =
    let test : ((own.block.tag != tag) || (own.status != 0)) ≡ false = ground arith in
    rw (wait_read, fits_lem own.block.bytes fits, test) refl
wait_read_own (suc rounds) tag len (a ∷ stale) own c w (first, all) mine ok fits h =
    rw (wait_read, fits_lem a.block.bytes first.fits, first.other)
      (wait_read_own rounds tag len stale own c w all mine ok fits (omega arith))

-- `bridge_vcs_dma_read_sync` over a transport receives in another order than the one in which the
-- QEMU side answers: it fails on every answer that comes alone.
pub wait_read_sync_fails :
    (rounds tag len : ℕ) (a : Answer) (c : Rc) (w : Wires)
    → (wait_read_sync wires rounds tag len c (receives w (notices (a ∷ [])) (blocks (a ∷ [])))).0
      ≡ read_failed
unfolding wait_read_sync next_sync next_cpl
wait_read_sync_fails zero tag len a c w = refl
wait_read_sync_fails (suc rounds) tag len a c w = refl

-- A read ends with the bytes of the QEMU side's answer to it, of status 0 and at most 4096 bytes,
-- however many answers to other reads, or with an error, come before, up to 999, each with its
-- block of data of at most 4096 bytes. These are all that the QEMU side has sent.
pub read-answer_all :
    (tag len : ℕ) (stale : List Answer) (own : Answer) (c : Rc) (w qemu : Wires)
    → AllStale tag stale
    → own.block.tag ≡ tag
    → own.status ≡ 0
    → length own.block.bytes ≤ stale_size
    → length stale < 1000
    → qemu.ctrl_out ≡ []
    → qemu.aux_out ≡ []
    → (wait_read wires 1000 tag len c (
        receives w
          (answer_all qemu (stale ++ (own ∷ []))).ctrl_out
          (answer_all qemu (stale ++ (own ∷ []))).aux_out)).0
      ≡ bytes_read (take len own.block.bytes)
read-answer_all tag len stale own c w qemu all mine ok fits few no_ctrl no_aux =
    let (ctrl, aux) = answer_all_lem qemu (stale ++ (own ∷ [])) in
    ap₂ (λ x y. (wait_read wires 1000 tag len c (receives w x y)).0)
      (ctrl ∙ ap (λ l. l ++ notices (stale ++ (own ∷ []))) no_ctrl)
      (aux ∙ ap (λ l. l ++ blocks (stale ++ (own ∷ []))) no_aux)
    ∙ ap (λ p. p.0) (wait_read_own 1000 tag len stale own c w all mine ok fits few)

-- The answer to a write carries no data: a read that meets it on the auxiliary channel fails.
pub wait_read-complete_dma :
    (rounds tag len status other : ℕ) (c : Rc) (w qemu : Wires)
    → qemu.ctrl_out ≡ []
    → qemu.aux_out ≡ []
    → (wait_read wires rounds tag len c (
        receives w
          (complete_dma wires qemu other status).1.ctrl_out
          (complete_dma wires qemu other status).1.aux_out)).0
      ≡ read_failed
unfolding wait_read complete_dma next_sync next_cpl next_data
wait_read-complete_dma zero tag len status other c w qemu no_ctrl no_aux = refl
wait_read-complete_dma (suc rounds) tag len status other c w qemu no_ctrl no_aux =
    ap₂ (λ x y. (wait_read wires (suc rounds) tag len c (receives w x y)).0)
      (ap (λ l. l ++ (record { kind = SyncType.dma_cpl; payload = other } ∷ [])) no_ctrl)
      (ap (λ l. l ++ (cpl (record { tag = other; status = status; timestamp = 0 }) ∷ [])) no_aux)

-- A write whose loop has a round left ends well on the QEMU side's answer of status 0 to it, when
-- nothing else has been sent.
pub write-complete_dma :
    (rounds tag : ℕ) (c : Rc) (w qemu : Wires)
    → qemu.ctrl_out ≡ []
    → qemu.aux_out ≡ []
    → (wait_write wires (suc rounds) tag c (
        receives w
          (complete_dma wires qemu tag 0).1.ctrl_out
          (complete_dma wires qemu tag 0).1.aux_out)).0
      ≡ true
unfolding wait_write complete_dma next_sync next_cpl
write-complete_dma rounds tag c w qemu no_ctrl no_aux =
    let same : (tag == tag) ≡ true = ground arith in
    let notice : SyncMsg = record { kind = SyncType.dma_cpl; payload = tag } in
    let answer : Aux = cpl (record { tag = tag; status = 0; timestamp = 0 }) in
    ap₂ (λ x y. (wait_write wires (suc rounds) tag c (receives w x y)).0)
      (ap (λ l. l ++ (notice ∷ [])) no_ctrl) (ap (λ l. l ++ (answer ∷ [])) no_aux)
    ∙ rw (wait_write, same) refl
