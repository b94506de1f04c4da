-- ===== src/Device/Irq.antt =====
-- qemu-plugin/cosim_pcie_rc.c and cosim_pcie_pf.c: the queue between the poller's thread, which
-- enqueues interrupts, and the bottom half in the main loop, which raises them. The indices are
-- `int`s and only count up: past the largest one the source is undefined.
pub mod Order
use qemu_vcs.Base.{
  ℕ, zero, suc, ◌+◌, ◌-◌, ◌%◌, ◌^◌, Bool, true, false, Option, none, some, List, [], ◌∷◌, leb, ◌==◌,
  if◌then◌else◌, get_or, set,
}

-- `COSIM_MSI_QUEUE_SIZE` and `COSIM_MSIX_QUEUE_SIZE`
abbrev pub queue_size : ℕ
queue_size = 256

-- The fields `msi_queue`, `msi_queue_head` and `msi_queue_tail` of `CosimPCIeRC`; for `CosimPCIePF`
-- the two arrays of requesters and vectors are one array of pairs.
pub record Irq (A : Type 0) : Type 0 where
  pub slots : List A
  pub head : ℕ
  pub tail : ℕ

-- The largest `int`
abbrev pub int_max : ℕ
int_max = 2 ^ 31 - 1

-- What becomes of an interrupt: it is queued, it is dropped, or `tail + 1` overflows.
pub data Queued (A : Type 0) : Type 0 where
  queued : Irq A → Queued A
  dropped overflow : Queued A

-- `cosim_msi_cb` and `cosim_pf_msi_cb`, on the poller's thread. The bottom half is scheduled exactly
-- when the interrupt is queued.
unfoldable pub msi_cb : {A : Type 0} → Irq A → A → Queued A
msi_cb q x =
    if leb queue_size (q.tail - q.head)
    then dropped
    else (if leb int_max q.tail
        then overflow
        else queued (record q { slots = set q.slots (q.tail % queue_size) x; tail = q.tail + 1 }))

-- One round of the loop in `cosim_msi_bh_cb` and `cosim_pf_msix_bh_cb`: the interrupt that it takes,
-- or the end of the loop. The head is behind the tail: it does not overflow.
unfoldable pub next_irq : {A : Type 0} → A → Irq A → Option (A × Irq A)
next_irq d q =
    if q.head == q.tail
    then none
    else some (get_or q.slots (q.head % queue_size) d, record q { head = q.head + 1 })

-- The loop, for at most so many rounds: the interrupts that it takes, in order.
unfoldable pub bottom_half : {A : Type 0} → A → ℕ → Irq A → List A × Irq A
unfolding next_irq
bottom_half d zero q = ([], q)
bottom_half d (suc rounds) q = elim (next_irq d q) [
  | none ↦ ([], q)
  | some (x, q') ↦ let (xs, q'') = bottom_half d rounds q' in (x ∷ xs, q'')
]

-- What the bottom half of the root complex does with a vector.
pub data Action : Type 0 where
  deassert assert : Action
  notify : ℕ → Action

-- The cases of `cosim_msi_bh_cb`; `enabled` is `msi_enabled`.
unfoldable pub raise : Bool → ℕ → Action
raise enabled vector =
    if vector == 0xFFFE then deassert else (if enabled then notify vector else assert)
