-- ===== src/Shm/Layout.antt =====
-- The process that opens the shared memory of bridge/common/shm_layout.c finds what the other made.
use mathlib.Core.Path.{subst}
use qemu_vcs.Base.{
  ℕ, Bool, ◌+◌, ◌-◌, ◌^◌, ◌≤◌, ◌<◌, ◌≡◌, refl, ◌∙◌, none, some, true, false, List, [], ◌∷◌, arith,
  length, length-replicate, ltb, ◌==◌,
}
use qemu_vcs.Circular.{gap_empty}
use qemu_vcs.Ring.{Ring, header_size, slots, init, attach}
use qemu_vcs.Ring.Inv.{init-IsValid}
use qemu_vcs.Ring.Refine.{contents, used, length-contents, Sized}
use qemu_vcs.Shm.{
  Shm, zeros, blank, fresh_ring, created, create, Handles, open_shm, total_size, dma_buf_offset,
  req_size, tlp_size, cpl_size, cpl_entry_size, dma_req_size, dma_req_entry_size, dma_cpl_size,
  dma_cpl_entry_size, msi_size, msi_entry_size,
}

-- A fresh ring is empty, has its slots, and is found by `ring_buf_attach`.
abbrev pub IsFresh : ℕ → ℕ → Ring → Type 0
IsFresh size element_size r =
    Sized (slots size element_size) element_size r
    × (contents r ≡ [])
    × (attach true (some r) size element_size ≡ some r)

empty_lem : {A : Type 0} (l : List A) → length l ≡ 0 → l ≡ []
empty_lem [] e = refl
empty_lem (x ∷ l) e = absurd (omega arith)

init_lem :
    (size element_size : ℕ) {r : Ring}
    → init true (some (blank size)) size element_size ≡ some r
    → (r.hdr.capacity ≡ slots size element_size) × (r.hdr.element_size ≡ element_size)
unfolding init
init_lem size element_size e = ground arith

made : ℕ → ℕ → Ring
made size element_size = record {
  hdr = record {
    head = 0;
    tail = 0;
    capacity = slots size element_size;
    element_size = element_size;
  };
  bytes = (blank size).bytes;
}

init_accepts :
    (size element_size : ℕ)
    → 0 < element_size
    → 2 ≤ slots size element_size
    → init true (some (blank size)) size element_size ≡ some (made size element_size)
unfolding init made
init_accepts size element_size sized two =
    let some_size : (element_size == 0) ≡ false = ground arith in
    let enough : ltb (slots size element_size) 2 ≡ false = ground arith in
    rw (some_size, enough) refl

fresh_ring-IsFresh :
    (size element_size : ℕ)
    → header_size ≤ size
    → size < 2 ^ 32
    → 0 < element_size
    → 2 ≤ slots size element_size
    → IsFresh size element_size (fresh_ring size element_size)
unfolding fresh_ring blank zeros
fresh_ring-IsFresh size element_size room small sized two =
    let r = made size element_size in
    let e = init_accepts size element_size sized two in
    let filled : length (blank size).bytes + header_size ≡ size =
      omega (arith, length-replicate {A = ℕ} (size - header_size) 0) in
    let (valid, level, found) = init-IsValid (blank size) size element_size small filled e in
    let (cap, width) = init_lem size element_size e in
    let none_held : used r ≡ 0 = gap_empty valid.head_in valid.tail_in level in
    rw (fresh_ring, e)
      ((valid, cap, width), empty_lem (contents r) (length-contents r ∙ none_held), found)

-- All five rings are fresh.
pub record AllFresh (s : Shm) : Type 0 where
  pub req_fresh : IsFresh req_size tlp_size s.req_ring
  pub cpl_fresh : IsFresh cpl_size cpl_entry_size s.cpl_ring
  pub dma_req_fresh : IsFresh dma_req_size dma_req_entry_size s.dma_req_ring
  pub dma_cpl_fresh : IsFresh dma_cpl_size dma_cpl_entry_size s.dma_cpl_ring
  pub msi_fresh : IsFresh msi_size msi_entry_size s.msi_ring

created-AllFresh : AllFresh created
unfolding created slots
created-AllFresh = record {
  req_fresh =
      fresh_ring-IsFresh req_size tlp_size (omega arith) (omega arith) (omega arith) (omega arith);
  cpl_fresh =
      fresh_ring-IsFresh cpl_size cpl_entry_size (omega arith) (omega arith) (omega arith)
        (omega arith);
  dma_req_fresh =
      fresh_ring-IsFresh dma_req_size dma_req_entry_size (omega arith) (omega arith) (omega arith)
        (omega arith);
  dma_cpl_fresh =
      fresh_ring-IsFresh dma_cpl_size dma_cpl_entry_size (omega arith) (omega arith) (omega arith)
        (omega arith);
  msi_fresh =
      fresh_ring-IsFresh msi_size msi_entry_size (omega arith) (omega arith) (omega arith)
        (omega arith);
}

-- The handles of a process that finds all rings.
abbrev pub handles_of : Shm → Handles
handles_of s = record {
  req = some s.req_ring;
  cpl = some s.cpl_ring;
  dma_req = some s.dma_req_ring;
  dma_cpl = some s.dma_cpl_ring;
  msi = some s.msi_ring;
  dma_buf_size = total_size - dma_buf_offset;
}

opens : open_shm (some created) ≡ some (handles_of created)
unfolding open_shm created
opens =
    let all = created-AllFresh in
    rw (all.req_fresh.2, all.cpl_fresh.2, all.dma_req_fresh.2, all.dma_cpl_fresh.2, all.msi_fresh.2)
      refl

some_eq : {A : Type 0} {x y : A} → some x ≡ some y → x ≡ y
some_eq e = cc

no_some : {A : Type 0} {x : A} → none ≡ some x → ⊥
no_some e = cc

-- Shared memory that one process creates has five valid and empty rings, with the slots that
-- their regions have room for, and another process that opens it finds all of them.
pub open_shm-create :
    (succeeds : Bool) {s : Shm}
    → create succeeds ≡ some s
    → AllFresh s × (open_shm (some s) ≡ some (handles_of s))
unfolding create
open_shm-create true e =
    subst (λ s. AllFresh s × (open_shm (some s) ≡ some (handles_of s))) (some_eq e)
      (created-AllFresh, opens)
open_shm-create false e = absurd (no_some e)
