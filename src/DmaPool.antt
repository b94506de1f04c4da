-- ===== src/DmaPool.antt =====
-- bridge/common/dma_manager.c: the allocator of the DMA data area. It hands out offsets and never
-- takes one back; `used_bytes` is a count only.
pub mod Regions
use qemu_vcs.Base.{
  ℕ, ◌+◌, ◌-◌, ◌%◌, ◌^◌, Option, none, some, Bool, true, false, ◌&&◌, not, List, [], ◌∷◌, u32, ltb,
  leb, ◌==◌, if◌then◌else◌, bit_and,
}

-- `dma_mgr_t`, without the base pointer.
pub record Pool : Type 0 where
  pub total_size : ℕ
  pub next_free : ℕ
  pub used_bytes : ℕ

-- `DMA_MGR_INVALID`
abbrev pub invalid : ℕ
invalid = 0xFFFFFFFF

-- `dma_mgr_init`
unfoldable pub init : ℕ → Pool
init total_size = record { total_size = total_size; next_free = 0; used_bytes = 0 }

-- `(size + DMA_MGR_ALIGN - 1) & ~(DMA_MGR_ALIGN - 1)`
unfoldable pub aligned : ℕ → ℕ
aligned size = bit_and (u32 (size + 63)) 0xFFFFFFC0

-- The compare-exchange of `next_free`, and the `atomic_fetch_add` after it.
abbrev pub reserve : Pool → ℕ → Pool
reserve p len = record p {
  next_free = u32 (p.next_free + len);
  used_bytes = u32 (p.used_bytes + len);
}

-- `dma_mgr_alloc` on a pool that no other thread touches meanwhile.
unfoldable pub alloc : Pool → ℕ → ℕ × Pool
alloc p size =
    if size == 0
    then (invalid, p)
    else if ltb p.total_size (u32 (p.next_free + aligned size))
    then (invalid, p)
    else (p.next_free, reserve p (aligned size))

-- One round of the loop as other threads see it: what they did between the load and the
-- compare-exchange, and whether the weak exchange failed for no reason.
pub record Round : Type 0 where
  pub others : Pool → Pool
  pub spurious : Bool

-- The loop of `dma_mgr_alloc`. `none`: still in the loop after these rounds.
unfoldable pub alloc_loop : Pool → ℕ → List Round → Option (ℕ × Pool)
alloc_loop p len [] = if ltb p.total_size (u32 (p.next_free + len)) then some (invalid, p) else none
alloc_loop p len (r ∷ rs) =
    let p' = r.others p in
    let again = alloc_loop p' len rs in
    if ltb p.total_size (u32 (p.next_free + len))
    then some (invalid, p)
    else if (p'.next_free == p.next_free) && not r.spurious
    then some (p.next_free, reserve p' len)
    else again

-- `dma_mgr_alloc`
unfoldable pub alloc_among : Pool → ℕ → List Round → Option (ℕ × Pool)
alloc_among p size rounds =
    if size == 0 then some (invalid, p) else alloc_loop p (aligned size) rounds

-- `dma_mgr_free`: the offset is not used.
unfoldable pub free : Pool → ℕ → ℕ → Pool
free p offset size = record p { used_bytes = u32 (p.used_bytes + 2 ^ 32 - aligned size) }

-- `dma_mgr_ptr`: the offset from the base, if it lies in the area.
unfoldable pub ptr : Pool → ℕ → Option ℕ
ptr p offset = if leb p.total_size offset then none else some offset
