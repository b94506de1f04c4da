-- ===== src/Shm.antt =====
-- bridge/common/shm_layout.c and .h: the shared memory of the two processes.
pub mod Channels
pub mod Layout
pub mod Queues
use qemu_vcs.Base.{
  ℕ, ◌-◌, ◌!=◌, Bool, true, false, Option, none, some, List, if◌then◌else◌, replicate,
}
use qemu_vcs.Ring.{Ring, header_size, init, attach}

-- `cosim_ctrl_t` without its padding
pub record Ctrl : Type 0 where
  pub magic : ℕ
  pub version : ℕ
  pub mode : ℕ
  pub qemu_ready : ℕ
  pub vcs_ready : ℕ
  pub sim_time_ns : ℕ
  pub irq_status : List ℕ
  pub mode_switch_pending : ℕ
  pub target_mode : ℕ
  pub precise_cycles_pending : ℕ

-- The contents of the shared memory, region by region: what every `cosim_shm_t` points to.
pub record Shm : Type 0 where
  pub ctrl : Ctrl
  pub req_ring : Ring
  pub cpl_ring : Ring
  pub dma_req_ring : Ring
  pub dma_cpl_ring : Ring
  pub msi_ring : Ring
  pub dma_buf : List ℕ

-- `COSIM_SHM_TOTAL_SIZE`, and the offset and the size of each region.
abbrev pub total_size : ℕ
total_size = 0x1000000

abbrev pub ctrl_offset : ℕ
ctrl_offset = 0

abbrev pub ctrl_size : ℕ
ctrl_size = 0x1000

abbrev pub req_offset : ℕ
req_offset = 0x1000

abbrev pub req_size : ℕ
req_size = 0x100000

abbrev pub cpl_offset : ℕ
cpl_offset = 0x101000

abbrev pub cpl_size : ℕ
cpl_size = 0x100000

abbrev pub dma_req_offset : ℕ
dma_req_offset = 0x201000

abbrev pub dma_req_size : ℕ
dma_req_size = 0x40000

abbrev pub dma_cpl_offset : ℕ
dma_cpl_offset = 0x241000

abbrev pub dma_cpl_size : ℕ
dma_cpl_size = 0x40000

abbrev pub msi_offset : ℕ
msi_offset = 0x281000

abbrev pub msi_size : ℕ
msi_size = 0x10000

abbrev pub dma_buf_offset : ℕ
dma_buf_offset = 0x291000

-- `COSIM_SHM_MAGIC`
abbrev pub shm_magic : ℕ
shm_magic = 0xDEADBEEF

-- The sizes of the elements of the rings.
abbrev pub tlp_size : ℕ
tlp_size = 112

abbrev pub cpl_entry_size : ℕ
cpl_entry_size = 84

abbrev pub dma_req_entry_size : ℕ
dma_req_entry_size = 32

abbrev pub dma_cpl_entry_size : ℕ
dma_cpl_entry_size = 16

abbrev pub msi_entry_size : ℕ
msi_entry_size = 16

-- `memset` with 0
unfoldable pub zeros : ℕ → List ℕ
zeros n = replicate n 0

-- A region of zeros.
unfoldable pub blank : ℕ → Ring
blank size = record {
  hdr = record { head = 0; tail = 0; capacity = 0; element_size = 0 };
  bytes = zeros (size - header_size);
}

-- A ring in a fresh region; the result of `ring_buf_init` is not looked at.
unfoldable pub fresh_ring : ℕ → ℕ → Ring
unfolding init blank
fresh_ring size element_size = elim (init true (some (blank size)) size element_size) [
  | none ↦ blank size
  | some r ↦ r
]

-- `cosim_shm_create`, where the calls of the system succeed; the memory is zeroed first.
unfoldable pub created : Shm
unfolding fresh_ring
created = record {
  ctrl = record {
    magic = shm_magic;
    version = 1;
    mode = 0;
    qemu_ready = 0;
    vcs_ready = 0;
    sim_time_ns = 0;
    irq_status = replicate 8 0;
    mode_switch_pending = 0;
    target_mode = 0;
    precise_cycles_pending = 0;
  };
  req_ring = fresh_ring req_size tlp_size;
  cpl_ring = fresh_ring cpl_size cpl_entry_size;
  dma_req_ring = fresh_ring dma_req_size dma_req_entry_size;
  dma_cpl_ring = fresh_ring dma_cpl_size dma_cpl_entry_size;
  msi_ring = fresh_ring msi_size msi_entry_size;
  dma_buf = zeros (total_size - dma_buf_offset);
}

unfoldable pub create : Bool → Option Shm
unfolding created
create succeeds = if succeeds then some created else none

-- What `cosim_shm_open` fills in: a handle of each ring, `none` where `ring_buf_attach` refuses,
-- whose result is not looked at; and the size of the DMA area.
pub record Handles : Type 0 where
  pub req : Option Ring
  pub cpl : Option Ring
  pub dma_req : Option Ring
  pub dma_cpl : Option Ring
  pub msi : Option Ring
  pub dma_buf_size : ℕ

-- `cosim_shm_open`; no memory is a call of the system that fails.
unfoldable pub open_shm : Option Shm → Option Handles
unfolding attach
open_shm none = none
open_shm (some s) =
    if s.ctrl.magic != shm_magic
    then none
    else some (record {
      req = attach true (some s.req_ring) req_size tlp_size;
      cpl = attach true (some s.cpl_ring) cpl_size cpl_entry_size;
      dma_req = attach true (some s.dma_req_ring) dma_req_size dma_req_entry_size;
      dma_cpl = attach true (some s.dma_cpl_ring) dma_cpl_size dma_cpl_entry_size;
      msi = attach true (some s.msi_ring) msi_size msi_entry_size;
      dma_buf_size = total_size - dma_buf_offset;
    })
