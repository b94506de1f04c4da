-- ===== src/Device/Mmio.antt =====
-- qemu-plugin/cosim_pcie_rc.c and cosim_pcie_pf.c: the accesses of the guest to a BAR, each of which
-- becomes one TLP of one DWORD.
pub mod Endpoint
pub mod Bytes
use qemu_vcs.Base.{
  ℕ, ◌+◌, ◌-◌, ◌*◌, ◌/◌, ◌%◌, ◌^◌, Bool, Option, none, some, List, if◌then◌else◌, ltb, take, u8,
  u32, u64,
}
use qemu_vcs.Messages.{Tlp, zero_tlp, Cpl}
use qemu_vcs.Qemu.{TlpTransport, Bridge, send_tlp_and_wait, send_tlp_fire}
use qemu_vcs.Tcp.Codec.{le32, from_le}

-- `TLP_MWR`, `TLP_MRD`, `TLP_CFGWR` and `TLP_CFGRD`
abbrev pub mwr : ℕ
mwr = 0

abbrev pub mrd : ℕ
mrd = 1

abbrev pub cfgwr : ℕ
cfgwr = 2

abbrev pub cfgrd : ℕ
cfgrd = 3

-- What a read gives that fails.
abbrev pub all_ones : ℕ
all_ones = 0xFFFFFFFF

-- `((1u << size) - 1) << byte_off`, as a byte
unfoldable pub byte_enables : ℕ → ℕ → ℕ
byte_enables size byte_off = u8 ((2 ^ size - 1) * 2 ^ byte_off)

-- The DWORD of a completion.
unfoldable pub dword_of : Cpl → ℕ
unfolding from_le
dword_of c = from_le (take 4 c.data_bytes)

-- `dword >> (byte_off * 8)`, cut to `size` bytes below 4
unfoldable pub extract : ℕ → ℕ → ℕ → ℕ
extract dword byte_off size =
    let val = dword / 2 ^ (byte_off * 8) in if ltb size 4 then val % 2 ^ (size * 8) else val

-- The TLPs of an access at an address.
unfoldable pub read_req : ℕ → ℕ → Tlp
unfolding byte_enables
read_req pcie_addr size = record zero_tlp {
  type = mrd;
  addr = pcie_addr - pcie_addr % 4;
  len = 4;
  first_be = byte_enables size (pcie_addr % 4);
}

unfoldable pub write_req : ℕ → ℕ → ℕ → Tlp
unfolding byte_enables le32
write_req pcie_addr val size = record zero_tlp {
  type = mwr;
  addr = pcie_addr - pcie_addr % 4;
  len = 4;
  first_be = byte_enables size (pcie_addr % 4);
  data_bytes = le32 (u32 (u32 val * 2 ^ (pcie_addr % 4 * 8)));
}

module _ {T : Type 0} (ops : TlpTransport T) where
  abbrev pub read_end : ℕ → ℕ → Option Cpl × Bridge T → ℕ × Option (Bridge T)
  read_end byte_off size (none, ctx) = (all_ones, some ctx)
  read_end byte_off size (some c, ctx) = (extract (dword_of c) byte_off size, some ctx)

  -- `cosim_mmio_read`; `none` is a device without a bridge. The base is `pci_get_bar_addr`.
  unfoldable pub mmio_read : Option (Bridge T) → ℕ → ℕ → ℕ → ℕ × Option (Bridge T)
  unfolding read_req send_tlp_and_wait
  mmio_read none bar_base addr size = (all_ones, none)
  mmio_read (some ctx) bar_base addr size =
      let pcie_addr = u64 (bar_base + addr) in
      read_end (pcie_addr % 4) size (send_tlp_and_wait ops ctx (read_req pcie_addr size))

  -- `cosim_mmio_write`
  unfoldable pub mmio_write : Option (Bridge T) → ℕ → ℕ → ℕ → ℕ → Option (Bridge T)
  unfolding write_req send_tlp_fire
  mmio_write none bar_base addr val size = none
  mmio_write (some ctx) bar_base addr val size =
      some (send_tlp_fire ops ctx (write_req (u64 (bar_base + addr)) val size)).1

  -- The bridge of a BAR of `cosim_pcie_pf.c`: the shared one for a virtual function, the
  -- function's own for a physical one.
  abbrev pub bar_bridge : Bool → Option (Bridge T) → Option (Bridge T) → Option (Bridge T)
  bar_bridge is_vf shared own = if is_vf then shared else own

  -- `cosim_pf_mmio_read`
  unfoldable pub pf_mmio_read :
      Bool → Option (Bridge T) → Option (Bridge T) → ℕ → ℕ → ℕ → ℕ × Option (Bridge T)
  unfolding mmio_read
  pf_mmio_read is_vf shared own bar_base addr size =
      mmio_read (bar_bridge is_vf shared own) bar_base addr size

  -- `cosim_pf_mmio_write`
  unfoldable pub pf_mmio_write :
      Bool → Option (Bridge T) → Option (Bridge T) → ℕ → ℕ → ℕ → ℕ → Option (Bridge T)
  unfolding mmio_write
  pf_mmio_write is_vf shared own bar_base addr val size =
      mmio_write (bar_bridge is_vf shared own) bar_base addr val size
