-- ===== src/Device/Discover.antt =====
-- qemu-plugin/cosim_pcie_rc.c: what the root complex asks the simulator when it is realised: the
-- sizes of the BARs and the capabilities.
pub mod Space
pub mod Sizes
use qemu_vcs.Base.{
  ℕ, zero, suc, ◌+◌, ◌-◌, ◌*◌, ◌/◌, ◌%◌, ◌^◌, Option, none, some, ◌==◌, ◌||◌, if◌then◌else◌,
  bit_and, u8, u16, u32,
}
use qemu_vcs.Messages.{Tlp, zero_tlp, Cpl}
use qemu_vcs.Qemu.{TlpTransport, Bridge, send_tlp_and_wait, send_tlp_fire}
use qemu_vcs.Tcp.Codec.{le32}
use qemu_vcs.Device.Mmio
use qemu_vcs.Device.Mmio.{all_ones, dword_of}

unfoldable pub reg_read_req : ℕ → Tlp
reg_read_req reg = record zero_tlp {
  type = Mmio.cfgrd;
  addr = reg - reg % 4;
  len = 4;
  first_be = 0xF;
}

unfoldable pub reg_write_req : ℕ → ℕ → Tlp
unfolding le32
reg_write_req reg val = record zero_tlp {
  type = Mmio.cfgwr;
  addr = reg;
  len = 4;
  first_be = 0xF;
  data_bytes = le32 val;
}

-- `((msg_ctrl >> 1) & 0x7)` of the first DWORD of an MSI capability, as a number of vectors
unfoldable pub vectors_of : ℕ → ℕ
vectors_of dw = let msg_ctrl = u16 (dw / 2 ^ 16) in 2 ^ bit_and (msg_ctrl / 2) 0x7

-- `(dw >> 8) & 0xFC`
abbrev pub next_cap : ℕ → ℕ
next_cap dw = bit_and (u8 (dw / 2 ^ 8)) 0xFC

-- `PCI_CAP_ID_MSI`
abbrev pub msi_cap : ℕ
msi_cap = 0x05

-- What a capability adds to what is found: the offset and the number of the vectors.
unfoldable pub note_cap : ℕ → ℕ → Option (ℕ × ℕ) → Option (ℕ × ℕ)
unfolding vectors_of
note_cap ptr dw msi = if u8 dw == msi_cap then some (ptr, vectors_of dw) else msi

-- `safety`
abbrev pub max_caps : ℕ
max_caps = 48

module _ {T : Type 0} (ops : TlpTransport T) where
  abbrev pub value_of : Option Cpl × Bridge T → ℕ × Bridge T
  value_of (none, ctx) = (all_ones, ctx)
  value_of (some c, ctx) = (dword_of c, ctx)

  -- `cosim_cfgrd`
  unfoldable pub read_reg : Bridge T → ℕ → ℕ × Bridge T
  read_reg ctx reg = value_of (send_tlp_and_wait ops ctx (reg_read_req reg))

  -- `cosim_cfgwr`
  unfoldable pub write_reg : Bridge T → ℕ → ℕ → Bridge T
  write_reg ctx reg val = (send_tlp_fire ops ctx (reg_write_req reg val)).1

  -- `cosim_query_bar_size`
  unfoldable pub query_bar_size : Bridge T → ℕ → ℕ × Bridge T
  query_bar_size ctx bar =
      let reg = u32 (0x10 + bar * 4) in
      let (orig, ctx1) = read_reg ctx reg in
      let ctx2 = write_reg ctx1 reg 0xFFFFFFFF in
      let (mask, ctx3) = read_reg ctx2 reg in
      let ctx4 = write_reg ctx3 reg orig in
      if (mask == 0) || (mask == 0xFFFFFFFF)
      then (0, ctx4)
      else (u32 (0xFFFFFFFF - (mask - mask % 16) + 1), ctx4)

  -- The loop of `cosim_discover_caps`.
  unfoldable pub caps_loop : ℕ → Bridge T → ℕ → Option (ℕ × ℕ) → Option (ℕ × ℕ) × Bridge T
  caps_loop zero ctx ptr msi = (msi, ctx)
  caps_loop (suc safety) ctx ptr msi =
      let (dw, ctx') = read_reg ctx ptr in
      let rest = caps_loop safety ctx' (next_cap dw) (note_cap ptr dw msi) in
      if ptr == 0 then (msi, ctx) else rest

  -- `cosim_discover_caps`: the offset and the vectors of the MSI capability, or none.
  unfoldable pub discover_caps : Bridge T → Option (ℕ × ℕ) × Bridge T
  discover_caps ctx =
      let (status_cmd, ctx1) = read_reg ctx 0x04 in
      let (ptr, ctx2) = read_reg ctx1 0x34 in
      if status_cmd / 2 ^ 20 % 2 == 1
      then caps_loop max_caps ctx2 (bit_and (u8 ptr) 0xFC) none
      else (none, ctx1)
