-- ===== src/Device/Config.antt =====
-- qemu-plugin/cosim_pcie_rc.c: the accesses of the guest to the configuration space of the root
-- complex, with the cache of what the simulator has answered.
pub mod Silent
use qemu_vcs.Base.{
  ℕ, ◌-◌, ◌*◌, ◌%◌, ◌^◌, Bool, true, false, Option, none, some, ◌==◌, ◌!=◌, ◌&&◌, not, ltb,
  if◌then◌else◌, take, bit_or, u16,
}
use qemu_vcs.Messages.{Tlp, zero_tlp, Cpl}
use qemu_vcs.Qemu.{TlpTransport, Bridge, send_tlp_and_wait, send_tlp_fire}
use qemu_vcs.Tcp.Codec.{le32, from_le}
use qemu_vcs.Device.Mmio.{cfgwr, cfgrd, all_ones, extract, dword_of}

-- The configuration space that the emulator keeps: `pci_default_read_config` and
-- `pci_default_write_config`, and the virtual functions that its SR-IOV support has enabled.
pub record LocalConfig (L : Type 0) : Type 0 where
  pub read : L → ℕ → ℕ → ℕ
  pub write : L → ℕ → ℕ → ℕ → L
  pub active_vfs : L → ℕ

-- The address of a function.
pub record Bdf : Type 0 where
  pub bus : ℕ
  pub dev : ℕ
  pub func : ℕ

-- `CosimBdfCacheEntry`
pub record BdfEntry : Type 0 where
  pub vendor_id : ℕ
  pub probed : Bool
  pub valid : Bool

-- The fields `bridge_ctx`, `bdf_cache` and `parent_obj` of `CosimPCIeRC`.
pub record RcConfig (L T : Type 0) : Type 0 where
  pub bridge : Option (Bridge T)
  pub local : L
  pub bdf_cache : Bdf → BdfEntry

-- `COSIM_MAX_BUS`, `COSIM_MAX_DEV` and `COSIM_MAX_FUNC`
abbrev pub in_cache : Bdf → Bool
in_cache f = ltb f.bus 256 && (ltb f.dev 32 && ltb f.func 8)

abbrev pub same_bdf : Bdf → Bdf → Bool
same_bdf f g = (f.bus == g.bus) && ((f.dev == g.dev) && (f.func == g.func))

abbrev pub put_entry : (Bdf → BdfEntry) → Bdf → BdfEntry → Bdf → BdfEntry
put_entry cache f e = λ g. if same_bdf g f then e else cache g

-- `(bus << 8) | (dev << 3) | func`, as 16 bits
unfoldable pub bdf_of : Bdf → ℕ
bdf_of f = u16 (bit_or (bit_or (f.bus * 2 ^ 8) (f.dev * 2 ^ 3)) f.func)

-- The TLPs of the probe, of a read and of a write.
unfoldable pub probe_req : Bdf → Tlp
unfolding bdf_of
probe_req f = record zero_tlp {
  type = cfgrd;
  addr = 0;
  len = 4;
  first_be = 0xF;
  target_bdf = bdf_of f;
  requester_id = bdf_of f;
}

unfoldable pub config_read_req : Bdf → ℕ → Tlp
unfolding bdf_of
config_read_req f address = record zero_tlp {
  type = cfgrd;
  addr = address - address % 4;
  len = 4;
  target_bdf = bdf_of f;
  requester_id = bdf_of f;
}

-- `len` is at most 4.
unfoldable pub config_write_req : Bdf → ℕ → ℕ → ℕ → Tlp
unfolding bdf_of le32
config_write_req f address val len = record zero_tlp {
  type = cfgwr;
  addr = address;
  len = len;
  target_bdf = bdf_of f;
  requester_id = bdf_of f;
  data_bytes = take len (le32 val);
}

-- What the cache keeps of the answer to a probe.
unfoldable pub entry_of : Option Cpl → BdfEntry
unfolding from_le
entry_of none = record { vendor_id = 0xFFFF; probed = true; valid = false }
entry_of (some c) =
    let vendor = u16 (from_le (take 2 c.data_bytes)) in
    record { vendor_id = vendor; probed = true; valid = vendor != 0xFFFF }

module _ {L T : Type 0} (loc : LocalConfig L) (ops : TlpTransport T) where
  abbrev pub answer_or_local : RcConfig L T → ℕ → ℕ → Option Cpl × Bridge T → ℕ × RcConfig L T
  answer_or_local s address len (none, ctx) =
      (loc.read s.local address len, record s { bridge = some ctx })
  answer_or_local s address len (some c, ctx) =
      (extract (dword_of c) (address % 4) len, record s { bridge = some ctx })

  -- A read that goes to the simulator.
  unfoldable pub forward_read : RcConfig L T → Bridge T → Bdf → ℕ → ℕ → ℕ × RcConfig L T
  unfolding send_tlp_and_wait config_read_req
  forward_read s ctx f address len =
      answer_or_local s address len (send_tlp_and_wait ops ctx (config_read_req f address))

  -- The first read of a function, on the answer to the probe.
  unfoldable pub first_read : RcConfig L T → Bdf → ℕ → ℕ → Option Cpl × Bridge T → ℕ × RcConfig L T
  unfolding entry_of forward_read
  first_read s f address len (none, ctx) = (
    all_ones,
    record s { bridge = some ctx; bdf_cache = put_entry s.bdf_cache f (entry_of none) },
  )
  first_read s f address len (some c, ctx) =
      let s' = record s {
        bridge = some ctx;
        bdf_cache = put_entry s.bdf_cache f (entry_of (some c));
      } in
      if (entry_of (some c)).valid
      then (if address - address % 4 == 0
          then (extract (dword_of c) (address % 4) len, s')
          else forward_read s' ctx f address len)
      else (all_ones, s')

  -- `cosim_config_read`
  unfoldable pub config_read : RcConfig L T → Bdf → ℕ → ℕ → ℕ × RcConfig L T
  unfolding first_read forward_read send_tlp_and_wait probe_req
  config_read s f address len = elim s.bridge [
    | none ↦ (loc.read s.local address len, s)
    | some ctx ↦
        if in_cache f
        then (if (s.bdf_cache f).probed
            then (if (s.bdf_cache f).valid then forward_read s ctx f address len else (all_ones, s))
            else first_read s f address len (send_tlp_and_wait ops ctx (probe_req f)))
        else forward_read s ctx f address len
  ]

  -- `cosim_config_write`
  unfoldable pub config_write : RcConfig L T → Bdf → ℕ → ℕ → ℕ → RcConfig L T
  unfolding send_tlp_fire config_write_req
  config_write s f address val len =
      let s' = record s { local = loc.write s.local address val len } in
      elim s.bridge [
        | none ↦ s'
        | some ctx ↦
            if in_cache f && not ((s.bdf_cache f).probed && (s.bdf_cache f).valid)
            then s'
            else record s' {
              bridge = some (send_tlp_fire ops ctx (config_write_req f address val len)).1;
            }
      ]
