-- ===== src/Device/Pf.antt =====
-- qemu-plugin/cosim_pcie_pf.c and cosim_pcie_vf.c: the accesses of the guest to the configuration
-- space of a physical and of a virtual function. What the emulator's SR-IOV support manages stays
-- with the emulator.
use qemu_vcs.Base.{
  ℕ, ◌+◌, ◌-◌, ◌*◌, ◌%◌, ◌^◌, Bool, Option, none, some, ◌==◌, ◌||◌, ◌&&◌, ltb, leb, if◌then◌else◌,
  map, get_or, take, bit_or, u16, u32,
}
use qemu_vcs.Messages.{Tlp, zero_tlp, Cpl, VfEvent, Topology}
use qemu_vcs.Qemu.{TlpTransport, Bridge, send_tlp_and_wait_bdf, send_tlp_fire, send_vf_event}
use qemu_vcs.Tcp.Codec.{le32}
use qemu_vcs.Device.Mmio.{cfgwr, cfgrd, extract, dword_of}
use qemu_vcs.Device.Config.{LocalConfig}

-- The fields of a `CosimPCIePF` that these functions read.
pub record PfConfig (L T : Type 0) : Type 0 where
  pub pf_index : ℕ
  pub num_vfs : ℕ
  pub topo : Option Topology
  pub bridge : Option (Bridge T)
  pub local : L

-- `PCI_STATUS`, `PCI_HEADER_TYPE`, `PCI_CAPABILITY_LIST` and `PCI_CONFIG_SPACE_SIZE`
abbrev pub pci_status : ℕ
pci_status = 0x06

abbrev pub pci_header_type : ℕ
pci_header_type = 0x0E

abbrev pub pci_capability_list : ℕ
pci_capability_list = 0x34

abbrev pub config_space_size : ℕ
config_space_size = 0x100

-- `COSIM_SRIOV_CAP_OFFSET + PCI_SRIOV_CTRL`
abbrev pub sriov_ctrl : ℕ
sriov_ctrl = 0x108

-- `VF_EVENT_ENABLE` and `VF_EVENT_DISABLE`
abbrev pub vf_enable : ℕ
vf_enable = 0

abbrev pub vf_disable : ℕ
vf_disable = 1

-- `cosim_pf_addr_is_local`
unfoldable pub addr_is_local : ℕ → ℕ → Bool
addr_is_local address len =
    ((address == pci_capability_list)
      || ((address == 0x34) || ((address == 0x35) || ((address == 0x36) || (address == 0x37)))))
    || ((leb 0x40 address && ltb address config_space_size)
        || (leb config_space_size address
            || (leb address pci_status && ltb pci_status (address + len))))

-- `s->topo ? s->topo->pfs[s->pf_index].bdf : 0`
unfoldable pub pf_bdf : Option Topology → ℕ → ℕ
pf_bdf none pf_index = 0
pf_bdf (some topo) pf_index = get_or (map (λ pf. pf.bdf) topo.pfs) pf_index 0

-- `PF_BDF + vf_offset + vf_index * vf_stride`, where both are the number of physical functions.
unfoldable pub vf_bdf : ℕ → ℕ → ℕ → ℕ
vf_bdf num_pfs bdf vf_index =
    let npfs = u16 (if ltb 1 num_pfs then num_pfs else 1) in u16 (bdf + npfs + vf_index * npfs)

-- The TLPs of a read and of a write; `len` is at most 4.
unfoldable pub pf_read_req : ℕ → ℕ → Tlp
pf_read_req address target_bdf = record zero_tlp {
  type = cfgrd;
  addr = address - address % 4;
  len = 4;
  target_bdf = target_bdf;
}

unfoldable pub pf_write_req : ℕ → ℕ → ℕ → ℕ → Tlp
unfolding le32
pf_write_req address val len target_bdf = record zero_tlp {
  type = cfgwr;
  addr = address;
  len = len;
  target_bdf = target_bdf;
  data_bytes = take len (le32 val);
}

-- The bit for more than one function in the header type of the first physical function.
unfoldable pub inject_multifunction : ℕ → ℕ → ℕ → ℕ → ℕ → ℕ
inject_multifunction num_pfs pf_index address len val =
    if (pf_index == 0) && (leb address pci_header_type && ltb pci_header_type (address + len))
    then (if ltb 1 num_pfs
        then bit_or val (u32 (0x80 * 2 ^ ((pci_header_type - address) * 8)))
        else val)
    else val

-- The event of a write to the SR-IOV control register.
unfoldable pub vf_event_for : ℕ → ℕ → ℕ → VfEvent
vf_event_for pf_index val active =
    if (val % 2 == 1) && ltb 0 active
    then record { event_type = vf_enable; pf_index = pf_index; num_vfs = active }
    else record { event_type = vf_disable; pf_index = pf_index; num_vfs = 0 }

module _ {L T : Type 0} (loc : LocalConfig L) (ops : TlpTransport T) where
  abbrev pub pf_read_end : ℕ → PfConfig L T → ℕ → ℕ → Option Cpl × Bridge T → ℕ × PfConfig L T
  pf_read_end num_pfs s address len (none, ctx) =
      (loc.read s.local address len, record s { bridge = some ctx })
  pf_read_end num_pfs s address len (some c, ctx) = (
    inject_multifunction num_pfs s.pf_index address len (extract (dword_of c) (address % 4) len),
    record s { bridge = some ctx },
  )

  -- `cosim_pf_config_read`; `num_pfs` is that of `g_cosim_shared`.
  unfoldable pub pf_config_read : ℕ → PfConfig L T → ℕ → ℕ → ℕ × PfConfig L T
  unfolding addr_is_local inject_multifunction send_tlp_and_wait_bdf pf_read_req pf_bdf
  pf_config_read num_pfs s address len = elim s.bridge [
    | none ↦ (loc.read s.local address len, s)
    | some ctx ↦
        let bdf = pf_bdf s.topo s.pf_index in
        if addr_is_local address len
        then (loc.read s.local address len, s)
        else pf_read_end num_pfs s address len
            (send_tlp_and_wait_bdf ops ctx (pf_read_req address bdf) 0 bdf)
  ]

  abbrev pub announce : Bridge T → ℕ → ℕ → ℕ → Bridge T
  announce ctx pf_index val active = record ctx {
    transport = (send_vf_event ops ctx.transport (vf_event_for pf_index val active)).1;
  }

  -- `cosim_pf_config_write`
  unfoldable pub pf_config_write : PfConfig L T → ℕ → ℕ → ℕ → PfConfig L T
  unfolding addr_is_local vf_event_for send_vf_event send_tlp_fire pf_write_req pf_bdf
  pf_config_write s address val len =
      let local' = loc.write s.local address val len in
      elim s.bridge [
        | none ↦ record s { local = local' }
        | some ctx ↦
            let told =
              if ltb 0 s.num_vfs && ((address == sriov_ctrl) && (len == 2))
              then announce ctx s.pf_index val (loc.active_vfs local')
              else ctx in
            if addr_is_local address len
            then record s { local = local'; bridge = some told }
            else record s {
              local = local';
              bridge =
                  some
                    (send_tlp_fire ops told
                      (pf_write_req address val len (pf_bdf s.topo s.pf_index))).1;
            }
      ]

  abbrev pub vf_read_end : L → ℕ → ℕ → Option Cpl × Bridge T → ℕ × Option (Bridge T)
  vf_read_end local address len (none, ctx) = (loc.read local address len, some ctx)
  vf_read_end local address len (some c, ctx) = (extract (dword_of c) (address % 4) len, some ctx)

  -- `cosim_vf_config_read` of the function with a local configuration space and a BDF, over the
  -- shared bridge.
  unfoldable pub vf_config_read : L → ℕ → Option (Bridge T) → ℕ → ℕ → ℕ × Option (Bridge T)
  unfolding send_tlp_and_wait_bdf pf_read_req
  vf_config_read local bdf none address len = (loc.read local address len, none)
  vf_config_read local bdf (some ctx) address len =
      vf_read_end local address len (send_tlp_and_wait_bdf ops ctx (pf_read_req address bdf) 0 bdf)

  -- `cosim_vf_config_write`
  unfoldable pub vf_config_write : L → ℕ → Option (Bridge T) → ℕ → ℕ → ℕ → L × Option (Bridge T)
  unfolding send_tlp_fire pf_write_req
  vf_config_write local bdf none address val len = (loc.write local address val len, none)
  vf_config_write local bdf (some ctx) address val len = (
    loc.write local address val len,
    some (send_tlp_fire ops ctx (pf_write_req address val len bdf)).1,
  )
