-- ===== src/Messages.antt =====
-- bridge/common/cosim_types.h and bridge/common/cosim_topology.h: the messages that the two
-- simulators exchange, without their padding.
pub mod SyncType
use qemu_vcs.Base.{ℕ, List, []}

-- `sync_msg_t`
pub record SyncMsg : Type 0 where
  pub kind : ℕ
  pub payload : ℕ

-- `tlp_entry_t`
pub record Tlp : Type 0 where
  pub type : ℕ
  pub tag : ℕ
  pub len : ℕ
  pub msg_code : ℕ
  pub atomic_op_size : ℕ
  pub vendor_id : ℕ
  pub requester_id : ℕ
  pub target_bdf : ℕ
  pub addr : ℕ
  pub data_bytes : List ℕ
  pub dma_offset : ℕ
  pub timestamp : ℕ
  pub first_be : ℕ
  pub last_be : ℕ

-- `cpl_entry_t`
pub record Cpl : Type 0 where
  pub type : ℕ
  pub status : ℕ
  pub tag : ℕ
  pub requester_id : ℕ
  pub completer_id : ℕ
  pub len : ℕ
  pub data_bytes : List ℕ
  pub timestamp : ℕ

-- `dma_req_t`
pub record DmaReq : Type 0 where
  pub requester_id : ℕ
  pub tag : ℕ
  pub direction : ℕ
  pub host_addr : ℕ
  pub len : ℕ
  pub dma_offset : ℕ
  pub timestamp : ℕ

-- `dma_cpl_t`
pub record DmaCpl : Type 0 where
  pub tag : ℕ
  pub status : ℕ
  pub timestamp : ℕ

-- `msi_event_t`
pub record MsiEvent : Type 0 where
  pub requester_id : ℕ
  pub vector : ℕ
  pub timestamp : ℕ

-- `vf_event_t`
pub record VfEvent : Type 0 where
  pub event_type : ℕ
  pub pf_index : ℕ
  pub num_vfs : ℕ

-- `topology_header_t`
pub record TopologyHeader : Type 0 where
  pub num_pfs : ℕ
  pub tag_width : ℕ

-- `pf_topology_t`
pub record PfTopology : Type 0 where
  pub bdf : ℕ
  pub num_vfs : ℕ
  pub vf_device_id : ℕ
  pub vendor_id : ℕ
  pub device_id : ℕ
  pub msix_vectors : ℕ
  pub vf_msix_vectors : ℕ
  pub pf_bar_size : List ℕ
  pub vf_bar_size : List ℕ

-- `topology_resp_t`
pub record Topology : Type 0 where
  pub header : TopologyHeader
  pub pfs : List PfTopology

abbrev pub zero_tlp : Tlp
zero_tlp = record {
  type = 0;
  tag = 0;
  len = 0;
  msg_code = 0;
  atomic_op_size = 0;
  vendor_id = 0;
  requester_id = 0;
  target_bdf = 0;
  addr = 0;
  data_bytes = [];
  dma_offset = 0;
  timestamp = 0;
  first_be = 0;
  last_be = 0;
}

-- `DMA_DIR_READ` and `DMA_DIR_WRITE`
abbrev pub dir_read : ℕ
dir_read = 0

abbrev pub dir_write : ℕ
dir_write = 1
