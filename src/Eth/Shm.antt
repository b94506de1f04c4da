-- ===== src/Eth/Shm.antt =====
-- bridge/common/eth_shm.c: the shared memory of an Ethernet link, a control block and a ring of
-- frames for each direction.
use qemu_vcs.Base.{
  ℕ, ◌+◌, ◌%◌, Option, none, some, Bool, true, false, ◌||◌, List, [], u32, ◌==◌, ◌!=◌,
  if◌then◌else◌, get_or, set, replicate,
}

abbrev pub max_data : ℕ
max_data = 9216

-- `ETH_FRAME_RING_DEPTH`
abbrev pub ring_depth : ℕ
ring_depth = 256

-- `eth_frame_t`. `payload` is the array up to the last byte written; the bytes after it are 0.
pub record Frame : Type 0 where
  pub len : ℕ
  pub flags : ℕ
  pub seq : ℕ
  pub timestamp_ns : ℕ
  pub payload : List ℕ

abbrev pub zero_frame : Frame
zero_frame = record { len = 0; flags = 0; seq = 0; timestamp_ns = 0; payload = [] }

-- `eth_role_t`
pub data Role : Type 0 where
  a b : Role

-- A value for each role: the arrays of two entries that a role indexes.
pub record Both (A : Type 0) : Type 0 where
  pub of_a : A
  pub of_b : A

abbrev pub both : {A : Type 0} → Both A → Role → A
both p a = p.of_a
both p b = p.of_b

abbrev pub set_both : {A : Type 0} → Both A → Role → A → Both A
set_both p a x = record p { of_a = x }
set_both p b x = record p { of_b = x }

-- `eth_shm_ctrl_t`
pub record Control : Type 0 where
  pub magic : ℕ
  pub version : ℕ
  pub ready_flag : Both ℕ
  pub node_time_ns : Both ℕ
  pub link_up : ℕ

-- `eth_frame_ring_t`: `head` is the producer's index, `tail` the consumer's.
pub record FrameRing : Type 0 where
  pub head : ℕ
  pub tail : ℕ
  pub depth : ℕ
  pub slots : List Frame

-- The mapped object.
pub record EthShm : Type 0 where
  pub ctrl : Control
  pub a_to_b : FrameRing
  pub b_to_a : FrameRing

abbrev pub shm_magic : ℕ
shm_magic = 0x45544831

abbrev pub shm_version : ℕ
shm_version = 1

abbrev pub zero_ring : FrameRing
zero_ring = record {
  head = 0;
  tail = 0;
  depth = ring_depth;
  slots = replicate ring_depth zero_frame;
}

-- What `eth_shm_open` writes into a region that it creates.
abbrev pub created : EthShm
created = record {
  ctrl = record {
    magic = shm_magic;
    version = shm_version;
    ready_flag = record { of_a = 0; of_b = 0 };
    node_time_ns = record { of_a = 0; of_b = 0 };
    link_up = 1;
  };
  a_to_b = zero_ring;
  b_to_a = zero_ring;
}

-- The answers of the operating system to the calls of `eth_shm_open`: whether `shm_open` gives a
-- descriptor with O_EXCL, without it, and whether `ftruncate` and `mmap` succeed.
pub record Os : Type 0 where
  pub opens_new : Bool
  pub opens : Bool
  pub truncates : Bool
  pub maps : Bool

-- `eth_shm_open`, over the object that the name stands for; `none` is the -1.
unfoldable pub open_shm : Os → Bool → EthShm → Option EthShm
open_shm os true region =
    if os.opens_new || os.opens
    then (if os.truncates then (if os.maps then some created else none) else none)
    else none
open_shm os false region =
    if os.opens
    then if os.maps
      then if (region.ctrl.magic != shm_magic) || (region.ctrl.version != shm_version)
        then none
        else some region
      else none
    else none

abbrev pub peer_of : Role → Role
peer_of a = b
peer_of b = a

-- `eth_shm_mark_ready`
unfoldable pub mark_ready : EthShm → Role → EthShm
mark_ready shm role = record shm {
  ctrl = record (shm.ctrl) { ready_flag = set_both shm.ctrl.ready_flag role 1 };
}

-- `eth_shm_peer_ready`
unfoldable pub peer_ready : EthShm → Role → Bool
peer_ready shm self_role = both shm.ctrl.ready_flag (peer_of self_role) != 0

-- `eth_shm_enqueue`; `none` is the -1 of a full ring.
unfoldable pub enqueue : FrameRing → Frame → Option FrameRing
enqueue ring f =
    let next = u32 (ring.head + 1) % ring.depth in
    if next == ring.tail
    then none
    else some (record ring { slots = set ring.slots ring.head f; head = next })

-- `eth_shm_dequeue`; `none` is the -1 of an empty ring.
unfoldable pub dequeue : FrameRing → Option (Frame × FrameRing)
dequeue ring =
    if ring.tail == ring.head
    then none
    else some (
      get_or ring.slots ring.tail zero_frame,
      record ring { tail = u32 (ring.tail + 1) % ring.depth },
    )

-- `eth_shm_tx_ring` and `eth_shm_rx_ring`, and the write through the pointer that they return.
unfoldable pub tx_ring : EthShm → Role → FrameRing
tx_ring shm a = shm.a_to_b
tx_ring shm b = shm.b_to_a

unfoldable pub rx_ring : EthShm → Role → FrameRing
rx_ring shm a = shm.b_to_a
rx_ring shm b = shm.a_to_b

abbrev pub set_tx : EthShm → Role → FrameRing → EthShm
set_tx shm a r = record shm { a_to_b = r }
set_tx shm b r = record shm { b_to_a = r }

abbrev pub set_rx : EthShm → Role → FrameRing → EthShm
set_rx shm a r = record shm { b_to_a = r }
set_rx shm b r = record shm { a_to_b = r }

-- `eth_shm_advance_time`
unfoldable pub advance_time : EthShm → Role → ℕ → EthShm
advance_time shm role ns = record shm {
  ctrl = record (shm.ctrl) { node_time_ns = set_both shm.ctrl.node_time_ns role ns };
}

-- `eth_shm_peer_time`
unfoldable pub peer_time : EthShm → Role → ℕ
peer_time shm self_role = both shm.ctrl.node_time_ns (peer_of self_role)
