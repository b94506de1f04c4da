-- ===== src/Ring.antt =====
-- bridge/common/ring_buffer.c: a ring of fixed-size elements in shared memory.
pub mod Inv
pub mod Refine
pub mod Order
use qemu_vcs.Base.{
  ℕ, ◌+◌, ◌-◌, ◌*◌, ◌/◌, ◌%◌, ◌^◌, Option, none, some, Bool, true, false, ◌||◌, List, u32, ltb, leb,
  ◌==◌, ◌!=◌, if◌then◌else◌, take, write_at, read_at,
}

-- `ring_buf_hdr_t`
pub record Header : Type 0 where
  pub head : ℕ
  pub tail : ℕ
  pub capacity : ℕ
  pub element_size : ℕ

-- The shared region: the header, and the bytes after it. Every `ring_buf_t` handle points to it.
pub record Ring : Type 0 where
  pub hdr : Header
  pub bytes : List ℕ

abbrev pub header_size : ℕ
header_size = 16

-- `_capacity`
unfoldable pub slots : ℕ → ℕ → ℕ
slots buf_size element_size =
    if leb buf_size header_size then 0 else u32 ((buf_size - header_size) / element_size)

-- `ring_buf_init`. The Boolean and the option say which of the two pointers is not null, and
-- `none` is the -1.
unfoldable pub init : Bool → Option Ring → ℕ → ℕ → Option Ring
unfolding slots
init false buf buf_size element_size = none
init true none buf_size element_size = none
init true (some buf) buf_size element_size =
    let cap = slots buf_size element_size in
    if element_size == 0
    then none
    else if ltb cap 2
    then none
    else some (record {
      hdr = record { head = 0; tail = 0; capacity = cap; element_size = element_size };
      bytes = buf.bytes;
    })

-- `ring_buf_attach`: the region is only looked at.
unfoldable pub attach : Bool → Option Ring → ℕ → ℕ → Option Ring
unfolding slots
attach false buf buf_size element_size = none
attach true none buf_size element_size = none
attach true (some buf) buf_size element_size =
    let cap = slots buf_size element_size in
    if element_size == 0
    then none
    else if ltb cap 2
    then none
    else if (buf.hdr.capacity != cap) || (buf.hdr.element_size != element_size)
    then none
    else some buf

-- `tail * hdr->element_size`, a product of two `uint32_t`
abbrev pub offset : Header → ℕ → ℕ
offset hdr i = u32 (i * hdr.element_size)

-- `(i + 1) % hdr->capacity`
abbrev pub next : Header → ℕ → ℕ
next hdr i = u32 (i + 1) % hdr.capacity

-- `ring_buf_enqueue`; `none` is the -1 of a full ring.
unfoldable pub enqueue : Ring → List ℕ → Option Ring
enqueue r element =
    if next r.hdr r.hdr.tail == r.hdr.head
    then none
    else some (record {
      hdr = record (r.hdr) { tail = next r.hdr r.hdr.tail };
      bytes = write_at r.bytes (offset r.hdr r.hdr.tail) (take r.hdr.element_size element);
    })

-- `ring_buf_dequeue`; `none` is the -1 of an empty ring.
unfoldable pub dequeue : Ring → Option (List ℕ × Ring)
dequeue r =
    if r.hdr.head == r.hdr.tail
    then none
    else some (
      read_at r.bytes (offset r.hdr r.hdr.head) r.hdr.element_size,
      record r { hdr = record (r.hdr) { head = next r.hdr r.hdr.head } },
    )

-- `ring_buf_is_empty`
unfoldable pub is_empty : Ring → Bool
is_empty r = r.hdr.head == r.hdr.tail

-- `ring_buf_is_full`
unfoldable pub is_full : Ring → Bool
is_full r = next r.hdr r.hdr.tail == r.hdr.head

-- `ring_buf_count`
unfoldable pub count : Ring → ℕ
count r =
    if leb r.hdr.head r.hdr.tail
    then r.hdr.tail - r.hdr.head
    else u32 (r.hdr.capacity + 2 ^ 32 - r.hdr.head + r.hdr.tail)

-- `ring_buf_capacity`; the subtraction wraps at 0.
unfoldable pub capacity : Ring → ℕ
capacity r = u32 (r.hdr.capacity + 0xFFFFFFFF)
