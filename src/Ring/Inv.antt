-- ===== src/Ring/Inv.antt =====
-- The invariant of a ring: its indices and its slots lie in the region.
use qemu_vcs.Base.{
  ℕ, ◌+◌, ◌-◌, ◌*◌, ◌/◌, ◌%◌, ◌^◌, ◌≤◌, ◌<◌, ◌≡◌, ◌≢◌, refl, ◌⊎◌, inl, inr, some, true, List, arith,
  length, u32, take, length-write_at,
}
use native.Mathlib.Decide.{dec_lt}
use qemu_vcs.Ring.{Ring, header_size, init, attach, enqueue, dequeue, offset, next}

pub record IsValid (r : Ring) : Type 0 where
  pub two : 2 ≤ r.hdr.capacity
  pub sized : 0 < r.hdr.element_size
  pub head_in : r.hdr.head < r.hdr.capacity
  pub tail_in : r.hdr.tail < r.hdr.capacity
  pub fits : r.hdr.capacity * r.hdr.element_size ≤ length r.bytes
  pub small : length r.bytes < 2 ^ 32

-- Nothing of one slot lies in another.
pub slots_apart : (i j e : ℕ) → i ≢ j → (i * e + e ≤ j * e) ⊎ (j * e + e ≤ i * e)
slots_apart i j e ne = elim (dec_lt i j) [
  | yes p ↦ inl (grind arith)
  | no p ↦ inr (let q : j < i = omega arith in grind arith)
]

pub slot_end : (i cap e : ℕ) → i < cap → i * e + e ≤ cap * e
slot_end i cap e h = grind arith

cap-le-product : (cap e : ℕ) → 0 < e → cap ≤ cap * e
cap-le-product cap e h = grind arith

-- No product or sum of indices wraps, and each slot lies in the region.
pub slot_bounds :
    {r : Ring}
    → IsValid r
    → (i : ℕ) → i < r.hdr.capacity
    → (offset r.hdr i ≡ i * r.hdr.element_size)
      × (i * r.hdr.element_size + r.hdr.element_size ≤ length r.bytes)
slot_bounds {r} v i h =
    let inside = slot_end i r.hdr.capacity r.hdr.element_size h in (omega arith, omega arith)

pub capacity_small : {r : Ring} → IsValid r → r.hdr.capacity < 2 ^ 32
capacity_small {r} v = omega (arith, cap-le-product r.hdr.capacity r.hdr.element_size v.sized)

pub next_no_wrap :
    {r : Ring} → IsValid r → (i : ℕ) → i < r.hdr.capacity → next r.hdr i ≡ (i + 1) % r.hdr.capacity
next_no_wrap {r} v i h = let s = capacity_small v in rw (wraps s) refl
  where
    wraps : r.hdr.capacity < 2 ^ 32 → u32 (i + 1) ≡ i + 1
    wraps s = omega arith

next_in : {r : Ring} → IsValid r → (i : ℕ) → next r.hdr i < r.hdr.capacity
next_in v i = omega arith

quotient_fits : (n e : ℕ) → n / e * e ≤ n
quotient_fits n e = grind arith

-- A ring that `ring_buf_init` accepts is valid and empty, when the region has the bytes that
-- the caller says; and `ring_buf_attach` with the same sizes finds the same ring.
pub init-IsValid :
    (buf : Ring) (buf_size element_size : ℕ) {r : Ring}
    → buf_size < 2 ^ 32
    → length buf.bytes + header_size ≡ buf_size
    → init true (some buf) buf_size element_size ≡ some r
    → IsValid r × (r.hdr.head ≡ r.hdr.tail) × (attach true (some r) buf_size element_size ≡ some r)
unfolding init attach
init-IsValid buf buf_size element_size {r} small size e =
    ground (arith, quotient_fits (buf_size - header_size) element_size)

pub enqueue-IsValid :
    (r : Ring) (x : List ℕ) {r' : Ring} → IsValid r → enqueue r x ≡ some r' → IsValid r'
unfolding enqueue
enqueue-IsValid r x {r'} v e = ground (
  arith,
  next_in v r.hdr.tail,
  length-write_at r.bytes (offset r.hdr r.hdr.tail) (take r.hdr.element_size x),
)

pub dequeue-IsValid :
    (r : Ring) {x : List ℕ} {r' : Ring} → IsValid r → dequeue r ≡ some (x, r') → IsValid r'
unfolding dequeue
dequeue-IsValid r v e = ground (arith, next_in v r.hdr.head)
