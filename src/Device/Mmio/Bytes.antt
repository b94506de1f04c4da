-- ===== src/Device/Mmio/Bytes.antt =====
-- An access of qemu-plugin to a BAR that stays within a DWORD reads and writes the bytes that the
-- guest means, and no others.
use mathlib.Core.Path.{subst}
use qemu_vcs.Base.{
  bit_and, ℕ, ◌+◌, ◌-◌, ◌*◌, ◌/◌, ◌%◌, ◌^◌, ◌≤◌, ◌<◌, ◌≡◌, refl, sym, ap, ◌∙◌, some, none, arith,
  ==_self, u64,
}
use qemu_vcs.Messages.{Cpl}
use qemu_vcs.Qemu.{
  Bridge, send_tlp_and_wait, send_tlp_fire, send_tlp, put_tlp, wait_completion, wait_loop,
}
use qemu_vcs.Tcp.Codec.{le32, from_le}
use qemu_vcs.Device.Mmio.{
  mmio_read, mmio_write, read_req, write_req, byte_enables, extract, dword_of,
}
use qemu_vcs.Device.Mmio.Endpoint.{
  Quad, Endpoint, update, merge, bytes_of, accept, endpoint, completes,
}

-- The accesses of one, two and four bytes within a DWORD.
pub data Lane : Type 0 where
  byte0 byte1 byte2 byte3 half0 half1 half2 word : Lane

abbrev pub offset : Lane → ℕ
offset byte0 = 0
offset byte1 = 1
offset byte2 = 2
offset byte3 = 3
offset half0 = 0
offset half1 = 1
offset half2 = 2
offset word = 0

abbrev pub size : Lane → ℕ
size byte0 = 1
size byte1 = 1
size byte2 = 1
size byte3 = 1
size half0 = 2
size half1 = 2
size half2 = 2
size word = 4

-- The value of a lane, and a DWORD with a new value in one.
abbrev pub get : Lane → Quad → ℕ
get byte0 q = q.b0
get byte1 q = q.b1
get byte2 q = q.b2
get byte3 q = q.b3
get half0 q = q.b0 + 256 * q.b1
get half1 q = q.b1 + 256 * q.b2
get half2 q = q.b2 + 256 * q.b3
get word q = q.b0 + 256 * q.b1 + 65536 * q.b2 + 16777216 * q.b3

abbrev pub put : Lane → ℕ → Quad → Quad
put byte0 v q = record q { b0 = v % 256 }
put byte1 v q = record q { b1 = v % 256 }
put byte2 v q = record q { b2 = v % 256 }
put byte3 v q = record q { b3 = v % 256 }
put half0 v q = record q { b0 = v % 256; b1 = v / 256 % 256 }
put half1 v q = record q { b1 = v % 256; b2 = v / 256 % 256 }
put half2 v q = record q { b2 = v % 256; b3 = v / 256 % 256 }
put word v q = record {
  b0 = v % 256;
  b1 = v / 256 % 256;
  b2 = v / 65536 % 256;
  b3 = v / 16777216 % 256;
}

pub record AreBytes (q : Quad) : Type 0 where
  pub b0_ok : q.b0 < 256
  pub b1_ok : q.b1 < 256
  pub b2_ok : q.b2 < 256
  pub b3_ok : q.b3 < 256

merge_lem :
    (lane : Lane) (v : ℕ) (q : Quad)
    → merge
        (byte_enables (size lane) (offset lane))
        (le32 (v % 2 ^ 32 * 2 ^ (offset lane * 8) % 2 ^ 32))
        q
      ≡ put lane v q
unfolding merge byte_enables le32
merge_lem byte0 v q = ground arith
merge_lem byte1 v q = ground arith
merge_lem byte2 v q = ground arith
merge_lem byte3 v q = ground arith
merge_lem half0 v q = ground arith
merge_lem half1 v q = ground arith
merge_lem half2 v q = ground arith
merge_lem word v q = ground arith

extract_lem :
    (lane : Lane) (q : Quad)
    → AreBytes q
    → extract (from_le (bytes_of q)) (offset lane) (size lane) ≡ get lane q
unfolding extract from_le
extract_lem byte0 q v = omega arith
extract_lem byte1 q v = omega arith
extract_lem byte2 q v = omega arith
extract_lem byte3 q v = omega arith
extract_lem half0 q v = omega arith
extract_lem half1 q v = omega arith
extract_lem half2 q v = omega arith
extract_lem word q v = omega arith

-- The bridge after a TLP, on an endpoint in a given state.
abbrev pub after : Bridge Endpoint → Endpoint → Bridge Endpoint
after ctx e = record {
  transport = e;
  next_tag = bit_and (ctx.next_tag + 1) ctx.tag_mask;
  tag_mask = ctx.tag_mask;
}

exchange :
    (ctx : Bridge Endpoint) (pcie_addr n : ℕ)
    → send_tlp_and_wait endpoint ctx (read_req pcie_addr n) ≡ (
      some (
          completes
            (record (read_req pcie_addr n) { tag = bit_and ctx.next_tag ctx.tag_mask })
            (bytes_of (ctx.transport.mem (pcie_addr - pcie_addr % 4)))),
      after ctx (record { mem = ctx.transport.mem; answer = none }),
    )
unfolding send_tlp_and_wait send_tlp put_tlp wait_completion wait_loop accept read_req
exchange ctx pcie_addr n = rw (wait_loop, ==_self (bit_and ctx.next_tag ctx.tag_mask)) refl

-- An access of the lane of a DWORD.
abbrev pub At : Lane → ℕ → ℕ → ℕ → Type 0
At lane d base addr = (base + addr ≡ 4 * d + offset lane) × (4 * d + 4 ≤ 2 ^ 64)

offset-lt : (lane : Lane) → offset lane < 4
offset-lt byte0 = omega arith
offset-lt byte1 = omega arith
offset-lt byte2 = omega arith
offset-lt byte3 = omega arith
offset-lt half0 = omega arith
offset-lt half1 = omega arith
offset-lt half2 = omega arith
offset-lt word = omega arith

module _ (lane : Lane) (d base addr : ℕ) (at : At lane d base addr) where
  address : u64 (base + addr) ≡ 4 * d + offset lane
  address = omega (arith, at, offset-lt lane)

  low : u64 (base + addr) % 4 ≡ offset lane
  low = omega (arith, at, offset-lt lane)

  high : u64 (base + addr) - offset lane ≡ 4 * d
  high = omega (arith, at, offset-lt lane)

  -- A write of one, two or four bytes within a DWORD changes these bytes of the endpoint to those of
  -- the value and no others, below 2 ^ 64.
  pub mmio_write_lem :
      (ctx : Bridge Endpoint) (val : ℕ)
      → mmio_write endpoint (some ctx) base addr val (size lane)
        ≡ some (
            after ctx (record (ctx.transport) {
              mem = update ctx.transport.mem (4 * d) (put lane val (ctx.transport.mem (4 * d)));
            }))
  unfolding mmio_write send_tlp_fire send_tlp put_tlp accept write_req
  mmio_write_lem ctx val =
      rw (low, high)
        (ap
          (λ q.
            some (after ctx (record (ctx.transport) { mem = update ctx.transport.mem (4 * d) q })))
          (merge_lem lane val (ctx.transport.mem (4 * d))))

  -- A read of them gives the value of these bytes.
  pub mmio_read_lem :
      (ctx : Bridge Endpoint)
      → AreBytes (ctx.transport.mem (4 * d))
      → mmio_read endpoint (some ctx) base addr (size lane) ≡ (
        get lane (ctx.transport.mem (4 * d)),
        some (after ctx (record { mem = ctx.transport.mem; answer = none })),
      )
  unfolding mmio_read dword_of
  mmio_read_lem ctx v =
      rw (exchange ctx (u64 (base + addr)) (size lane), low, high)
        (ap (λ x. (x, some (after ctx (record { mem = ctx.transport.mem; answer = none }))))
          (extract_lem lane (ctx.transport.mem (4 * d)) v))

put-AreBytes : (lane : Lane) (v : ℕ) (q : Quad) → AreBytes q → AreBytes (put lane v q)
put-AreBytes byte0 v q b = ground arith
put-AreBytes byte1 v q b = ground arith
put-AreBytes byte2 v q b = ground arith
put-AreBytes byte3 v q b = ground arith
put-AreBytes half0 v q b = ground arith
put-AreBytes half1 v q b = ground arith
put-AreBytes half2 v q b = ground arith
put-AreBytes word v q b = ground arith

get-put : (lane : Lane) (v : ℕ) (q : Quad) → get lane (put lane v q) ≡ v % 2 ^ (8 * size lane)
get-put byte0 v q = omega arith
get-put byte1 v q = omega arith
get-put byte2 v q = omega arith
get-put byte3 v q = omega arith
get-put half0 v q = omega arith
get-put half1 v q = omega arith
get-put half2 v q = omega arith
get-put word v q = omega arith

-- An access of eight bytes carries four: a write sends the same TLP whatever the upper half of the
-- value is, and a read that succeeds gives less than 2 ^ 32 where the endpoint answers in bytes.
pub wide_access :
    (pcie_addr val : ℕ) (c : Cpl) (q : Quad)
    → pcie_addr % 4 ≡ 0
    → c.data_bytes ≡ bytes_of q
    → AreBytes q
    → (write_req pcie_addr val 8 ≡ write_req pcie_addr (val % 2 ^ 32) 8)
      × (extract (dword_of c) 0 8 < 2 ^ 32)
unfolding write_req extract dword_of from_le
wide_access pcie_addr val c q aligned e v = (
  ap
      (λ x. record (write_req pcie_addr 0 8) {
        data_bytes = le32 (x * 2 ^ (pcie_addr % 4 * 8) % 2 ^ 32);
      })
      (omega arith),
  rw e (omega arith),
)

-- A read of one, two or four bytes within a DWORD, after a write to the same place below 2 ^ 64,
-- gives the value that was written, cut to the size of the access.
pub mmio_read-mmio_write :
    (lane : Lane) (d base addr : ℕ) (ctx : Bridge Endpoint) (val : ℕ)
    → At lane d base addr
    → AreBytes (ctx.transport.mem (4 * d))
    → (mmio_read endpoint
        (mmio_write endpoint (some ctx) base addr val (size lane))
        base
        addr
        (size lane)).0
      ≡ val % 2 ^ (8 * size lane)
mmio_read-mmio_write lane d base addr ctx val at v =
    let q = put lane val (ctx.transport.mem (4 * d)) in
    let e : Endpoint = record (ctx.transport) { mem = update ctx.transport.mem (4 * d) q } in
    let here : e.mem (4 * d) ≡ q = rw (==_self (4 * d)) refl in
    rw (mmio_write_lem lane d base addr at ctx val) (
      ap (λ r. r.0)
        (mmio_read_lem lane d base addr at (after ctx e)
          (subst AreBytes (sym here) (put-AreBytes lane val (ctx.transport.mem (4 * d)) v)))
      ∙ ap (get lane) here
      ∙ get-put lane val (ctx.transport.mem (4 * d)))
