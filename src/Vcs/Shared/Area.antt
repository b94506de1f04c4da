-- ===== src/Vcs/Shared/Area.antt =====
-- Where the DMA functions of bridge/vcs/bridge_vcs.c place transfers over the shared memory.
use qemu_vcs.Base.{
  ℕ, ◌+◌, ◌*◌, ◌/◌, ◌%◌, ◌≤◌, ◌≡◌, refl, sym, ap, ◌∙◌, List, arith, length, u32, ltb, Option, none,
  some, read_at, write_at, inl, inr, Bool-cases, read_at-write_at_self, length-write_at,
}
use mathlib.Core.Option
use qemu_vcs.Base.Bits.{bit_and_align}
use qemu_vcs.Messages.{DmaReq, dir_write}
use qemu_vcs.Ring.{Ring, enqueue}
use qemu_vcs.Tcp.Structs.{dma_req_bytes}
use qemu_vcs.Shm.{Shm}
use qemu_vcs.Shm.Channels.{send_dma_req, set_dma_req}
use qemu_vcs.Vcs.Shared.{
  Statics, area_size, aligned_len, place, request_at, submitted, past_area, enqueued, submit_write,
}

-- The next transfer starts within the DMA area, at a multiple of 64.
pub record IsPlaced (v : Statics) : Type 0 where
  pub within : v.bump ≤ area_size
  pub on_grid : v.bump % 64 ≡ 0

aligned_value : (len : ℕ) → len ≤ area_size → aligned_len len ≡ (len + 63) / 64 * 64
unfolding aligned_len
aligned_value len h =
    let small : u32 (len + 63) ≡ len + 63 = omega arith in
    rw small (bit_and_align (len + 63) (omega arith))

-- A transfer that is not larger than the DMA area is placed within it, at a multiple of 64, and
-- what comes next too.
pub place-IsPlaced :
    (v : Statics) (len : ℕ)
    → IsPlaced v
    → len ≤ area_size
    → ((place v len).0 % 64 ≡ 0) × ((place v len).0 + len ≤ area_size) × IsPlaced (place v len).1
unfolding place
place-IsPlaced v len p h =
    let size = aligned_value len h in
    elim (Bool-cases (ltb area_size (u32 (v.bump + aligned_len len)))) [
      | inl wraps ↦ rw wraps (
        refl,
        omega arith,
        record { within = omega (arith, size); on_grid = omega (arith, size) },
      )
      | inr room ↦
          let fits : u32 (v.bump + aligned_len len) ≤ area_size = ground arith in
          rw room (
            p.on_grid,
            omega (arith, size, p.within, fits),
            record { within = fits; on_grid = omega (arith, size, p.within, p.on_grid) },
          )
    ]

put_keeps :
    (s : Shm) (o : Option Ring) {s' : Shm}
    → Option.map (set_dma_req s) o ≡ some s'
    → s'.dma_buf ≡ s.dma_buf
put_keeps s none e = absurd cc
put_keeps s (some r) {s'} e = let same : set_dma_req s r ≡ s' = cc in ap (λ x. x.dma_buf) (sym same)

send_dma_req_keeps :
    (s : Shm) (x : DmaReq) {s' : Shm} → send_dma_req s x ≡ some s' → s'.dma_buf ≡ s.dma_buf
unfolding send_dma_req
send_dma_req_keeps s x e = put_keeps s (enqueue s.dma_req_ring (dma_req_bytes x)) e

place_same : (v w : Statics) (n m : ℕ) → v.bump ≡ w.bump → n ≡ m → (place v n).0 ≡ (place w m).0
unfolding place
place_same v w n m e e' = rw (e, e') refl

of_enqueued :
    (o : ℕ) (s : Shm) (sent : Option Shm) {offset : ℕ} {s' : Shm}
    → enqueued o s sent ≡ submitted offset s'
    → (o ≡ offset) × (sent ≡ some s')
of_enqueued o s none e = absurd cc
of_enqueued o s (some s1) e = (cc, cc)

-- What a write leaves: its offset, and its bytes there.
submit_write_lem :
    (v : Statics) (host_addr : ℕ) (buf : List ℕ) (s : Shm) {offset : ℕ} {s' : Shm}
    → length s.dma_buf ≡ area_size
    → submit_write v host_addr buf s ≡ submitted offset s'
    → ((offset ≡ (place v (length buf)).0) × (read_at s'.dma_buf offset (length buf) ≡ buf))
      × (length s'.dma_buf ≡ area_size)
unfolding submit_write
submit_write_lem v host_addr buf s {offset} {s'} sized e =
    let o = (place v (length buf)).0 in
    let s1 = record s { dma_buf = write_at s.dma_buf o buf } in
    let sent = send_dma_req s1 (request_at v.next_tag dir_write host_addr (length buf) o) in
    elim (Bool-cases (ltb area_size (o + length buf))) [
      | inl over ↦
          let nothing : submit_write v host_addr buf s ≡ past_area = rw over refl in absurd cc
      | inr fits ↦
          let put : submit_write v host_addr buf s ≡ enqueued o s1 sent = rw fits refl in
          let ends = of_enqueued o s1 sent (sym put ∙ e) in
          let kept =
            send_dma_req_keeps s1 (request_at v.next_tag dir_write host_addr (length buf) o)
              ends.1 in
          let inside : o + length buf ≤ length s.dma_buf = ground (arith, sized) in
          (
            (sym ends.0, rw (kept, sym ends.0) (read_at-write_at_self s.dma_buf o buf inside)),
            rw kept (length-write_at s.dma_buf o buf ∙ sized),
          )
    ]

-- The DMA functions share one area but not the place in it: where the variables of two functions
-- agree, the bytes of a write that has been submitted are lost when another of the same length is
-- submitted before the emulator takes them.
pub submit_write_overwrites :
    (v w : Statics) (addr1 addr2 : ℕ) (first second : List ℕ) (s s1 s2 : Shm) {o1 o2 : ℕ}
    → length s.dma_buf ≡ area_size
    → v.bump ≡ w.bump
    → length first ≡ length second
    → submit_write v addr1 first s ≡ submitted o1 s1
    → submit_write w addr2 second s1 ≡ submitted o2 s2
    → (read_at s1.dma_buf o1 (length first) ≡ first)
      × (read_at s2.dma_buf o1 (length first) ≡ second)
submit_write_overwrites v w addr1 addr2 first second s s1 s2 {o1} {o2} sized same lengths e1 e2 =
    let one = submit_write_lem v addr1 first s sized e1 in
    let two = submit_write_lem w addr2 second s1 one.1 e2 in
    let there : o2 ≡ o1 =
      two.0.0 ∙ sym (place_same v w (length first) (length second) same lengths) ∙ sym one.0.0 in
    (one.0.1, rw (lengths, sym there) two.0.1)
