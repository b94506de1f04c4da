-- ===== src/Device/Discover/Space.antt =====
-- The discovery of qemu-plugin/cosim_pcie_rc.c on a function with registers.
use qemu_vcs.Base.{
  ℕ, suc, ◌+◌, ◌-◌, ◌%◌, ◌^◌, ◌<◌, ◌≡◌, refl, ap, ◌∙◌, Option, none, some, true, if◌then◌else◌,
  ◌==◌, bit_and, arith,
}
use qemu_vcs.Messages.{Tlp, Cpl}
use qemu_vcs.Messages.SyncType
use qemu_vcs.Qemu.{
  TlpTransport, Bridge, send_tlp_and_wait, send_tlp_fire, send_tlp, put_tlp, wait_completion,
  wait_loop,
}
use qemu_vcs.Tcp.Codec.{le32, from_le, from_le-le32}
use qemu_vcs.Device.Mmio
use qemu_vcs.Device.Mmio.{dword_of}
use qemu_vcs.Device.Mmio.Endpoint.{completes}
use qemu_vcs.Device.Discover.{reg_read_req, reg_write_req, read_reg, write_reg, value_of}

-- A wait that the first completion ends.
module _ {T : Type 0} (ops : TlpTransport T) where
  pub wait_once :
      (n tag : ℕ) (t t1 t2 : T) (c : Cpl)
      → ops.recv_sync t ≡ (some (record { kind = SyncType.cpl_ready; payload = 0 }), t1)
      → ops.recv_cpl t1 ≡ (some c, t2)
      → c.tag ≡ tag
      → wait_loop ops (suc n) tag t ≡ (some c, t2)
  unfolding wait_loop
  wait_once n tag t t1 t2 c e1 e2 own =
      let e3 : ops.recv_cpl (ops.recv_sync t).1 ≡ (some c, t2) =
        ap (λ r. ops.recv_cpl r.1) e1 ∙ e2 in
      let test : (c.tag == tag) ≡ true = ground arith in
      rw (wait_loop, ap (λ r. r.0) e1, ap (λ r. r.0) e3, test) (ap (λ r. (some c, r.1)) e3)

-- The registers of a function, and the completion that waits.
pub record Space : Type 0 where
  pub regs : ℕ → ℕ
  pub answer : Option Cpl

abbrev pub update : (ℕ → ℕ) → ℕ → ℕ → ℕ → ℕ
update regs reg val = λ a. if a == reg then val else regs a

dword_of-le32 : (req : Tlp) (v : ℕ) → v < 2 ^ 32 → dword_of (completes req (le32 v)) ≡ v
unfolding dword_of le32
dword_of-le32 req v small = from_le-le32 v small

-- What a write of a value leaves in a register depends on the function.
module _ (keeps : ℕ → ℕ → ℕ) where
  unfoldable pub accept : Space → Tlp → Space
  accept s req =
      if req.type == Mmio.cfgrd
      then record s { answer = some (completes req (le32 (s.regs req.addr))) }
      else (if req.type == Mmio.cfgwr
          then record s { regs = update s.regs req.addr (keeps req.addr (from_le req.data_bytes)) }
          else s)

  abbrev pub function_of : TlpTransport Space
  function_of = record {
    send_tlp = λ s req. (true, accept s req);
    send_sync = λ s m. (true, s);
    recv_sync = λ s. (some (record { kind = SyncType.cpl_ready; payload = 0 }), s);
    recv_cpl = λ s. (s.answer, record s { answer = none });
    recv_topology = λ s. (none, s);
  }

  -- The bridge after a TLP, on a function in a given state.
  abbrev pub after : Bridge Space → Space → Bridge Space
  after ctx s = record {
    transport = s;
    next_tag = bit_and (ctx.next_tag + 1) ctx.tag_mask;
    tag_mask = ctx.tag_mask;
  }

  exchange :
      (ctx : Bridge Space) (reg : ℕ)
      → send_tlp_and_wait function_of ctx (reg_read_req reg) ≡ (
        some (
            completes
              (record (reg_read_req reg) { tag = bit_and ctx.next_tag ctx.tag_mask })
              (le32 (ctx.transport.regs (reg - reg % 4)))),
        after ctx (record { regs = ctx.transport.regs; answer = none }),
      )
  unfolding send_tlp_and_wait send_tlp put_tlp wait_completion accept reg_read_req
  exchange ctx reg =
      let req = record (reg_read_req reg) { tag = bit_and ctx.next_tag ctx.tag_mask } in
      let c = completes req (le32 (ctx.transport.regs (reg - reg % 4))) in
      let s = record (ctx.transport) { answer = some c } in
      ap (λ r. (r.0, after ctx r.1))
        (wait_once function_of 255 (bit_and ctx.next_tag ctx.tag_mask) s s
          (record { regs = ctx.transport.regs; answer = none }) c refl refl refl)

  pub read_value :
      (ctx : Bridge Space) (reg : ℕ)
      → reg % 4 ≡ 0
      → ctx.transport.regs reg < 2 ^ 32
      → read_reg function_of ctx reg
        ≡ (ctx.transport.regs reg, after ctx (record { regs = ctx.transport.regs; answer = none }))
  unfolding read_reg
  read_value ctx reg aligned small =
      let low : reg - reg % 4 ≡ reg = omega arith in
      let req = record (reg_read_req reg) { tag = bit_and ctx.next_tag ctx.tag_mask } in
      let ctx' = after ctx (record { regs = ctx.transport.regs; answer = none }) in
      ap (value_of function_of) (exchange ctx reg)
      ∙ ap (λ a. (dword_of (completes req (le32 (ctx.transport.regs a))), ctx')) low
      ∙ ap (λ v. (v, ctx')) (dword_of-le32 req (ctx.transport.regs reg) small)

  pub write_value :
      (ctx : Bridge Space) (reg val : ℕ)
      → val < 2 ^ 32
      → write_reg function_of ctx reg val
        ≡ after ctx
            (record (ctx.transport) { regs = update ctx.transport.regs reg (keeps reg val) })
  unfolding write_reg send_tlp_fire send_tlp put_tlp accept reg_write_req
  write_value ctx reg val small =
      ap
        (λ v.
          after ctx (record (ctx.transport) { regs = update ctx.transport.regs reg (keeps reg v) }))
        (from_le-le32 val small)
