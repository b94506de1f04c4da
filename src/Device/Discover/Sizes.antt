-- ===== src/Device/Discover/Sizes.antt =====
-- The discovery of qemu-plugin/cosim_pcie_rc.c finds the sizes and the capabilities of a function.
use qemu_vcs.Base.{
  ℕ, zero, suc, ◌+◌, ◌-◌, ◌*◌, ◌/◌, ◌%◌, ◌^◌, ◌≤◌, ◌<◌, ◌≡◌, ◌≢◌, refl, sym, ap, ◌∙◌, Option, none,
  true, false, List, [], ◌∷◌, length, if◌then◌else◌, ◌==◌, ◌||◌, bit_and, arith, ==_self,
  Bool-cases, inl, inr, ==_iff, u8, u32,
}
use qemu_vcs.Qemu.{TlpTransport, Bridge}
use qemu_vcs.Device.Discover.{
  next_cap, note_cap, read_reg, write_reg, query_bar_size, caps_loop, discover_caps, max_caps,
}
use qemu_vcs.Device.Discover.Space.{Space, update, function_of, after, read_value, write_value}

-- The calls of the two functions, in order, on any transport.
module _ {T : Type 0} (ops : TlpTransport T) where
  query_steps :
      (ctx c1 c2 c3 c4 : Bridge T) (bar reg orig mask : ℕ)
      → u32 (0x10 + bar * 4) ≡ reg
      → read_reg ops ctx reg ≡ (orig, c1)
      → write_reg ops c1 reg 0xFFFFFFFF ≡ c2
      → read_reg ops c2 reg ≡ (mask, c3)
      → write_reg ops c3 reg orig ≡ c4
      → query_bar_size ops ctx bar ≡ (
          if (mask == 0) || (mask == 0xFFFFFFFF)
          then (0, c4)
          else (u32 (0xFFFFFFFF - (mask - mask % 16) + 1), c4))
  unfolding query_bar_size
  query_steps ctx c1 c2 c3 c4 bar reg orig mask place e1 e2 e3 e4 = rw (place, e1, e2, e3, e4) refl

  discover_steps :
      (ctx c1 c2 : Bridge T) (status_cmd ptr : ℕ)
      → read_reg ops ctx 0x04 ≡ (status_cmd, c1)
      → read_reg ops c1 0x34 ≡ (ptr, c2)
      → status_cmd / 2 ^ 20 % 2 ≡ 1
      → discover_caps ops ctx ≡ caps_loop ops max_caps c2 (bit_and (u8 ptr) 0xFC) none
  unfolding discover_caps
  discover_steps ctx c1 c2 status_cmd ptr e1 e2 has_caps =
      let test : (status_cmd / 2 ^ 20 % 2 == 1) ≡ true = ground arith in rw (e1, e2, test) refl

  caps_step :
      (ctx c1 : Bridge T) (n p dw : ℕ) (msi : Option (ℕ × ℕ))
      → read_reg ops ctx p ≡ (dw, c1)
      → p ≢ 0
      → caps_loop ops (suc n) ctx p msi ≡ caps_loop ops n c1 (next_cap dw) (note_cap p dw msi)
  unfolding caps_loop
  caps_step ctx c1 n p dw msi e some_p =
      let more : (p == 0) ≡ false = ground arith in rw (caps_loop, more, e) refl

update_back :
    (regs : ℕ → ℕ) (reg x y a : ℕ) → y ≡ regs reg → update (update regs reg x) reg y a ≡ regs a
update_back regs reg x y a e = elim (Bool-cases (a == reg)) [
  | inl same ↦ rw same (e ∙ ap regs (sym ((==_iff a reg).0 same)))
  | inr other ↦ rw other refl
]

-- The register of a BAR.
abbrev pub bar_reg : ℕ → ℕ
bar_reg bar = 0x10 + bar * 4

module _ (keeps : ℕ → ℕ → ℕ) where
  -- The size of a BAR that answers a write of ones with the mask of its size and its type bits is
  -- found, and all registers are as before.
  pub query_bar_size_lem :
      (ctx : Bridge Space) (bar m t : ℕ)
      → bar < 6
      → 1 ≤ m
      → 16 * m < 2 ^ 32
      → t < 15
      → ctx.transport.regs (bar_reg bar) < 2 ^ 32
      → keeps (bar_reg bar) 0xFFFFFFFF ≡ 2 ^ 32 - 16 * m + t
      → keeps (bar_reg bar) (ctx.transport.regs (bar_reg bar)) ≡ ctx.transport.regs (bar_reg bar)
      → ((query_bar_size (function_of keeps) ctx bar).0 ≡ 16 * m)
        × ((a : ℕ)
            → (query_bar_size (function_of keeps) ctx bar).1.transport.regs a
              ≡ ctx.transport.regs a)
  query_bar_size_lem ctx bar m t six some_size below bits small mask restores =
      let reg = 0x10 + bar * 4 in
      let regs = ctx.transport.regs in
      let place : u32 reg ≡ reg = omega arith in
      let c1 = after keeps ctx (record { regs = regs; answer = none }) in
      let ones = update regs reg (keeps reg 0xFFFFFFFF) in
      let c2 = after keeps c1 (record { regs = ones; answer = none }) in
      let c3 = after keeps c2 (record { regs = ones; answer = none }) in
      let v = keeps reg 0xFFFFFFFF in
      let here : ones reg ≡ v = rw (==_self reg) refl in
      let c4 =
        after keeps c3 (record { regs = update ones reg (keeps reg (regs reg)); answer = none }) in
      let again : read_reg (function_of keeps) c2 reg ≡ (v, c3) =
        read_value keeps c2 reg (omega arith) (omega (arith, here, mask))
        ∙ ap (λ x. (x, c3)) here in
      let steps =
        query_steps (function_of keeps) ctx c1 c2 c3 c4 bar reg (regs reg) v place
          (read_value keeps ctx reg (omega arith) small)
          (write_value keeps c1 reg 0xFFFFFFFF (omega arith)) again
          (write_value keeps c3 reg (regs reg) small) in
      let answers : (v == 0) || (v == 0xFFFFFFFF) ≡ false = ground (arith, mask) in
      let size : u32 (0xFFFFFFFF - (v - v % 16) + 1) ≡ 16 * m = omega (arith, mask) in
      let ends : query_bar_size (function_of keeps) ctx bar ≡ (16 * m, c4) =
        steps ∙ rw answers (ap (λ n. (n, c4)) size) in
      (
        ap (λ x. x.0) ends,
        λ a.
            ap (λ x. x.1.transport.regs a) ends
            ∙ update_back regs reg v (keeps reg (regs reg)) a restores,
      )

-- What the capabilities of a list have, the last MSI capability of which counts.
abbrev pub found : (ℕ → ℕ) → List ℕ → Option (ℕ × ℕ) → Option (ℕ × ℕ)
found regs [] msi = msi
found regs (q ∷ qs) msi = found regs qs (note_cap q (regs q) msi)

-- The capabilities that are linked from a pointer on, in order.
abbrev pub Linked : (ℕ → ℕ) → ℕ → List ℕ → Type 0
Linked regs p [] = p ≡ 0
Linked regs p (q ∷ qs) =
    (p ≡ q) × (q ≢ 0) × (q % 4 ≡ 0) × (regs q < 2 ^ 32) × Linked regs (next_cap (regs q)) qs

module _ (keeps : ℕ → ℕ → ℕ) where
  caps_loop-Linked :
      (qs : List ℕ) (n p : ℕ) (ctx : Bridge Space) (msi : Option (ℕ × ℕ))
      → length qs ≤ n
      → Linked ctx.transport.regs p qs
      → (caps_loop (function_of keeps) n ctx p msi).0 ≡ found ctx.transport.regs qs msi
  unfolding caps_loop
  caps_loop-Linked [] zero p ctx msi few e = refl
  caps_loop-Linked [] (suc n) p ctx msi few e =
      let stop : (p == 0) ≡ true = ground arith in rw stop refl
  caps_loop-Linked (q ∷ qs) zero p ctx msi few l = absurd (omega arith)
  caps_loop-Linked (q ∷ qs) (suc n) p ctx msi few (e, some_q, aligned, small, l) =
      let next = after keeps ctx (record { regs = ctx.transport.regs; answer = none }) in
      rw e (
        ap (λ x. x.0)
          (caps_step (function_of keeps) ctx next n q (ctx.transport.regs q) msi
            (read_value keeps ctx q aligned small) some_q)
        ∙ caps_loop-Linked qs n (next_cap (ctx.transport.regs q)) next
            (note_cap q (ctx.transport.regs q) msi) (omega arith) l)

  -- The walk finds what the capabilities of an acyclic list of at most 48 have.
  pub discover_caps-Linked :
      (qs : List ℕ) (ctx : Bridge Space)
      → ctx.transport.regs 0x04 < 2 ^ 32
      → ctx.transport.regs 0x34 < 2 ^ 32
      → ctx.transport.regs 0x04 / 2 ^ 20 % 2 ≡ 1
      → length qs ≤ max_caps
      → Linked ctx.transport.regs (bit_and (u8 (ctx.transport.regs 0x34)) 0xFC) qs
      → (discover_caps (function_of keeps) ctx).0 ≡ found ctx.transport.regs qs none
  discover_caps-Linked qs ctx small_status small_ptr has_caps few l =
      let ctx1 = after keeps ctx (record { regs = ctx.transport.regs; answer = none }) in
      let ctx2 = after keeps ctx1 (record { regs = ctx.transport.regs; answer = none }) in
      ap (λ x. x.0)
        (discover_steps (function_of keeps) ctx ctx1 ctx2 (ctx.transport.regs 0x04)
          (ctx.transport.regs 0x34) (read_value keeps ctx 0x04 refl small_status)
          (read_value keeps ctx1 0x34 refl small_ptr) has_caps)
      ∙ caps_loop-Linked qs max_caps (bit_and (u8 (ctx.transport.regs 0x34)) 0xFC) ctx2 none few l
