-- ===== src/Tests/Functions.antt =====
-- A function with one BAR and an MSI capability, and a fabric of two physical functions.
use qemu_vcs.Base.{
  ℕ, ◌+◌, ◌*◌, ◌≡◌, ◌≤◌, refl, some, none, true, false, [], ◌∷◌, arith, replicate, if◌then◌else◌,
  ◌==◌,
}
use qemu_vcs.Messages.SyncType
use qemu_vcs.Qemu.{
  TlpTransport, Bridge, send_tlp_and_wait, send_tlp, put_tlp, wait_completion, wait_loop,
}
use qemu_vcs.Device.Mmio.{all_ones}
use qemu_vcs.Device.Config.{LocalConfig, RcConfig, Bdf, entry_of, probe_req}
use qemu_vcs.Device.Config.Silent.{session, reads, writes, unknown_function}
use qemu_vcs.Device.Pf.{vf_bdf}
use qemu_vcs.Device.Routes.Vfs.{vf_bdf-Apart}
use qemu_vcs.Device.Discover.{query_bar_size}
use qemu_vcs.Device.Discover.Space.{Space, function_of}
use qemu_vcs.Device.Discover.Sizes.{query_bar_size_lem}

-- A simulator that completes nothing, and counts the TLPs.
abbrev deaf : TlpTransport ℕ
deaf = record {
  send_tlp = λ n req. (true, n + 1);
  send_sync = λ n m. (true, n);
  recv_sync = λ n. (some (record { kind = SyncType.cpl_ready; payload = 0 }), n);
  recv_cpl = λ n. (none, n);
  recv_topology = λ n. (none, n);
}

abbrev no_config : LocalConfig ℕ
no_config = record { read = λ l a n. 0; write = λ l a v n. l + 1; active_vfs = λ l. 0 }

abbrev slot : Bdf
slot = record { bus = 0; dev = 3; func = 1 }

abbrev deaf_bridge : Bridge ℕ
deaf_bridge = record { transport = 0; next_tag = 0; tag_mask = 1023 }

abbrev fresh : RcConfig ℕ ℕ
fresh = record {
  bridge = some deaf_bridge;
  local = 0;
  bdf_cache = λ f. record { vendor_id = 0; probed = false; valid = false };
}

no_answer : (entry_of (send_tlp_and_wait deaf deaf_bridge (probe_req slot)).0).valid ≡ false
unfolding entry_of send_tlp_and_wait send_tlp put_tlp wait_completion wait_loop
no_answer = refl

unknown_function_example :
    let end = session no_config deaf fresh slot (reads 8 4 ∷ writes 4 7 2 ∷ reads 0 2 ∷ []) in
    (end.0 ≡ replicate 2 all_ones)
    × (end.1.bridge ≡ some (send_tlp_and_wait deaf deaf_bridge (probe_req slot)).1)
unknown_function_example =
    unknown_function no_config deaf (writes 4 7 2 ∷ reads 0 2 ∷ []) fresh slot 8 4 deaf_bridge refl
      refl refl no_answer

-- The second virtual functions of two physical ones, at 0x0104 and 0x0105.
abbrev pf0 : ℕ
pf0 = 0

abbrev vf1 : ℕ
vf1 = 1

second_vf : vf_bdf 2 (0x0100 + pf0) vf1 ≡ 0x0104
unfolding vf_bdf
second_vf = refl

vf_bdf-Apart_example : ((pf0 ≡ pf0) × (vf1 ≡ vf1)) × (0x0100 + 2 ≤ vf_bdf 2 (0x0100 + pf0) vf1)
vf_bdf-Apart_example =
    vf_bdf-Apart 0x0100 2 (omega arith) 0 0 1 1 (omega arith) (omega arith) (omega arith)
      (omega arith) refl

-- BAR 1 has 64 KiB; an MSI capability at 0x40 allows eight vectors.
abbrev registers : ℕ → ℕ
registers reg =
    if reg == 0x14
    then 0xFE010000
    else (if reg == 0x04
        then 0x00100000
        else (if reg == 0x34 then 0x40 else (if reg == 0x40 then 0x00060005 else 0)))

abbrev written : ℕ → ℕ → ℕ
written reg val = if reg == 0x14 then (if val == 0xFFFFFFFF then 0xFFFF0000 else val) else val

abbrev function_bridge : Bridge Space
function_bridge = record {
  transport = record { regs = registers; answer = none };
  next_tag = 3;
  tag_mask = 1023;
}

query_bar_size_example :
    ((query_bar_size (function_of written) function_bridge 1).0 ≡ 16 * 4096)
    × ((a : ℕ)
        → (query_bar_size (function_of written) function_bridge 1).1.transport.regs a ≡ registers a)
query_bar_size_example =
    query_bar_size_lem written function_bridge 1 4096 0 (omega arith) (omega arith) (omega arith)
      (omega arith) (omega arith) refl refl
