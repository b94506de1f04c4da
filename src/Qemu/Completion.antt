-- ===== src/Qemu/Completion.antt =====
-- The waiting for completions in bridge/qemu/bridge_qemu.c.
use qemu_vcs.Base.{
  ℕ, zero, suc, ◌<◌, ◌≡◌, ◌≢◌, refl, true, false, Option, none, some, List, [], ◌∷◌, ◌++◌, arith,
  length, map, ◌==◌, ◌+◌, bit_and, ap,
}
use qemu_vcs.Messages.{SyncMsg, Tlp, Cpl, Topology}
use qemu_vcs.Messages.SyncType
use qemu_vcs.Qemu.{
  TlpTransport, Bridge, put_tlp, send_tlp, wait_loop, wait_completion, send_tlp_and_wait,
}

-- The channels to and from the simulator, which lose nothing: the TLPs sent, and the completions
-- to come, each announced on the control channel.
pub record Link : Type 0 where
  pub sent : List Tlp
  pub notices : List SyncMsg
  pub incoming : List SyncMsg
  pub completions : List Cpl
  pub topology : Option Topology

unfoldable pub next_notice : Link → List SyncMsg → Option SyncMsg × Link
next_notice l [] = (none, l)
next_notice l (m ∷ ms) = (some m, record l { incoming = ms })

unfoldable pub next_completion : Link → List Cpl → Option Cpl × Link
next_completion l [] = (none, l)
next_completion l (c ∷ cs) = (some c, record l { completions = cs })

abbrev pub link : TlpTransport Link
link = record {
  send_tlp = λ l req. (true, record l { sent = l.sent ++ (req ∷ []) });
  send_sync = λ l m. (true, record l { notices = l.notices ++ (m ∷ []) });
  recv_sync = λ l. next_notice l l.incoming;
  recv_cpl = λ l. next_completion l l.completions;
  recv_topology = λ l. (l.topology, l);
}

abbrev pub notice : Cpl → SyncMsg
notice c = record { kind = SyncType.cpl_ready; payload = 0 }

abbrev pub coming : Link → List Cpl → Link
coming l cs = record l { incoming = map notice cs; completions = cs }

abbrev pub AllOther : ℕ → List Cpl → Type 0
AllOther tag [] = Unit
AllOther tag (c ∷ cs) = (c.tag ≢ tag) × AllOther tag cs

wait_loop_own :
    (guard tag : ℕ) (stale : List Cpl) (own : Cpl) (later : List Cpl) (l : Link)
    → AllOther tag stale
    → own.tag ≡ tag
    → length stale < guard
    → wait_loop link guard tag (coming l (stale ++ (own ∷ later))) ≡ (some own, coming l later)
unfolding wait_loop next_notice next_completion
wait_loop_own zero tag stale own later l other mine h = absurd (omega arith)
wait_loop_own (suc guard) tag [] own later l other mine h =
    let test : (own.tag == tag) ≡ true = ground arith in rw (wait_loop, test) refl
wait_loop_own (suc guard) tag (c ∷ stale) own later l (first, other) mine h =
    let test : (c.tag == tag) ≡ false = ground arith in
    rw (wait_loop, test) (wait_loop_own guard tag stale own later l other mine (omega arith))

-- The channels after a TLP was sent.
abbrev pub after_send : Link → Tlp → Link
after_send l req = record l {
  sent = l.sent ++ (req ∷ []);
  notices = l.notices ++ (record { kind = SyncType.tlp_ready; payload = 0 } ∷ []);
}

abbrev pub tag_of : Bridge Link → ℕ
tag_of ctx = bit_and ctx.next_tag ctx.tag_mask

-- A TLP goes out with the bridge's next tag, and its sender gets the completion of that tag, at
-- most 255 completions that nobody waits for being dropped before it; the later ones stay. The
-- next tag is the one after it, under the mask.
pub send_tlp_and_wait_own :
    (req : Tlp) (stale : List Cpl) (own : Cpl) (later : List Cpl) (l : Link) (ctx : Bridge Link)
    → ctx.transport ≡ coming l (stale ++ (own ∷ later))
    → AllOther (tag_of ctx) stale
    → own.tag ≡ tag_of ctx
    → length stale < 256
    → send_tlp_and_wait link ctx req ≡ (
      some own,
      record {
        transport = coming (after_send l (record req { tag = tag_of ctx })) later;
        next_tag = bit_and (ctx.next_tag + 1) ctx.tag_mask;
        tag_mask = ctx.tag_mask;
      },
    )
unfolding send_tlp_and_wait send_tlp put_tlp wait_completion
send_tlp_and_wait_own req stale own later l ctx e other mine few = rw e (
    ap
      (λ x.
        (x.0, record ctx { transport = x.1; next_tag = bit_and (ctx.next_tag + 1) ctx.tag_mask }))
      (wait_loop_own 256 (tag_of ctx) stale own later
        (after_send l (record req { tag = tag_of ctx })) other mine few))
