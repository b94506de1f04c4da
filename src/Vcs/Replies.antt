-- ===== src/Vcs/Replies.antt =====
-- The completions that bridge/vcs/bridge_vcs.c sends reach the waits of bridge/qemu/bridge_qemu.c.
use qemu_vcs.Base.{
  ℕ, ◌*◌, ◌<◌, ◌≤◌, ◌≡◌, sym, ap, ap₂, ◌∙◌, List, [], ◌∷◌, ◌++◌, some, arith, length, map,
  length-map, map-append, take, take-take, take_within, length-take, replicate, append_assoc,
  append-nil, u16,
}
use qemu_vcs.Messages.{Tlp, Cpl}
use qemu_vcs.Transport.Wires.{Wires, wires}
use qemu_vcs.Vcs.Complete.{completion, send_completion, words_for, data_size}
use qemu_vcs.Qemu.{Bridge, send_tlp_and_wait}
use qemu_vcs.Qemu.Completion.{Link, link, notice, coming, AllOther, tag_of, send_tlp_and_wait_own}

-- A call of `send_completion_ctx`: a tag, the caller's words and a length.
pub record Reply : Type 0 where
  pub tag : ℕ
  pub words : List ℕ
  pub len : ℕ

unfoldable pub cpl_of : Reply → Cpl
unfolding completion
cpl_of r = completion r.tag r.words r.len

-- The calls one after the other.
unfoldable pub reply_all : Wires → List Reply → Wires
unfolding send_completion
reply_all w [] = w
reply_all w (r ∷ rs) = reply_all (send_completion wires w r.tag r.words r.len).1 rs

reply_all_lem :
    (w : Wires) (rs : List Reply)
    → ((reply_all w rs).ctrl_out ≡ w.ctrl_out ++ map notice (map cpl_of rs))
      × ((reply_all w rs).cpl_out ≡ w.cpl_out ++ map cpl_of rs)
unfolding reply_all send_completion cpl_of
reply_all_lem w [] = (sym (append-nil w.ctrl_out), sym (append-nil w.cpl_out))
reply_all_lem w (r ∷ rs) =
    let (ctrl, cpls) = reply_all_lem (send_completion wires w r.tag r.words r.len).1 rs in
    (
      ctrl ∙ append_assoc w.ctrl_out (notice (cpl_of r) ∷ []) (map notice (map cpl_of rs)),
      cpls ∙ append_assoc w.cpl_out (cpl_of r ∷ []) (map cpl_of rs),
    )

-- The channels of the emulator, on which everything has come that the simulator has sent.
abbrev pub connected : Link → Wires → Link
connected l w = record l { incoming = w.ctrl_out; completions = w.cpl_out }

-- The bytes of a completion, up to its length, are those of the caller's words.
completion_data :
    (tag len : ℕ) (words : List ℕ)
    → len ≤ data_size
    → length words ≡ data_size
    → take len (completion tag words len).data_bytes ≡ take len words
unfolding completion words_for
completion_data tag len words short full =
    let n = words_for len * 4 in
    let enough : len ≤ n = ground arith in
    let all : len ≤ length (take n words) = omega (arith, length-take n words) in
    take-take len data_size (take n words ++ replicate data_size 0) short
    ∙ take_within len (take n words) (replicate data_size 0) all
    ∙ take-take len n words enough

-- The emulator's TLP gets the completion that the simulator sent for its tag, with the caller's
-- bytes up to its length, past at most 255 completions of other tags that the simulator sent
-- before; the length is at most 64 and the caller's buffer holds 64 bytes.
pub wait_gets_reply :
    (req : Tlp) (stale : List Reply) (own : Reply) (later : List Reply) (l : Link) (w : Wires)
    (ctx : Bridge Link)
    → w.ctrl_out ≡ []
    → w.cpl_out ≡ []
    → ctx.transport ≡ connected l (reply_all w (stale ++ (own ∷ later)))
    → AllOther (tag_of ctx) (map cpl_of stale)
    → u16 own.tag ≡ tag_of ctx
    → length stale < 256
    → own.len ≤ 64
    → length own.words ≡ 64
    → ((send_tlp_and_wait link ctx req).0 ≡ some (cpl_of own))
      × (take own.len (cpl_of own).data_bytes ≡ take own.len own.words)
unfolding cpl_of
wait_gets_reply req stale own later l w ctx no_ctrl no_cpls e other mine few short full =
    let (ctrl, cpls) = reply_all_lem w (stale ++ (own ∷ later)) in
    let split : map cpl_of (stale ++ (own ∷ later))
        ≡ map cpl_of stale ++ (cpl_of own ∷ map cpl_of later) =
      map-append cpl_of stale (own ∷ later) in
    let on_link : ctx.transport ≡ coming l (map cpl_of stale ++ (cpl_of own ∷ map cpl_of later)) =
      e
      ∙ ap₂ (λ x y. record l { incoming = x; completions = y })
          (ctrl ∙ ap (λ x. x ++ map notice (map cpl_of (stale ++ (own ∷ later)))) no_ctrl)
          (cpls ∙ ap (λ x. x ++ map cpl_of (stale ++ (own ∷ later))) no_cpls)
      ∙ ap (coming l) split in
    (
      ap (λ x. x.0)
          (send_tlp_and_wait_own req (map cpl_of stale) (cpl_of own) (map cpl_of later) l ctx
            on_link other mine (omega (arith, length-map cpl_of stale))),
      completion_data own.tag own.len own.words short full,
    )
