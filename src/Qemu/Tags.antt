-- ===== src/Qemu/Tags.antt =====
-- The tags that bridge/qemu/bridge_qemu.c gives to the TLPs it sends.
use qemu_vcs.Base.{
  ℕ, ◌+◌, ◌%◌, ◌-◌, ◌^◌, ◌<◌, ◌≤◌, ◌≡◌, ◌≢◌, ap, ◌∙◌, ◌⊎◌, inl, inr, List, [], ◌∷◌, length, ltb,
  Bool-cases, arith, bit_and,
}
use qemu_vcs.Base.Bits.{bit_and_mask}
use native.Mathlib.Nat.{mod-eq_of_lt, mod_self}
use qemu_vcs.Messages.{Tlp}
use qemu_vcs.Qemu.{TlpTransport, Bridge, send_tlp}

abbrev pub AllApart : ℕ → List ℕ → Type 0
AllApart x [] = Unit
AllApart x (y ∷ ys) = (x ≢ y) × AllApart x ys

-- No two of the tags are equal.
abbrev pub Apart : List ℕ → Type 0
Apart [] = Unit
Apart (x ∷ xs) = AllApart x xs × Apart xs

-- `next` is `d` steps behind `x` on a circle of `m` tags.
abbrev Behind : ℕ → ℕ → ℕ → ℕ → Type 0
Behind m x d next = (next < m) × ((next ≡ x + d) ⊎ (next + m ≡ x + d))

next-Behind : (m x d n : ℕ) → Behind m x d n → x < m → d < m → Behind m x (d + 1) ((n + 1) % m)
next-Behind m x d n (below, at) on small = elim (Bool-cases (ltb (n + 1) m)) [
  | inl inside ↦ let same : (n + 1) % m ≡ n + 1 = mod-eq_of_lt (ground arith) in ground arith
  | inr outside ↦
      let round : n + 1 ≡ m = ground arith in
      let same : (n + 1) % m ≡ 0 = ap (λ t. t % m) round ∙ mod_self m in ground arith
]

masked : (k n mask : ℕ) → mask ≡ 2 ^ k - 1 → bit_and n mask ≡ n % 2 ^ k
masked k n mask e = ap (bit_and n) e ∙ bit_and_mask k n

kept : (k n mask : ℕ) → mask ≡ 2 ^ k - 1 → n < 2 ^ k → bit_and n mask ≡ n
kept k n mask e h = masked k n mask e ∙ mod-eq_of_lt h

next-Behind_masked :
    (k x d n mask : ℕ)
    → mask ≡ 2 ^ k - 1
    → Behind (2 ^ k) x d n
    → x < 2 ^ k
    → d < 2 ^ k
    → Behind (2 ^ k) x (d + 1) (bit_and (n + 1) mask)
next-Behind_masked k x d n mask e at on small =
    rw (masked k (n + 1) mask e) (next-Behind (2 ^ k) x d n at on small)

module _ {T : Type 0} (ops : TlpTransport T) where
  -- The tags of a run of TLPs, one call of `bridge_send_tlp` after the other.
  unfoldable pub sent_tags : Bridge T → List Tlp → List ℕ
  unfolding send_tlp
  sent_tags ctx [] = []
  sent_tags ctx (req ∷ reqs) =
      let (sent, req', ctx') = send_tlp ops ctx req in req'.tag ∷ sent_tags ctx' reqs

  sent_tags-AllApart :
      (k x d : ℕ) (ctx : Bridge T) (reqs : List Tlp)
      → x < 2 ^ k
      → ctx.tag_mask ≡ 2 ^ k - 1
      → Behind (2 ^ k) x d ctx.next_tag
      → 0 < d
      → d + length reqs ≤ 2 ^ k
      → AllApart x (sent_tags ctx reqs)
  unfolding sent_tags send_tlp
  sent_tags-AllApart k x d ctx [] small mask at far fits = tt
  sent_tags-AllApart k x d ctx (req ∷ reqs) small mask (below, at) far fits = (
    (λ e. let tag = kept k ctx.next_tag ctx.tag_mask mask below in ground arith),
    sent_tags-AllApart k x (d + 1) _ reqs small mask
        (next-Behind_masked k x d ctx.next_tag ctx.tag_mask mask (below, at) small (omega arith))
        (omega arith) (omega arith),
  )

  -- The tags of as many TLPs in a row as a mask 2 ^ k - 1 allows are pairwise different.
  pub sent_tags-Apart :
      (k : ℕ) (reqs : List Tlp) (ctx : Bridge T)
      → ctx.tag_mask ≡ 2 ^ k - 1
      → ctx.next_tag < 2 ^ k
      → length reqs ≤ 2 ^ k
      → Apart (sent_tags ctx reqs)
  unfolding sent_tags send_tlp
  sent_tags-Apart k [] ctx mask small fits = tt
  sent_tags-Apart k (req ∷ reqs) ctx mask small fits =
      let tag = kept k ctx.next_tag ctx.tag_mask mask small in
      let after =
        next-Behind_masked k ctx.next_tag 0 ctx.next_tag ctx.tag_mask mask
          (small, inl (omega arith)) small (omega arith) in
      rw tag (
        sent_tags-AllApart k ctx.next_tag 1 _ reqs small mask after (omega arith) (omega arith),
        sent_tags-Apart k reqs _ mask after.0 (omega arith),
      )
