-- ===== src/Circular/Array.antt =====
-- A circular buffer whose slots are an array: what a write at index `t` and a read at index `h`
-- do to the queue that it holds.
use qemu_vcs.Base.{
  ℕ, suc, ◌+◌, ◌-◌, ◌%◌, ◌≤◌, ◌<◌, ◌≡◌, ◌≢◌, sym, ap, ap₂, ◌∙◌, List, [], ◌∷◌, ◌++◌, arith, length,
  get_or, set, get_or-set_self, get_or-set_ne,
}
use qemu_vcs.Circular.{
  gap, window, window-cons, window_ext, length-window, gap_reaches, gap-lt, slot_in_use_ne,
  full_gap, gap_write, gap_read, gap_empty,
}

module _ {ℓ} {A : Type ℓ} (d : A) where
  abbrev pub held : List A → ℕ → ℕ → ℕ → List A
  held slots cap h t = window (λ i. get_or slots i d) cap h (gap cap h t)

  pub length-held : (slots : List A) (cap h t : ℕ) → length (held slots cap h t) ≡ gap cap h t
  length-held slots cap h t = length-window (λ i. get_or slots i d) cap h (gap cap h t)

  module _ (slots : List A) {cap h t : ℕ} (hh : h < cap) (tt : t < cap) where
    pub held_empty : h ≡ t → held slots cap h t ≡ []
    held_empty e = ap (λ n. window (λ i. get_or slots i d) cap h n) (gap_empty hh tt e)

    pub held_full : (t + 1) % cap ≡ h → length (held slots cap h t) ≡ cap - 1
    held_full e = omega (arith, length-held slots cap h t, full_gap hh tt e)

    pub held_room : (t + 1) % cap ≢ h → length (held slots cap h t) < cap - 1
    held_room ne =
        let bound = gap-lt {cap = cap} {h = h} {t = (t + 1) % cap} hh (omega arith) in
        omega (arith, length-held slots cap h t, gap_write hh tt ne, bound)

    pub held_push :
        (x : A)
        → cap ≤ length slots
        → (t + 1) % cap ≢ h
        → held (set slots t x) cap h ((t + 1) % cap) ≡ held slots cap h t ++ (x ∷ [])
    held_push x fits ne =
        ap (λ n. window (λ i. get_or (set slots t x) i d) cap h n) one_more
        ∙ ap₂ (λ l a. l ++ (a ∷ []))
            (window_ext (λ i. get_or slots i d) (λ i. get_or (set slots t x) i d) cap h
              (gap cap h t)
              (λ i lt.
                get_or-set_ne slots t ((h + i) % cap) x d (λ e. slot_in_use_ne hh tt i lt (sym e))))
            (ap (λ i. get_or (set slots t x) i d) (gap_reaches hh tt)
              ∙ get_or-set_self slots t x d (omega arith))
      where
        one_more : gap cap h ((t + 1) % cap) ≡ suc (gap cap h t)
        one_more = omega (arith, gap_write hh tt ne)

    pub held_pop : h ≢ t → held slots cap h t ≡ get_or slots h d ∷ held slots cap ((h + 1) % cap) t
    held_pop ne =
        ap (λ n. window (λ i. get_or slots i d) cap h n) (sym less)
        ∙ window-cons (λ i. get_or slots i d) cap h (gap cap ((h + 1) % cap) t) hh
      where
        less : suc (gap cap ((h + 1) % cap) t) ≡ gap cap h t
        less = omega (arith, gap_read hh tt ne)
