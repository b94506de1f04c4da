-- ===== src/Circular.antt =====
-- A circular buffer of `cap` slots, seen through a function that reads a slot: the queue held by
-- the `n` slots from index `h` on. Three parts of the program keep such a buffer.
pub mod Array
use qemu_vcs.Base.{
  ℕ, zero, suc, ◌+◌, ◌-◌, ◌%◌, ◌≤◌, ◌<◌, ◌≡◌, ◌≢◌, refl, ap, ap₂, ◌∙◌, List, [], ◌∷◌, ◌++◌, arith,
  length, length-append, leb, if◌then◌else◌,
}
use native.Mathlib.Nat.{mod-eq_of_lt, mod-eq-sub-mod, add-zero, mod-add-mod}

-- Slots between a read index and a write index.
abbrev pub gap : ℕ → ℕ → ℕ → ℕ
gap cap h t = if leb h t then t - h else (cap - h) + t

pub wrap_low : (cap i : ℕ) → i < cap → i % cap ≡ i
wrap_low cap i h = mod-eq_of_lt h

pub wrap_high : (cap i : ℕ) → cap ≤ i → i < cap + cap → i % cap ≡ i - cap
wrap_high cap i p q =
    mod-eq-sub-mod {n = i} {m = cap} p ∙ mod-eq_of_lt {n = i - cap} {m = cap} (omega arith)

module _ {ℓ} {A : Type ℓ} where
  abbrev pub window : (ℕ → A) → ℕ → ℕ → ℕ → List A
  window read cap h zero = []
  window read cap h (suc n) = window read cap h n ++ (read ((h + n) % cap) ∷ [])

  pub length-window : (read : ℕ → A) (cap h n : ℕ) → length (window read cap h n) ≡ n
  length-window read cap h zero = refl
  length-window read cap h (suc n) = omega (
    arith,
    length-append (window read cap h n) (read ((h + n) % cap) ∷ []),
    length-window read cap h n,
  )

  -- The oldest item comes first.
  pub window-cons :
      (read : ℕ → A) (cap h n : ℕ)
      → h < cap
      → window read cap h (suc n) ≡ read h ∷ window read cap ((h + 1) % cap) n
  window-cons read cap h zero p = rw (add-zero, wrap_low cap h p) refl
  window-cons read cap h (suc n) p =
      ap₂ (λ (l : List A) (i : ℕ). l ++ (read i ∷ [])) (window-cons read cap h n p) shift
    where
      shift : (h + suc n) % cap ≡ ((h + 1) % cap + n) % cap
      shift = rw mod-add-mod (ap (λ k. k % cap) (omega arith))

  -- Two memories that agree on the slots in use hold the same queue.
  pub window_ext :
      (read read' : ℕ → A) (cap h n : ℕ)
      → ((i : ℕ) → i < n → read' ((h + i) % cap) ≡ read ((h + i) % cap))
      → window read' cap h n ≡ window read cap h n
  window_ext read read' cap h zero same = refl
  window_ext read read' cap h (suc n) same =
      ap₂ (λ (l : List A) (a : A). l ++ (a ∷ []))
        (window_ext read read' cap h n (λ i lt. same i (omega arith))) (same n (omega arith))

module _ {cap h t : ℕ} (hh : h < cap) (tt : t < cap) where
  pub gap-lt : gap cap h t < cap
  gap-lt = ground arith

  -- The write index is as many slots after the read index as there are items.
  pub gap_reaches : (h + gap cap h t) % cap ≡ t
  gap_reaches = ground (arith, wrap_low cap t, wrap_high cap (cap + t))

  -- A slot in use is not the slot at the write index.
  pub slot_in_use_ne : (i : ℕ) → i < gap cap h t → (h + i) % cap ≢ t
  slot_in_use_ne i lt e = ground (arith, wrap_low cap (h + i), wrap_high cap (h + i))

  -- The buffer is full exactly when one slot is left over.
  pub full_gap : (t + 1) % cap ≡ h → gap cap h t + 1 ≡ cap
  full_gap e = ground (arith, wrap_low cap (t + 1), wrap_high cap (t + 1))

  pub gap_write : (t + 1) % cap ≢ h → gap cap h ((t + 1) % cap) ≡ gap cap h t + 1
  gap_write ne = ground (arith, wrap_low cap (t + 1), wrap_high cap (t + 1))

  pub gap_read : h ≢ t → gap cap ((h + 1) % cap) t + 1 ≡ gap cap h t
  gap_read ne = ground (arith, wrap_low cap (h + 1), wrap_high cap (h + 1))

  pub gap_empty : h ≡ t → gap cap h t ≡ 0
  gap_empty e = ground arith

  pub gap_pos : h ≢ t → 0 < gap cap h t
  gap_pos ne = ground arith
