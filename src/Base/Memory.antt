-- ===== src/Base/Memory.antt =====
-- `memcpy` into and out of a region of bytes, at an offset.
use Prim.Native.Nat.{ℕ, zero, suc, ◌+◌, ◌≤◌, ◌<◌}
use mathlib.Core.Path.{◌≡◌, refl, ap₂, ◌∙◌}
use mathlib.Core.Logic.{◌⊎◌, inl, inr}
use mathlib.Core.List.{List, [], ◌∷◌}
use native.Mathlib.Omega.{arith}
use qemu_vcs.Base.Lists.{length, get_or, set, length-set, get_or-set_self, get_or-set_ne}

-- A byte written outside the region is dropped, one read outside is 0; the theorems on each
-- region show that neither happens.
unfoldable pub write_at : List ℕ → ℕ → List ℕ → List ℕ
write_at buf off [] = buf
write_at buf off (b ∷ bs) = write_at (set buf off b) (suc off) bs

unfoldable pub read_at : List ℕ → ℕ → ℕ → List ℕ
read_at buf off zero = []
read_at buf off (suc n) = get_or buf off 0 ∷ read_at buf (suc off) n

pub length-write_at :
    (buf : List ℕ) (off : ℕ) (bs : List ℕ) → length (write_at buf off bs) ≡ length buf
unfolding write_at
length-write_at buf off [] = refl
length-write_at buf off (b ∷ bs) =
    length-write_at (set buf off b) (suc off) bs ∙ length-set buf off b

pub length-read_at : (buf : List ℕ) (off n : ℕ) → length (read_at buf off n) ≡ n
unfolding read_at
length-read_at buf off zero = refl
length-read_at buf off (suc n) = omega (arith, length-read_at buf (suc off) n)

-- A write leaves the bytes outside its range alone.
pub get_or-write_at :
    (buf : List ℕ) (off : ℕ) (bs : List ℕ) (j : ℕ)
    → (j < off) ⊎ (off + length bs ≤ j)
    → get_or (write_at buf off bs) j 0 ≡ get_or buf j 0
unfolding write_at
get_or-write_at buf off [] j h = refl
get_or-write_at buf off (b ∷ bs) j h =
    get_or-write_at (set buf off b) (suc off) bs j (apart h)
    ∙ get_or-set_ne buf off j b 0 (distinct h)
  where
    apart : (j < off) ⊎ (off + suc (length bs) ≤ j) → (j < suc off) ⊎ (suc off + length bs ≤ j)
    apart (inl l) = inl (omega arith)
    apart (inr r) = inr (omega arith)

    distinct : (j < off) ⊎ (off + suc (length bs) ≤ j) → off ≡ j → ⊥
    distinct (inl l) e = omega arith
    distinct (inr r) e = omega arith

-- A read that a write does not touch.
pub read_at-write_at_apart :
    (buf : List ℕ) (off : ℕ) (bs : List ℕ) (at n : ℕ)
    → (at + n ≤ off) ⊎ (off + length bs ≤ at)
    → read_at (write_at buf off bs) at n ≡ read_at buf at n
unfolding read_at
read_at-write_at_apart buf off bs at zero h = refl
read_at-write_at_apart buf off bs at (suc n) h =
    ap₂ ◌∷◌ (get_or-write_at buf off bs at (here h))
      (read_at-write_at_apart buf off bs (suc at) n (later h))
  where
    here : (at + suc n ≤ off) ⊎ (off + length bs ≤ at) → (at < off) ⊎ (off + length bs ≤ at)
    here (inl l) = inl (omega arith)
    here (inr r) = inr r

    later :
        (at + suc n ≤ off) ⊎ (off + length bs ≤ at)
        → (suc at + n ≤ off) ⊎ (off + length bs ≤ suc at)
    later (inl l) = inl (omega arith)
    later (inr r) = inr (omega arith)

-- What is written inside the region is read back.
pub read_at-write_at_self :
    (buf : List ℕ) (off : ℕ) (bs : List ℕ)
    → off + length bs ≤ length buf
    → read_at (write_at buf off bs) off (length bs) ≡ bs
unfolding read_at write_at
read_at-write_at_self buf off [] h = refl
read_at-write_at_self buf off (b ∷ bs) h =
    ap₂ ◌∷◌
      (get_or-write_at (set buf off b) (suc off) bs off (inl (omega arith))
        ∙ get_or-set_self buf off b 0 (omega arith))
      (read_at-write_at_self (set buf off b) (suc off) bs (omega (arith, length-set buf off b)))
