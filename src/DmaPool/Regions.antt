-- ===== src/DmaPool/Regions.antt =====
-- The regions that the allocator hands out do not overlap, are aligned and lie in the area.
use qemu_vcs.Base.{
  ℕ, ◌+◌, ◌*◌, ◌/◌, ◌%◌, ◌^◌, ◌≤◌, ◌<◌, ◌≡◌, ◌≢◌, refl, sym, ap, ◌⊎◌, inl, inr, some, false, ◌&&◌,
  not, List, [], ◌∷◌, ◌++◌, arith, u32, ltb, ◌==◌, if◌then◌else◌, Bool-cases,
}
use mathlib.Core.Path.{subst}
use qemu_vcs.Base.Bits.{bit_and_align}
use qemu_vcs.DmaPool.{Pool, invalid, aligned, alloc, Round, alloc_loop, alloc_among, ptr}

pub aligned_lem : (size : ℕ) → aligned size ≡ u32 (size + 63) / 64 * 64
unfolding aligned
aligned_lem size = bit_and_align (u32 (size + 63)) (omega arith)

-- A granted region, and the length asked for.
pub record Region : Type 0 where
  pub offset : ℕ
  pub size : ℕ

abbrev grant : ℕ → ℕ → List Region → List Region
grant off size rs = if off == invalid then rs else record { offset = off; size = size } ∷ rs

-- Allocations one after another. The compare-exchange puts those of all threads in such an order.
unfoldable pub alloc_all : Pool → List ℕ → List Region × Pool
alloc_all p [] = ([], p)
alloc_all p (size ∷ sizes) =
    let (off, p') = alloc p size in let (rs, p'') = alloc_all p' sizes in (grant off size rs, p'')

-- Regions one behind another from `lo` to `hi`, each aligned and as long as was asked for.
abbrev pub Packed : ℕ → List Region → ℕ → Type 0
Packed lo [] hi = lo ≤ hi
Packed lo (r ∷ rs) hi = (lo ≤ r.offset) × (r.offset % 64 ≡ 0) × Packed (r.offset + r.size) rs hi

-- No request is so long that its end wraps.
abbrev pub Modest : ℕ → List ℕ → Type 0
Modest total [] = Unit
Modest total (size ∷ sizes) = (total + size + 63 < 2 ^ 32) × Modest total sizes

pub record IsValid (p : Pool) : Type 0 where
  pub within : p.next_free ≤ p.total_size
  pub on_grid : p.next_free % 64 ≡ 0

Packed-from :
    (lo lo' : ℕ) (rs : List Region) (hi : ℕ) → lo ≤ lo' → Packed lo' rs hi → Packed lo rs hi
Packed-from lo lo' [] hi h k = omega arith
Packed-from lo lo' (r ∷ rs) hi h k = (omega arith, k.1, k.2)

alloc_cases :
    (p : Pool) (size : ℕ)
    → p.total_size + size + 63 < 2 ^ 32
    → IsValid p
    → ((alloc p size).0 ≡ invalid) × ((alloc p size).1 ≡ p)
      ⊎ ((alloc p size).0 ≡ p.next_free)
        × (p.next_free + size ≤ (alloc p size).1.next_free)
        × ((alloc p size).1.total_size ≡ p.total_size)
        × IsValid (alloc p size).1
unfolding alloc
alloc_cases p size modest v = elim (Bool-cases (size == 0)) [
  | inl z ↦ rw z (inl (refl, refl))
  | inr nz ↦ elim (Bool-cases (ltb p.total_size (u32 (p.next_free + aligned size)))) [
    | inl full ↦ rw (nz, full) (inl (refl, refl))
    | inr room ↦
        rw (nz, room)
          (inr (refl, ground (arith, aligned_lem size), refl, ground (arith, aligned_lem size)))
  ]
]

-- Whatever is asked for, the regions granted follow one another without overlap, start on
-- multiples of 64, hold what was asked for and end in the area, if no request is so long that
-- the arithmetic wraps.
pub alloc_all-Packed :
    (p : Pool) (sizes : List ℕ)
    → Modest p.total_size sizes
    → IsValid p
    → Packed p.next_free (alloc_all p sizes).0 (alloc_all p sizes).1.next_free
      × ((alloc_all p sizes).1.next_free ≤ p.total_size)
unfolding alloc_all
alloc_all-Packed p [] m v = (omega arith, v.within)
alloc_all-Packed p (size ∷ sizes) m v = elim (alloc_cases p size m.0 v) [
  | inl (e, same) ↦ rw (e, same) (alloc_all-Packed p sizes m.1 v)
  | inr (e, grown, total, v') ↦
      let ih =
        alloc_all-Packed (alloc p size).1 sizes (subst (λ t. Modest t sizes) (sym total) m.1) v' in
      let real : (p.next_free == invalid) ≡ false = small_test (omega (arith, v.within, m.0)) in
      rw (e, real)
        ((omega arith, v.on_grid, Packed-from _ _ _ _ grown ih.0), omega (arith, ih.1, total))
]
  where
    small_test : p.next_free < invalid → (p.next_free == invalid) ≡ false
    small_test h = ground arith

-- What other threads do to a pool leaves its size alone.
abbrev pub Tame : List Round → Type 0
Tame [] = Unit
Tame (r ∷ rs) = ((q : Pool) → (r.others q).total_size ≡ q.total_size) × Tame rs

-- The pool once other threads have done all that they do in so many rounds.
abbrev pub after : Pool → List Round → Pool
after p [] = p
after p (r ∷ rs) = after (r.others p) rs

-- The rounds that a call takes until it returns, and what it does then: one undisturbed allocation
-- on the pool as the other threads have left it at that moment.
abbrev pub Atomic : Pool → ℕ → List Round → ℕ × Pool → Type 0
Atomic p size rounds end =
    (used : List Round) × (left : List Round) × (used ++ left ≡ rounds)
    × (alloc_among p size used ≡ some end)
    × (alloc (after p used) size ≡ end)

one_more :
    (p : Pool) (size : ℕ) (r : Round) (rs : List Round) (end : ℕ × Pool)
    → (size == 0) ≡ false
    → ltb p.total_size (u32 (p.next_free + aligned size)) ≡ false
    → (((r.others p).next_free == p.next_free) && not r.spurious) ≡ false
    → Atomic (r.others p) size rs end
    → Atomic p size (r ∷ rs) end
unfolding alloc_among alloc_loop
one_more p size r rs end nz room lost (used, left, split, returns, effect) =
    (r ∷ used, left, ap (λ l. r ∷ l) split, (rw (nz, room, lost) (rw nz at returns)), effect)

alloc_loop-Atomic :
    (p : Pool) (size : ℕ) (rounds : List Round) (end : ℕ × Pool)
    → (size == 0) ≡ false
    → Tame rounds
    → alloc_loop p (aligned size) rounds ≡ some end
    → Atomic p size rounds end
unfolding alloc_loop alloc alloc_among
alloc_loop-Atomic p size [] end nz t e =
    elim (Bool-cases (ltb p.total_size (u32 (p.next_free + aligned size)))) [
      | inl full ↦ ([], [], refl, rw nz e, ground arith)
      | inr room ↦ absurd cc
    ]
alloc_loop-Atomic p size (r ∷ rs) end nz t e =
    elim (Bool-cases (ltb p.total_size (u32 (p.next_free + aligned size)))) [
      | inl full ↦ ([], r ∷ rs, refl, ground arith, ground arith)
      | inr room ↦ elim (Bool-cases (((r.others p).next_free == p.next_free) && not r.spurious)) [
        | inl won ↦ (r ∷ [], rs, refl, ground arith, ground (arith, t.0 p))
        | inr lost ↦
            let e' : alloc_loop (r.others p) (aligned size) rs ≡ some end =
              (rw (room, lost) at e) in
            one_more p size r rs end nz room lost
              (alloc_loop-Atomic (r.others p) size rs end nz t.1 e')
      ]
    ]

-- Whatever other threads do between the load and the compare-exchange, and however often the
-- exchange fails, a call that returns has had the effect of one undisturbed allocation on the
-- pool as it was when the call returned: as the other threads have left it in the rounds that the
-- call took, in which it does return.
pub alloc_among-Atomic :
    (p : Pool) (size : ℕ) (rounds : List Round) (end : ℕ × Pool)
    → Tame rounds
    → alloc_among p size rounds ≡ some end
    → Atomic p size rounds end
unfolding alloc_among
alloc_among-Atomic p size rounds end t e = elim (Bool-cases (size == 0)) [
  | inl z ↦ ([], rounds, refl, unfold alloc in ground arith, unfold alloc in ground arith)
  | inr nz ↦ alloc_loop-Atomic p size rounds end nz t (rw nz at e)
]

-- A granted region lies in the area up to its end: `dma_mgr_ptr` gives a pointer to each of its
-- bytes.
pub granted_ptr :
    (p : Pool) (size i : ℕ)
    → p.total_size + size + 63 < 2 ^ 32
    → IsValid p
    → (alloc p size).0 ≢ invalid
    → i < size
    → ptr p ((alloc p size).0 + i) ≡ some ((alloc p size).0 + i)
granted_ptr p size i modest v ok h = elim (alloc_cases p size modest v) [
  | inl (e, same) ↦ absurd (ok e)
  | inr (e, grown, total, v') ↦ inside (omega (arith, e, grown, total, v'.within))
]
  where
    inside :
        (alloc p size).0 + i < p.total_size
        → ptr p ((alloc p size).0 + i) ≡ some ((alloc p size).0 + i)
    inside h = unfold ptr in ground arith
