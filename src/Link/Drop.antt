-- ===== src/Link/Drop.antt =====
-- When frames are dropped.
use qemu_vcs.Base.{
  ℕ, zero, suc, ◌-◌, ◌^◌, ◌<◌, ◌≡◌, refl, sym, ap, ap₂, ◌∙◌, Bool, true, List, [], ◌∷◌, arith,
  replicate, ◌==◌, if◌then◌else◌,
}
use qemu_vcs.Link.{LinkModel, xs32, should_drop}

-- The decisions on the next `n` frames, and the state after them.
unfoldable pub drops : ℕ → LinkModel → List Bool × LinkModel
drops zero m = ([], m)
drops (suc n) m = let (d, m') = should_drop m in let (ds, m'') = drops n m' in (d ∷ ds, m'')

-- Frames that a burst drops in all.
abbrev pub burst_length : LinkModel → ℕ
burst_length m = if m.burst_drop_len == 0 then 1 else m.burst_drop_len

-- Inside a burst every frame is dropped, and the random state is left alone.
inside_burst :
    (n : ℕ) (m : LinkModel)
    → m.burst_remaining ≡ n
    → drops n m ≡ (replicate n true, record m { burst_remaining = 0 })
unfolding drops should_drop
inside_burst zero m e = ground arith
inside_burst (suc n) m e =
    ground (arith, inside_burst n (record m { burst_remaining = m.burst_remaining - 1 }))

burst_starts :
    (m : LinkModel)
    → m.burst_drop_len < 2 ^ 16
    → m.burst_remaining ≡ 0
    → (should_drop m).0 ≡ true
    → should_drop m
      ≡ (true, record m { rng_state = xs32 m.rng_state; burst_remaining = burst_length m - 1 })
unfolding should_drop
burst_starts m small idle dropped = ground arith

drops-suc :
    (n : ℕ) (m : LinkModel) {m' : LinkModel}
    → should_drop m ≡ (true, m')
    → m'.burst_remaining ≡ n
    → drops (suc n) m ≡ (replicate (suc n) true, record m' { burst_remaining = 0 })
unfolding drops
drops-suc n m {m'} e r = rw e (ground (arith, inside_burst n m'))

-- A burst drops exactly the configured number of frames: when the drop of a frame starts a
-- burst, that frame and the following ones up to the burst length are dropped, on one draw of
-- the random numbers, and the frame after them is decided by a new draw.
pub drops-burst :
    (m : LinkModel)
    → m.burst_drop_len < 2 ^ 16
    → m.burst_remaining ≡ 0
    → (should_drop m).0 ≡ true
    → drops (burst_length m) m
      ≡ (replicate (burst_length m) true, record m { rng_state = xs32 m.rng_state })
drops-burst m small idle dropped =
    let more : burst_length m ≡ suc (burst_length m - 1) = ground arith in
    ap (λ n. drops n m) more
    ∙ drops-suc (burst_length m - 1) m (burst_starts m small idle dropped) refl
    ∙ ap₂ (λ l s. (l, s)) (ap (λ n. replicate n true) (sym more))
        (ap (λ b. record m { rng_state = xs32 m.rng_state; burst_remaining = b }) (sym idle))
