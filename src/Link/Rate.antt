-- ===== src/Link/Rate.antt =====
-- The rate limit: frames leave one after another, each after its own time on the line.
use native.Mathlib.Nat.{lt-mul-div-succ, mul-le-mul_left}
use qemu_vcs.Base.{
  ℕ, sym, ◌-◌, ◌*◌, u64, ◌+◌, ◌^◌, ◌≤◌, ◌<◌, ◌≡◌, List, [], ◌∷◌, true, arith, ltb, if◌then◌else◌,
}
use qemu_vcs.Link.{LinkModel, serialize_ns, deadline}

-- The deadlines of frames that are queued one after another, with the time at which each is.
unfoldable pub deadlines : LinkModel → List (ℕ × ℕ) → List ℕ × LinkModel
deadlines m [] = ([], m)
deadlines m ((bytes, now) ∷ rest) =
    let (t, m') = deadline m bytes now in let (ts, m'') = deadlines m' rest in (t ∷ ts, m'')

-- The line time of all of them.
unfoldable pub busy_ns : LinkModel → List (ℕ × ℕ) → ℕ
busy_ns m [] = 0
busy_ns m ((bytes, now) ∷ rest) = serialize_ns m bytes + busy_ns m rest

-- A bound on every clock value that the run meets.
unfoldable pub horizon : LinkModel → ℕ → List (ℕ × ℕ) → ℕ
horizon m t [] = t
horizon m t ((bytes, now) ∷ rest) =
    horizon m ((if ltb t now then now else t) + serialize_ns m bytes) rest

-- A frame is sent after the frames before it and after the present moment, and takes its line
-- time and the latency, while the clock does not wrap.
pub deadline_lem :
    (m : LinkModel) (bytes now : ℕ)
    → m.token_bucket_ns + serialize_ns m bytes + m.latency_ns < 2 ^ 64
    → now + serialize_ns m bytes + m.latency_ns < 2 ^ 64
    → (now + serialize_ns m bytes + m.latency_ns ≤ (deadline m bytes now).0)
      × (m.token_bucket_ns + serialize_ns m bytes + m.latency_ns ≤ (deadline m bytes now).0)
      × ((deadline m bytes now).0 ≡ (deadline m bytes now).1.token_bucket_ns + m.latency_ns)
unfolding deadline
deadline_lem m bytes now a b = ground arith

-- Each frame leaves a line time after the one before it, and its line time and the latency after
-- it was queued.
abbrev pub Paced : LinkModel → ℕ → List (ℕ × ℕ) → List ℕ → Type 0
Paced m prev [] ts = Unit
Paced m prev (f ∷ fs) [] = ⊥
Paced m prev ((bytes, now) ∷ fs) (t ∷ ts) =
    (prev + serialize_ns m bytes ≤ t)
    × (now + serialize_ns m bytes + m.latency_ns ≤ t)
    × Paced m t fs ts

le-horizon : (m : LinkModel) (t : ℕ) (frames : List (ℕ × ℕ)) → t ≤ horizon m t frames
unfolding horizon
le-horizon m t [] = omega arith
le-horizon m t ((bytes, now) ∷ fs) =
    ground (arith, le-horizon m ((if ltb t now then now else t) + serialize_ns m bytes) fs)

-- The link at another bucket time.
abbrev at_bucket : LinkModel → ℕ → LinkModel
at_bucket m b = record m { token_bucket_ns = b }

deadline-at_bucket :
    (m : LinkModel) (b bytes now : ℕ)
    → (if ltb b now then now else b) + serialize_ns m bytes + m.latency_ns < 2 ^ 64
    → deadline (at_bucket m b) bytes now ≡ (
      (if ltb b now then now else b) + serialize_ns m bytes + m.latency_ns,
      at_bucket m ((if ltb b now then now else b) + serialize_ns m bytes),
    )
unfolding deadline serialize_ns
deadline-at_bucket m b bytes now h = ground arith

Paced-from :
    (m : LinkModel) (b : ℕ) (frames : List (ℕ × ℕ))
    → horizon m b frames + m.latency_ns < 2 ^ 64
    → Paced m (b + m.latency_ns) frames (deadlines (at_bucket m b) frames).0
      × (b + busy_ns m frames ≤ (deadlines (at_bucket m b) frames).1.token_bucket_ns)
unfolding deadlines horizon busy_ns
Paced-from m b [] h = (tt, omega arith)
Paced-from m b ((bytes, now) ∷ fs) h =
    let b' : ℕ = (if ltb b now then now else b) + serialize_ns m bytes in
    let bound : b' ≤ horizon m b' fs = le-horizon m b' fs in
    let later : b ≤ (if ltb b now then now else b) = ground arith in
    let later' : now ≤ (if ltb b now then now else b) = ground arith in
    let ih = Paced-from m b' fs h in
    rw (deadline-at_bucket m b bytes now (omega arith))
      ((omega arith, omega arith, ih.0), omega (arith, ih.1))

-- Whatever the frames and the moments at which they are queued, the deadlines respect the rate
-- and the latency, and the bucket moves on by at least the line time of all frames, as long as
-- no clock value reaches 2 ^ 64.
pub deadlines-Paced :
    (m : LinkModel) (frames : List (ℕ × ℕ))
    → horizon m m.token_bucket_ns frames + m.latency_ns < 2 ^ 64
    → Paced m (m.token_bucket_ns + m.latency_ns) frames (deadlines m frames).0
      × (m.token_bucket_ns + busy_ns m frames ≤ (deadlines m frames).1.token_bucket_ns)
deadlines-Paced m frames h = Paced-from m m.token_bucket_ns frames h

-- The bytes take no less time than the rate allows, up to the nanosecond that is not whole: a
-- megabit in a second is a bit in 1000 ns.
abbrev pub AtRate : LinkModel → ℕ → ℕ → ℕ → Type 0
AtRate m bytes from to = (from ≤ to) × (bytes * 8000 < m.rate_mbps * (to - from + 1))

-- Each frame leaves after the one before it, and after it was queued and the latency, by the time
-- that its bits take.
abbrev pub AllAtRate : LinkModel → ℕ → List (ℕ × ℕ) → List ℕ → Type 0
AllAtRate m prev [] ts = Unit
AllAtRate m prev (f ∷ fs) [] = ⊥
AllAtRate m prev ((bytes, now) ∷ fs) (t ∷ ts) =
    AtRate m bytes prev t × AtRate m bytes (now + m.latency_ns) t × AllAtRate m t fs ts

-- The lengths of frames are of 32 bits.
abbrev pub ShortFrames : List (ℕ × ℕ) → Type 0
ShortFrames [] = Unit
ShortFrames ((bytes, now) ∷ fs) = (bytes < 2 ^ 32) × ShortFrames fs

serialize_ns_bits :
    (m : LinkModel) (bytes : ℕ)
    → 0 < m.rate_mbps
    → bytes < 2 ^ 32
    → bytes * 8000 < m.rate_mbps * (serialize_ns m bytes + 1)
unfolding serialize_ns
serialize_ns_bits m bytes limited short =
    let rate : ltb 0 m.rate_mbps ≡ true = ground arith in
    let exact : bytes * 8000 ≡ u64 (bytes * 8000) = omega arith in
    rw (rate, sym exact) (lt-mul-div-succ (bytes * 8000) limited)

AtRate-after :
    (m : LinkModel) (bytes from to : ℕ)
    → 0 < m.rate_mbps
    → bytes < 2 ^ 32
    → from + serialize_ns m bytes ≤ to
    → AtRate m bytes from to
AtRate-after m bytes from to limited short late =
    let wide = mul-le-mul_left m.rate_mbps (wide_lem late) in
    (omega (arith, late), omega (arith, serialize_ns_bits m bytes limited short, wide))
  where
    wide_lem : from + serialize_ns m bytes ≤ to → serialize_ns m bytes + 1 ≤ to - from + 1
    wide_lem h = omega arith

AllAtRate-Paced :
    (m : LinkModel) (prev : ℕ) (frames : List (ℕ × ℕ)) (ts : List ℕ)
    → 0 < m.rate_mbps
    → ShortFrames frames
    → Paced m prev frames ts
    → AllAtRate m prev frames ts
AllAtRate-Paced m prev [] ts limited short p = tt
AllAtRate-Paced m prev (f ∷ fs) [] limited short p = p
AllAtRate-Paced m prev ((bytes, now) ∷ fs) (t ∷ ts) limited (short, shorts) (line, queue, rest) = (
  AtRate-after m bytes prev t limited short line,
  AtRate-after m bytes (now + m.latency_ns) t limited short (omega arith),
  AllAtRate-Paced m t fs ts limited shorts rest,
)

-- Whatever the frames and the moments at which they are queued, on a link with a rate each frame
-- leaves after the one before it, and after the moment at which it was queued and the latency, by
-- at least the time that its bits take at the rate, to the nanosecond, as long as no clock value
-- reaches 2 ^ 64. The lengths are below 2 ^ 32.
pub deadlines-AllAtRate :
    (m : LinkModel) (frames : List (ℕ × ℕ))
    → 0 < m.rate_mbps
    → ShortFrames frames
    → horizon m m.token_bucket_ns frames + m.latency_ns < 2 ^ 64
    → AllAtRate m (m.token_bucket_ns + m.latency_ns) frames (deadlines m frames).0
deadlines-AllAtRate m frames limited short h =
    AllAtRate-Paced m (m.token_bucket_ns + m.latency_ns) frames (deadlines m frames).0 limited short
      (deadlines-Paced m frames h).0
