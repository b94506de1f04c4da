-- ===== src/Socket/Waits.antt =====
-- The waits of bridge/qemu/sock_sync.c end, and take what comes in time.
use qemu_vcs.Base.{
  ap, ◌∙◌, Bool, ℕ, zero, suc, ◌+◌, ◌*◌, ◌^◌, ◌≤◌, ◌<◌, ◌≡◌, ◌≢◌, true, List, [], ◌∷◌, ◌++◌, arith,
  length, replicate, leb, ltb, if◌then◌else◌, some,
}
use qemu_vcs.Messages.{SyncMsg}
use qemu_vcs.Socket.{
  spin_us, Answer, message, part, closed, again, broken, received, timeout, unanswered, recv_loop,
  recv_timed, Accepted, peer, not_yet, interrupted, refused, no_more, accept_loop, accept,
}

-- The polls of a wait: two in a millisecond, and one.
abbrev pub polls : ℕ → ℕ
polls timeout_ms = 2 * timeout_ms + 1

after_spins :
    (n k elapsed limit : ℕ) (m : SyncMsg) (ans : List Answer)
    → elapsed + 500 * k ≡ limit
    → recv_loop elapsed limit 500 (replicate n again ++ (message m ∷ ans))
      ≡ (if leb n k then received m else timeout)
unfolding recv_loop
after_spins zero k elapsed limit m ans e = ground arith
after_spins (suc n) zero elapsed limit m ans e = ground arith
after_spins (suc n) (suc k) elapsed limit m ans e =
    ground (arith, after_spins n k (elapsed + 500) limit m ans)

ends :
    (k elapsed limit : ℕ) (ans : List Answer)
    → limit ≤ elapsed + 500 * k
    → k < length ans
    → recv_loop elapsed limit 500 ans ≢ unanswered
unfolding recv_loop
ends k elapsed limit [] h few = absurd (omega arith)
ends k elapsed limit (message m ∷ ans) h few = λ e. cc
ends k elapsed limit (part ∷ ans) h few = λ e. cc
ends k elapsed limit (closed ∷ ans) h few = λ e. cc
ends k elapsed limit (broken ∷ ans) h few = λ e. cc
ends zero elapsed limit (again ∷ ans) h few = λ e. ground arith
ends (suc k) elapsed limit (again ∷ ans) h few =
    λ e. ground (arith, ends k (elapsed + 500) limit ans)

spins : (timeout_ms : ℕ) → 0 < timeout_ms → spin_us timeout_ms ≡ 500
spins timeout_ms h = ground arith

-- A timed receive of at least a millisecond, and below 2147484 ms, ends after at most two polls for each millisecond, and
-- one, whatever the kernel answers.
pub recv_timed_total :
    (timeout_ms : ℕ) (ans : List Answer)
    → 0 < timeout_ms
    → timeout_ms < 2147484
    → polls timeout_ms ≤ length ans
    → recv_timed timeout_ms ans ≢ unanswered
unfolding recv_timed
recv_timed_total timeout_ms ans h small enough =
    let no_overflow : ltb (timeout_ms * 1000) (2 ^ 31) ≡ true = ground arith in
    rw (no_overflow, spins timeout_ms h)
      (ends (2 * timeout_ms) 0 (timeout_ms * 1000) ans (omega arith) (omega arith))

-- A message that comes after `n` polls in vain is received exactly when a timed receive, of at least
-- a millisecond and below 2147484 ms, polls more than `n` times; later it is a timeout.
pub recv_timed_in_time :
    (timeout_ms n : ℕ) (m : SyncMsg) (ans : List Answer)
    → 0 < timeout_ms
    → timeout_ms < 2147484
    → recv_timed timeout_ms (replicate n again ++ (message m ∷ ans))
      ≡ (if ltb n (polls timeout_ms) then received m else timeout)
unfolding recv_timed
recv_timed_in_time timeout_ms n m ans h small =
    let no_overflow : ltb (timeout_ms * 1000) (2 ^ 31) ≡ true = ground arith in
    let test : leb n (2 * timeout_ms) ≡ ltb n (polls timeout_ms) = ground arith in
    rw (no_overflow, spins timeout_ms h)
      (after_spins n (2 * timeout_ms) 0 (timeout_ms * 1000) m ans (omega arith)
        ∙ ap (λ (b : Bool). if b then received m else timeout) test)

-- The attempts of a wait for the peer: two in a second, and one.
abbrev pub attempts : ℕ → ℕ
attempts seconds = 2 * seconds + 1

accepts :
    (k elapsed limit : ℕ) (ans : List Accepted)
    → limit ≤ elapsed + 500 * k
    → k < length ans
    → accept_loop elapsed limit ans ≢ no_more
unfolding accept_loop
accepts k elapsed limit [] h few = absurd (omega arith)
accepts k elapsed limit (peer fd ∷ ans) h few = λ e. cc
accepts k elapsed limit (interrupted ∷ ans) h few = λ e. cc
accepts k elapsed limit (refused ∷ ans) h few = λ e. cc
accepts zero elapsed limit (not_yet ∷ ans) h few = λ e. ground arith
accepts (suc k) elapsed limit (not_yet ∷ ans) h few =
    λ e. ground (arith, accepts k (elapsed + 500) limit ans)

-- The wait for the peer ends after at most two attempts for each second of the timeout, and one.
pub accept_total :
    (seconds : ℕ) (ans : List Accepted)
    → 0 < seconds
    → attempts seconds ≤ length ans
    → accept (some seconds) ans ≢ no_more
unfolding accept
accept_total seconds ans h enough =
    let given : ltb 0 seconds ≡ true = ground arith in
    rw given (accepts (2 * seconds) 0 (seconds * 1000) ans (omega arith) (omega arith))
