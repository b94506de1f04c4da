-- ===== src/Socket.antt =====
-- bridge/qemu/sock_sync.c: the socket over which the two sides of the shared memory tell one another
-- what is ready. The answers of the kernel are lists, in the order of the calls.
pub mod Waits
use qemu_vcs.Base.{
  ℕ, zero, suc, ◌+◌, ◌-◌, ◌*◌, ◌^◌, Bool, true, false, Option, none, some, List, [], ◌∷◌, leb, ltb,
  ◌==◌, if◌then◌else◌,
}
use qemu_vcs.Messages.{SyncMsg}
use qemu_vcs.Transport.{Timed}

-- What `recv` with `MSG_DONTWAIT` gives: a whole message, fewer bytes, the end of the connection,
-- `EAGAIN` or `EWOULDBLOCK`, or another error.
pub data Answer : Type 0 where
  message : SyncMsg → Answer
  part closed again broken : Answer

-- The end of the loop: 0 with a message, 1, -1, a product past the largest `int`, or no answer left.
pub data Ended : Type 0 where
  received : SyncMsg → Ended
  timeout failed overflow unanswered : Ended

-- The loop of `sock_sync_recv_timed`; the numbers are `elapsed_us`, `limit_us` and `spin_us`.
unfoldable pub recv_loop : ℕ → ℕ → ℕ → List Answer → Ended
recv_loop elapsed limit spin [] = unanswered
recv_loop elapsed limit spin (message m ∷ ans) = received m
recv_loop elapsed limit spin (part ∷ ans) = failed
recv_loop elapsed limit spin (closed ∷ ans) = failed
recv_loop elapsed limit spin (broken ∷ ans) = failed
recv_loop elapsed limit spin (again ∷ ans) =
    let rest = recv_loop (elapsed + spin) limit spin ans in
    if leb limit elapsed then timeout else (if ltb 0 spin then rest else timeout)

-- `spin_us`
abbrev pub spin_us : ℕ → ℕ
spin_us timeout_ms = if timeout_ms == 0 then 0 else 500

-- `sock_sync_recv_timed`, with a time that is not negative.
unfoldable pub recv_timed : ℕ → List Answer → Ended
unfolding recv_loop
recv_timed timeout_ms ans =
    if ltb (timeout_ms * 1000) (2 ^ 31)
    then recv_loop 0 (timeout_ms * 1000) (spin_us timeout_ms) ans
    else overflow

-- `sock_sync_recv`: a read that waits; `none` is the -1.
unfoldable pub recv : Answer → Option SyncMsg
recv (message m) = some m
recv part = none
recv closed = none
recv again = none
recv broken = none

-- What `accept` gives on the listening socket that does not wait.
pub data Accepted : Type 0 where
  peer : ℕ → Accepted
  not_yet interrupted refused : Accepted

-- The end of `sock_sync_accept`: a descriptor, -1, or no answer left.
pub data Connected : Type 0 where
  connected : ℕ → Connected
  gave_up no_more : Connected

-- The loop of `sock_sync_accept`; the numbers are `elapsed_ms` and `timeout_ms`.
unfoldable pub accept_loop : ℕ → ℕ → List Accepted → Connected
accept_loop elapsed limit [] = no_more
accept_loop elapsed limit (peer fd ∷ ans) = connected fd
accept_loop elapsed limit (interrupted ∷ ans) = gave_up
accept_loop elapsed limit (refused ∷ ans) = gave_up
accept_loop elapsed limit (not_yet ∷ ans) =
    let rest = accept_loop (elapsed + 500) limit ans in if leb limit elapsed then gave_up else rest

-- `sock_sync_accept`; the value of `COSIM_CONNECT_TIMEOUT` in seconds, where it is set to a number.
unfoldable pub accept : Option ℕ → List Accepted → Connected
unfolding accept_loop
accept none ans = accept_loop 0 180000 ans
accept (some seconds) ans = accept_loop 0 ((if ltb 0 seconds then seconds else 180) * 1000) ans

-- The functions that the bridges call, on a socket and a shared memory: while a receive waits, the
-- peer may write to the memory.
pub record Socket (S K : Type 0) : Type 0 where
  pub send : K → SyncMsg → Bool × K
  pub recv_sync : S → K → Option SyncMsg × (S × K)
  pub recv_sync_timed : S → K → ℕ → Timed × (S × K)
