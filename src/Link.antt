-- ===== src/Link.antt =====
-- bridge/common/link_model.c: drops, rate limit, latency and flow control of a simulated link.
pub mod Drop
pub mod Rate
pub mod Window
use qemu_vcs.Base.{
  ℕ, ◌+◌, ◌-◌, ◌*◌, ◌/◌, ◌%◌, ◌^◌, Bool, true, false, u16, u32, u64, ltb, ◌==◌, if◌then◌else◌,
  bit_xor,
}

-- `link_model_t`
pub record LinkModel : Type 0 where
  pub drop_rate_ppm : ℕ
  pub burst_drop_len : ℕ
  pub rate_mbps : ℕ
  pub latency_ns : ℕ
  pub fc_window : ℕ
  pub rng_state : ℕ
  pub burst_remaining : ℕ
  pub token_bucket_ns : ℕ
  pub outstanding : ℕ

-- `xs32`: the state stored, which is also the number returned.
unfoldable pub xs32 : ℕ → ℕ
xs32 s =
    let x = if s == 0 then 0xDEADBEEF else s in
    let x = bit_xor x (u32 (x * 2 ^ 13)) in
    let x = bit_xor x (x / 2 ^ 17) in bit_xor x (u32 (x * 2 ^ 5))

-- `link_model_reset`
unfoldable pub reset : LinkModel → ℕ → LinkModel
reset m seed = record m {
  rng_state = if seed == 0 then 1 else seed;
  burst_remaining = 0;
  token_bucket_ns = 0;
  outstanding = 0;
}

-- What a random number below the drop rate does: the current frame is dropped now.
unfoldable pub start_burst : LinkModel → Bool × LinkModel
start_burst m =
    let burst = if m.burst_drop_len == 0 then 1 else m.burst_drop_len in
    (true, record m { burst_remaining = u16 (burst - 1) })

-- `link_model_should_drop`
unfoldable pub should_drop : LinkModel → Bool × LinkModel
unfolding start_burst
should_drop m =
    if ltb 0 m.burst_remaining
    then (true, record m { burst_remaining = m.burst_remaining - 1 })
    else if m.drop_rate_ppm == 0
    then (false, m)
    else let drawn = record m { rng_state = xs32 m.rng_state } in
      if ltb (xs32 m.rng_state % 1000000) m.drop_rate_ppm then start_burst drawn else (false, drawn)

-- The time to put `frame_bytes` on the line, 0 where the rate is not limited.
unfoldable pub serialize_ns : LinkModel → ℕ → ℕ
serialize_ns m frame_bytes = if ltb 0 m.rate_mbps then u64 (frame_bytes * 8000) / m.rate_mbps else 0

-- `link_model_deadline`
unfoldable pub deadline : LinkModel → ℕ → ℕ → ℕ × LinkModel
deadline m frame_bytes now_ns =
    let ser = serialize_ns m frame_bytes in
    let earliest = if ltb m.token_bucket_ns now_ns then now_ns else m.token_bucket_ns in
    (u64 (u64 (earliest + ser) + m.latency_ns), record m { token_bucket_ns = u64 (earliest + ser) })

-- `link_model_fc_can_send`
unfoldable pub fc_can_send : LinkModel → Bool
fc_can_send m = if m.fc_window == 0 then true else ltb m.outstanding m.fc_window

-- `link_model_inc_outstanding`
unfoldable pub inc_outstanding : LinkModel → LinkModel
inc_outstanding m = record m { outstanding = u32 (m.outstanding + 1) }

-- `link_model_dec_outstanding`
unfoldable pub dec_outstanding : LinkModel → LinkModel
dec_outstanding m = if ltb 0 m.outstanding then record m { outstanding = m.outstanding - 1 } else m
