-- ===== src/Tcp/Peek.antt =====
-- bridge/common/transport_tcp.c: the calls that look before they read, on a channel that several
-- kinds of message share.
use qemu_vcs.Base.{
  ℕ, zero, suc, ◌+◌, ◌-◌, ◌^◌, ◌≤◌, ◌<◌, ◌≡◌, refl, sym, ap, ◌∙◌, some, [], ◌∷◌, ◌++◌, true, false,
  arith, length, take, drop, ltb, ◌==◌, ◌!=◌, if◌then◌else◌, drop-append, length-append,
  append_assoc, length-drop,
}
use qemu_vcs.Tcp.Codec.{read, read-append}
use qemu_vcs.Tcp.Message.{
  Stream, Header, header_bytes, frame_bytes, readable, peek_type, recv_nb, discard, skip_msg,
  after_any, after_skipped, got, no_data, reading_header,
}
use qemu_vcs.Tcp.Roundtrip.{
  length-header_bytes, parse_header_lem, reading_header_lem, reading_lem, same_type,
}

drop_nil : (n : ℕ) → drop {A = ℕ} n [] ≡ []
drop_nil zero = refl
drop_nil (suc n) = refl

drop_at : (m n : ℕ) (s : Stream) → m ≡ n → drop m s ≡ drop n s
drop_at m n s e = ap (λ i. drop i s) e

drop_step : (k n : ℕ) (s : Stream) → drop n (drop k s) ≡ drop (k + n) s
drop_step zero n s = ap (λ m. drop m s) (omega arith)
drop_step (suc k) n [] = drop_nil n ∙ sym (drop_nil (suc k + n))
drop_step (suc k) n (x ∷ s) =
    drop_step k n s ∙ drop_at (suc (k + n)) (suc k + n) (x ∷ s) (omega arith)

read_lem : (n : ℕ) (s : Stream) → n ≤ length s → read n s ≡ some (take n s, drop n s)
unfolding read
read_lem n s h = let enough : ltb (length s) n ≡ false = ground arith in rw enough refl

discard_done : (fuel : ℕ) (s : Stream) → discard fuel 0 s ≡ some s
unfolding discard
discard_done zero s = refl
discard_done (suc fuel) s = refl

some_left : (n : ℕ) → (suc n == 0) ≡ false
some_left n = ground arith

abbrev piece : ℕ → ℕ
piece n = if ltb n 4096 then n else 4096

-- As many rounds as there are bytes are enough: the loop drops exactly what it was asked to.
pub discard_lem :
    (fuel n : ℕ) (s : Stream) → n ≤ fuel → n ≤ length s → discard fuel n s ≡ some (drop n s)
unfolding discard
discard_lem fuel zero s h h' = discard_done fuel s
discard_lem zero (suc n) s h h' = absurd (omega arith)
discard_lem (suc fuel) (suc n) s h h' =
    let fits : piece (suc n) ≤ suc n = ground arith in
    let some_read : 0 < piece (suc n) = ground arith in
    let whole : piece (suc n) + (suc n - piece (suc n)) ≡ suc n = omega arith in
    rw (some_left n, read_lem (piece (suc n)) s (omega arith))
      (discard_lem fuel (suc n - piece (suc n)) (drop (piece (suc n)) s) (omega arith)
          (omega (arith, length-drop (piece (suc n)) s))
        ∙ ap some (drop_step (piece (suc n)) (suc n - piece (suc n)) s ∙ ap (λ m. drop m s) whole))

-- What a frame looks like to a receiver.
frame_assoc :
    (t : ℕ) (payload rest : Stream)
    → frame_bytes t payload ++ rest
      ≡ header_bytes (record { msg_type = t; payload_len = length payload }) ++ (payload ++ rest)
unfolding frame_bytes
frame_assoc t payload rest =
    append_assoc (header_bytes (record { msg_type = t; payload_len = length payload })) payload rest

-- Skipping removes exactly one message from the stream, of whatever type and of a length below 2 ^
-- 32.
pub skip_msg_lem :
    (t : ℕ) (payload rest : Stream)
    → t < 2 ^ 32
    → length payload < 2 ^ 32
    → skip_msg (frame_bytes t payload ++ rest) ≡ got tt rest
unfolding skip_msg
skip_msg_lem t payload rest h h' =
    ap (λ s. reading_header s after_skipped) (frame_assoc t payload rest)
    ∙ reading_header_lem t (length payload) (payload ++ rest) after_skipped h h'
    ∙ rw
        (
          after_skipped,
          discard_lem (length payload) (length payload) (payload ++ rest) (omega arith)
              (omega (arith, length-append payload rest)),
          drop-append payload rest,
        )
        refl

-- Peeking tells the type of the next message.
pub peek_type_lem :
    (t : ℕ) (payload rest : Stream)
    → t < 2 ^ 32
    → length payload < 2 ^ 32
    → peek_type readable (frame_bytes t payload ++ rest) ≡ some t
unfolding peek_type
peek_type_lem t payload rest h h' =
    ap (peek_type readable) (frame_assoc t payload rest)
    ∙ rw
        (
          peek_type,
          read-append 8 (header_bytes (record { msg_type = t; payload_len = length payload }))
              (payload ++ rest) (length-header_bytes _),
        )
        (ap (λ (header : Header). some (header.msg_type))
          (parse_header_lem t (length payload) h h'))

-- A receive that does not wait takes a message of its own type.
pub recv_nb_own :
    (t : ℕ) (payload rest : Stream)
    → t < 2 ^ 32
    → length payload < 2 ^ 32
    → recv_nb t (length payload) readable (frame_bytes t payload ++ rest) ≡ got payload rest
unfolding recv_nb
recv_nb_own t payload rest h h' =
    rw (recv_nb, peek_type_lem t payload rest h h', same_type t)
      (ap (λ s. reading_header s (after_any (length payload))) (frame_assoc t payload rest)
        ∙ reading_header_lem t (length payload) (payload ++ rest) (after_any (length payload)) h h'
        ∙ reading_lem payload rest (length payload) (λ bs left. got bs left) refl)

-- A non-blocking receive of one type leaves the stream untouched when the next message has another
-- type.
pub recv_nb_other :
    (t other size : ℕ) (payload rest : Stream)
    → t < 2 ^ 32
    → length payload < 2 ^ 32
    → ¬ (t ≡ other)
    → recv_nb other size readable (frame_bytes t payload ++ rest)
      ≡ no_data (frame_bytes t payload ++ rest)
unfolding recv_nb
recv_nb_other t other size payload rest h h' differ =
    let test : (t != other) ≡ true = ground arith in
    rw (recv_nb, peek_type_lem t payload rest h h', test) refl
