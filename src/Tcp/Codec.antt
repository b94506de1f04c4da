-- ===== src/Tcp/Codec.antt =====
-- Little-endian words of bridge/common/transport_tcp.h's packed structures, and reads from a
-- stream. A read stands for a `tcp_recv_all` that ends well: see Tcp/Socket.
use qemu_vcs.Base.{
  ℕ, ◌+◌, ◌*◌, ◌/◌, ◌%◌, ◌^◌, ◌<◌, ◌≡◌, refl, Option, none, some, List, [], ◌∷◌, ◌++◌, false, arith,
  length, take, drop, ltb, if◌then◌else◌, take-append, drop-append, length-append,
}

-- The bytes of a `uint16_t`, a `uint32_t` and a `uint64_t`.
unfoldable pub le16 : ℕ → List ℕ
le16 n = n % 256 ∷ n / 2 ^ 8 % 256 ∷ []

unfoldable pub le32 : ℕ → List ℕ
le32 n = n % 256 ∷ n / 2 ^ 8 % 256 ∷ n / 2 ^ 16 % 256 ∷ n / 2 ^ 24 % 256 ∷ []

unfoldable pub le64 : ℕ → List ℕ
le64 n =
    n % 256
    ∷ n / 2 ^ 8 % 256
    ∷ n / 2 ^ 16 % 256
    ∷ n / 2 ^ 24 % 256
    ∷ n / 2 ^ 32 % 256
    ∷ n / 2 ^ 40 % 256
    ∷ n / 2 ^ 48 % 256
    ∷ n / 2 ^ 56 % 256
    ∷ []

-- The number that the first bytes stand for, least significant first.
unfoldable pub from_le : List ℕ → ℕ
from_le [] = 0
from_le (b ∷ bs) = b + 256 * from_le bs

-- The next `n` bytes, and the rest; `none` when the stream ends before.
unfoldable pub read : ℕ → List ℕ → Option (List ℕ × List ℕ)
read n s = if ltb (length s) n then none else some (take n s, drop n s)

pub length-le16 : (n : ℕ) → length (le16 n) ≡ 2
unfolding le16
length-le16 n = refl

pub length-le32 : (n : ℕ) → length (le32 n) ≡ 4
unfolding le32
length-le32 n = refl

pub length-le64 : (n : ℕ) → length (le64 n) ≡ 8
unfolding le64
length-le64 n = refl

-- A word comes back from its bytes.
pub from_le-le16 : (n : ℕ) → n < 2 ^ 16 → from_le (le16 n) ≡ n
unfolding le16 from_le
from_le-le16 n h = omega arith

pub from_le-le32 : (n : ℕ) → n < 2 ^ 32 → from_le (le32 n) ≡ n
unfolding le32 from_le
from_le-le32 n h = omega arith

pub from_le-le64 : (n : ℕ) → n < 2 ^ 64 → from_le (le64 n) ≡ n
unfolding le64 from_le
from_le-le64 n h = omega arith

-- What was put at the front of a stream is what is read from it.
pub read-append : (n : ℕ) (xs rest : List ℕ) → length xs ≡ n → read n (xs ++ rest) ≡ some (xs, rest)
unfolding read
read-append n xs rest e =
    let enough : ltb (length (xs ++ rest)) n ≡ false = ground (arith, length-append xs rest) in
    rw (enough, ← e, take-append xs rest, drop-append xs rest) refl
