-- ===== src/Tcp/Socket.antt =====
-- The loops of bridge/common/transport_tcp.c that move a whole buffer through a socket:
-- `tcp_send_all` and `tcp_recv_all`. The kernel answers each call as it likes.
use qemu_vcs.Base.{
  ℕ, zero, suc, ◌+◌, ◌-◌, ◌≤◌, ◌<◌, ◌≡◌, refl, sym, ap, ap₂, ◌∙◌, false, List, [], ◌∷◌, ◌++◌, arith,
  min, length, take, drop, length-drop, ◌==◌, if◌then◌else◌, Bool-cases, inl, inr, map,
}

-- One answer of `send` or `recv`: how many bytes the kernel is willing to move, an interrupted
-- call (EINTR), another error, or a closed connection.
pub data Answer : Type 0 where
  moves : ℕ → Answer
  interrupted : Answer
  broken : Answer
  closed : Answer

-- `finished` is the 0 of the loop with what it moved and what is left, `failed` the -1, and
-- `pending` means that the loop still runs after the last answer.
pub data Outcome : Type 0 where
  finished : List ℕ → List ℕ → Outcome
  failed : Outcome
  pending : Outcome

-- What the loop goes on with after the bytes `xs`.
abbrev pub prepend : List ℕ → Outcome → Outcome
prepend xs (finished ys rest) = finished (xs ++ ys) rest
prepend xs failed = failed
prepend xs pending = pending

-- A call moves at most what was asked for and at most what there is, and at least one byte.
abbrev pub moved : ℕ → ℕ → List ℕ → ℕ
moved n len buf = min (suc n) (min len (length buf))

-- `tcp_recv_all` with `len` bytes to go, on a connection that carries `buf`; a connection with
-- nothing more to carry is closed. `tcp_send_all` is the same loop, over the bytes to be sent.
unfoldable pub move_all : ℕ → List ℕ → List Answer → Outcome
move_all len buf [] = if len == 0 then finished [] buf else pending
move_all len buf (moves n ∷ ans) =
    let k = moved n len buf in
    let more = prepend (take k buf) (move_all (len - k) (drop k buf) ans) in
    if len == 0 then finished [] buf else (if k == 0 then failed else more)
move_all len buf (interrupted ∷ ans) =
    let more = move_all len buf ans in if len == 0 then finished [] buf else more
move_all len buf (broken ∷ ans) = if len == 0 then finished [] buf else failed
move_all len buf (closed ∷ ans) = if len == 0 then finished [] buf else failed

take-nil : (n : ℕ) → take {A = ℕ} n [] ≡ []
take-nil zero = refl
take-nil (suc n) = refl

drop-nil : (n : ℕ) → drop {A = ℕ} n [] ≡ []
drop-nil zero = refl
drop-nil (suc n) = refl

take_at : (m n : ℕ) (xs : List ℕ) → m ≡ n → take m xs ≡ take n xs
take_at m n xs e = ap (λ i. take i xs) e

drop_at : (m n : ℕ) (xs : List ℕ) → m ≡ n → drop m xs ≡ drop n xs
drop_at m n xs e = ap (λ i. drop i xs) e

some_left : (len : ℕ) → (suc len == 0) ≡ false
some_left len = ground arith

take_split : (k n : ℕ) (xs : List ℕ) → take k xs ++ take n (drop k xs) ≡ take (k + n) xs
take_split zero n xs = ap (λ m. take m xs) (omega arith)
take_split (suc k) n [] = take-nil n ∙ sym (take-nil (suc k + n))
take_split (suc k) n (x ∷ xs) =
    ap (λ l. x ∷ l) (take_split k n xs) ∙ take_at (suc (k + n)) (suc k + n) (x ∷ xs) (omega arith)

drop_split : (k n : ℕ) (xs : List ℕ) → drop n (drop k xs) ≡ drop (k + n) xs
drop_split zero n xs = ap (λ m. drop m xs) (omega arith)
drop_split (suc k) n [] = drop-nil n ∙ sym (drop-nil (suc k + n))
drop_split (suc k) n (x ∷ xs) =
    drop_split k n xs ∙ drop_at (suc (k + n)) (suc k + n) (x ∷ xs) (omega arith)

-- What a finished loop has moved.
abbrev pub Exact : ℕ → List ℕ → Outcome → Type 0
Exact len buf (finished xs rest) = (xs ≡ take len buf) × (rest ≡ drop len buf) × (len ≤ length buf)
Exact len buf failed = Unit
Exact len buf pending = Unit

Exact_prepend :
    (len k : ℕ) (buf : List ℕ) (o : Outcome)
    → k ≤ len
    → k ≤ length buf
    → Exact (len - k) (drop k buf) o
    → Exact len buf (prepend (take k buf) o)
Exact_prepend len k buf (finished xs rest) h h' (e, f, g) = (
  ap (λ ys. take k buf ++ ys) e ∙ take_split k (len - k) buf ∙ ap (λ m. take m buf) (omega arith),
  f ∙ drop_split k (len - k) buf ∙ ap (λ m. drop m buf) (omega arith),
  omega (arith, length-drop k buf),
)
Exact_prepend len k buf failed h h' e = tt
Exact_prepend len k buf pending h h' e = tt

Exact_unless_done :
    (len : ℕ) (buf : List ℕ) (o : Outcome)
    → Exact len buf o
    → Exact len buf (if len == 0 then finished [] buf else o)
Exact_unless_done zero buf o e = (refl, refl, omega arith)
Exact_unless_done (suc len) buf o e = rw (some_left len) e

Exact_moved :
    (len : ℕ) (buf : List ℕ) (n : ℕ) (o : Outcome)
    → Exact (len - moved n len buf) (drop (moved n len buf) buf) o
    → Exact len buf
        (if moved n len buf == 0 then failed else prepend (take (moved n len buf) buf) o)
Exact_moved len buf n o e = elim (Bool-cases (moved n len buf == 0)) [
  | inl none_moved ↦ rw none_moved tt
  | inr some_moved ↦
      rw some_moved (Exact_prepend len (moved n len buf) buf o (omega arith) (omega arith) e)
]

-- However the kernel cuts the stream, and however often it is interrupted, a loop that ends well
-- has moved exactly the next `len` bytes, in order, and left the rest of the stream.
pub move_all-Exact :
    (len : ℕ) (buf : List ℕ) (answers : List Answer) → Exact len buf (move_all len buf answers)
unfolding move_all
move_all-Exact len buf [] = Exact_unless_done len buf pending tt
move_all-Exact len buf (moves n ∷ ans) = Exact_unless_done len buf _ (
    Exact_moved len buf n (move_all (len - moved n len buf) (drop (moved n len buf) buf) ans)
      (move_all-Exact (len - moved n len buf) (drop (moved n len buf) buf) ans))
move_all-Exact len buf (interrupted ∷ ans) =
    Exact_unless_done len buf (move_all len buf ans) (move_all-Exact len buf ans)
move_all-Exact len buf (broken ∷ ans) = Exact_unless_done len buf failed tt
move_all-Exact len buf (closed ∷ ans) = Exact_unless_done len buf failed tt

-- With `len` bytes there, `len` answers of the kernel that move something are enough for the loop
-- to end well.
pub move_all_total :
    (len : ℕ) (buf : List ℕ) (ns : List ℕ)
    → len ≤ length buf
    → len ≤ length ns
    → move_all len buf (map moves ns) ≡ finished (take len buf) (drop len buf)
unfolding move_all
move_all_total zero buf [] h h' = refl
move_all_total (suc len) buf [] h h' = absurd (omega arith)
move_all_total zero buf (n ∷ ns) h h' = refl
move_all_total (suc len) buf (n ∷ ns) h h' =
    let k = moved n (suc len) buf in
    let pos : 0 < k = omega arith in
    let test : (k == 0) ≡ false = ground arith in
    let ih =
      move_all_total (suc len - k) (drop k buf) ns (omega (arith, length-drop k buf))
        (omega arith) in
    rw (some_left len, test, ih)
      (ap₂ finished
        (take_split k (suc len - k) buf ∙ take_at (k + (suc len - k)) (suc len) buf (omega arith))
        (drop_split k (suc len - k) buf ∙ drop_at (k + (suc len - k)) (suc len) buf (omega arith)))
