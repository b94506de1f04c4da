-- ===== src/Eth/Frames.antt =====
-- A ring of frames is a bounded queue of frames.
use mathlib.Core.Option
use qemu_vcs.Base.{
  ℕ, ◌+◌, ◌-◌, ◌%◌, ◌^◌, ◌≤◌, ◌<◌, ◌≡◌, ◌≢◌, refl, sym, ap, ◌∙◌, some, false, inl, inr, List, [],
  ◌∷◌, ◌++◌, arith, length, u32, get_or, set, length-set, Bool-cases, ==_iff, ◌==◌,
}
use qemu_vcs.Circular.Array.{held, held_empty, held_full, held_room, held_push, held_pop}
use qemu_vcs.Fifo
use qemu_vcs.Fifo.{Impl}
use qemu_vcs.Eth.Shm.{Frame, zero_frame, FrameRing, enqueue, dequeue}

pub record IsValid (r : FrameRing) : Type 0 where
  pub two : 2 ≤ r.depth
  pub head_in : r.head < r.depth
  pub tail_in : r.tail < r.depth
  pub fits : r.depth ≤ length r.slots
  pub small : r.depth < 2 ^ 32

abbrev pub contents : FrameRing → List Frame
contents r = held zero_frame r.slots r.depth r.tail r.head

no_wrap :
    {r : FrameRing} → IsValid r → (i : ℕ) → i < r.depth → u32 (i + 1) % r.depth ≡ (i + 1) % r.depth
no_wrap {r} v i h = let s = v.small in ap (λ k. k % r.depth) (omega arith)

ne_of_test : {x y : ℕ} → (x == y) ≡ false → x ≢ y
ne_of_test h = ground arith

pub enqueue-IsValid :
    (r : FrameRing) (f : Frame) {r' : FrameRing} → IsValid r → enqueue r f ≡ some r' → IsValid r'
unfolding enqueue
enqueue-IsValid r f {r'} v e = ground (arith, length-set r.slots r.head f)

pub dequeue-IsValid :
    (r : FrameRing) {f : Frame} {r' : FrameRing} → IsValid r → dequeue r ≡ some (f, r') → IsValid r'
unfolding dequeue
dequeue-IsValid r v e = ground arith

-- `eth_shm_enqueue` is refused exactly when `depth - 1` frames wait, and otherwise appends the
-- frame.
pub enqueue_refines :
    (r : FrameRing) (f : Frame)
    → IsValid r
    → Option.map contents (enqueue r f) ≡ Fifo.put (r.depth - 1) (contents r) f
unfolding enqueue Fifo.put
enqueue_refines r f v = elim (Bool-cases (u32 (r.head + 1) % r.depth == r.tail)) [
  | inl full ↦
      let e : length (contents r) ≡ r.depth - 1 =
        held_full zero_frame r.slots v.tail_in v.head_in (sym next ∙ (==_iff _ _).0 full) in
      rw (full, (==_iff (length (contents r)) _).1 e) refl
  | inr room ↦
      let ne : (r.head + 1) % r.depth ≢ r.tail = (λ e. ne_of_test room (next ∙ e)) in
      let lt = held_room zero_frame r.slots v.tail_in v.head_in ne in
      let test : (length (contents r) == r.depth - 1) ≡ false = ground arith in
      rw (room, test)
        (ap some (
          ap (λ t. held zero_frame (set r.slots r.head f) r.depth r.tail t) next
          ∙ held_push zero_frame r.slots v.tail_in v.head_in f v.fits ne))
]
  where
    next : u32 (r.head + 1) % r.depth ≡ (r.head + 1) % r.depth
    next = no_wrap v r.head v.head_in

-- `eth_shm_dequeue` is refused exactly when no frame waits, and otherwise hands out the oldest.
pub dequeue_refines :
    (r : FrameRing)
    → IsValid r
    → Option.map (λ (p : Frame × FrameRing). (p.0, contents p.1)) (dequeue r)
      ≡ Fifo.get (contents r)
unfolding dequeue Fifo.get
dequeue_refines r v = elim (Bool-cases (r.tail == r.head)) [
  | inl empty ↦
      rw empty (
        ap Fifo.get
          (sym (held_empty zero_frame r.slots v.tail_in v.head_in ((==_iff _ _).0 empty))))
  | inr more ↦ rw more (
      ap Fifo.get (
        sym (
          held_pop zero_frame r.slots v.tail_in v.head_in (ne_of_test more)
          ∙ ap (λ t. get_or r.slots r.tail zero_frame ∷ held zero_frame r.slots r.depth t r.head)
              (sym (no_wrap v r.tail v.tail_in)))))
]

put-eq-some :
    (limit : ℕ) (q : List Frame) (f : Frame) {l : List Frame}
    → Fifo.put limit q f ≡ some l
    → l ≡ q ++ (f ∷ [])
unfolding Fifo.put
put-eq-some limit q f e = ground arith

get-eq-some : (q : List Frame) {f : Frame} {l : List Frame} → Fifo.get q ≡ some (f, l) → q ≡ f ∷ l
unfolding Fifo.get
get-eq-some [] e = cc
get-eq-some (g ∷ q) e = ground arith

-- The queue after an accepted frame, and before a frame that was handed out.
pub contents-enqueue :
    (r : FrameRing) (f : Frame) {r' : FrameRing}
    → IsValid r
    → enqueue r f ≡ some r'
    → contents r' ≡ contents r ++ (f ∷ [])
contents-enqueue r f v e =
    put-eq-some (r.depth - 1) (contents r) f
      (sym (enqueue_refines r f v) ∙ ap (Option.map contents) e)

pub contents-dequeue :
    (r : FrameRing) {f : Frame} {r' : FrameRing}
    → IsValid r
    → dequeue r ≡ some (f, r')
    → contents r ≡ f ∷ contents r'
contents-dequeue r v e =
    get-eq-some (contents r) (
      sym (dequeue_refines r v)
      ∙ ap (Option.map (λ (p : Frame × FrameRing). (p.0, contents p.1))) e)

pub depth-enqueue :
    (r : FrameRing) (f : Frame) {r' : FrameRing} → enqueue r f ≡ some r' → r'.depth ≡ r.depth
unfolding enqueue
depth-enqueue r f e = ground arith

pub depth-dequeue :
    (r : FrameRing) {f : Frame} {r' : FrameRing} → dequeue r ≡ some (f, r') → r'.depth ≡ r.depth
unfolding dequeue
depth-dequeue r e = ground arith

-- A ring of `depth` slots, as an implementation of the queue. Every frame is accepted.
abbrev pub frame_fifo : ℕ → Impl Frame
frame_fifo depth = record {
  State = FrameRing;
  IsValid = λ r. IsValid r × (r.depth ≡ depth);
  Accepts = λ f. Unit;
  limit = depth - 1;
  contents = contents;
  enqueue = enqueue;
  dequeue = dequeue;
  enqueue_valid = λ s x v a e. (enqueue-IsValid s x v.0 e, depth-enqueue s x e ∙ v.1);
  dequeue_valid = λ s v e. (dequeue-IsValid s v.0 e, depth-dequeue s e ∙ v.1);
  enqueue_refines =
      λ s x v a. enqueue_refines s x v.0 ∙ ap (λ c. Fifo.put (c - 1) (contents s) x) v.1;
  dequeue_refines = λ s v. dequeue_refines s v.0;
}
