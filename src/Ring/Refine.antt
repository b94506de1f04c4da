-- ===== src/Ring/Refine.antt =====
-- A valid ring is the bounded queue of the elements that it holds: one slot stays free.
use mathlib.Core.Option
use qemu_vcs.Base.{
  ℕ, suc, ◌+◌, ◌-◌, ◌*◌, ◌%◌, ◌^◌, ◌≤◌, ◌<◌, ◌≡◌, ◌≢◌, refl, sym, ap, ap₂, ◌∙◌, ◌⊎◌, inl, inr, some,
  true, false, List, [], ◌∷◌, ◌++◌, arith, length, u32, take, take_all, write_at, read_at,
  read_at-write_at_apart, read_at-write_at_self, Bool-cases, ==_iff, ◌==◌, ◌↔◌, leb, if◌then◌else◌,
}
use qemu_vcs.Circular.{
  gap, window, window-cons, window_ext, length-window, gap_reaches, gap-lt, slot_in_use_ne,
  full_gap, gap_write, gap_read, gap_empty, gap_pos,
}
use qemu_vcs.Fifo
use qemu_vcs.Fifo.{Impl}
use qemu_vcs.Ring.{Ring, enqueue, dequeue, is_empty, is_full, count, capacity, offset, next}
use qemu_vcs.Ring.Inv.{
  IsValid, slots_apart, slot_bounds, capacity_small, next_no_wrap, enqueue-IsValid, dequeue-IsValid,
}

-- The element in slot `i`.
abbrev pub slot : Ring → ℕ → List ℕ
slot r i = read_at r.bytes (offset r.hdr i) r.hdr.element_size

abbrev pub used : Ring → ℕ
used r = gap r.hdr.capacity r.hdr.head r.hdr.tail

-- The elements held, oldest first.
abbrev pub contents : Ring → List (List ℕ)
contents r = window (slot r) r.hdr.capacity r.hdr.head (used r)

pub length-contents : (r : Ring) → length (contents r) ≡ used r
length-contents r = length-window (slot r) r.hdr.capacity r.hdr.head (used r)

-- The bytes after an element is written into slot `t`.
abbrev written : Ring → List ℕ → List ℕ
written r x = write_at r.bytes (offset r.hdr r.hdr.tail) x

module _ {r : Ring} (v : IsValid r) (x : List ℕ) (size : length x ≡ r.hdr.element_size) where
  open v use {head_in, tail_in}

  slot_written : read_at (written r x) (offset r.hdr r.hdr.tail) r.hdr.element_size ≡ x
  slot_written =
      ap (λ n. read_at (written r x) (offset r.hdr r.hdr.tail) n) (sym size)
      ∙ read_at-write_at_self r.bytes (offset r.hdr r.hdr.tail) x
          (omega (arith, slot_bounds v r.hdr.tail tail_in, size))

  slot_kept :
      (i : ℕ)
      → i < r.hdr.capacity
      → i ≢ r.hdr.tail
      → read_at (written r x) (offset r.hdr i) r.hdr.element_size ≡ slot r i
  slot_kept i lt ne =
      read_at-write_at_apart r.bytes (offset r.hdr r.hdr.tail) x (offset r.hdr i) r.hdr.element_size
        (apart (slots_apart i r.hdr.tail r.hdr.element_size ne))
    where
      apart :
          (i * r.hdr.element_size + r.hdr.element_size ≤ r.hdr.tail * r.hdr.element_size)
            ⊎ (r.hdr.tail * r.hdr.element_size + r.hdr.element_size ≤ i * r.hdr.element_size)
          → (offset r.hdr i + r.hdr.element_size ≤ offset r.hdr r.hdr.tail)
            ⊎ (offset r.hdr r.hdr.tail + length x ≤ offset r.hdr i)
      apart (inl l) = inl (omega (arith, slot_bounds v i lt, slot_bounds v r.hdr.tail tail_in))
      apart (inr l) =
          inr (omega (arith, slot_bounds v i lt, slot_bounds v r.hdr.tail tail_in, size))

  take_element : take r.hdr.element_size x ≡ x
  take_element = ap (λ n. take n x) (sym size) ∙ take_all x

  -- The queue after the write: slot `tail` is one more item, the slots in use are as before.
  window-written :
      window
        (λ i. read_at (written r x) (offset r.hdr i) r.hdr.element_size)
        r.hdr.capacity
        r.hdr.head
        (suc (used r))
      ≡ contents r ++ (x ∷ [])
  window-written =
      ap₂ (λ l a. l ++ (a ∷ []))
        (window_ext (slot r) (λ i. read_at (written r x) (offset r.hdr i) r.hdr.element_size)
          r.hdr.capacity r.hdr.head (used r)
          (λ i lt.
            slot_kept ((r.hdr.head + i) % r.hdr.capacity) (omega arith)
              (slot_in_use_ne head_in tail_in i lt)))
        (ap (λ i. read_at (written r x) (offset r.hdr i) r.hdr.element_size)
            (gap_reaches head_in tail_in)
          ∙ slot_written)

  -- The ring after an accepted `ring_buf_enqueue`.
  abbrev pushed : Ring
  pushed = record {
    hdr = record (r.hdr) { tail = next r.hdr r.hdr.tail };
    bytes = written r (take r.hdr.element_size x);
  }

  contents-pushed : next r.hdr r.hdr.tail ≢ r.hdr.head → contents pushed ≡ contents r ++ (x ∷ [])
  contents-pushed room =
      ap₂
        (λ (y : List ℕ) (n : ℕ).
          window (λ i. read_at (written r y) (offset r.hdr i) r.hdr.element_size) r.hdr.capacity
            r.hdr.head n)
        take_element (one_more (next_no_wrap v r.hdr.tail tail_in))
      ∙ window-written
    where
      one_more :
          next r.hdr r.hdr.tail ≡ (r.hdr.tail + 1) % r.hdr.capacity
          → gap r.hdr.capacity r.hdr.head (next r.hdr r.hdr.tail) ≡ suc (used r)
      one_more e =
          ap (λ t. gap r.hdr.capacity r.hdr.head t) e
          ∙ omega (arith, gap_write head_in tail_in (λ f. room (e ∙ f)))

module _ {r : Ring} (v : IsValid r) where
  open v use {head_in, tail_in, two}

  pub full_length : next r.hdr r.hdr.tail ≡ r.hdr.head → length (contents r) ≡ r.hdr.capacity - 1
  full_length e = omega (
    arith,
    length-contents r,
    full_gap head_in tail_in (sym (next_no_wrap v r.hdr.tail tail_in) ∙ e),
  )

  pub room_length : next r.hdr r.hdr.tail ≢ r.hdr.head → length (contents r) < r.hdr.capacity - 1
  room_length ne =
      let e = next_no_wrap v r.hdr.tail tail_in in
      let one_more = gap_write head_in tail_in (λ f. ne (e ∙ f)) in
      let bound =
        gap-lt {cap = r.hdr.capacity} {h = r.hdr.head} {t = (r.hdr.tail + 1) % r.hdr.capacity}
          head_in (omega arith) in
      omega (arith, length-contents r, one_more, bound)

  not_full :
      next r.hdr r.hdr.tail ≢ r.hdr.head → (length (contents r) == r.hdr.capacity - 1) ≡ false
  not_full ne = let lt = room_length ne in ground arith

ne_of_test : {a b : ℕ} → (a == b) ≡ false → a ≢ b
ne_of_test h = ground arith

-- `ring_buf_enqueue` is refused exactly when the queue holds `capacity - 1` elements, and
-- otherwise appends the element.
pub enqueue_refines :
    (r : Ring) (x : List ℕ)
    → IsValid r
    → length x ≡ r.hdr.element_size
    → Option.map contents (enqueue r x) ≡ Fifo.put (r.hdr.capacity - 1) (contents r) x
unfolding enqueue Fifo.put
enqueue_refines r x v size = elim (Bool-cases (next r.hdr r.hdr.tail == r.hdr.head)) [
  | inl full ↦
      rw (full, (==_iff (length (contents r)) _).1 (full_length v ((==_iff _ _).0 full))) refl
  | inr room ↦
      rw (room, not_full v (ne_of_test room)) (ap some (contents-pushed v x size (ne_of_test room)))
]

popped : (r : Ring) → Ring
popped r = record r { hdr = record (r.hdr) { head = next r.hdr r.hdr.head } }

contents-popped :
    {r : Ring}
    → IsValid r
    → r.hdr.head ≢ r.hdr.tail
    → contents r ≡ slot r r.hdr.head ∷ contents (popped r)
unfolding popped
contents-popped {r} v ne =
    ap (λ n. window (slot r) r.hdr.capacity r.hdr.head n) (sym less)
    ∙ window-cons (slot r) r.hdr.capacity r.hdr.head
        (gap r.hdr.capacity ((r.hdr.head + 1) % r.hdr.capacity) r.hdr.tail) v.head_in
    ∙ ap
        (λ h.
          slot r r.hdr.head ∷ window (slot r) r.hdr.capacity h (gap r.hdr.capacity h r.hdr.tail))
        (sym (next_no_wrap v r.hdr.head v.head_in))
  where
    less : suc (gap r.hdr.capacity ((r.hdr.head + 1) % r.hdr.capacity) r.hdr.tail) ≡ used r
    less = omega (arith, gap_read v.head_in v.tail_in ne)

nil_contents : (r : Ring) → IsValid r → r.hdr.head ≡ r.hdr.tail → contents r ≡ []
nil_contents r v e =
    ap (λ n. window (slot r) r.hdr.capacity r.hdr.head n) (gap_empty v.head_in v.tail_in e)

-- `ring_buf_dequeue` is refused exactly when the queue is empty, and otherwise hands out the
-- oldest element.
pub dequeue_refines :
    (r : Ring)
    → IsValid r
    → Option.map (λ (p : List ℕ × Ring). (p.0, contents p.1)) (dequeue r) ≡ Fifo.get (contents r)
unfolding dequeue Fifo.get popped
dequeue_refines r v = elim (Bool-cases (r.hdr.head == r.hdr.tail)) [
  | inl empty ↦ rw empty (ap Fifo.get (sym (nil_contents r v ((==_iff _ _).0 empty))))
  | inr more ↦ rw more (ap Fifo.get (sym (contents-popped v (ne_of_test more))))
]

-- The queries on a valid ring answer for the queue: empty, full, and how many elements it holds;
-- the capacity that is reported is the bound of the queue.
pub queries :
    {r : Ring}
    → IsValid r
    → ((is_empty r ≡ true) ↔ (contents r ≡ []))
      × ((is_full r ≡ true) ↔ (length (contents r) ≡ capacity r))
      × (count r ≡ length (contents r))
      × (capacity r ≡ r.hdr.capacity - 1)
unfolding is_empty is_full count capacity
queries {r} v = (
  (λ e. nil_contents r v ((==_iff _ _).0 e), λ e. empty_test (ap length e)),
  (λ e. full_length v ((==_iff _ _).0 e) ∙ sym bound, full_test),
  counts (capacity_small v) ∙ sym (length-contents r),
  bound,
)
  where
    bound : u32 (r.hdr.capacity + 0xFFFFFFFF) ≡ r.hdr.capacity - 1
    bound = omega (arith, capacity_small v)

    empty_test : length (contents r) ≡ 0 → (r.hdr.head == r.hdr.tail) ≡ true
    empty_test e = ground (arith, length-contents r, gap_pos v.head_in v.tail_in)

    full_test :
        length (contents r) ≡ u32 (r.hdr.capacity + 0xFFFFFFFF)
        → (next r.hdr r.hdr.tail == r.hdr.head) ≡ true
    full_test e = ground (arith, bound, room_length v)

    counts :
        r.hdr.capacity < 2 ^ 32
        → (if leb r.hdr.head r.hdr.tail
            then r.hdr.tail - r.hdr.head
            else u32 (r.hdr.capacity + 2 ^ 32 - r.hdr.head + r.hdr.tail))
          ≡ used r
    counts small = ground arith

pub capacity-enqueue :
    (r : Ring) (x : List ℕ) {r' : Ring}
    → enqueue r x ≡ some r'
    → (r'.hdr.capacity ≡ r.hdr.capacity) × (r'.hdr.element_size ≡ r.hdr.element_size)
unfolding enqueue
capacity-enqueue r x e = ground arith

pub capacity-dequeue :
    (r : Ring) {x : List ℕ} {r' : Ring}
    → dequeue r ≡ some (x, r')
    → (r'.hdr.capacity ≡ r.hdr.capacity) × (r'.hdr.element_size ≡ r.hdr.element_size)
unfolding dequeue
capacity-dequeue r e = ground arith

abbrev pub Sized : ℕ → ℕ → Ring → Type 0
Sized cap element_size r = IsValid r × (r.hdr.capacity ≡ cap) × (r.hdr.element_size ≡ element_size)

-- A ring of `cap` slots for elements of `element_size` bytes, as an implementation of the queue.
abbrev pub ring_fifo : ℕ → ℕ → Impl (List ℕ)
ring_fifo cap element_size = record {
  State = Ring;
  IsValid = Sized cap element_size;
  Accepts = λ x. length x ≡ element_size;
  limit = cap - 1;
  contents = contents;
  enqueue = enqueue;
  dequeue = dequeue;
  enqueue_valid = λ s x v a e. (
    enqueue-IsValid s x v.0 e,
    (capacity-enqueue s x e).0 ∙ v.1,
    (capacity-enqueue s x e).1 ∙ v.2,
  );
  dequeue_valid = λ s v e.
      (dequeue-IsValid s v.0 e, (capacity-dequeue s e).0 ∙ v.1, (capacity-dequeue s e).1 ∙ v.2);
  enqueue_refines = λ s x v a.
      enqueue_refines s x v.0 (a ∙ sym v.2) ∙ ap (λ c. Fifo.put (c - 1) (contents s) x) v.1;
  dequeue_refines = λ s v. dequeue_refines s v.0;
}
