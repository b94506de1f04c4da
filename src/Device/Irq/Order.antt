-- ===== src/Device/Irq/Order.antt =====
-- The interrupt queue of qemu-plugin is a bounded queue: no interrupt is repeated or overtaken, and
-- one is dropped only where 256 wait.
use mathlib.Core.Option
use qemu_vcs.Base.{
  true, false, ℕ, zero, suc, ◌+◌, ◌-◌, ◌%◌, ◌≤◌, ◌<◌, ◌≡◌, refl, sym, ap, ap₂, ◌∙◌, ◌^◌, Option,
  none, if◌then◌else◌, some, List, [], ◌∷◌, ◌++◌, arith, length, leb, ◌==◌, get_or, set, length-set,
  get_or-set_self, get_or-set_ne, Bool-cases, inl, inr, ==_iff,
}
use qemu_vcs.Fifo.{
  send, receive, refused, accepted, nothing, item, after_send, after_receive, Impl, Op, run, Sends,
  put, get,
}
use qemu_vcs.Fifo.Laws.{run_refines}
use qemu_vcs.Device.Irq.{
  Irq, queue_size, Queued, queued, dropped, overflow, int_max, msi_cb, next_irq, bottom_half,
}

module _ {A : Type 0} (d : A) where
  -- So many interrupts from an index on, oldest first.
  abbrev pub waiting : List A → ℕ → ℕ → List A
  waiting slots h zero = []
  waiting slots h (suc n) = get_or slots (h % queue_size) d ∷ waiting slots (h + 1) n

  abbrev pub contents : Irq A → List A
  contents q = waiting q.slots q.head (q.tail - q.head)

  pub length-waiting : (slots : List A) (h n : ℕ) → length (waiting slots h n) ≡ n
  length-waiting slots h zero = refl
  length-waiting slots h (suc n) = omega (arith, length-waiting slots (h + 1) n)

  -- A write into a slot that is not in use adds one interrupt at the end.
  waiting-set :
      (slots : List A) (h n t : ℕ) (x : A)
      → t ≡ h + n
      → n < queue_size
      → length slots ≡ queue_size
      → waiting (set slots (t % queue_size) x) h (suc n) ≡ waiting slots h n ++ (x ∷ [])
  waiting-set slots h zero t x e room size =
      ap (λ y. y ∷ [])
        (ap (λ i. get_or (set slots (t % queue_size) x) (i % queue_size) d) (omega arith)
          ∙ get_or-set_self slots (t % queue_size) x d (omega arith))
  waiting-set slots h (suc n) t x e room size =
      ap₂ ◌∷◌ (get_or-set_ne slots (t % queue_size) (h % queue_size) x d (λ f. omega arith))
        (waiting-set slots (h + 1) n t x (omega arith) (omega arith) size)

pub record IsValid {A : Type 0} (q : Irq A) : Type 0 where
  pub length_ok : length q.slots ≡ queue_size
  pub ordered : q.head ≤ q.tail
  pub bounded : q.tail ≤ q.head + queue_size

-- The queue without the limits of `int`.
abbrev push : {A : Type 0} → Irq A → A → Option (Irq A)
push q x =
    if leb queue_size (q.tail - q.head)
    then none
    else some (record q { slots = set q.slots (q.tail % queue_size) x; tail = q.tail + 1 })

pub push-IsValid :
    {A : Type 0} (q : Irq A) (x : A) {q' : Irq A} → IsValid q → push q x ≡ some q' → IsValid q'
push-IsValid q x v e = ground (arith, length-set q.slots (q.tail % queue_size) x)

pub next_irq-IsValid :
    {A : Type 0} (d : A) (q : Irq A) {x : A} {q' : Irq A}
    → IsValid q
    → next_irq d q ≡ some (x, q')
    → IsValid q'
unfolding next_irq
next_irq-IsValid d q v e = ground arith

pub push_refines :
    {A : Type 0} (d : A) (q : Irq A) (x : A)
    → IsValid q
    → Option.map (contents d) (push q x) ≡ put queue_size (contents d q) x
unfolding put
push_refines d q x v =
    let size : length (contents d q) ≡ q.tail - q.head =
      length-waiting d q.slots q.head (q.tail - q.head) in
    elim (Bool-cases (leb queue_size (q.tail - q.head))) [
      | inl full ↦
          let test : (length (contents d q) == queue_size) ≡ true = ground arith in
          rw (full, test) refl
      | inr room ↦
          let test : (length (contents d q) == queue_size) ≡ false = ground arith in
          let more : q.tail + 1 - q.head ≡ suc (q.tail - q.head) = ground arith in
          let below : q.tail - q.head < queue_size = ground arith in
          rw (room, test)
            (ap some (
              ap (waiting d (set q.slots (q.tail % queue_size) x) q.head) more
              ∙ waiting-set d q.slots q.head (q.tail - q.head) q.tail x (omega (arith, v.ordered))
                  below v.length_ok))
    ]

pub next_irq_refines :
    {A : Type 0} (d : A) (q : Irq A)
    → IsValid q
    → Option.map (λ (p : A × Irq A). (p.0, contents d p.1)) (next_irq d q) ≡ get (contents d q)
unfolding next_irq get
next_irq_refines d q v = elim (Bool-cases (q.head == q.tail)) [
  | inl empty ↦
      let nothing : q.tail - q.head ≡ 0 = ground arith in
      rw empty (ap get (ap (waiting d q.slots q.head) (sym nothing)))
  | inr more ↦
      let some_left : suc (q.tail - (q.head + 1)) ≡ q.tail - q.head = ground arith in
      rw more (ap get (ap (waiting d q.slots q.head) some_left))
]

-- The queue of 256 interrupts.
abbrev pub irq_fifo : {A : Type 0} → A → Impl A
irq_fifo {A} d = record {
  State = Irq A;
  IsValid = IsValid;
  Accepts = λ x. Unit;
  limit = queue_size;
  contents = contents d;
  enqueue = push;
  dequeue = next_irq d;
  enqueue_valid = λ q x v a e. push-IsValid q x v e;
  dequeue_valid = λ q v e. next_irq-IsValid d q v e;
  enqueue_refines = λ q x v a. push_refines d q x v;
  dequeue_refines = λ q v. next_irq_refines d q v;
}

-- The queue that an interrupt leaves, where it is queued.
abbrev pub kept : {A : Type 0} → Queued A → Option (Irq A)
kept (queued q) = some q
kept dropped = none
kept overflow = none

abbrev pub enqueue : {A : Type 0} → Irq A → A → Option (Irq A)
enqueue q x = kept (msi_cb q x)

enqueue-push : {A : Type 0} (q : Irq A) (x : A) → q.tail < int_max → enqueue q x ≡ push q x
unfolding msi_cb
enqueue-push q x few = ground arith

push-tail :
    {A : Type 0} (q : Irq A) (x : A) {q' : Irq A} → push q x ≡ some q' → q'.tail ≡ q.tail + 1
push-tail q x e = ground arith

next_irq-tail :
    {A : Type 0} (d : A) (q : Irq A) {x : A} {q' : Irq A}
    → next_irq d q ≡ some (x, q')
    → q'.tail ≡ q.tail
unfolding next_irq
next_irq-tail d q e = ground arith

-- While so many interrupts more do not make the tail overflow, the limits of `int` do not show.
run-push :
    {A : Type 0} (d : A) (q : Irq A) (ops : List (Op A))
    → q.tail + length ops < 2 ^ 31
    → run enqueue (next_irq d) q ops ≡ run push (next_irq d) q ops
unfolding run
run-push d q [] few = refl
run-push d q (send x ∷ ops) few =
    ap
      (λ o.
        (after_send enqueue (next_irq d) q o).0
        ∷ run enqueue (next_irq d) (after_send enqueue (next_irq d) q o).1 ops)
      (enqueue-push q x (omega arith))
    ∙ step (push q x) refl (λ q' h. run-push d q' ops h)
  where
    step :
        (o : Option (Irq _))
        → push q x ≡ o
        → ((q' : Irq _)
            → q'.tail + length ops < 2 ^ 31
            → run enqueue (next_irq d) q' ops ≡ run push (next_irq d) q' ops)
        → ((after_send enqueue (next_irq d) q o).0
            ∷ run enqueue (next_irq d) (after_send enqueue (next_irq d) q o).1 ops)
          ≡ ((after_send push (next_irq d) q o).0
              ∷ run push (next_irq d) (after_send push (next_irq d) q o).1 ops)
    step none e rest = ap (λ l. refused ∷ l) (rest q (omega arith))
    step (some q') e rest = ap (λ l. accepted ∷ l) (rest q' (omega (arith, push-tail q x e)))
run-push d q (receive ∷ ops) few = step (next_irq d q) refl (λ q' h. run-push d q' ops h)
  where
    step :
        (o : Option (_ × Irq _))
        → next_irq d q ≡ o
        → ((q' : Irq _)
            → q'.tail + length ops < 2 ^ 31
            → run enqueue (next_irq d) q' ops ≡ run push (next_irq d) q' ops)
        → ((after_receive enqueue (next_irq d) q o).0
            ∷ run enqueue (next_irq d) (after_receive enqueue (next_irq d) q o).1 ops)
          ≡ ((after_receive push (next_irq d) q o).0
              ∷ run push (next_irq d) (after_receive push (next_irq d) q o).1 ops)
    step none e rest = ap (λ l. nothing ∷ l) (rest q (omega arith))
    step (some (x, q')) e rest = ap (λ l. item x ∷ l) (rest q' (omega (arith, next_irq-tail d q e)))

-- However the poller's thread and the bottom half interleave, every interrupt that is accepted is
-- taken once and in order, and one is dropped exactly when 256 wait: the replies are those of a
-- first-in first-out queue of at most 256 interrupts. The tail and the number of calls together are
-- below 2 ^ 31, so that no index overflows.
pub irq_run :
    {A : Type 0} (d : A) (q : Irq A) (ops : List (Op A))
    → IsValid q
    → q.tail + length ops < 2 ^ 31
    → Sends (λ x. Unit) ops
    → run enqueue (next_irq d) q ops ≡ run (put queue_size) get (contents d q) ops
irq_run d q ops v few a = run-push d q ops few ∙ run_refines (irq_fifo d) q ops v a

-- A bottom half that nobody disturbs takes every interrupt that waits, in order, and leaves none:
-- as many rounds as interrupts are enough, at most 256.
pub bottom_half_all :
    {A : Type 0} (d : A) (rounds : ℕ) (q : Irq A)
    → IsValid q
    → q.tail - q.head ≤ rounds
    → bottom_half d rounds q ≡ (contents d q, record q { head = q.tail })
unfolding bottom_half next_irq
bottom_half_all d zero q v enough =
    let level : q.head ≡ q.tail = omega (arith, v.ordered) in
    let nothing : q.tail - q.head ≡ 0 = omega arith in
    ap₂ (λ l h. (l, record q { head = h })) (ap (waiting d q.slots q.head) (sym nothing)) level
bottom_half_all d (suc rounds) q v enough = elim (Bool-cases (q.head == q.tail)) [
  | inl empty ↦
      let nothing : q.tail - q.head ≡ 0 = ground arith in
      rw (bottom_half, empty)
        (ap₂ (λ l h. (l, record q { head = h })) (ap (waiting d q.slots q.head) (sym nothing))
          ((==_iff _ _).0 empty))
  | inr more ↦
      let some_left : suc (q.tail - (q.head + 1)) ≡ q.tail - q.head = ground arith in
      let q' : Irq _ = record q { head = q.head + 1 } in
      let v' : IsValid q' = ground arith in
      rw (bottom_half, more)
        (ap (λ (r : List _ × Irq _). (get_or q.slots (q.head % queue_size) d ∷ r.0, r.1))
            (bottom_half_all d rounds q' v' (ground arith))
          ∙ ap (λ l. (l, record q { head = q.tail })) (ap (waiting d q.slots q.head) some_left))
]
