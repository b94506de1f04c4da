-- ===== src/Ring/Order.antt =====
-- The ring of bridge/common/ring_buffer.c seen by a client that makes several calls.
use qemu_vcs.Base.{ℕ, ◌-◌, ◌≡◌, ◌++◌, List, length}
use qemu_vcs.Fifo.{put, get, Op, run, final, Sends}
use qemu_vcs.Fifo.Laws.{run_refines, balance, all_taken, all_given}
use qemu_vcs.Ring.{Ring, enqueue, dequeue}
use qemu_vcs.Ring.Refine.{contents, ring_fifo, Sized}

-- No sequence of enqueues and dequeues of elements of the ring's size tells a valid ring from a
-- first-in first-out queue of at most `capacity - 1` elements: every reply is the same.
pub ring_run :
    (capacity element_size : ℕ) (r : Ring) (ops : List (Op (List ℕ)))
    → Sized capacity element_size r
    → Sends (λ x. length x ≡ element_size) ops
    → run enqueue dequeue r ops ≡ run (put (capacity - 1)) get (contents r) ops
ring_run capacity element_size r ops v a = run_refines (ring_fifo capacity element_size) r ops v a

-- On a valid ring nothing is lost, repeated or reordered: the elements that it held, followed by
-- those that it accepted, are those that it handed out, followed by those that it holds.
pub ring_balance :
    (capacity element_size : ℕ) (r : Ring) (ops : List (Op (List ℕ)))
    → Sized capacity element_size r
    → Sends (λ x. length x ≡ element_size) ops
    → contents r ++ all_taken ops (run enqueue dequeue r ops)
      ≡ all_given (run enqueue dequeue r ops) ++ contents (final enqueue dequeue r ops)
ring_balance capacity element_size r ops v a = balance (ring_fifo capacity element_size) r ops v a
