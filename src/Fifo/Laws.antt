-- ===== src/Fifo/Laws.antt =====
-- What holds of every implementation of the queue, from its laws alone.
use mathlib.Core.Option
use qemu_vcs.Base.{
  ℕ, ◌≡◌, refl, ap, ap₂, ◌∙◌, sym, Option, none, some, List, [], ◌∷◌, ◌++◌, arith, length, ◌==◌,
  append-nil, append_assoc, Bool-cases, inl, inr,
}
use qemu_vcs.Fifo.{put, get, Op, send, receive, Reply, accepted, item}
use qemu_vcs.Fifo.{after_send, after_receive, serve, run, final, Impl, Sends}

-- What the queue took of the items sent, and what it handed out.
abbrev pub taken : {A : Type 0} → Op A → Reply A → List A
taken (send x) accepted = x ∷ []
taken (send x) _ = []
taken receive _ = []

abbrev pub given : {A : Type 0} → Reply A → List A
given (item x) = x ∷ []
given _ = []

module _ {A : Type 0} (q : Impl A) where
  open q use {State, IsValid, Accepts, limit, contents, enqueue, dequeue}

  send_reply :
      (s : State) (x : A)
      → Option.map contents (enqueue s x) ≡ put limit (contents s) x
      → ((serve enqueue dequeue s (send x)).0 ≡ (serve (put limit) get (contents s) (send x)).0)
        × (contents (serve enqueue dequeue s (send x)).1
            ≡ (serve (put limit) get (contents s) (send x)).1)
  send_reply s x law = (go (enqueue s x) (put limit (contents s) x) law)
    where
      go :
          (o : Option State) (p : Option (List A))
          → Option.map contents o ≡ p
          → ((after_send enqueue dequeue s o).0 ≡ (after_send (put limit) get (contents s) p).0)
            × (contents (after_send enqueue dequeue s o).1
                ≡ (after_send (put limit) get (contents s) p).1)
      go none none e = (refl, refl)
      go none (some l) e = absurd (cc)
      go (some s') none e = absurd (cc)
      go (some s') (some l) e = (refl, ground arith)

  receive_reply :
      (s : State)
      → Option.map (λ (r : A × State). (r.0, contents r.1)) (dequeue s) ≡ get (contents s)
      → ((serve enqueue dequeue s receive).0 ≡ (serve (put limit) get (contents s) receive).0)
        × (contents (serve enqueue dequeue s receive).1
            ≡ (serve (put limit) get (contents s) receive).1)
  receive_reply s law = go (dequeue s) (get (contents s)) law
    where
      go :
          (o : Option (A × State)) (p : Option (A × List A))
          → Option.map (λ (r : A × State). (r.0, contents r.1)) o ≡ p
          → ((after_receive enqueue dequeue s o).0
              ≡ (after_receive (put limit) get (contents s) p).0)
            × (contents (after_receive enqueue dequeue s o).1
                ≡ (after_receive (put limit) get (contents s) p).1)
      go none none e = (refl, refl)
      go none (some l) e = absurd (cc)
      go (some r) none e = absurd (cc)
      go (some (x, s')) (some (y, l)) e = (ground arith, ground arith)

  abbrev Allowed : Op A → Type 0
  Allowed (send x) = Accepts x
  Allowed receive = Unit

  -- One call: the same reply as the queue's, the contents that it leaves, and a valid state.
  serve_refines :
      (s : State) (op : Op A)
      → IsValid s
      → Allowed op
      → ((serve enqueue dequeue s op).0 ≡ (serve (put limit) get (contents s) op).0)
        × (contents (serve enqueue dequeue s op).1 ≡ (serve (put limit) get (contents s) op).1)
  serve_refines s (send x) v a = send_reply s x (q.enqueue_refines s x v a)
  serve_refines s receive v a = receive_reply s (q.dequeue_refines s v)

  serve-IsValid :
      (s : State) (op : Op A) → IsValid s → Allowed op → IsValid (serve enqueue dequeue s op).1
  serve-IsValid s (send x) v a = go (enqueue s x) refl
    where
      go : (o : Option State) → enqueue s x ≡ o → IsValid (after_send enqueue dequeue s o).1
      go none e = v
      go (some s') e = q.enqueue_valid s x v a e
  serve-IsValid s receive v a = go (dequeue s) refl
    where
      go : (o : Option (A × State)) → dequeue s ≡ o → IsValid (after_receive enqueue dequeue s o).1
      go none e = v
      go (some (x, s')) e = q.dequeue_valid s v e

  first-Allowed : (op : Op A) (ops : List (Op A)) → Sends Accepts (op ∷ ops) → Allowed op
  first-Allowed (send x) ops a = a.0
  first-Allowed receive ops a = tt

  rest_allowed : (op : Op A) (ops : List (Op A)) → Sends Accepts (op ∷ ops) → Sends Accepts ops
  rest_allowed (send x) ops a = a.1
  rest_allowed receive ops a = a

  -- No sequence of calls tells the implementation from the bounded queue.
  pub run_refines :
      (s : State) (ops : List (Op A))
      → IsValid s
      → Sends Accepts ops
      → run enqueue dequeue s ops ≡ run (put limit) get (contents s) ops
  unfolding run
  run_refines s [] v a = refl
  run_refines s (op ∷ ops) v a =
      let allowed = first-Allowed op ops a in
      let step = serve_refines s op v allowed in
      ap₂ ◌∷◌ step.0 (
        run_refines (serve enqueue dequeue s op).1 ops (serve-IsValid s op v allowed)
          (rest_allowed op ops a)
        ∙ ap (λ l. run (put limit) get l ops) step.1)

  pub final_refines :
      (s : State) (ops : List (Op A))
      → IsValid s
      → Sends Accepts ops
      → IsValid (final enqueue dequeue s ops)
        × (contents (final enqueue dequeue s ops) ≡ final (put limit) get (contents s) ops)
  unfolding final
  final_refines s [] v a = (v, refl)
  final_refines s (op ∷ ops) v a =
      let allowed = first-Allowed op ops a in
      let step = serve_refines s op v allowed in
      let rest =
        final_refines (serve enqueue dequeue s op).1 ops (serve-IsValid s op v allowed)
          (rest_allowed op ops a) in
      (rest.0, rest.1 ∙ ap (λ l. final (put limit) get l ops) step.1)

-- The items that a run of calls was accepted with, and those that it handed out.
abbrev pub all_taken : {A : Type 0} → List (Op A) → List (Reply A) → List A
all_taken [] rs = []
all_taken (op ∷ ops) [] = []
all_taken (op ∷ ops) (r ∷ rs) = taken op r ++ all_taken ops rs

abbrev pub all_given : {A : Type 0} → List (Reply A) → List A
all_given [] = []
all_given (r ∷ rs) = given r ++ all_given rs

module _ {A : Type 0} (limit : ℕ) where
  abbrev step : List A → Op A → Reply A × List A
  step = serve (put limit) get

  step_balance :
      (l : List A) (op : Op A) → l ++ taken op (step l op).0 ≡ given (step l op).0 ++ (step l op).1
  unfolding put get
  step_balance l (send x) = elim (Bool-cases (length l == limit)) [
    | inl full ↦ rw full (append-nil l)
    | inr room ↦ rw room refl
  ]
  step_balance [] receive = refl
  step_balance (x ∷ l) receive = append-nil (x ∷ l)

  queue_balance :
      (l : List A) (ops : List (Op A))
      → l ++ all_taken ops (run (put limit) get l ops)
        ≡ all_given (run (put limit) get l ops) ++ final (put limit) get l ops
  unfolding run final
  queue_balance l [] = append-nil l
  queue_balance l (op ∷ ops) =
      let r = (step l op).0 in
      let l' = (step l op).1 in
      sym (append_assoc l (taken op r) (all_taken ops (run (put limit) get l' ops)))
      ∙ ap (λ k. k ++ all_taken ops (run (put limit) get l' ops)) (step_balance l op)
      ∙ append_assoc (given r) l' (all_taken ops (run (put limit) get l' ops))
      ∙ ap (λ k. given r ++ k) (queue_balance l' ops)
      ∙ sym (
          append_assoc (given r) (all_given (run (put limit) get l' ops))
            (final (put limit) get l' ops))

module _ {A : Type 0} (q : Impl A) where
  -- Nothing is lost, repeated or reordered: what was held and then accepted is what was handed
  -- out, followed by what is still held.
  pub balance :
      (s : q.State) (ops : List (Op A))
      → q.IsValid s
      → Sends q.Accepts ops
      → q.contents s ++ all_taken ops (run q.enqueue q.dequeue s ops)
        ≡ all_given (run q.enqueue q.dequeue s ops) ++ q.contents (final q.enqueue q.dequeue s ops)
  balance s ops v a =
      rw (run_refines q s ops v a, (final_refines q s ops v a).1)
        (queue_balance q.limit (q.contents s) ops)
