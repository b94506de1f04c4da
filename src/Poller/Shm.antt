-- ===== src/Poller/Shm.antt =====
-- bridge/qemu/irq_poller.c: a turn of the thread over the shared memory.
use mathlib.Core.Option
use qemu_vcs.Base.{
  ℕ, zero, suc, ◌<◌, ◌≡◌, refl, sym, ap, ◌∙◌, Option, none, some, List, [], ◌∷◌, Bool, true, false,
  ◌||◌, arith, length, Option-cases, inl, inr,
}
use qemu_vcs.Fifo.{get, Impl}
use qemu_vcs.Messages.{DmaReq, MsiEvent}
use qemu_vcs.Shm.{Shm}
use qemu_vcs.Shm.Channels.{recv_dma_req, recv_msi}

-- A loop that takes and hands on until nothing is left, for at most so many rounds: what it has
-- taken, and the device and the memory at the end. A callback may write to the memory.
unfoldable pub hand_on :
    {A W S : Type 0}
    → (S → Option (A × S))
    → (A → W → S → W × S)
    → ℕ
    → W
    → S
    → Option (List A × (W × S))
hand_on take call zero w s = none
hand_on take call (suc fuel) w s = elim (take s) [
  | none ↦ some ([], (w, s))
  | some (x, s') ↦
      let (w', s'') = call x w s' in
      elim (hand_on take call fuel w' s'') [ none ↦ none | some (xs, end) ↦ some (x ∷ xs, end) ]
]

abbrev pub some_taken : {A : Type 0} → List A → Bool
some_taken [] = false
some_taken (x ∷ xs) = true

-- A turn of `poller_thread` without a transport, with both callbacks: the requests, the interrupts
-- and `did_work`.
unfoldable pub turn_shm :
    {W : Type 0}
    → (DmaReq → W → Shm → W × Shm)
    → (MsiEvent → W → Shm → W × Shm)
    → ℕ
    → W
    → Shm
    → Option (Bool × (W × Shm))
turn_shm dma_cb msi_cb fuel w s = elim (hand_on recv_dma_req dma_cb fuel w s) [
  | none ↦ none
  | some (reqs, (w', s')) ↦ elim (hand_on recv_msi msi_cb fuel w' s') [
    | none ↦ none
    | some (events, end) ↦ some (some_taken reqs || some_taken events, end)
  ]
]

-- The effect of one item after the other.
abbrev pub all_effects : {A O : Type 0} → (A → O → O) → List A → O → O
all_effects effect [] o = o
all_effects effect (x ∷ xs) o = all_effects effect xs (effect x o)

module _ {A W : Type 0} (q : Impl A) (call : A → W → q.State → W × q.State) where
  -- The callback leaves the queue as it is.
  abbrev pub LeavesQueue : Type 0
  LeavesQueue =
      (x : A) (w : W) (s : q.State)
      → q.IsValid s
      → q.IsValid (call x w s).1 × (q.contents (call x w s).1 ≡ q.contents s)

  -- What a callback does to what is seen of the world and the state, while the queue gives up its
  -- items without being seen.
  pub record Observed {O : Type 0} (view : W → q.State → O) (effect : A → O → O) : Type 0 where
    pub on_call :
        (x : A) (w : W) (s : q.State) → view (call x w s).0 (call x w s).1 ≡ effect x (view w s)
    pub on_take :
        (w : W) (s : q.State) {x : A} {s' : q.State}
        → q.dequeue s ≡ some (x, s')
        → view w s' ≡ view w s

  taken_last :
      (fuel : ℕ) (w : W) (s : q.State)
      → q.dequeue s ≡ none
      → hand_on q.dequeue call (suc fuel) w s ≡ some ([], (w, s))
  unfolding hand_on
  taken_last fuel w s e = rw (hand_on, e) refl

  taken_first :
      (fuel : ℕ) (w : W) (s : q.State) {x : A} {s' : q.State} {xs : List A} {end : W × q.State}
      → q.dequeue s ≡ some (x, s')
      → hand_on q.dequeue call fuel (call x w s').0 (call x w s').1 ≡ some (xs, end)
      → hand_on q.dequeue call (suc fuel) w s ≡ some (x ∷ xs, end)
  unfolding hand_on
  taken_first fuel w s e rest = rw (hand_on, e, rest) refl

  nothing_left : (s : q.State) → q.IsValid s → q.dequeue s ≡ none → q.contents s ≡ []
  unfolding get
  nothing_left s v e = go (q.contents s) (sym (q.dequeue_refines s v) ∙ ap (Option.map _) e)
    where
      go : (l : List A) → get l ≡ none → l ≡ []
      go [] h = refl
      go (x ∷ l) h = absurd cc

  one_more :
      (s : q.State) {x : A} {s' : q.State}
      → q.IsValid s
      → q.dequeue s ≡ some (x, s')
      → q.contents s ≡ x ∷ q.contents s'
  unfolding get
  one_more s {x} {s'} v e = go (q.contents s) (sym (q.dequeue_refines s v) ∙ ap (Option.map _) e)
    where
      go : (l : List A) → get l ≡ some (x, q.contents s') → l ≡ x ∷ q.contents s'
      go [] h = absurd cc
      go (y ∷ l) h = cc

  -- Where the callback leaves the queue as it is, and the rounds are more than what waits, the loop
  -- ends, and hands on everything that waits, once and in order: what is seen at the end is the
  -- effect of one item after the other.
  pub hand_on-contents :
      {O : Type 0} (view : W → q.State → O) (effect : A → O → O) (fuel : ℕ) (w : W) (s : q.State)
      → LeavesQueue
      → Observed view effect
      → q.IsValid s
      → length (q.contents s) < fuel
      → (end : W × q.State) × (hand_on q.dequeue call fuel w s ≡ some (q.contents s, end))
        × (view end.0 end.1 ≡ all_effects effect (q.contents s) (view w s))
  hand_on-contents view effect zero w s leaves seen v few = absurd (omega arith)
  hand_on-contents view effect (suc fuel) w s leaves seen v few =
      elim (Option-cases (q.dequeue s)) [
        | inl e ↦
            let none_left = nothing_left s v e in
            (
              (w, s),
              taken_last fuel w s e ∙ ap (λ l. some (l, (w, s))) (sym none_left),
              ap (λ l. all_effects effect l (view w s)) (sym none_left),
            )
        | inr ((x, s'), e) ↦
            let kept = leaves x w s' (q.dequeue_valid s v e) in
            let more = one_more s v e in
            let fewer : length (q.contents (call x w s').1) < fuel =
              omega (arith, ap length kept.1, ap length more) in
            let rest =
              hand_on-contents view effect fuel (call x w s').0 (call x w s').1 leaves seen kept.0
                fewer in
            let all = ap (λ l. x ∷ l) kept.1 ∙ sym more in
            let before = seen.on_call x w s' ∙ ap (effect x) (seen.on_take w s e) in
            (
              rest.0,
              taken_first fuel w s e rest.1 ∙ ap (λ l. some (l, rest.0)) all,
              rest.2
                  ∙ ap (all_effects effect (q.contents (call x w s').1)) before
                  ∙ ap (λ l. all_effects effect l (view w s)) all,
            )
      ]
