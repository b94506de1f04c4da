-- ===== src/Fifo.antt =====
-- What a bounded first-in first-out queue promises, and the interface by which the queues of
-- the program (the shared-memory rings, the Ethernet rings, the TLP cache) are compared with it.
pub mod Laws
pub mod Encoded
use mathlib.Core.Option
use qemu_vcs.Base.{
  ℕ, ◌≡◌, refl, ◌∙◌, Option, none, some, List, [], ◌∷◌, ◌++◌, Bool, arith, length, ◌==◌,
  if◌then◌else◌,
}

module _ {ℓ} {A : Type ℓ} where
  -- `none` is the refusal of a full queue.
  unfoldable pub put : ℕ → List A → A → Option (List A)
  put limit q x = if length q == limit then none else some (q ++ (x ∷ []))

  unfoldable pub get : List A → Option (A × List A)
  get [] = none
  get (x ∷ q) = some (x, q)

-- What a client can ask for, and what it is told.
pub data Op (A : Type 0) : Type 0 where
  send : A → Op A
  receive : Op A

pub data Reply (A : Type 0) : Type 0 where
  accepted refused nothing : Reply A
  item : A → Reply A

-- The calls of a client in order, over any pair of operations.
module _ {S A : Type 0} (enqueue : S → A → Option S) (dequeue : S → Option (A × S)) where
  abbrev pub after_send : S → Option S → Reply A × S
  after_send s none = (refused, s)
  after_send s (some s') = (accepted, s')

  abbrev pub after_receive : S → Option (A × S) → Reply A × S
  after_receive s none = (nothing, s)
  after_receive s (some (x, s')) = (item x, s')

  abbrev pub serve : S → Op A → Reply A × S
  serve s (send x) = after_send s (enqueue s x)
  serve s receive = after_receive s (dequeue s)

  unfoldable pub run : S → List (Op A) → List (Reply A)
  run s [] = []
  run s (op ∷ ops) = let (reply, s') = serve s op in reply ∷ run s' ops

  -- The state that the calls leave behind.
  unfoldable pub final : S → List (Op A) → S
  final s [] = s
  final s (op ∷ ops) = final (serve s op).1 ops

-- An implementation of the queue. `Accepts` is what the caller owes of an item.
pub record Impl (A : Type 0) : Type 1 where
  pub State : Type 0
  pub IsValid : State → Type 0
  pub Accepts : A → Type 0
  pub limit : ℕ
  pub contents : State → List A
  pub enqueue : State → A → Option State
  pub dequeue : State → Option (A × State)
  pub enqueue_valid :
      (s : State) (x : A) {s' : State} → IsValid s → Accepts x → enqueue s x ≡ some s' → IsValid s'
  pub dequeue_valid :
      (s : State) {x : A} {s' : State} → IsValid s → dequeue s ≡ some (x, s') → IsValid s'
  pub enqueue_refines :
      (s : State) (x : A)
      → IsValid s
      → Accepts x
      → Option.map contents (enqueue s x) ≡ put limit (contents s) x
  pub dequeue_refines :
      (s : State)
      → IsValid s
      → Option.map (λ (r : A × State). (r.0, contents r.1)) (dequeue s) ≡ get (contents s)

abbrev pub Sends : {A : Type 0} → (A → Type 0) → List (Op A) → Type 0
Sends P [] = Unit
Sends P (send x ∷ ops) = P x × Sends P ops
Sends P (receive ∷ ops) = Sends P ops
