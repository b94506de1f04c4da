-- ===== src/Vq/Injection.antt =====
-- The receive queue of bridge/vcs/virtqueue_dma.c: what becomes of the frames.
use qemu_vcs.Base.{ℕ, ◌+◌, ◌≤◌, ◌≡◌, refl, ap, List, [], ◌∷◌, ◌++◌, length, arith}
use qemu_vcs.Vq.{Queue, Guest}
use qemu_vcs.Vq.Receive.{
  RxEnd, injected, undefined, Round, kept, lost, done, divides, round, rx_loop,
}

module _ {M : Type 0} (guest : Guest M) where
  -- Of the frames that the port had, `fs` are left, and all others were injected but one at most.
  abbrev pub Accounts : ℕ → List (List ℕ) → RxEnd guest → Type 0
  Accounts n frames undefined = Unit
  Accounts n frames (injected k q m fs) =
      (gone : List (List ℕ)) × (gone ++ fs ≡ frames)
      × (n ≤ k)
      × (k ≤ n + length gone)
      × (n + length gone ≤ k + 1)

  -- Of the frames that the port has, those not injected are still there in order, except for one
  -- at most.
  pub rx_loop-Accounts :
      (n : ℕ) (q : Queue) (m : M) (frames : List (List ℕ))
      → Accounts n frames (rx_loop guest q m n frames)
  unfolding rx_loop
  rx_loop-Accounts n q m [] = ([], refl, omega arith, omega arith, omega arith)
  rx_loop-Accounts n q m (f ∷ fs) =
      step (round guest q m f) (λ q' m'. rx_loop-Accounts (n + 1) q' m' fs)
    where
      added : (e : RxEnd guest) → Accounts (n + 1) fs e → Accounts n (f ∷ fs) e
      added undefined a = tt
      added (injected k q m left) (gone, split, low, high, near) =
          (f ∷ gone, ap (λ l. f ∷ l) split, omega arith, omega arith, omega arith)

      step :
          (r : Round guest)
          → ((q' : Queue) (m' : M) → Accounts (n + 1) fs (rx_loop guest q' m' (n + 1) fs))
          → Accounts n (f ∷ fs) (elim r as (λ _. RxEnd guest) [
            | kept ↦ injected n q m (f ∷ fs)
            | lost q' m' ↦ injected n q' m' fs
            | done q' m' ↦ rx_loop guest q' m' (n + 1) fs
            | divides ↦ undefined
          ])
      step kept rest = ([], refl, omega arith, omega arith, omega arith)
      step (lost q' m') rest = (f ∷ [], refl, omega arith, omega arith, omega arith)
      step (done q' m') rest = added (rx_loop guest q' m' (n + 1) fs) (rest q' m')
      step divides rest = tt
