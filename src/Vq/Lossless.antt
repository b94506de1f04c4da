-- ===== src/Vq/Lossless.antt =====
-- The receive queue of bridge/vcs/virtqueue_dma.c, where the DMA calls end well.
use qemu_vcs.Base.{ℕ, ◌+◌, ◌<◌, ◌≡◌, some, List, [], ◌∷◌, ◌++◌, ◌⊎◌, length, drop}
use qemu_vcs.Tcp.Codec.{from_le}
use qemu_vcs.Vq.{Queue, Guest, advance}
use qemu_vcs.Vq.Receive.{
  Injected, walked, failed, RxEnd, injected, undefined, Round, kept, lost, done, divides,
}

-- Every DMA call ends well.
pub record Reliable {M : Type 0} (guest : Guest M) : Type 0 where
  pub read : M → ℕ → ℕ → List ℕ
  pub write : M → ℕ → List ℕ → M
  pub read_ok : (m : M) (addr len : ℕ) → guest.dma_read m addr len ≡ some (read m addr len)
  pub write_ok :
      (m : M) (addr : ℕ) (bs : List ℕ) → guest.dma_write m addr bs ≡ some (write m addr bs)

abbrev pub AllNonempty : List (List ℕ) → Type 0
AllNonempty [] = Unit
AllNonempty (f ∷ fs) = (0 < length f) × AllNonempty fs

module _ {M : Type 0} (guest : Guest M) (reliable : Reliable guest) where
  abbrev IsWalked : Injected guest → Type 0
  IsWalked (walked w) = Unit
  IsWalked (failed m) = ⊥

  -- The index of the next entry that the guest has put up, as the loop reads it.
  abbrev pub avail_index : Queue → M → ℕ
  avail_index q m = from_le (drop 2 (reliable.read m q.avail_gpa 4))

  -- A round takes the frame and injects it, or stops where nothing is put up and leaves the frame.
  abbrev Good : Queue → M → Round guest → Type 0
  Good q m kept = q.last_avail ≡ avail_index q m
  Good q m (done q' m') = q' ≡ advance guest q
  Good q m (lost q' m') = ⊥
  Good q m divides = ⊥

  -- All frames that are gone were injected, and where one is left, nothing more is put up.
  abbrev pub Lossless : ℕ → List (List ℕ) → RxEnd guest → Type 0
  Lossless n frames undefined = ⊥
  Lossless n frames (injected k q m fs) =
      (gone : List (List ℕ)) × (gone ++ fs ≡ frames)
      × (k ≡ n + length gone)
      × ((fs ≡ []) ⊎ (q.last_avail ≡ avail_index q m))
