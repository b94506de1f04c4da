-- ===== src/Poller.antt =====
-- bridge/qemu/irq_poller.c: the thread that hands DMA requests and interrupts to the device.
pub mod Tcp
pub mod Shm
pub mod Served
use qemu_vcs.Base.{ℕ, ◌≡◌, ap, Option, none, some, zero, suc, List, [], ◌∷◌, Bool, true, false}
use qemu_vcs.Messages.{DmaReq, MsiEvent}

-- What a receive that does not wait returns: 0 with a value, 1, or -1.
pub data Polled (A : Type 0) : Type 0 where
  item : A → Polled A
  nothing failed : Polled A

-- The two receives that the poller uses on a transport.
pub record Source (S : Type 0) : Type 0 where
  pub recv_dma_req_nb : S → Polled DmaReq × S
  pub recv_msi_nb : S → Polled MsiEvent × S

-- A call of `dma_cb` or of the MSI callback.
pub data Call : Type 0 where
  dma_cb : DmaReq → Call
  msi_cb : MsiEvent → Call

abbrev pub called : {S : Type 0} → Call → List Call × S → List Call × S
called c (calls, s) = (c ∷ calls, s)

module _ {S : Type 0} (source : Source S) where
  unfoldable pub after_msi : Polled MsiEvent × S → Option Call × S
  after_msi (item e, s) = (some (msi_cb e), s)
  after_msi (nothing, s) = (none, s)
  after_msi (failed, s) = (none, s)

  unfoldable pub after_req : Polled DmaReq × S → Option Call × S
  unfolding after_msi
  after_req (item r, s) = (some (dma_cb r), s)
  after_req (nothing, s) = after_msi (source.recv_msi_nb s)
  after_req (failed, s) = after_msi (source.recv_msi_nb s)

  -- One round of the loop with a transport: the call that it makes; none ends the loop.
  unfoldable pub round : S → Option Call × S
  unfolding after_req
  round s = after_req (source.recv_dma_req_nb s)

  -- What a callback leaves of the state of the transport: it may receive from it.
  module _ (callback : Call → S → S) where
    -- The calls of so many rounds, and what is left.
    unfoldable pub dispatch : ℕ → S → List Call × S
    unfolding round
    dispatch zero s = ([], s)
    dispatch (suc rounds) s =
        let (call, s') = round s in
        elim call [ none ↦ ([], s') | some c ↦ called c (dispatch rounds (callback c s')) ]

    pub dispatch_lem :
        (rounds : ℕ) (s : S) {s' : S} (call : Option Call)
        → round s ≡ (call, s')
        → dispatch (suc rounds) s ≡ elim call as (λ _. List Call × S) [
          | none ↦ ([], s')
          | some c ↦ called c (dispatch rounds (callback c s'))
        ]
    unfolding dispatch
    dispatch_lem rounds s call e =
        ap
          (λ (x : Option Call × S). elim x.0 as (λ _. List Call × S) [
            | none ↦ ([], x.1)
            | some c ↦ called c (dispatch rounds (callback c x.1))
          ])
          e

    -- One turn of the thread's loop with a transport, and `did_work`.
    unfoldable pub turn : S → (List Call × S) × Bool
    unfolding dispatch
    turn s = (dispatch 64 s, did_work (dispatch 64 s).0)
      where
        did_work : List Call → Bool
        did_work [] = false
        did_work (c ∷ cs) = true
