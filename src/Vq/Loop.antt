-- ===== src/Vq/Loop.antt =====
-- The loop of bridge/vcs/virtqueue_dma.c over the available ring.
use qemu_vcs.Base.{
  ℕ, zero, suc, ◌+◌, ◌-◌, ◌%◌, ◌^◌, ◌<◌, ◌≢◌, Bool, true, false, Option, none, some, List, [], ◌∷◌,
  ◌++◌, if◌then◌else◌, ◌==◌, length, arith, Bool-cases, inl, inr,
}
use qemu_vcs.Vq.{
  Queue, Guest, Gathered, packet, dma_failed, overflow, tx_packet, TxEnd, processed, failed,
  undefined, unfinished, tx_loop, advance, avail_entry, put_used,
}

module _ {M : Type 0} (guest : Guest M) where
  abbrev pub Ends : TxEnd guest → Type 0
  Ends (processed n q m sent) = Unit
  Ends (failed q m sent) = Unit
  Ends undefined = Unit
  Ends unfinished = ⊥

  -- The entries of the available ring that are still to come; the indices wrap at 2 ^ 16.
  abbrev pub to_come : Queue → ℕ → ℕ
  to_come q avail_idx = (avail_idx + 2 ^ 16 - q.last_avail) % 2 ^ 16

  -- As many rounds as the available ring has entries to come, and one more, are enough for the
  -- loop of the transmit queue to end, whatever the guest's memory gives.
  pub tx_loop-Ends :
      (rounds : ℕ) (q : Queue) (m : M) (avail_idx n : ℕ) (sent : List (List ℕ))
      → q.last_avail < 2 ^ 16
      → avail_idx < 2 ^ 16
      → to_come q avail_idx < rounds
      → Ends (tx_loop guest rounds q m avail_idx n sent)
  unfolding tx_loop
  tx_loop-Ends zero q m avail_idx n sent h h' enough = absurd (omega arith)
  tx_loop-Ends (suc rounds) q m avail_idx n sent h h' enough =
      elim (Bool-cases (q.last_avail == avail_idx)) [
        | inl done ↦ rw (tx_loop, done) tt
        | inr more ↦
            let ne : q.last_avail ≢ avail_idx = ground arith in
            let fewer : to_come (advance guest q) avail_idx < rounds = omega arith in
            rw (tx_loop, more)
              (sized (q.size == 0) (λ m' n' sent'.
                tx_loop-Ends rounds (advance guest q) m' avail_idx n' sent' (omega arith) h' fewer))
      ]
    where
      Rest : Type 0
      Rest =
          (m' : M) (n' : ℕ) (sent' : List (List ℕ))
          → Ends (tx_loop guest rounds (advance guest q) m' avail_idx n' sent')

      put_back :
          (r : Option M) (sent' : List (List ℕ))
          → Rest
          → Ends (elim r as (λ _. TxEnd guest) [
            | none ↦ failed q m sent'
            | some m' ↦ tx_loop guest rounds (advance guest q) m' avail_idx (n + 1) sent'
          ])
      put_back none sent' rest = tt
      put_back (some m') sent' rest = rest m' (n + 1) sent'

      gathered :
          (g : Gathered) (head : ℕ)
          → Rest
          → Ends (elim g as (λ _. TxEnd guest) [
            | dma_failed ↦ failed q m sent
            | overflow ↦ undefined
            | packet pkt ↦
                let sent' = if length pkt == 0 then sent else sent ++ (pkt ∷ []) in
                elim (put_used guest q m head 0) as (λ _. TxEnd guest) [
                  | none ↦ failed q m sent'
                  | some m' ↦ tx_loop guest rounds (advance guest q) m' avail_idx (n + 1) sent'
                ]
          ])
      gathered dma_failed head rest = tt
      gathered overflow head rest = tt
      gathered (packet pkt) head rest =
          put_back (put_used guest q m head 0)
            (if length pkt == 0 then sent else sent ++ (pkt ∷ [])) rest

      entered :
          (r : Option ℕ)
          → Rest
          → Ends (elim r as (λ _. TxEnd guest) [
            | none ↦ failed q m sent
            | some head ↦ elim (tx_packet guest q m head) as (λ _. TxEnd guest) [
              | dma_failed ↦ failed q m sent
              | overflow ↦ undefined
              | packet pkt ↦
                  let sent' = if length pkt == 0 then sent else sent ++ (pkt ∷ []) in
                  elim (put_used guest q m head 0) as (λ _. TxEnd guest) [
                    | none ↦ failed q m sent'
                    | some m' ↦ tx_loop guest rounds (advance guest q) m' avail_idx (n + 1) sent'
                  ]
            ]
          ])
      entered none rest = tt
      entered (some head) rest = gathered (tx_packet guest q m head) head rest

      sized :
          (no_size : Bool)
          → Rest
          → Ends (elim no_size as (λ _. TxEnd guest) [
            | true ↦ undefined
            | false ↦ elim (avail_entry guest q m) as (λ _. TxEnd guest) [
              | none ↦ failed q m sent
              | some head ↦ elim (tx_packet guest q m head) as (λ _. TxEnd guest) [
                | dma_failed ↦ failed q m sent
                | overflow ↦ undefined
                | packet pkt ↦
                    let sent' = if length pkt == 0 then sent else sent ++ (pkt ∷ []) in
                    elim (put_used guest q m head 0) as (λ _. TxEnd guest) [
                      | none ↦ failed q m sent'
                      | some m' ↦ tx_loop guest rounds (advance guest q) m' avail_idx (n + 1) sent'
                    ]
              ]
            ]
          ])
      sized true rest = tt
      sized false rest = entered (avail_entry guest q m) rest
