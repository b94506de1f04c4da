-- ===== src/Vcs/Scalar/Slots.antt =====
-- The root complexes of bridge/vcs/bridge_vcs.c do not disturb each other, and what the transports
-- leave uninitialised.
use qemu_vcs.Base.{
  ℕ, ◌%◌, ◌≡◌, ◌≢◌, inl, inr, refl, sym, ap, ◌∙◌, Bool, true, false, Option, none, some, List, [],
  set, ◌∷◌, ◌==◌, ◌&&◌, arith, ltb, if◌then◌else◌, Bool-cases, Option-cases, ◌>>=◌,
}
use qemu_vcs.Transport.{Transport}
use qemu_vcs.Vcs.Cache.{Rc}
use qemu_vcs.Vcs.Poll.{Polled, poll_vf_event}
use qemu_vcs.Vcs.Dma.{dma_read_bytes, dma_write_bytes, read_failed}
use qemu_vcs.Vcs.Scalar.{
  Slot, Globals, rc_ok, put_slot, poll_tlp_scalar_rc, send_cpl_scalar_rc, poll_vf_event_rc,
  set_cpl_data_rc, set_bar_base_rc, set_bar_base_bdf, cleanup, cleanup_ex_rc, init_shm, init_ex_rc,
  Status, status_of, stored, poll_error, bytes_of_words,
}

none-some : {A : Type 0} {x : A} → none ≡ some x → ⊥
none-some e = cc

read_closed :
    {W : Type 0} (ops : Transport W) (tag host_addr len : ℕ) (c : Rc) (w : W)
    → dma_read_bytes ops false tag host_addr len c w ≡ (read_failed, (c, w))
unfolding dma_read_bytes
read_closed ops tag host_addr len c w = refl

write_closed :
    {W : Type 0} (ops : Transport W) (tag host_addr : ℕ) (buf : List ℕ) (c : Rc) (w : W)
    → dma_write_bytes ops false tag host_addr buf c w ≡ (false, (c, w))
unfolding dma_write_bytes
write_closed ops tag host_addr buf c w = refl

-- The calls of the simulator that change the slots: those that take the index of a root complex, the
-- start and the end of one among them, and `bridge_vcs_set_bar_base_bdf`, which takes a BDF.
pub data Call (T : Type 0) : Type 0 where
  polls gets_event cleans : ℕ → Call T
  sends : ℕ → ℕ → ℕ → Call T
  sets_word sets_bar sets_bdf_bar : ℕ → ℕ → ℕ → Call T
  inits : ℕ → Bool → Bool → Bool → Option T → Call T

-- The slot that a call may change: the BARs by BDF are also those of slot 0, whatever the BDF.
abbrev pub of_rc : {T : Type 0} → Call T → ℕ
of_rc (polls rc) = rc
of_rc (gets_event rc) = rc
of_rc (cleans rc) = rc
of_rc (sends rc tag len) = rc
of_rc (sets_word rc index value) = rc
of_rc (sets_bar rc index base) = rc
of_rc (sets_bdf_bar bdf index base) = 0
of_rc (inits rc shm opens connects created) = rc

abbrev pub NotOf : {T : Type 0} → ℕ → List (Call T) → Type 0
NotOf r [] = Unit
NotOf r (c ∷ cs) = (of_rc c ≢ r) × NotOf r cs

module _ {T : Type 0} where
  put_slot_ne :
      (g : Globals T) (rc r : ℕ) (x : Slot T) → rc ≢ r → (put_slot g rc x).slots r ≡ g.slots r
  put_slot_ne g rc r x ne = let test : (r == rc) ≡ false = ground (arith, ne) in rw test refl

  given :
      {A : Type 0} (f : Globals T → A) (g : Globals T) {g' : Globals T}
      → some g ≡ some g'
      → f g' ≡ f g
  given f g {g'} e = let same : g ≡ g' = cc in ap f (sym same)

  put_if :
      (b : Bool) (g : Globals T) (rc r : ℕ) (x : Slot T)
      → rc ≢ r
      → (if b then put_slot g rc x else g).slots r ≡ g.slots r
  put_if true g rc r x ne = put_slot_ne g rc r x ne
  put_if false g rc r x ne = refl

  put_second_if :
      {A : Type 0} (b : Bool) (a a' : A) (g : Globals T) (rc r : ℕ) (x : Slot T)
      → rc ≢ r
      → (if◌then◌else◌ {A = A × Globals T} b (a, put_slot g rc x) (a', g)).1.slots r ≡ g.slots r
  put_second_if true a a' g rc r x ne = put_slot_ne g rc r x ne
  put_second_if false a a' g rc r x ne = refl

  module _ (poll : Rc → T → Option (Polled × (Rc × T))) (send : T → ℕ → List ℕ → ℕ → Bool × T) where
    abbrev pub second_of : Option (Status × Globals T) → Option (Globals T)
    second_of none = none
    second_of (some (st, g)) = some g

    abbrev pub call : Globals T → Call T → Option (Globals T)
    call g (polls rc) = second_of (poll_tlp_scalar_rc poll send g rc)
    call g (gets_event rc) = some (poll_vf_event_rc g rc).1
    call g (sends rc tag len) = some (send_cpl_scalar_rc poll send g rc tag len).1
    call g (sets_word rc index value) = some (set_cpl_data_rc g rc index value)
    call g (sets_bar rc index base) = some (set_bar_base_rc g rc index base)
    call g (sets_bdf_bar bdf index base) = some (set_bar_base_bdf g bdf index base)
    call g (cleans rc) = some (cleanup_ex_rc g rc)
    call g (inits rc shm opens connects created) =
        some (init_ex_rc g rc shm opens connects created).1

    abbrev pub calls : Globals T → List (Call T) → Option (Globals T)
    calls g [] = some g
    calls g (c ∷ cs) = call g c >>= λ g'. calls g' cs

    poll_keeps :
        (b : Bool) (o : Option (Polled × (Rc × T))) (g : Globals T) (rc r : ℕ) {g' : Globals T}
        → rc ≢ r
        → second_of (
            if b
            then elim o [
              | none ↦ none
              | some (p, (c, t)) ↦
                  some (
                    status_of p,
                    put_slot g rc (stored (record (g.slots rc) { rc = c; link = t }) p),
                  )
            ]
            else some (poll_error, g))
          ≡ some g'
        → g'.slots r ≡ g.slots r
    poll_keeps true none g rc r ne e = absurd cc
    poll_keeps true (some (p, (c, t))) g rc r ne e =
        let x = stored (record (g.slots rc) { rc = c; link = t }) p in
        given (λ h. h.slots r) (put_slot g rc x) e ∙ put_slot_ne g rc r x ne
    poll_keeps false o g rc r ne e = given (λ h. h.slots r) g e

    bdf_keeps :
        (g : Globals T) (bdf index base r : ℕ)
        → 0 ≢ r
        → (set_bar_base_bdf g bdf index base).slots r ≡ g.slots r
    unfolding set_bar_base_bdf
    bdf_keeps g bdf index base r ne =
        let other : (r == 0) ≡ false = ground (arith, ne) in
        elim (Bool-cases (ltb index 6)) [
          | inr out ↦ rw out refl
          | inl in_range ↦ elim (Bool-cases (bdf % 8 == 0)) [
            | inl first ↦ rw (in_range, first, other) refl
            | inr later ↦ rw (in_range, later) refl
          ]
        ]

    cleanup_keeps : (g : Globals T) (rc r : ℕ) → rc ≢ r → (cleanup_ex_rc g rc).slots r ≡ g.slots r
    unfolding cleanup_ex_rc cleanup
    cleanup_keeps g rc r ne =
        let other : (r == rc) ≡ false = ground (arith, ne) in
        elim (Bool-cases (rc_ok rc)) [
          | inr bad ↦ rw bad refl
          | inl ok ↦ elim (Bool-cases (g.slots rc).has_transport) [
            | inl has ↦ rw (ok, has, other) refl
            | inr lacks ↦ elim (Bool-cases (rc == 0)) [
              | inr later ↦ rw (ok, lacks, later) refl
              | inl first ↦ elim (Bool-cases g.initialized) [
                | inl started ↦ rw (ok, lacks, first, started) refl
                | inr closed ↦ rw (ok, lacks, first, closed) refl
              ]
            ]
          ]
        ]

    shm_keeps :
        (g : Globals T) (opens connects : Bool) (r : ℕ)
        → (init_shm g opens connects).1.slots r ≡ g.slots r
    unfolding init_shm
    shm_keeps g opens connects r = elim (Bool-cases g.initialized) [
      | inl started ↦ rw started refl
      | inr closed ↦ elim (Bool-cases (opens && connects)) [
        | inl fine ↦ rw (closed, fine) refl
        | inr fails ↦ rw (closed, fails) refl
      ]
    ]

    start_keeps :
        (g : Globals T) (rc : ℕ) (shm opens connects : Bool) (created : Option T) (r : ℕ)
        → rc ≢ r
        → (init_ex_rc g rc shm opens connects created).1.slots r ≡ g.slots r
    unfolding init_ex_rc
    start_keeps g rc true opens connects created r ne = elim (Bool-cases (rc_ok rc)) [
      | inr bad ↦ rw bad refl
      | inl ok ↦ elim (Bool-cases (rc == 0)) [
        | inl first ↦ rw (ok, first) (shm_keeps g opens connects r)
        | inr later ↦ rw (ok, later) refl
      ]
    ]
    start_keeps g rc false opens connects created r ne =
        let other : (r == rc) ≡ false = ground (arith, ne) in
        elim (Bool-cases (rc_ok rc)) [
          | inr bad ↦ rw bad refl
          | inl ok ↦ elim (Bool-cases (g.slots rc).has_transport) [
            | inl has ↦ rw (ok, has) refl
            | inr lacks ↦ elim (Option-cases created) [
              | inl fails ↦ rw (ok, lacks, fails) refl
              | inr (t, made) ↦ rw (ok, lacks, made, other) refl
            ]
          ]
        ]

    call_keeps :
        (g : Globals T) (c : Call T) (r : ℕ) {g' : Globals T}
        → of_rc c ≢ r
        → call g c ≡ some g'
        → g'.slots r ≡ g.slots r
    unfolding poll_tlp_scalar_rc poll_vf_event_rc send_cpl_scalar_rc set_cpl_data_rc set_bar_base_rc
    call_keeps g (polls rc) r ne e =
        poll_keeps (rc_ok rc) (poll (g.slots rc).rc (g.slots rc).link) g rc r ne e
    call_keeps g (gets_event rc) r ne e =
        let (ev, c) = poll_vf_event (g.slots rc).rc in
        given (λ h. h.slots r) (poll_vf_event_rc g rc).1 e
        ∙ put_second_if (rc_ok rc) ev none g rc r (record (g.slots rc) { rc = c }) ne
    call_keeps g (sends rc tag len) r ne e =
        let x = g.slots rc in
        let (sent, t) = send x.link tag (bytes_of_words x.cpl_words) len in
        given (λ h. h.slots r) (send_cpl_scalar_rc poll send g rc tag len).1 e
        ∙ put_second_if (rc_ok rc) sent false g rc r (record x { link = t }) ne
    call_keeps g (sets_word rc index value) r ne e =
        given (λ h. h.slots r) (set_cpl_data_rc g rc index value) e
        ∙ put_if (rc_ok rc && ltb index 16) g rc r
            (record (g.slots rc) { cpl_words = set (g.slots rc).cpl_words index value }) ne
    call_keeps g (sets_bar rc index base) r ne e =
        given (λ h. h.slots r) (set_bar_base_rc g rc index base) e
        ∙ put_if (rc_ok rc && ltb index 6) g rc r
            (record (g.slots rc) { bar_base = set (g.slots rc).bar_base index base }) ne
    call_keeps g (sets_bdf_bar bdf index base) r ne e =
        given (λ h. h.slots r) (set_bar_base_bdf g bdf index base) e
        ∙ bdf_keeps g bdf index base r ne
    call_keeps g (cleans rc) r ne e =
        given (λ h. h.slots r) (cleanup_ex_rc g rc) e ∙ cleanup_keeps g rc r ne
    call_keeps g (inits rc shm opens connects created) r ne e =
        given (λ h. h.slots r) (init_ex_rc g rc shm opens connects created).1 e
        ∙ start_keeps g rc shm opens connects created r ne

    -- Whatever the simulator calls, of the functions without arrays that take the index of a root
    -- complex, with the indices of others, from the start of one to its end, each over the
    -- transport of its slot, the slot of a root complex stays as it is: its cache, its transport,
    -- its pending event, what its last poll has stored, the words of its next completion and its
    -- BARs. A BAR that is set by a BDF counts as a call for the root complex 0; the DMA calls,
    -- which take no index, are not among them.
    pub calls_keep :
        (cs : List (Call T)) (g : Globals T) (r : ℕ) {g' : Globals T}
        → NotOf r cs
        → calls g cs ≡ some g'
        → g'.slots r ≡ g.slots r
    calls_keep [] g r others e = given (λ h. h.slots r) g e
    calls_keep (c ∷ cs) g r (other, others) e = elim (Option-cases (call g c)) [
      | inl stops ↦ absurd (none-some (sym (ap (λ o. o >>= λ h. calls h cs) stops) ∙ e))
      | inr (h, goes) ↦
          calls_keep cs h r others (sym (ap (λ o. o >>= λ h'. calls h' cs) goes) ∙ e)
          ∙ call_keeps g c r other goes
    ]

  init_keeps :
      (g : Globals T) (rc : ℕ) (t : T)
      → (init_ex_rc g rc false true true (some t)).1.initialized ≡ g.initialized
  unfolding init_ex_rc
  init_keeps g rc t = elim (Bool-cases (rc_ok rc)) [
    | inl ok ↦ elim (Bool-cases (g.slots rc).has_transport) [
      | inl has ↦ rw (ok, has) refl
      | inr lacks ↦ rw (ok, lacks) refl
    ]
    | inr bad ↦ rw bad refl
  ]

  -- A root complex that is initialised over a transport does not count as initialised: where the
  -- shared memory has not been initialised before, every DMA of bytes over the transport fails at
  -- its first test, whatever the transport, the tag, the address and the data.
  pub init_ex_rc-dma_fails :
      {W : Type 0} (ops : Transport W) (g : Globals T) (rc : ℕ) (t : T) (tag host_addr len : ℕ)
      (buf : List ℕ) (c : Rc) (w : W)
      → g.initialized ≡ false
      → let g' = (init_ex_rc g rc false true true (some t)).1 in
        (dma_read_bytes ops g'.initialized tag host_addr len c w ≡ (read_failed, (c, w)))
        × (dma_write_bytes ops g'.initialized tag host_addr buf c w ≡ (false, (c, w)))
  init_ex_rc-dma_fails ops g rc t tag host_addr len buf c w fresh =
      let closed = init_keeps g rc t ∙ fresh in
      (
        ap (λ b. dma_read_bytes ops b tag host_addr len c w) closed
            ∙ read_closed ops tag host_addr len c w,
        ap (λ b. dma_write_bytes ops b tag host_addr buf c w) closed
            ∙ write_closed ops tag host_addr buf c w,
      )
