-- ===== src/Device/Config/Silent.antt =====
-- A function that the simulator does not know is asked for once.
use qemu_vcs.Base.{
  ℕ, zero, suc, true, false, Option, none, some, List, [], ◌∷◌, ◌≡◌, refl, ap, replicate, ==_self,
}
use qemu_vcs.Qemu.{TlpTransport, Bridge, send_tlp_and_wait}
use qemu_vcs.Messages.{Cpl}
use qemu_vcs.Device.Mmio.{all_ones}
use qemu_vcs.Device.Config.{
  LocalConfig, RcConfig, Bdf, in_cache, entry_of, probe_req, config_read, config_write, first_read,
  put_entry, same_bdf,
}

-- The accesses of the guest to one function.
pub data Access : Type 0 where
  reads : ℕ → ℕ → Access
  writes : ℕ → ℕ → ℕ → Access

abbrev pub reads_of : List Access → ℕ
reads_of [] = zero
reads_of (reads address len ∷ rest) = suc (reads_of rest)
reads_of (writes address val len ∷ rest) = reads_of rest

entry_of-probed : (o : Option Cpl) → (entry_of o).probed ≡ true
unfolding entry_of
entry_of-probed none = refl
entry_of-probed (some c) = refl

module _ {L T : Type 0} (loc : LocalConfig L) (ops : TlpTransport T) where
  -- What the reads give, and the state at the end.
  abbrev pub session : RcConfig L T → Bdf → List Access → List ℕ × RcConfig L T
  session s f [] = ([], s)
  session s f (reads address len ∷ rest) =
      let (v, s') = config_read loc ops s f address len in
      let (vs, s'') = session s' f rest in (v ∷ vs, s'')
  session s f (writes address val len ∷ rest) =
      session (config_write loc ops s f address val len) f rest

  -- The state knows that there is no such function.
  abbrev pub IsUnknown : RcConfig L T → Bdf → Type 0
  IsUnknown s f = ((s.bdf_cache f).probed ≡ true) × ((s.bdf_cache f).valid ≡ false)

  config_write_dropped :
      (s : RcConfig L T) (f : Bdf) (address val len : ℕ) (ctx : Bridge T)
      → s.bridge ≡ some ctx
      → in_cache f ≡ true
      → IsUnknown s f
      → config_write loc ops s f address val len
        ≡ record s { local = loc.write s.local address val len }
  unfolding config_write
  config_write_dropped s f address val len ctx e here unknown =
      rw (e, here, unknown.0, unknown.1) refl

  config_read_silent :
      (s : RcConfig L T) (f : Bdf) (address len : ℕ) (ctx : Bridge T)
      → s.bridge ≡ some ctx
      → in_cache f ≡ true
      → IsUnknown s f
      → config_read loc ops s f address len ≡ (all_ones, s)
  unfolding config_read
  config_read_silent s f address len ctx e here unknown = rw (e, here, unknown.0, unknown.1) refl

  stays_silent :
      (rest : List Access) (s : RcConfig L T) (f : Bdf) (ctx : Bridge T)
      → s.bridge ≡ some ctx
      → in_cache f ≡ true
      → IsUnknown s f
      → ((session s f rest).0 ≡ replicate (reads_of rest) all_ones)
        × ((session s f rest).1.bridge ≡ some ctx)
  stays_silent [] s f ctx e here unknown = (refl, e)
  stays_silent (reads address len ∷ rest) s f ctx e here unknown =
      let ends = stays_silent rest s f ctx e here unknown in
      rw (session, config_read_silent s f address len ctx e here unknown)
        (ap (λ l. all_ones ∷ l) ends.0, ends.1)
  stays_silent (writes address val len ∷ rest) s f ctx e here unknown =
      rw (session, config_write_dropped s f address val len ctx e here unknown)
        (stays_silent rest (record s { local = loc.write s.local address val len }) f ctx e here
          unknown)

  answers :
      (s : RcConfig L T) (f : Bdf) (address len : ℕ) (r : Option Cpl × Bridge T)
      → (entry_of r.0).valid ≡ false
      → first_read loc ops s f address len r ≡ (
        all_ones,
        record s { bridge = some r.1; bdf_cache = put_entry s.bdf_cache f (entry_of r.0) },
      )
  unfolding first_read
  answers s f address len (none, ctx) invalid = refl
  answers s f address len (some c, ctx) invalid = rw invalid refl

  probes :
      (s : RcConfig L T) (f : Bdf) (address len : ℕ) (ctx : Bridge T)
      → s.bridge ≡ some ctx
      → in_cache f ≡ true
      → (s.bdf_cache f).probed ≡ false
      → (entry_of (send_tlp_and_wait ops ctx (probe_req f)).0).valid ≡ false
      → config_read loc ops s f address len ≡ (
        all_ones,
        record s {
          bridge = some (send_tlp_and_wait ops ctx (probe_req f)).1;
          bdf_cache =
              put_entry s.bdf_cache f (entry_of (send_tlp_and_wait ops ctx (probe_req f)).0);
        },
      )
  unfolding config_read
  probes s f address len ctx e here new invalid =
      rw (e, here, new) (answers s f address len (send_tlp_and_wait ops ctx (probe_req f)) invalid)

  -- A function that does not answer the probe, or answers with a vendor of 0xFFFF, is asked for
  -- once: from its first read on, however the guest reads and writes its configuration space, each
  -- read gives 0xFFFFFFFF, and no TLP goes out after that of the probe.
  pub unknown_function :
      (rest : List Access) (s : RcConfig L T) (f : Bdf) (address len : ℕ) (ctx : Bridge T)
      → s.bridge ≡ some ctx
      → in_cache f ≡ true
      → (s.bdf_cache f).probed ≡ false
      → (entry_of (send_tlp_and_wait ops ctx (probe_req f)).0).valid ≡ false
      → let end = session s f (reads address len ∷ rest) in
        (end.0 ≡ replicate (suc (reads_of rest)) all_ones)
        × (end.1.bridge ≡ some (send_tlp_and_wait ops ctx (probe_req f)).1)
  unknown_function rest s f address len ctx e here new invalid =
      let r = send_tlp_and_wait ops ctx (probe_req f) in
      let s' = record s { bridge = some r.1; bdf_cache = put_entry s.bdf_cache f (entry_of r.0) } in
      let own : same_bdf f f ≡ true = rw (==_self f.bus, ==_self f.dev, ==_self f.func) refl in
      let unknown : IsUnknown s' f = rw own (entry_of-probed r.0, invalid) in
      let ends = stays_silent rest s' f r.1 refl here unknown in
      rw (probes s f address len ctx e here new invalid) (ap (λ l. all_ones ∷ l) ends.0, ends.1)
