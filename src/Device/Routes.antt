-- ===== src/Device/Routes.antt =====
-- qemu-plugin/cosim_pcie_pf.c: from the requester of an interrupt to the device that it is for.
pub mod Vfs
use qemu_vcs.Base.{
  ℕ, suc, ◌+◌, Bool, true, false, Option, none, some, List, [], ◌∷◌, ◌==◌, ◌||◌, ◌&&◌, ltb, leb,
  if◌then◌else◌, take,
}

-- A physical function: `pfs[i].bdf` and `pfs[i].num_vfs` of the topology, and whether
-- `pf_devices[i]` is set.
pub record PfSlot : Type 0 where
  pub bdf : ℕ
  pub num_vfs : ℕ
  pub present : Bool

-- `g_cosim_shared` without its bridge. Both arrays have eight entries: with a larger `num_pfs` the
-- loops of the source read past them, and here they end.
pub record Shared : Type 0 where
  pub num_pfs : ℕ
  pub pfs : List PfSlot

abbrev pub after_first : Option ℕ → Option ℕ
after_first none = none
after_first (some i) = some (suc i)

abbrev pub first_where : (PfSlot → Bool) → List PfSlot → Option ℕ
first_where p [] = none
first_where p (pf ∷ pfs) = let rest = first_where p pfs in if p pf then some 0 else after_first rest

-- `cosim_find_pf_by_bdf`
unfoldable pub find_pf_by_bdf : Shared → ℕ → Option ℕ
find_pf_by_bdf g bdf = first_where (λ pf. pf.bdf == bdf) (take g.num_pfs g.pfs)

-- The tests of `find_device_owner`
abbrev pub owns : ℕ → PfSlot → Bool
owns requester_id pf =
    pf.present
    && ((pf.bdf == requester_id)
        || (ltb 0 pf.num_vfs
            && (ltb pf.bdf requester_id && leb requester_id (pf.bdf + pf.num_vfs))))

-- `find_device_owner`
unfoldable pub find_device_owner : Shared → ℕ → Option ℕ
find_device_owner g requester_id = first_where (owns requester_id) (take g.num_pfs g.pfs)

-- The device of an interrupt: a physical function, or what `pci_find_device` finds.
pub data Target (D : Type 0) : Type 0 where
  physical : ℕ → Target D
  found : D → Target D

-- What `cosim_pf_msix_bh_cb` does with an interrupt.
pub data Delivery (D : Type 0) : Type 0 where
  dropped : Delivery D
  msix msi : Target D → ℕ → Delivery D
  intx : Target D → Delivery D

module _ {D : Type 0} (find_device : ℕ → ℕ → Option D) where
  abbrev pub on_bus : ℕ → Option ℕ → Option (Target D)
  on_bus rid none = none
  on_bus rid (some owner) = elim (find_device owner rid) [ none ↦ none | some d ↦ some (found d) ]

  -- The search for the device; `find_device` is `pci_find_device` on the bus of a physical function.
  unfoldable pub msix_target : Shared → ℕ → Option (Target D)
  unfolding find_device_owner
  msix_target g rid =
      elim (first_where (λ pf. pf.present && (pf.bdf == rid)) (take g.num_pfs g.pfs)) [
        | some i ↦ some (physical i)
        | none ↦ on_bus rid (find_device_owner g rid)
      ]

  -- One round of `cosim_pf_msix_bh_cb`; the tests are `msix_enabled` and `msi_enabled`.
  unfoldable pub raise_msix : (Target D → Bool) → (Target D → Bool) → Shared → ℕ → ℕ → Delivery D
  unfolding msix_target
  raise_msix msix_enabled msi_enabled g rid vector = elim (msix_target g rid) [
    | none ↦ dropped
    | some target ↦
        if msix_enabled target
        then msix target vector
        else (if msi_enabled target then msi target vector else intx target)
  ]
