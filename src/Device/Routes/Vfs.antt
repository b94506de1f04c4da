-- ===== src/Device/Routes/Vfs.antt =====
-- The BDFs that qemu-plugin/cosim_pcie_pf.c and cosim_pcie_vf.c give to virtual functions, and the
-- search for the device of an interrupt.
use qemu_vcs.Base.{
  ℕ, zero, suc, ◌+◌, ◌*◌, ◌^◌, ◌≤◌, ◌<◌, ◌≡◌, ◌≢◌, ◌↔◌, inl, inr, refl, sym, ap, ◌∙◌, Bool, true,
  Option, none, some, List, [], ◌∷◌, arith, length, take, take_all, Bool-cases, ltb, ◌==◌, ◌&&◌,
  u16, if◌then◌else◌, ltb→lt,
}
use qemu_vcs.Device.Pf.{vf_bdf}
use qemu_vcs.Device.Routes.{
  PfSlot, Shared, first_where, after_first, owns, find_device_owner, Target, dropped, msix_target,
  raise_msix,
}

-- So many physical functions with consecutive BDFs, each with so many virtual ones.
abbrev pub slots : ℕ → ℕ → ℕ → List PfSlot
slots first vfs zero = []
slots first vfs (suc n) =
    record { bdf = first; num_vfs = vfs; present = true } ∷ slots (first + 1) vfs n

abbrev pub fabric : ℕ → ℕ → ℕ → Shared
fabric first vfs n = record { num_pfs = n; pfs = slots first vfs n }

length-slots : (first vfs n : ℕ) → length (slots first vfs n) ≡ n
length-slots first vfs zero = refl
length-slots first vfs (suc n) = omega (arith, length-slots (first + 1) vfs n)

none_above :
    (n first vfs rid : ℕ)
    → first + n + vfs ≤ rid
    → first_where (owns rid) (slots first vfs n) ≡ none
none_above zero first vfs rid h = refl
none_above (suc n) first vfs rid h =
    let rest = none_above n (first + 1) vfs rid (omega arith) in ground (arith, rest)

after_first-none : (o : Option ℕ) → after_first o ≡ none → o ≡ none
after_first-none none e = refl
after_first-none (some i) e = absurd cc

no_pf :
    (n first vfs rid : ℕ)
    → first + n ≤ rid
    → first_where (λ pf. pf.present && (pf.bdf == rid)) (slots first vfs n) ≡ none
no_pf zero first vfs rid h = refl
no_pf (suc n) first vfs rid h =
    let rest = no_pf n (first + 1) vfs rid (omega arith) in ground (arith, rest)

some_within :
    (n first vfs rid : ℕ)
    → first + n < rid
    → rid ≤ first + n + vfs
    → first_where (owns rid) (slots first vfs (suc n)) ≢ none
some_within zero first vfs rid low high = λ e. ground arith
some_within (suc n) first vfs rid low high =
    let rest = some_within n (first + 1) vfs rid (omega arith) (omega arith) in
    λ e.
      ground
        (arith, rest, after_first-none (first_where (owns rid) (slots (first + 1) vfs (suc n))))

take-slots : (first vfs n : ℕ) → take n (slots first vfs n) ≡ slots first vfs n
take-slots first vfs n =
    ap (λ k. take k (slots first vfs n)) (sym (length-slots first vfs n))
    ∙ take_all (slots first vfs n)

searched :
    (first vfs n rid : ℕ)
    → find_device_owner (fabric first vfs n) rid ≡ first_where (owns rid) (slots first vfs n)
unfolding find_device_owner
searched first vfs n rid = ap (first_where (owns rid)) (take-slots first vfs n)

owner_iff :
    (n first vfs rid : ℕ)
    → 1 ≤ n
    → first + n ≤ rid
    → (find_device_owner (fabric first vfs n) rid ≡ none) ↔ (first + n + vfs ≤ rid)
owner_iff zero first vfs rid some_pf h = absurd (omega arith)
owner_iff (suc n) first vfs rid some_pf h = rw (searched first vfs (suc n) rid) (
  (λ e. elim (Bool-cases (ltb rid (first + suc n + vfs))) [
    | inl below ↦ absurd (
        some_within n first vfs rid (omega arith)
          (omega (arith, ltb→lt rid (first + suc n + vfs) below)) e)
    | inr above ↦ ground arith
  ]),
  λ far. none_above (suc n) first vfs rid far,
)

unique : (n i i' j j' : ℕ) → i < n → i' < n → i + j * n ≡ i' + j' * n → (i ≡ i') × (j ≡ j')
unique n i i' zero zero h h' e = (omega arith, refl)
unique n i i' zero (suc j') h h' e = absurd (omega arith)
unique n i i' (suc j) zero h h' e = absurd (omega arith)
unique n i i' (suc j) (suc j') h h' e =
    let same = unique n i i' j j' h h' (omega arith) in (same.0, ap suc same.1)

-- The virtual function `j` of the physical function `i`, where the BDFs do not wrap.
module _ (first n : ℕ) (some_pf : 1 ≤ n) where
  vf_value :
      (i j : ℕ) → first + i + n + j * n < 2 ^ 16 → vf_bdf n (first + i) j ≡ first + n + (i + j * n)
  unfolding vf_bdf
  vf_value i j h =
      let npfs : u16 (if ltb 1 n then n else 1) ≡ n = ground arith in rw npfs (omega arith)

  -- Where the BDFs stay below 2 ^ 16, no two virtual functions of consecutive physical functions
  -- have the same BDF, and none has that of a physical function.
  pub vf_bdf-Apart :
      (i i' j j' : ℕ)
      → i < n
      → i' < n
      → first + i + n + j * n < 2 ^ 16
      → first + i' + n + j' * n < 2 ^ 16
      → vf_bdf n (first + i) j ≡ vf_bdf n (first + i') j'
      → ((i ≡ i') × (j ≡ j')) × (first + n ≤ vf_bdf n (first + i) j)
  vf_bdf-Apart i i' j j' h h' fits fits' e = (
    unique n i i' j j' h h' (omega (arith, vf_value i j fits, vf_value i' j' fits', e)),
    omega (arith, vf_value i j fits),
  )

  pub find_device_owner-vf_bdf :
      (vfs i j : ℕ)
      → first + i + n + j * n < 2 ^ 16
      → (find_device_owner (fabric first vfs n) (vf_bdf n (first + i) j) ≡ none) ↔ (vfs ≤ i + j * n)
  find_device_owner-vf_bdf vfs i j fits =
      let value = vf_value i j fits in
      let found = owner_iff n first vfs (vf_bdf n (first + i) j) some_pf (omega (arith, value)) in
      (λ e. omega (arith, value, found.0 e), λ last. found.1 (omega (arith, value)))

  pub raise_msix-vf_bdf :
      {D : Type 0} (find_device : ℕ → ℕ → Option D) (msix_enabled msi_enabled : Target D → Bool)
      (vfs i j vector : ℕ)
      → first + i + n + j * n < 2 ^ 16
      → vfs ≤ i + j * n
      → raise_msix find_device msix_enabled msi_enabled
          (fabric first vfs n)
          (vf_bdf n (first + i) j)
          vector
        ≡ dropped
  unfolding raise_msix msix_target
  raise_msix-vf_bdf find_device msix_enabled msi_enabled vfs i j vector fits last =
      let rid = vf_bdf n (first + i) j in
      rw
        (
          take-slots first vfs n,
          no_pf n first vfs rid (omega (arith, vf_value i j fits)),
          (find_device_owner-vf_bdf vfs i j fits).1 last,
        )
        refl
