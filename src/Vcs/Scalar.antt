-- ===== src/Vcs/Scalar.antt =====
-- bridge/vcs/bridge_vcs.c: the functions without arrays that the simulator calls, one slot of
-- variables for each root complex. Indices are not negative here.
pub mod Slots
use qemu_vcs.Base.{
  ℕ, zero, suc, ◌+◌, ◌*◌, ◌/◌, ◌%◌, Bool, true, false, Option, none, some, List, [], ◌∷◌, ◌++◌,
  ◌==◌, ◌!=◌, ◌&&◌, ◌||◌, not, ltb, if◌then◌else◌, get_or, set, take, drop, bit_and, u32, max, min,
}
use qemu_vcs.Messages.{Tlp, VfEvent}
use qemu_vcs.Tcp.Codec.{le32, from_le}
use qemu_vcs.Vcs.Cache.{Rc}
use qemu_vcs.Vcs.Poll.{Polled, tlp, empty, error, poll_vf_event}

-- What belongs to a root complex: `g_rc`, its transport and whether it is not null, and the entries of
-- `g_poll_tlp_type`, `g_poll_addr`, `g_poll_len`, `g_poll_tag`, `g_poll_data_buf`,
-- `g_send_cpl_buf` and `g_bar_base`.
pub record Slot (T : Type 0) : Type 0 where
  pub rc : Rc
  pub link : T
  pub has_transport : Bool
  pub poll_type : ℕ
  pub poll_addr : ℕ
  pub poll_len : ℕ
  pub poll_tag : ℕ
  pub poll_data : List ℕ
  pub cpl_words : List ℕ
  pub bar_base : List ℕ

-- The slots by their index, `g_num_rc`, `g_initialized` and `g_bdf_bar_base`.
pub record Globals (T : Type 0) : Type 0 where
  pub slots : ℕ → Slot T
  pub num_rc : ℕ
  pub initialized : Bool
  pub bdf_bar_base : ℕ → ℕ → ℕ

-- `COSIM_MAX_RCS`
abbrev pub max_rcs : ℕ
max_rcs = 4

-- `rc_ok`
unfoldable pub rc_ok : ℕ → Bool
rc_ok rc = ltb rc max_rcs

abbrev pub put_slot : {T : Type 0} → Globals T → ℕ → Slot T → Globals T
put_slot g rc x = record g { slots = λ r. if r == rc then x else g.slots r }

-- The first words of some bytes, and the bytes of some words.
unfoldable pub words_of : ℕ → List ℕ → List ℕ
words_of zero bytes = []
words_of (suc n) bytes = from_le (take 4 bytes) ∷ words_of n (drop 4 bytes)

unfoldable pub bytes_of_words : List ℕ → List ℕ
bytes_of_words [] = []
bytes_of_words (w ∷ ws) = le32 w ++ bytes_of_words ws

-- The words that `poll_tlp_ctx` copies: those of the length, at most sixteen.
unfoldable pub polled_words : Tlp → ℕ
polled_words e = min (u32 (e.len + 3) / 4) 16

-- What `poll_tlp_ctx` stores of a TLP; the words behind it stay.
unfoldable pub store_polled : {T : Type 0} → Slot T → Tlp → Slot T
store_polled x e = record x {
  poll_type = e.type;
  poll_addr = e.addr;
  poll_len = e.len;
  poll_tag = e.tag;
  poll_data = words_of (polled_words e) e.data_bytes ++ drop (polled_words e) x.poll_data;
}

-- The result of a poll: 0, 1 or -1.
pub data Status : Type 0 where
  available nothing_new poll_error : Status

abbrev pub status_of : Polled → Status
status_of (tlp e) = available
status_of empty = nothing_new
status_of error = poll_error

abbrev pub stored : {T : Type 0} → Slot T → Polled → Slot T
stored x (tlp e) = store_polled x e
stored x empty = x
stored x error = x

-- `poll_tlp_ctx` and `send_completion_ctx` over the transport of the root complex; `none` where the
-- rounds of a poll have run out. Over the shared memory the source has one region and one socket
-- for all slots, which these functions do not cover.
module _ {T : Type 0} (poll : Rc → T → Option (Polled × (Rc × T)))
    (send : T → ℕ → List ℕ → ℕ → Bool × T) where
  -- `bridge_vcs_poll_tlp_scalar_rc`
  unfoldable pub poll_tlp_scalar_rc : Globals T → ℕ → Option (Status × Globals T)
  poll_tlp_scalar_rc g rc =
      if rc_ok rc
      then elim (poll (g.slots rc).rc (g.slots rc).link) [
        | none ↦ none
        | some (p, (c, t)) ↦
            some (status_of p, put_slot g rc (stored (record (g.slots rc) { rc = c; link = t }) p))
      ]
      else some (poll_error, g)

  -- `bridge_vcs_send_cpl_scalar_rc`
  unfoldable pub send_cpl_scalar_rc : Globals T → ℕ → ℕ → ℕ → Bool × Globals T
  send_cpl_scalar_rc g rc tag len =
      let x = g.slots rc in
      let (sent, t) = send x.link tag (bytes_of_words x.cpl_words) len in
      if rc_ok rc then (sent, put_slot g rc (record x { link = t })) else (false, g)

module _ {T : Type 0} where
  -- The getters: `bridge_vcs_get_poll_type_rc` to `bridge_vcs_get_tlp_requester_id_rc`.
  abbrev pub of_slot : (Slot T → ℕ) → Globals T → ℕ → ℕ
  of_slot field g rc = if rc_ok rc then field (g.slots rc) else 0

  unfoldable pub get_poll_type_rc : Globals T → ℕ → ℕ
  get_poll_type_rc = of_slot (λ x. x.poll_type)

  unfoldable pub get_poll_addr_rc : Globals T → ℕ → ℕ
  get_poll_addr_rc = of_slot (λ x. x.poll_addr)

  unfoldable pub get_poll_len_rc : Globals T → ℕ → ℕ
  get_poll_len_rc = of_slot (λ x. x.poll_len)

  unfoldable pub get_poll_tag_rc : Globals T → ℕ → ℕ
  get_poll_tag_rc = of_slot (λ x. x.poll_tag)

  unfoldable pub get_poll_data_rc : Globals T → ℕ → ℕ → ℕ
  get_poll_data_rc g rc index =
      if not (rc_ok rc) || not (ltb index 16) then 0 else get_or (g.slots rc).poll_data index 0

  unfoldable pub get_poll_first_be_rc : Globals T → ℕ → ℕ
  get_poll_first_be_rc = of_slot (λ x. x.rc.last_entry.first_be)

  unfoldable pub get_poll_last_be_rc : Globals T → ℕ → ℕ
  get_poll_last_be_rc = of_slot (λ x. x.rc.last_entry.last_be)

  unfoldable pub get_tlp_target_bdf_rc : Globals T → ℕ → ℕ
  get_tlp_target_bdf_rc = of_slot (λ x. x.rc.last_entry.target_bdf)

  unfoldable pub get_tlp_requester_id_rc : Globals T → ℕ → ℕ
  get_tlp_requester_id_rc = of_slot (λ x. x.rc.last_entry.requester_id)

  -- `bridge_vcs_poll_vf_event_rc`; `none` is the 0.
  unfoldable pub poll_vf_event_rc : Globals T → ℕ → Option VfEvent × Globals T
  poll_vf_event_rc g rc =
      let (ev, c) = poll_vf_event (g.slots rc).rc in
      if rc_ok rc then (ev, put_slot g rc (record (g.slots rc) { rc = c })) else (none, g)

  -- `bridge_vcs_set_cpl_data_rc`
  unfoldable pub set_cpl_data_rc : Globals T → ℕ → ℕ → ℕ → Globals T
  set_cpl_data_rc g rc index value =
      let x = g.slots rc in
      if rc_ok rc && ltb index 16
      then put_slot g rc (record x { cpl_words = set x.cpl_words index value })
      else g

  -- `bridge_vcs_set_bar_base_rc` and `bridge_vcs_get_bar_base_rc`
  unfoldable pub set_bar_base_rc : Globals T → ℕ → ℕ → ℕ → Globals T
  set_bar_base_rc g rc index base =
      let x = g.slots rc in
      if rc_ok rc && ltb index 6
      then put_slot g rc (record x { bar_base = set x.bar_base index base })
      else g

  unfoldable pub get_bar_base_rc : Globals T → ℕ → ℕ → ℕ
  get_bar_base_rc g rc index =
      if rc_ok rc && ltb index 6 then get_or (g.slots rc).bar_base index 0 else 0

  -- `bridge_vcs_set_bar_base_bdf`
  unfoldable pub set_bar_base_bdf : Globals T → ℕ → ℕ → ℕ → Globals T
  set_bar_base_bdf g bdf bar_idx bar_addr =
      let h = bit_and bdf 511 in
      let g' = record g {
        bdf_bar_base = λ i j. if (i == h) && (j == bar_idx) then bar_addr else g.bdf_bar_base i j;
      } in
      let x = g.slots 0 in
      if ltb bar_idx 6
      then (if bdf % 8 == 0
          then put_slot g' 0 (record x { bar_base = set x.bar_base bar_idx bar_addr })
          else g')
      else g

  -- `bridge_vcs_init`, on whether the memory is opened and the socket connected; true is 0.
  unfoldable pub init_shm : Globals T → Bool → Bool → Bool × Globals T
  init_shm g opens connects =
      if g.initialized
      then (true, g)
      else (if opens && connects then (true, record g { initialized = true }) else (false, g))

  -- `bridge_vcs_init_ex_rc`: `shm` says that the transport is the shared memory, and the option is
  -- what `transport_create` gives.
  unfoldable pub init_ex_rc : Globals T → ℕ → Bool → Bool → Bool → Option T → Bool × Globals T
  init_ex_rc g rc shm opens connects created =
      let started = init_shm g opens connects in
      if not (rc_ok rc)
      then (false, g)
      else (if shm
          then (if rc == 0 then started else (false, g))
          else (if (g.slots rc).has_transport then (true, g) else elim created [
            | none ↦ (false, g)
            | some t ↦ (
              true,
              record (put_slot g rc (record (g.slots rc) { link = t; has_transport = true })) {
                num_rc = max g.num_rc (rc + 1);
              },
            )
          ]))

  -- `bridge_vcs_init_ex`
  unfoldable pub init_ex : Globals T → Bool → Bool → Bool → Option T → Bool × Globals T
  init_ex g shm opens connects created =
      let started = init_ex_rc g 0 shm opens connects created in
      if g.initialized || (g.slots 0).has_transport then (true, g) else started

  -- `bridge_vcs_cleanup` and `bridge_vcs_cleanup_ex_rc`
  unfoldable pub cleanup : Globals T → Globals T
  cleanup g = if g.initialized then record g { initialized = false } else g

  unfoldable pub cleanup_ex_rc : Globals T → ℕ → Globals T
  cleanup_ex_rc g rc =
      if rc_ok rc
      then (if (g.slots rc).has_transport
          then put_slot g rc (record (g.slots rc) { has_transport = false })
          else (if rc == 0 then cleanup g else g))
      else g
