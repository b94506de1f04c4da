-- ===== src/Vcs/Complete.antt =====
-- bridge/vcs/bridge_vcs.c: the completions over a transport.
use qemu_vcs.Base.{
  ℕ, ◌+◌, ◌*◌, ◌/◌, List, Bool, false, ltb, if◌then◌else◌, ◌++◌, take, replicate, u16, u32,
}
use qemu_vcs.Messages.{Cpl}
use qemu_vcs.Messages.SyncType
use qemu_vcs.Transport.{Transport}

-- `COSIM_TLP_DATA_SIZE` and `TLP_CPL`
abbrev pub data_size : ℕ
data_size = 64

abbrev pub tlp_cpl : ℕ
tlp_cpl = 4

-- The words that `send_completion_ctx` copies for a length.
unfoldable pub words_for : ℕ → ℕ
words_for len = ((if ltb len data_size then len else data_size) + 3) / 4

-- The entry that `send_completion_ctx` builds from a length that is not negative and the bytes of
-- the caller's words; what is not copied is 0.
unfoldable pub completion : ℕ → List ℕ → ℕ → Cpl
unfolding words_for
completion tag words len = record {
  type = tlp_cpl;
  status = 0;
  tag = u16 tag;
  requester_id = 0;
  completer_id = 0;
  len = u32 len;
  data_bytes = take data_size (take (words_for len * 4) words ++ replicate data_size 0);
  timestamp = 0;
}

module _ {T : Type 0} (ops : Transport T) where
  -- `send_completion_ctx` with a transport.
  unfoldable pub send_completion : T → ℕ → List ℕ → ℕ → Bool × T
  unfolding completion
  send_completion t tag words len =
      let (sent, t') = ops.send_cpl t (completion tag words len) in
      if sent
      then ops.send_sync t' (record { kind = SyncType.cpl_ready; payload = 0 })
      else (false, t')
