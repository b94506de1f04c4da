-- ===== src/Device/Mmio/Endpoint.antt =====
-- An endpoint that answers the TLPs of bridge/qemu/bridge_qemu.c: a memory of DWORDs, written under
-- the byte enables of a TLP.
use qemu_vcs.Base.{
  ℕ, ◌/◌, ◌%◌, ◌^◌, Option, none, some, true, List, [], ◌∷◌, if◌then◌else◌, ◌==◌, get_or,
}
use qemu_vcs.Messages.{Tlp, Cpl}
use qemu_vcs.Messages.SyncType
use qemu_vcs.Qemu.{TlpTransport}
use qemu_vcs.Device.Mmio.{mwr, mrd}

-- The four bytes of a DWORD.
pub record Quad : Type 0 where
  pub b0 : ℕ
  pub b1 : ℕ
  pub b2 : ℕ
  pub b3 : ℕ

-- A memory by the address of its DWORDs, and the completion that waits.
pub record Endpoint : Type 0 where
  pub mem : ℕ → Quad
  pub answer : Option Cpl

abbrev pub update : (ℕ → Quad) → ℕ → Quad → ℕ → Quad
update mem addr q = λ a. if a == addr then q else mem a

-- A byte under its byte enable.
abbrev pub enabled : ℕ → ℕ → ℕ → ℕ → ℕ
enabled be i new old = if (be / 2 ^ i) % 2 == 1 then new else old

unfoldable pub merge : ℕ → List ℕ → Quad → Quad
merge be bytes q = record {
  b0 = enabled be 0 (get_or bytes 0 0) q.b0;
  b1 = enabled be 1 (get_or bytes 1 0) q.b1;
  b2 = enabled be 2 (get_or bytes 2 0) q.b2;
  b3 = enabled be 3 (get_or bytes 3 0) q.b3;
}

abbrev pub bytes_of : Quad → List ℕ
bytes_of q = q.b0 ∷ q.b1 ∷ q.b2 ∷ q.b3 ∷ []

abbrev pub completes : Tlp → List ℕ → Cpl
completes req bytes = record {
  type = 4;
  status = 0;
  tag = req.tag;
  requester_id = 0;
  completer_id = 0;
  len = 4;
  data_bytes = bytes;
  timestamp = 0;
}

unfoldable pub accept : Endpoint → Tlp → Endpoint
unfolding merge
accept e req =
    if req.type == mrd
    then record e { answer = some (completes req (bytes_of (e.mem req.addr))) }
    else (if req.type == mwr
        then record e {
          mem = update e.mem req.addr (merge req.first_be req.data_bytes (e.mem req.addr));
        }
        else e)

abbrev pub endpoint : TlpTransport Endpoint
endpoint = record {
  send_tlp = λ e req. (true, accept e req);
  send_sync = λ e m. (true, e);
  recv_sync = λ e. (some (record { kind = SyncType.cpl_ready; payload = 0 }), e);
  recv_cpl = λ e. (e.answer, record e { answer = none });
  recv_topology = λ e. (none, e);
}
