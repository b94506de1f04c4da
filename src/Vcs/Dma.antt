-- ===== src/Vcs/Dma.antt =====
-- The DMA of bridge/vcs/bridge_vcs.c over a transport, and the answers of bridge/qemu/bridge_qemu.c.
use qemu_vcs.Base.{
  ℕ, zero, suc, ◌+◌, ◌*◌, ◌/◌, min, none, some, List, Bool, true, false, ltb, ◌==◌, ◌!=◌,
  if◌then◌else◌, length, take, ◌||◌, ◌&&◌, not,
}
use qemu_vcs.Messages.{DmaReq, dir_read, dir_write}
use qemu_vcs.Messages.SyncType
use qemu_vcs.Transport.{Transport}
use qemu_vcs.Tcp.Message.{DmaData}
use qemu_vcs.Vcs.Cache.{Rc}
use qemu_vcs.Vcs.Poll.{cache_received}

-- The end of a read: 0 with the bytes, -1, or a write past the end of a local buffer.
pub data ReadEnd : Type 0 where
  bytes_read : List ℕ → ReadEnd
  read_failed : ReadEnd
  overrun : ReadEnd

-- The size of `buf_stale_discard`, and of `tmp_buf` in `bridge_vcs_dma_read_sync`.
abbrev pub stale_size : ℕ
stale_size = 4096

abbrev pub tmp_size : ℕ
tmp_size = 64

-- The bytes of the words that `bridge_vcs_dma_read_sync` copies for a length.
abbrev pub words_len : ℕ → ℕ
words_len len = 4 * min ((len + 3) / 4) 16

module _ {T : Type 0} (ops : Transport T) where
  -- `bridge_complete_dma` with a transport.
  unfoldable pub complete_dma : T → ℕ → ℕ → Bool × T
  complete_dma t tag status =
      let (sent, t') = ops.send_dma_cpl t (record { tag = tag; status = status; timestamp = 0 }) in
      if sent
      then ops.send_sync t' (record { kind = SyncType.dma_cpl; payload = tag })
      else (false, t')

  -- `bridge_complete_dma_with_data` with a transport.
  unfoldable pub complete_dma_with_data : T → ℕ → DmaData → Bool × T
  unfolding complete_dma
  complete_dma_with_data t status d =
      let (sent, t') = ops.send_dma_data t d in
      if sent then complete_dma t' d.tag status else (false, t')

  -- The wait of `bridge_dma_read_bytes` for at most so many rounds: the data come first, then the
  -- completion. An answer to another request is dropped.
  unfoldable pub wait_read : ℕ → ℕ → ℕ → Rc → T → ReadEnd × (Rc × T)
  wait_read zero tag len c t = (read_failed, (c, t))
  wait_read (suc rounds) tag len c t =
      let (received, t') = ops.recv_sync t in
      elim received [
        | none ↦ (read_failed, (c, t'))
        | some msg ↦ elim (msg.kind == SyncType.shutdown) [
          | true ↦ (read_failed, (c, t'))
          | false ↦ elim (msg.kind == SyncType.tlp_ready) [
            | true ↦
                let (c', t'') = cache_received ops c (ops.recv_tlp t') in
                wait_read rounds tag len c' t''
            | false ↦ elim (msg.kind == SyncType.dma_cpl) [
              | false ↦ wait_read rounds tag len c t'
              | true ↦
                  let (block, t1) = ops.recv_dma_data t' in
                  elim block [
                    | none ↦ (read_failed, (c, t1))
                    | some d ↦ elim (ltb stale_size (length d.bytes)) [
                      | true ↦ (overrun, (c, t1))
                      | false ↦
                          let (answer, t2) = ops.recv_dma_cpl t1 in
                          elim answer [
                            | none ↦ (read_failed, (c, t2))
                            | some a ↦ elim ((a.tag != tag) || (a.status != 0)) [
                              | true ↦ wait_read rounds tag len c t2
                              | false ↦ (bytes_read (take len d.bytes), (c, t2))
                            ]
                          ]
                    ]
                  ]
            ]
          ]
        ]
      ]

  -- `bridge_dma_read_bytes` with a transport and a buffer; `tag` is the value of `rd_tag`.
  unfoldable pub dma_read_bytes : Bool → ℕ → ℕ → ℕ → Rc → T → ReadEnd × (Rc × T)
  unfolding wait_read
  dma_read_bytes initialized tag host_addr len c t =
      let req : DmaReq = record {
        requester_id = 0;
        tag = tag;
        direction = dir_read;
        host_addr = host_addr;
        len = len;
        dma_offset = 0;
        timestamp = 0;
      } in
      let (sent, t') = ops.send_dma_req t req in
      if not initialized || (len == 0)
      then (read_failed, (c, t))
      else (if sent then wait_read 1000 tag len c t' else (read_failed, (c, t')))

  -- The wait of `bridge_vcs_dma_read_sync`: the completion first, then the data, of which whole words
  -- are copied, sixteen at most. Where fewer bytes come, the rest of `tmp_buf` is not initialised,
  -- and the result is what has come.
  unfoldable pub wait_read_sync : ℕ → ℕ → ℕ → Rc → T → ReadEnd × (Rc × T)
  wait_read_sync zero tag len c t = (read_failed, (c, t))
  wait_read_sync (suc rounds) tag len c t =
      let (received, t') = ops.recv_sync t in
      elim received [
        | none ↦ (read_failed, (c, t'))
        | some msg ↦ elim (msg.kind == SyncType.shutdown) [
          | true ↦ (read_failed, (c, t'))
          | false ↦ elim (msg.kind == SyncType.tlp_ready) [
            | true ↦
                let (c', t'') = cache_received ops c (ops.recv_tlp t') in
                wait_read_sync rounds tag len c' t''
            | false ↦ elim (msg.kind == SyncType.dma_cpl) [
              | false ↦ wait_read_sync rounds tag len c t'
              | true ↦
                  let (answer, t1) = ops.recv_dma_cpl t' in
                  elim answer [
                    | none ↦ (read_failed, (c, t1))
                    | some a ↦ elim ((a.tag != tag) || (a.status != 0)) [
                      | true ↦ (read_failed, (c, t1))
                      | false ↦
                          let (block, t2) = ops.recv_dma_data t1 in
                          elim block [
                            | none ↦ (read_failed, (c, t2))
                            | some d ↦ elim (ltb tmp_size (length d.bytes)) [
                              | true ↦ (overrun, (c, t2))
                              | false ↦ (bytes_read (take (words_len len) d.bytes), (c, t2))
                            ]
                          ]
                    ]
                  ]
            ]
          ]
        ]
      ]

  -- The wait of `bridge_dma_write_bytes` and `bridge_vcs_dma_write_sync`; true is 0.
  unfoldable pub wait_write : ℕ → ℕ → Rc → T → Bool × (Rc × T)
  wait_write zero tag c t = (false, (c, t))
  wait_write (suc rounds) tag c t =
      let (received, t') = ops.recv_sync t in
      elim received [
        | none ↦ (false, (c, t'))
        | some msg ↦ elim (msg.kind == SyncType.shutdown) [
          | true ↦ (false, (c, t'))
          | false ↦ elim (msg.kind == SyncType.tlp_ready) [
            | true ↦
                let (c', t'') = cache_received ops c (ops.recv_tlp t') in
                wait_write rounds tag c' t''
            | false ↦ elim (msg.kind == SyncType.dma_cpl) [
              | false ↦ wait_write rounds tag c t'
              | true ↦
                  let (answer, t1) = ops.recv_dma_cpl t' in
                  elim answer [
                    | none ↦ (false, (c, t1))
                    | some a ↦ ((a.tag == tag) && (a.status == 0), (c, t1))
                  ]
            ]
          ]
        ]
      ]

  -- `bridge_dma_write_bytes` with a transport and a buffer: the request, then its data, then the
  -- wait. `tag` is the value of `wr_tag`.
  unfoldable pub dma_write_bytes : Bool → ℕ → ℕ → List ℕ → Rc → T → Bool × (Rc × T)
  unfolding wait_write
  dma_write_bytes initialized tag host_addr buf c t =
      let req : DmaReq = record {
        requester_id = 0;
        tag = tag;
        direction = dir_write;
        host_addr = host_addr;
        len = length buf;
        dma_offset = 0;
        timestamp = 0;
      } in
      let (asked, t') = ops.send_dma_req t req in
      let (sent, t'') =
        ops.send_dma_data t'
          (record { tag = tag; direction = dir_write; host_addr = host_addr; bytes = buf }) in
      if not initialized || (length buf == 0)
      then (false, (c, t))
      else (if asked
          then (if sent then wait_write 1000 tag c t'' else (false, (c, t'')))
          else (false, (c, t')))
