-- ===== src/Tcp/Channels.antt =====
-- bridge/common/transport_tcp.c: the functions of the transport that carry one structure, each on
-- the stream of the socket that it uses.
use qemu_vcs.Base.{List, ℕ}
use qemu_vcs.Messages.{SyncMsg, Tlp, Cpl, DmaReq, DmaCpl, MsiEvent}
use qemu_vcs.Tcp.TypeOf
use qemu_vcs.Tcp.Message.{
  Stream, Recv, error, no_data, got, send_msg, recv_typed, recv_checked, Poll, recv_nb,
}
use qemu_vcs.Tcp.Structs.{
  sync_bytes, parse_sync, tlp_bytes, parse_tlp, cpl_bytes, parse_cpl, dma_req_bytes, parse_dma_req,
  dma_cpl_bytes, parse_dma_cpl, msi_bytes, parse_msi,
}

-- The bytes that were received, as the structure that they are copied into.
abbrev pub read_as : {A : Type 0} → (List ℕ → A) → Recv (List ℕ) → Recv A
read_as parse (got bs rest) = got (parse bs) rest
read_as parse (no_data rest) = no_data rest
read_as parse (error rest) = error rest

-- `tcp_send_sync`
unfoldable pub send_sync : Stream → SyncMsg → Stream
unfolding send_msg sync_bytes
send_sync s x = send_msg s TypeOf.sync (sync_bytes x)

-- `tcp_recv_sync`
unfoldable pub recv_sync : Stream → Recv SyncMsg
unfolding recv_checked parse_sync
recv_sync s = read_as parse_sync (recv_checked TypeOf.sync 8 s)

-- `tcp_send_tlp`
unfoldable pub send_tlp : Stream → Tlp → Stream
unfolding send_msg tlp_bytes
send_tlp s x = send_msg s TypeOf.tlp (tlp_bytes x)

-- `tcp_recv_tlp`
unfoldable pub recv_tlp : Stream → Recv Tlp
unfolding recv_typed parse_tlp
recv_tlp s = read_as parse_tlp (recv_typed TypeOf.tlp 112 s)

-- `tcp_send_cpl`
unfoldable pub send_cpl : Stream → Cpl → Stream
unfolding send_msg cpl_bytes
send_cpl s x = send_msg s TypeOf.cpl (cpl_bytes x)

-- `tcp_recv_cpl`
unfoldable pub recv_cpl : Stream → Recv Cpl
unfolding recv_typed parse_cpl
recv_cpl s = read_as parse_cpl (recv_typed TypeOf.cpl 84 s)

-- `tcp_send_dma_req`
unfoldable pub send_dma_req : Stream → DmaReq → Stream
unfolding send_msg dma_req_bytes
send_dma_req s x = send_msg s TypeOf.dma_req (dma_req_bytes x)

-- `tcp_recv_dma_req`
unfoldable pub recv_dma_req : Stream → Recv DmaReq
unfolding recv_typed parse_dma_req
recv_dma_req s = read_as parse_dma_req (recv_typed TypeOf.dma_req 32 s)

-- `tcp_recv_dma_req_nb`
unfoldable pub recv_dma_req_nb : Poll → Stream → Recv DmaReq
unfolding recv_nb parse_dma_req
recv_dma_req_nb poll s = read_as parse_dma_req (recv_nb TypeOf.dma_req 32 poll s)

-- `tcp_send_dma_cpl`
unfoldable pub send_dma_cpl : Stream → DmaCpl → Stream
unfolding send_msg dma_cpl_bytes
send_dma_cpl s x = send_msg s TypeOf.dma_cpl (dma_cpl_bytes x)

-- `tcp_recv_dma_cpl`
unfoldable pub recv_dma_cpl : Stream → Recv DmaCpl
unfolding recv_typed parse_dma_cpl
recv_dma_cpl s = read_as parse_dma_cpl (recv_typed TypeOf.dma_cpl 16 s)

-- `tcp_send_msi`
unfoldable pub send_msi : Stream → MsiEvent → Stream
unfolding send_msg msi_bytes
send_msi s x = send_msg s TypeOf.msi (msi_bytes x)

-- `tcp_recv_msi`
unfoldable pub recv_msi : Stream → Recv MsiEvent
unfolding recv_typed parse_msi
recv_msi s = read_as parse_msi (recv_typed TypeOf.msi 16 s)

-- `tcp_recv_msi_nb`
unfoldable pub recv_msi_nb : Poll → Stream → Recv MsiEvent
unfolding recv_nb parse_msi
recv_msi_nb poll s = read_as parse_msi (recv_nb TypeOf.msi 16 poll s)
