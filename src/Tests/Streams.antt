-- ===== src/Tests/Streams.antt =====
-- Short streams for the TCP transport.
use qemu_vcs.Base.{◌≡◌, some, true, false, [], ◌∷◌, ◌++◌, arith}
use qemu_vcs.Eth.Shm.{Frame}
use qemu_vcs.Tcp.Socket.{moves, interrupted, move_all, Exact, move_all-Exact}
use qemu_vcs.Tcp.Message.{Stream, got, DmaData, send_dma_data, recv_dma_data}
use qemu_vcs.Tcp.Roundtrip.{recv_dma_data-send_dma_data}
use qemu_vcs.Tcp.Handshake.{Priv, handshake, handshake_lem}

abbrev payload : Stream
payload = 1 ∷ 2 ∷ 3 ∷ []

abbrev rest : Stream
rest = 9 ∷ []

abbrev block : DmaData
block = record { tag = 5000; direction = 0; host_addr = 0xFEE00000; bytes = payload }

recv_dma_data-send_dma_data_example :
    recv_dma_data (send_dma_data [] block ++ rest) ≡ got block rest
recv_dma_data-send_dma_data_example =
    recv_dma_data-send_dma_data block rest (omega arith) (omega arith) (omega arith) (omega arith)

abbrev frame : Frame
frame = record { len = 3; flags = 0; seq = 7; timestamp_ns = 123456; payload = payload }

move_all-Exact_example : Exact 2 payload (move_all 2 payload (interrupted ∷ moves 0 ∷ moves 5 ∷ []))
move_all-Exact_example = move_all-Exact 2 payload (interrupted ∷ moves 0 ∷ moves 5 ∷ [])

abbrev server : Priv
server = record { aux = true; aux_listen = true; negotiated_version = 1; peer_is_ready = false }

-- A client whose auxiliary connection was lost.
abbrev client : Priv
client = record { aux = false; aux_listen = false; negotiated_version = 1; peer_is_ready = false }

abbrev settled : Priv
settled = record { aux = false; aux_listen = false; negotiated_version = 2; peer_is_ready = true }

handshake_example : handshake server client ≡ some (settled, settled)
handshake_example = handshake_lem server client
