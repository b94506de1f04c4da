-- ===== src/Lib.antt =====
-- The C core of the QEMU-VCS co-simulation platform: the bridge between an emulator (QEMU) and
-- an RTL simulator (VCS). The emulator sends PCIe TLPs, the simulator answers with completions,
-- reads and writes guest memory by DMA, and exchanges Ethernet frames with a peer.
--
-- The parts and their files:
--
-- Base: Boolean tests, lists, words and byte memory over the native numbers, and the laws of
-- masks.
-- Circular, Fifo: circular buffers and the bounded first-in first-out queue that they
-- implement. Fifo.Impl is the contract; the ring buffer, the Ethernet ring and the TLP cache
-- each fill it, and Fifo.Laws proves the refinement once for all of them.
-- Ring: bridge/common/ring_buffer.c. A ring is its header with the bytes behind it; `enqueue`
-- and `dequeue` are ring_buf_enqueue and ring_buf_dequeue, `init` and `attach` are
-- ring_buf_init and ring_buf_attach.
-- DmaPool: bridge/common/dma_manager.c. `alloc` is dma_mgr_alloc without interference,
-- `alloc_among` is the call with what other threads do between the load and the
-- compare-exchange of each round.
-- Link: bridge/common/link_model.c. Eth.Shm: bridge/common/eth_shm.c with eth_types.h.
-- Eth.Port: bridge/eth/eth_port.c. Eth.Dpi: bridge/eth/eth_mac_dpi.c, the one port of a
-- process. A port is passed beside the memory that both nodes share.
-- Tcp: bridge/common/transport_tcp.c and .h. Socket is the loops tcp_send_all and tcp_recv_all
-- against the answers of the kernel; Codec and Message are the framing on byte streams;
-- Handshake is tcp_do_handshake_server and tcp_do_handshake_client.
-- Tcp.Structs and Tcp.Channels are the packed structures on the stream, one send and one
-- receive for each.
-- Messages, Transport: bridge/common/cosim_types.h, cosim_topology.h and the function table of
-- cosim_transport.h. Transport.Wires is a transport of whole messages that loses nothing.
-- Vcs: bridge/vcs/bridge_vcs.c. Cache is tlp_cache_push_ctx and tlp_cache_pop_ctx, Poll is
-- poll_tlp_ctx over a transport, Complete is send_completion_ctx over a transport, Shared is
-- the branches of the file over the shared memory, Scalar is the functions without arrays with
-- one slot of variables for each root complex, Requests is the other requests over a transport,
-- the clock steps and the events, Dma is bridge_dma_read_bytes, bridge_dma_write_bytes and
-- bridge_vcs_dma_read_sync over a transport, with bridge_complete_dma and
-- bridge_complete_dma_with_data of bridge/qemu/bridge_qemu.c, which answer them.
-- Shm: bridge/common/shm_layout.c, and Shm.Channels: the channels of
-- bridge/common/transport_shm.c that are rings. Fifo.Encoded makes a queue of structures of a
-- ring of bytes.
-- Socket: bridge/qemu/sock_sync.c, the timed receive and the wait for the peer, and the
-- interface through which the bridges use the socket.
-- Qemu: bridge/qemu/bridge_qemu.c. TLPs with their tags, completions, topology and VF events;
-- Shared is its completions of DMA over the shared memory, the mode switch and the clock steps,
-- and Clock puts the latter between the two simulators.
-- Device: qemu-plugin. Mmio is the accesses to BARs of cosim_pcie_rc.c and cosim_pcie_pf.c, Dma
-- their DMA callbacks, Irq the queue between the poller and the bottom half, Routes the search
-- for the device of an interrupt, Config the configuration space of the root complex with its
-- cache of BDFs, Pf that of physical and virtual functions (cosim_pcie_vf.c), Discover the
-- sizes of BARs and the capabilities. Mmio.Endpoint and Discover.Space are the endpoints that
-- the theorems speak of; Dma.Guest composes the DMA of the simulator with the callback of the
-- emulator.
-- Poller: the turns of the thread of bridge/qemu/irq_poller.c over a transport, and Poller.Shm
-- over the shared memory. Poller.Served puts the DMA callback of qemu-plugin into the latter.
-- Vq: bridge/vcs/virtqueue_dma.c, the transmit queue, and Vq.Receive, the receive queue. Guest
-- memory is an interface of reads and writes that may fail.
-- Tests: concrete inputs for the theorems.
--
-- A parameter stands for what the C code reaches outside the repository: the kernel's answers
-- to send, recv, poll and shm_open, the clock, the threads of the peer, QEMU's configuration
-- space, its physical memory and its search for devices. The memory orders of the atomics are
-- not modelled: operations of different threads interleave as whole steps.
--
-- Bounds and fuel: `Vcs.Poll.drain`, `Vq.tx_loop` and `hand_on` run on fuel. A drain needs one
-- round more than there are messages to come, and the transmit loop one round more than there
-- are entries in the available ring, at most 2 ^ 16 (both are theorems); `hand_on`, a loop of
-- the poller over the shared memory, needs one round more than there are requests to take, also
-- a theorem. The waits of the DMA calls and of the completions are the loops of the source with
-- its bounds, 1000 and 256. Words of C are natural numbers with their wrap-around written out.
-- Where an `int` overflows, the timed receive of the socket and the queue of interrupts have a
-- result of its own.
--
-- Not modelled: the other channels of transport_shm.c, the topology codec and the connection
-- phase of transport_tcp.c, the realize and exit functions of qemu-plugin, trace_log.c, the
-- driver of guest, and everything that is not C. Printing is left out.
pub mod Base
pub mod Circular
pub mod Fifo
pub mod Ring
pub mod DmaPool
pub mod Tcp
pub mod Link
pub mod Eth
pub mod Messages
pub mod Transport
pub mod Shm
pub mod Socket
pub mod Vcs
pub mod Qemu
pub mod Device
pub mod Vq
pub mod Poller
pub mod Tests
