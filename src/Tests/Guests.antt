-- ===== src/Tests/Guests.antt =====
-- A guest whose memory holds one descriptor everywhere.
use qemu_vcs.Base.{
  ℕ, ◌+◌, ◌≡◌, some, true, List, [], ◌∷◌, arith, length, replicate, length-replicate, ◌==◌,
  if◌then◌else◌,
}
use qemu_vcs.Base.{ap, sym, ◌∙◌}
use qemu_vcs.Vq.{Queue, Guest, read_desc, tx_packet, tx_loop}
use qemu_vcs.Vq.Packet.{Exact, Fits, IsSmall, tx_packet-Fits}
use qemu_vcs.Vq.Loop.{Ends, tx_loop-Ends}
use qemu_vcs.Tcp.Codec.{from_le}

abbrev queue : Queue
queue = record {
  desc_gpa = 4096;
  avail_gpa = 8192;
  used_gpa = 12288;
  size = 256;
  last_avail = 65535;
  last_used = 65535;
  configured = true;
}

-- A descriptor of 20 bytes at address 1, without a successor.
abbrev desc_bytes : List ℕ
desc_bytes = 1 ∷ 0 ∷ 0 ∷ 0 ∷ 0 ∷ 0 ∷ 0 ∷ 0 ∷ 20 ∷ 0 ∷ 0 ∷ 0 ∷ 0 ∷ 0 ∷ 0 ∷ 0 ∷ []

abbrev memory : ℕ → List ℕ
memory len = if len == 16 then desc_bytes else replicate len 7

abbrev guest : Guest ℕ
guest = record { dma_read = λ m addr len. some (memory len); dma_write = λ m addr bs. some (m + 1) }

length-memory : (len : ℕ) → length (memory len) ≡ len
length-memory len = ground (arith, length-replicate {A = ℕ} len 7)

guest-Exact : Exact guest
guest-Exact = record { read_length = λ m addr len {bs} e. exact len e }
  where
    exact : (len : ℕ) {bs : List ℕ} → some (memory len) ≡ some bs → length bs ≡ len
    exact len {bs} e = let same : memory len ≡ bs = cc in ap length (sym same) ∙ length-memory len

queue-IsSmall : IsSmall guest guest-Exact queue 0
unfolding read_desc from_le
queue-IsSmall = record { len_ok = λ cur {d} e. ground arith }

tx_packet-Fits_example : Fits (tx_packet guest queue 0 3)
tx_packet-Fits_example = tx_packet-Fits guest guest-Exact queue 0 3 queue-IsSmall

-- Two entries are to come, past the wrap of the index.
tx_loop-Ends_example : Ends guest (tx_loop guest 3 queue 0 1 0 [])
tx_loop-Ends_example = tx_loop-Ends guest 3 queue 0 1 0 [] (omega arith) (omega arith) (omega arith)
