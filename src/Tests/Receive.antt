-- ===== src/Tests/Receive.antt =====
-- A guest's memory with a table of two descriptors, and frames that are injected into it.
use qemu_vcs.Base.{
  ℕ, zero, suc, ◌+◌, ◌*◌, ◌==◌, ◌^◌, ◌≤◌, ◌<◌, ◌≡◌, refl, ap, ap₂, some, true, List, [], ◌∷◌, ◌++◌,
  length, arith, replicate, get_or, if◌then◌else◌, ltb, ◌&&◌, ◌-◌, not, u64,
}
use mathlib.Core.Path.{subst}
use qemu_vcs.Tcp.Codec.{from_le}
use qemu_vcs.Vq.{Queue, Guest, Desc, read_desc, parse_desc}
use qemu_vcs.Vq.Receive.{inject_one}
use qemu_vcs.Vq.Lossless.{Lossless}
use qemu_vcs.Vq.Within.{InTable, KeptWithin, IsTable, memory, inject_one-keeps}

-- The byte at each address.
abbrev Ram : Type 0
Ram = ℕ → ℕ

unfoldable bytes_from : Ram → ℕ → ℕ → List ℕ
bytes_from m addr zero = []
bytes_from m addr (suc n) = m addr ∷ bytes_from m (addr + 1) n

abbrev put_bytes : Ram → ℕ → List ℕ → Ram
put_bytes m addr bs =
    λ at. if not (ltb at addr) && ltb at (addr + length bs) then get_or bs (at - addr) 0 else m at

abbrev ram : Guest Ram
ram = record {
  dma_read = λ m addr len. some (bytes_from m addr len);
  dma_write = λ m addr bs. some (put_bytes m addr bs);
}

-- A buffer of 100 bytes at 64, writable, that goes on in one of 1500 bytes at 256.
abbrev table_bytes : List ℕ
table_bytes =
    (64 ∷ 0 ∷ 0 ∷ 0 ∷ 0 ∷ 0 ∷ 0 ∷ 0 ∷ 100 ∷ 0 ∷ 0 ∷ 0 ∷ 3 ∷ 0 ∷ 1 ∷ 0 ∷ [])
    ++ (0 ∷ 1 ∷ 0 ∷ 0 ∷ 0 ∷ 0 ∷ 0 ∷ 0 ∷ 220 ∷ 5 ∷ 0 ∷ 0 ∷ 2 ∷ 0 ∷ 0 ∷ 0 ∷ [])

-- The table at 0, and an available ring with one entry, the descriptor 0, and its index at 4098.
abbrev start : Ram
start = λ at. if ltb at 32 then get_or table_bytes at 0 else (if at == 4098 then 1 else 0)

abbrev rx_queue : Queue
rx_queue = record {
  desc_gpa = 0;
  avail_gpa = 4096;
  used_gpa = 8192;
  size = 2;
  last_avail = 0;
  last_used = 0;
  configured = true;
}

-- What is below the buffers is what it was.
abbrev Below : Ram → Type 0
Below m = (at : ℕ) → at < 64 → m at ≡ start at

bytes_from-Below :
    (m : Ram) (addr n : ℕ) → Below m → addr + n ≤ 64 → bytes_from m addr n ≡ bytes_from start addr n
unfolding bytes_from
bytes_from-Below m addr zero below h = refl
bytes_from-Below m addr (suc n) below h =
    ap₂ ◌∷◌ (below addr (omega arith)) (bytes_from-Below m (addr + 1) n below (omega arith))

read_desc-Below :
    (m : Ram) (cur : ℕ)
    → Below m
    → cur < 2
    → read_desc ram rx_queue m cur ≡ read_desc ram rx_queue start cur
unfolding read_desc
read_desc-Below m cur below h =
    ap (λ bs. some (parse_desc bs)) (bytes_from-Below m (u64 (0 + cur * 16)) 16 below (omega arith))

table_desc :
    (d : Desc)
    → InTable ram rx_queue start d
    → (64 ≤ d.addr) × (d.addr + d.len < 2 ^ 64) × (d.next < 2)
unfolding read_desc bytes_from from_le
table_desc d (zero, h, e) =
    let same : parse_desc (bytes_from start 0 16) ≡ d = cc in
    (
      omega (arith, ap (λ x. x.addr) same),
      omega (arith, ap (λ x. x.addr) same, ap (λ x. x.len) same),
      omega (arith, ap (λ x. x.next) same),
    )
table_desc d (suc zero, h, e) =
    let same : parse_desc (bytes_from start 16 16) ≡ d = cc in
    (
      omega (arith, ap (λ x. x.addr) same),
      omega (arith, ap (λ x. x.addr) same, ap (λ x. x.len) same),
      omega (arith, ap (λ x. x.next) same),
    )
table_desc d (suc (suc cur), h, e) = absurd (omega arith)

put_bytes-Below :
    (m : Ram) (addr : ℕ) (bs : List ℕ) → 64 ≤ addr → Below m → Below (put_bytes m addr bs)
put_bytes-Below m addr bs high below at h =
    let out : ltb at addr ≡ true = ground arith in rw out (below at h)

Below-KeptWithin : KeptWithin ram rx_queue start Below
Below-KeptWithin = record {
  kept_by = λ m d addr bs {m'} read writable low high e p. keep m d addr bs read low e p;
  table_kept = read_desc-Below;
}
  where
    keep :
        (m : Ram) (d : Desc) (addr : ℕ) (bs : List ℕ) {m' : Ram}
        → InTable ram rx_queue start d
        → d.addr ≤ addr
        → some (put_bytes m addr bs) ≡ some m'
        → Below m
        → Below m'
    keep m d addr bs {m'} read low e p =
        let same : put_bytes m addr bs ≡ m' = cc in
        subst Below same (put_bytes-Below m addr bs (omega (arith, (table_desc d read).0)) p)

start-IsTable : IsTable ram rx_queue start
start-IsTable = record {
  bound = λ d read. (table_desc d read).1;
  linked = λ d read more. (table_desc d read).2;
}

inject_one-keeps_example : Below (memory ram (inject_one ram rx_queue start 0 (replicate 500 9)))
inject_one-keeps_example =
    inject_one-keeps ram rx_queue start Below Below-KeptWithin 0 (replicate 500 9) start-IsTable
      (omega arith) (λ at h. refl)
