-- ===== src/Vcs/Cache.antt =====
-- bridge/vcs/bridge_vcs.c: the state of a root complex, `rc_ctx_t`, and its cache of TLPs.
use qemu_vcs.Base.{
  ℕ, ◌+◌, ◌-◌, ◌%◌, ◌≤◌, ◌<◌, ◌≡◌, ◌≢◌, refl, sym, ap, Option, none, some, List, Bool, false, arith,
  length, get_or, set, ◌==◌, if◌then◌else◌, Bool-cases, inl, inr, length-set, ==_iff,
}
use mathlib.Core.Option
use qemu_vcs.Circular.Array.{
  held, length-held, held_empty, held_full, held_room, held_push, held_pop,
}
use qemu_vcs.Fifo.{put, get, Impl}
use qemu_vcs.Messages.{Tlp, zero_tlp, VfEvent, Topology}

-- `rc_ctx_t`, without its transport.
pub record Rc : Type 0 where
  pub topology : Topology
  pub topology_ready : Bool
  pub vf_event_pending : Bool
  pub vf_event : VfEvent
  pub tlp_cache : List Tlp
  pub tlp_cache_head : ℕ
  pub tlp_cache_tail : ℕ
  pub poll_count : ℕ
  pub last_entry : Tlp
  pub empty_streak : ℕ

-- `TLP_CACHE_SIZE`
abbrev pub cache_size : ℕ
cache_size = 1024

-- `tlp_cache_push_ctx`: the head is the producer's index.
unfoldable pub cache_push : Rc → Tlp → Option Rc
cache_push c e =
    let next = (c.tlp_cache_head + 1) % cache_size in
    if next == c.tlp_cache_tail
    then none
    else some (record c { tlp_cache = set c.tlp_cache c.tlp_cache_head e; tlp_cache_head = next })

-- `tlp_cache_pop_ctx`
unfoldable pub cache_pop : Rc → Option (Tlp × Rc)
cache_pop c =
    if c.tlp_cache_head == c.tlp_cache_tail
    then none
    else some (
      get_or c.tlp_cache c.tlp_cache_tail zero_tlp,
      record c { tlp_cache_tail = (c.tlp_cache_tail + 1) % cache_size },
    )

-- `tlp_cache_count_ctx`
unfoldable pub cache_count : Rc → ℕ
cache_count c = (c.tlp_cache_head + cache_size - c.tlp_cache_tail) % cache_size

pub record IsValid (c : Rc) : Type 0 where
  pub length_ok : length c.tlp_cache ≡ cache_size
  pub head_ok : c.tlp_cache_head < cache_size
  pub tail_ok : c.tlp_cache_tail < cache_size

-- The cached TLPs, oldest first.
abbrev pub contents : Rc → List Tlp
contents c = held zero_tlp c.tlp_cache cache_size c.tlp_cache_tail c.tlp_cache_head

ne_of_test : {x y : ℕ} → (x == y) ≡ false → x ≢ y
ne_of_test h = ground arith

pub cache_push-IsValid :
    (c : Rc) (e : Tlp) {c' : Rc} → IsValid c → cache_push c e ≡ some c' → IsValid c'
unfolding cache_push
cache_push-IsValid c e v h = ground (arith, length-set c.tlp_cache c.tlp_cache_head e)

pub cache_pop-IsValid :
    (c : Rc) {e : Tlp} {c' : Rc} → IsValid c → cache_pop c ≡ some (e, c') → IsValid c'
unfolding cache_pop
cache_pop-IsValid c v h = ground arith

pub cache_push_refines :
    (c : Rc) (e : Tlp)
    → IsValid c
    → Option.map contents (cache_push c e) ≡ put (cache_size - 1) (contents c) e
unfolding cache_push put
cache_push_refines c e v =
    elim (Bool-cases ((c.tlp_cache_head + 1) % cache_size == c.tlp_cache_tail)) [
      | inl full ↦
          let count : length (contents c) ≡ cache_size - 1 =
            held_full zero_tlp c.tlp_cache v.tail_ok v.head_ok ((==_iff _ _).0 full) in
          rw (full, (==_iff (length (contents c)) _).1 count) refl
      | inr room ↦
          let ne : (c.tlp_cache_head + 1) % cache_size ≢ c.tlp_cache_tail = ne_of_test room in
          let lt = held_room zero_tlp c.tlp_cache v.tail_ok v.head_ok ne in
          let test : (length (contents c) == cache_size - 1) ≡ false = ground arith in
          let fits : cache_size ≤ length c.tlp_cache = let l = v.length_ok in omega arith in
          rw (room, test) (ap some (held_push zero_tlp c.tlp_cache v.tail_ok v.head_ok e fits ne))
    ]

pub cache_pop_refines :
    (c : Rc)
    → IsValid c
    → Option.map (λ (p : Tlp × Rc). (p.0, contents p.1)) (cache_pop c) ≡ get (contents c)
unfolding cache_pop get
cache_pop_refines c v = elim (Bool-cases (c.tlp_cache_head == c.tlp_cache_tail)) [
  | inl empty ↦ rw empty (
      ap get
        (sym (held_empty zero_tlp c.tlp_cache v.tail_ok v.head_ok (sym ((==_iff _ _).0 empty)))))
  | inr more ↦ rw more (
      ap get
        (sym (held_pop zero_tlp c.tlp_cache v.tail_ok v.head_ok (λ e. ne_of_test more (sym e)))))
]

-- The count is the number of cached TLPs.
pub cache_count_lem : (c : Rc) → IsValid c → cache_count c ≡ length (contents c)
unfolding cache_count
cache_count_lem c v =
    let h = v.head_ok in
    let t = v.tail_ok in
    ground (arith, length-held zero_tlp c.tlp_cache cache_size c.tlp_cache_tail c.tlp_cache_head)

-- The cache, as an implementation of the queue.
abbrev pub cache_fifo : Impl Tlp
cache_fifo = record {
  State = Rc;
  IsValid = IsValid;
  Accepts = λ f. Unit;
  limit = cache_size - 1;
  contents = contents;
  enqueue = cache_push;
  dequeue = cache_pop;
  enqueue_valid = λ s x v a e. cache_push-IsValid s x v e;
  dequeue_valid = λ s v e. cache_pop-IsValid s v e;
  enqueue_refines = λ s x v a. cache_push_refines s x v;
  dequeue_refines = λ s v. cache_pop_refines s v;
}
