-- ===== src/Vcs/Delivery.antt =====
-- The polling of bridge/vcs/bridge_vcs.c over channels that lose nothing: no TLP is lost, doubled or
-- overtaken as long as the cache has room.
use qemu_vcs.Base.{
  ℕ, zero, suc, ◌+◌, ◌-◌, ◌<◌, ◌≡◌, refl, sym, ap, ◌∙◌, Option, none, some, List, [], ◌∷◌, ◌++◌,
  false, ◌==◌, arith, length, length-append, append_assoc, map, u32,
}
use mathlib.Core.Option
use mathlib.Core.Path.{subst}
use qemu_vcs.Fifo
use qemu_vcs.Messages.{SyncMsg, Tlp}
use qemu_vcs.Messages.SyncType
use qemu_vcs.Transport.Wires.{Wires, wires, next_tlp, next_timed}
use qemu_vcs.Vcs.Cache.{
  Rc, cache_push, cache_pop, cache_size, IsValid, contents, cache_push-IsValid, cache_pop-IsValid,
  cache_push_refines, cache_pop_refines,
}
use qemu_vcs.Vcs.Poll.{
  Drained, clear, stopped, unfinished, on_message, drain, poll_tlp, Polled, tlp, empty, error,
  cache_or_drop, sync, wait,
}

pub append_nil : {A : Type 0} (xs : List A) → xs ++ [] ≡ xs
append_nil [] = refl
append_nil (x ∷ xs) = ap (λ l. x ∷ l) (append_nil xs)

-- The caching of a TLP when there is room.
pub cached :
    (c : Rc) (e : Tlp)
    → IsValid c
    → length (contents c) < cache_size - 1
    → IsValid (cache_or_drop wires c e)
      × (contents (cache_or_drop wires c e) ≡ contents c ++ (e ∷ []))
unfolding Fifo.put
cached c e v room = step (cache_push c e) refl
  where
    put_room : Fifo.put (cache_size - 1) (contents c) e ≡ some (contents c ++ (e ∷ []))
    put_room =
        let test : (length (contents c) == cache_size - 1) ≡ false = ground arith in rw test refl

    step :
        (r : Option Rc)
        → cache_push c e ≡ r
        → IsValid (elim r as (λ _. Rc) [ none ↦ c | some c' ↦ c' ])
          × (contents (elim r as (λ _. Rc) [ none ↦ c | some c' ↦ c' ]) ≡ contents c ++ (e ∷ []))
    step none h =
        let none_put : none ≡ some (contents c ++ (e ∷ [])) =
          ap (Option.map contents) (sym h) ∙ cache_push_refines c e v ∙ put_room in
        absurd (cc)
    step (some c') h =
        let put_done : some (contents c') ≡ some (contents c ++ (e ∷ [])) =
          ap (Option.map contents) (sym h) ∙ cache_push_refines c e v ∙ put_room in
        (cache_push-IsValid c e v h, cc)

-- What is on its way: a TLP_READY on the control channel for each TLP.
abbrev pub announce : Tlp → SyncMsg
announce e = sync SyncType.tlp_ready

abbrev pub announced : Wires → List Tlp → Wires
announced w tlps = record w { ctrl_in = map announce tlps; tlp_in = tlps }

-- The cache holds `q`, and everything that was announced has been read.
abbrev pub Delivered : List Tlp → Drained Wires → Type 0
Delivered q unfinished = ⊥
Delivered q (stopped c w) = ⊥
Delivered q (clear c w) = (contents c ≡ q) × IsValid c × (w.ctrl_in ≡ []) × (w.tlp_in ≡ [])

-- The loop of a poll over the control channel caches the announced TLPs behind the cached ones, in
-- order. The cache is valid and has room for them, and there are more rounds than TLPs.
pub drain-Delivered :
    (fuel : ℕ) (tlps : List Tlp) (c : Rc) (w : Wires)
    → IsValid c
    → length (contents c) + length tlps < cache_size
    → length tlps < fuel
    → Delivered (contents c ++ tlps) (drain wires fuel c (announced w tlps))
unfolding drain on_message next_timed next_tlp
drain-Delivered zero tlps c w v room h = absurd (omega arith)
drain-Delivered (suc fuel) [] c w v room h = (sym (append_nil (contents c)), v, refl, refl)
drain-Delivered (suc fuel) (e ∷ tlps) c w v room h =
    let (v', pushed) = cached c e v (omega arith) in
    subst (λ q. Delivered q (drain wires fuel (cache_or_drop wires c e) (announced w tlps)))
      (ap (λ q. q ++ tlps) pushed ∙ append_assoc (contents c) (e ∷ []) tlps)
      (drain-Delivered fuel tlps (cache_or_drop wires c e) w v'
        (omega (arith, ap length pushed, length-append (contents c) (e ∷ []))) (omega arith))

-- The poll gives `e`, and `rest` is what later polls are to give.
abbrev pub Gives : Tlp → List Tlp → Option (Polled × (Rc × Wires)) → Type 0
Gives e rest none = ⊥
Gives e rest (some (empty, s)) = ⊥
Gives e rest (some (error, s)) = ⊥
Gives e rest (some (tlp x, (c, w))) = (x ≡ e) × (contents c ++ w.tlp_in ≡ rest) × IsValid c

get_lem :
    {q rest : List Tlp} {x e : Tlp} {q' : List Tlp}
    → Fifo.get q ≡ some (x, q')
    → q ≡ e ∷ rest
    → (x ≡ e) × (q' ≡ rest)
unfolding Fifo.get
get_lem {q = []} h h' = absurd (cc)
get_lem {q = y ∷ q} h h' = (cc, cc)

get-none : (q : List Tlp) → Fifo.get q ≡ none → q ≡ []
unfolding Fifo.get
get-none [] h = refl
get-none (x ∷ q) h = absurd (cc)

get_front : (q : List Tlp) {x : Tlp} {l : List Tlp} → Fifo.get q ≡ some (x, l) → q ≡ x ∷ l
unfolding Fifo.get
get_front [] h = absurd (cc)
get_front (y ∷ q) h = cc

-- What a pop of the cache means for the queue.
popped :
    (c : Rc) {x : Tlp} {c' : Rc}
    → IsValid c
    → cache_pop c ≡ some (x, c')
    → (contents c ≡ x ∷ contents c') × IsValid c'
popped c {x} {c'} v h = (
  front (contents c)
      (sym (cache_pop_refines c v) ∙ ap (Option.map (λ (p : Tlp × Rc). (p.0, contents p.1))) h),
  cache_pop-IsValid c v h,
)
  where
    front : (q : List Tlp) → Fifo.get q ≡ some (x, contents c') → q ≡ x ∷ contents c'
    front q e = get_front q e

not_popped : (c : Rc) → IsValid c → cache_pop c ≡ none → contents c ≡ []
not_popped c v h =
    get-none (contents c)
      (sym (cache_pop_refines c v) ∙ ap (Option.map (λ (p : Tlp × Rc). (p.0, contents p.1))) h)

-- The poll after the drain.
after_drain :
    (e : Tlp) (rest : List Tlp) (c : Rc) (w : Wires)
    → IsValid c
    → contents c ≡ e ∷ rest
    → w.tlp_in ≡ []
    → Gives e rest (elim (cache_pop c) as (λ _. Option (Polled × (Rc × Wires))) [
      | some (x, c') ↦ some (tlp x, (record c' { last_entry = x }, w))
      | none ↦ some (wait wires c w)
    ])
after_drain e rest c w v h none_left = step (cache_pop c) refl
  where
    step :
        (r : Option (Tlp × Rc))
        → cache_pop c ≡ r
        → Gives e rest (elim r as (λ _. Option (Polled × (Rc × Wires))) [
          | some (x, c') ↦ some (tlp x, (record c' { last_entry = x }, w))
          | none ↦ some (wait wires c w)
        ])
    step none p = let was_empty = not_popped c v p in absurd (cc)
    step (some (x, c')) p =
        let (was, v') = popped c v p in
        (
          cc,
          ap (λ l. contents c' ++ l) none_left ∙ append_nil (contents c') ∙ cc,
          record { length_ok = v'.length_ok; head_ok = v'.head_ok; tail_ok = v'.tail_ok },
        )

-- The state that a poll works on: it only counts the call.
abbrev counted : Rc → Rc
counted c = record c { poll_count = u32 (c.poll_count + 1) }

counted-IsValid : (c : Rc) → IsValid c → IsValid (counted c)
counted-IsValid c v = record { length_ok = v.length_ok; head_ok = v.head_ok; tail_ok = v.tail_ok }

abbrev go_on : Drained Wires → Option (Polled × (Rc × Wires))
go_on unfinished = none
go_on (stopped c w) = some (error, (c, w))
go_on (clear c w) = elim (cache_pop c) [
  | some (x, c') ↦ some (tlp x, (record c' { last_entry = x }, w))
  | none ↦ some (wait wires c w)
]

go_on-Gives :
    (e : Tlp) (rest q : List Tlp) (d : Drained Wires)
    → Delivered q d
    → q ≡ e ∷ rest
    → Gives e rest (go_on d)
go_on-Gives e rest q unfinished h h' = h
go_on-Gives e rest q (stopped c w) h h' = h
go_on-Gives e rest q (clear c w) (held_is, v, no_ctrl, no_tlp) h' =
    after_drain e rest c w v (held_is ∙ h') no_tlp

-- A poll gives the oldest TLP of those cached and those announced, and leaves the others in order.
-- The cache is valid and has room for all of them, there is at least one, and there are more
-- rounds than announced TLPs.
pub poll_tlp-Gives :
    (fuel : ℕ) (tlps : List Tlp) (c : Rc) (w : Wires) (e : Tlp) (rest : List Tlp)
    → IsValid c
    → length (contents c) + length tlps < cache_size
    → length tlps < fuel
    → contents c ++ tlps ≡ e ∷ rest
    → Gives e rest (poll_tlp wires fuel c (announced w tlps))
unfolding poll_tlp
poll_tlp-Gives fuel tlps c w e rest v room enough first = step (cache_pop (counted c)) refl
  where
    step :
        (r : Option (Tlp × Rc))
        → cache_pop (counted c) ≡ r
        → Gives e rest (elim r as (λ _. Option (Polled × (Rc × Wires))) [
          | some (x, c') ↦ some (tlp x, (record c' { last_entry = x }, announced w tlps))
          | none ↦ go_on (drain wires fuel (counted c) (announced w tlps))
        ])
    step none p =
        go_on-Gives e rest (contents c ++ tlps) (drain wires fuel (counted c) (announced w tlps))
          (drain-Delivered fuel tlps (counted c) w (counted-IsValid c v) room enough) first
    step (some (x, c')) p =
        let (was, v') = popped (counted c) (counted-IsValid c v) p in
        let front : x ∷ (contents c' ++ tlps) ≡ e ∷ rest = ap (λ l. l ++ tlps) (sym was) ∙ first in
        (cc, cc, record { length_ok = v'.length_ok; head_ok = v'.head_ok; tail_ok = v'.tail_ok })
