-- ===== src/Tests/Bridges.antt =====
-- Two TLPs on their way, and a read whose answer follows a stale one.
use qemu_vcs.Base.{
  ℕ, ◌≡◌, refl, none, some, true, false, [], ◌∷◌, ◌++◌, arith, length, replicate, length-replicate,
}
use qemu_vcs.Messages.{Tlp, zero_tlp, Cpl}
use qemu_vcs.Transport.Wires.{Wires, wires, wires-Finite, pending_lem}
use qemu_vcs.Vcs.Cache.{Rc, IsValid, cache_size, contents, cache_count, cache_count_lem}
use qemu_vcs.Vcs.Poll.{drain, poll_tlp}
use qemu_vcs.Vcs.Drain.{drain_total, IsDone}
use qemu_vcs.Vcs.Delivery.{Gives, announced, poll_tlp-Gives}
use qemu_vcs.Vcs.Dma.{bytes_read, read_failed, wait_read, wait_read_sync}
use qemu_vcs.Vcs.Answers.{
  Answer, answer_all, receives, notices, blocks, answer_all_lem, read-answer_all,
  wait_read_sync_fails,
}
use qemu_vcs.Qemu.{Bridge, send_tlp_and_wait}
use qemu_vcs.Qemu.Completion.{Link, link, coming, after_send, send_tlp_and_wait_own}
use qemu_vcs.Qemu.Tags.{Apart, sent_tags, sent_tags-Apart}

abbrev pub rc : Rc
rc = record {
  topology = record { header = record { num_pfs = 0; tag_width = 0 }; pfs = [] };
  topology_ready = true;
  vf_event_pending = false;
  vf_event = record { event_type = 0; pf_index = 0; num_vfs = 0 };
  tlp_cache = replicate cache_size zero_tlp;
  tlp_cache_head = 5;
  tlp_cache_tail = 5;
  poll_count = 0;
  last_entry = zero_tlp;
  empty_streak = 0;
}

rc-IsValid : IsValid rc
rc-IsValid = record {
  length_ok = length-replicate cache_size zero_tlp;
  head_ok = omega arith;
  tail_ok = omega arith;
}

abbrev silent : Wires
silent = record {
  ctrl_in = [];
  tlp_in = [];
  aux_in = [];
  ctrl_out = [];
  cpl_out = [];
  aux_out = [];
  topology_out = [];
}

abbrev first_tlp : Tlp
first_tlp = record zero_tlp { tag = 1; addr = 4096 }

abbrev second_tlp : Tlp
second_tlp = record zero_tlp { tag = 2; addr = 8192 }

poll_tlp-Gives_example :
    Gives first_tlp
      (second_tlp ∷ [])
      (poll_tlp wires 3 rc (announced silent (first_tlp ∷ second_tlp ∷ [])))
poll_tlp-Gives_example =
    poll_tlp-Gives 3 (first_tlp ∷ second_tlp ∷ []) rc silent first_tlp (second_tlp ∷ []) rc-IsValid
      (omega arith) (omega arith) refl

drain_total_example :
    IsDone wires wires-Finite (drain wires 2 rc (announced silent (first_tlp ∷ [])))
drain_total_example =
    drain_total wires wires-Finite 2 rc (announced silent (first_tlp ∷ []))
      (omega (arith, pending_lem (announced silent (first_tlp ∷ []))))

cache_count_example : cache_count rc ≡ length (contents rc)
cache_count_example = cache_count_lem rc rc-IsValid

abbrev stale_answer : Answer
stale_answer = record {
  status = 0;
  block = record { tag = 5000; direction = 0; host_addr = 64; bytes = 1 ∷ [] };
}

abbrev own_answer : Answer
own_answer = record {
  status = 0;
  block = record { tag = 5001; direction = 0; host_addr = 128; bytes = 2 ∷ 3 ∷ [] };
}

read-answer_all_example :
    (wait_read wires 1000 5001 2 rc (
      receives silent
        (answer_all silent (stale_answer ∷ own_answer ∷ [])).ctrl_out
        (answer_all silent (stale_answer ∷ own_answer ∷ [])).aux_out)).0
    ≡ bytes_read (2 ∷ 3 ∷ [])
read-answer_all_example =
    read-answer_all 5001 2 (stale_answer ∷ []) own_answer rc silent silent
      (record { fits = omega arith; other = refl }, tt) refl refl (omega arith) (omega arith) refl
      refl

answer_all_example :
    ((answer_all silent (own_answer ∷ [])).ctrl_out ≡ [] ++ notices (own_answer ∷ []))
    × ((answer_all silent (own_answer ∷ [])).aux_out ≡ [] ++ blocks (own_answer ∷ []))
answer_all_example = answer_all_lem silent (own_answer ∷ [])

wait_read_sync_fails_example :
    (wait_read_sync wires 1000 5001 2 rc
      (receives silent (notices (own_answer ∷ [])) (blocks (own_answer ∷ [])))).0
    ≡ read_failed
wait_read_sync_fails_example = wait_read_sync_fails 1000 5001 2 own_answer rc silent

abbrev completion : ℕ → Cpl
completion tag = record {
  type = 4;
  status = 0;
  tag = tag;
  requester_id = 0;
  completer_id = 0;
  len = 4;
  data_bytes = 1 ∷ 2 ∷ 3 ∷ 4 ∷ [];
  timestamp = 0;
}

abbrev quiet : Link
quiet = record { sent = []; notices = []; incoming = []; completions = []; topology = none }

abbrev bridge : Bridge Link
bridge = record {
  transport = coming quiet (completion 7 ∷ completion 1 ∷ completion 8 ∷ []);
  next_tag = 1;
  tag_mask = 1023;
}

send_tlp_and_wait_own_example : send_tlp_and_wait link bridge second_tlp ≡ (
  some (completion 1),
  record {
    transport = coming (after_send quiet (record second_tlp { tag = 1 })) (completion 8 ∷ []);
    next_tag = 2;
    tag_mask = 1023;
  },
)
send_tlp_and_wait_own_example =
    send_tlp_and_wait_own second_tlp (completion 7 ∷ []) (completion 1) (completion 8 ∷ []) quiet
      bridge refl ((λ e. omega arith), tt) refl (omega arith)

sent_tags-Apart_example :
    Apart (sent_tags link (record bridge { next_tag = 1023 }) (first_tlp ∷ second_tlp ∷ []))
sent_tags-Apart_example =
    sent_tags-Apart link 10 (first_tlp ∷ second_tlp ∷ []) (record bridge { next_tag = 1023 }) refl
      (omega arith) (omega arith)
