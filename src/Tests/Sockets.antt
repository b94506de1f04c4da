-- ===== src/Tests/Sockets.antt =====
-- A kernel that has nothing for a while.
use qemu_vcs.Base.{◌≡◌, [], ◌∷◌, ◌++◌, arith, replicate}
use qemu_vcs.Messages.{SyncMsg}
use qemu_vcs.Socket.{again, message, received, recv_timed}
use qemu_vcs.Socket.Waits.{recv_timed_in_time}

abbrev ready : SyncMsg
ready = record { kind = 1; payload = 0 }

-- A message in the last poll of a wait of two milliseconds.
recv_timed_in_time_example :
    recv_timed 2 (replicate 4 again ++ (message ready ∷ [])) ≡ received ready
recv_timed_in_time_example = recv_timed_in_time 2 4 ready [] (omega arith) (omega arith)
