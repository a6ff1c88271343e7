-- ===== src/Pusher/Tests.antt =====
-- Runs of the pusher's model (internal/agent/uplink/pusher.go).
use polarbeam.Base.{ℕ, ◌+◌, ◌≤◌, ◌≡◌, refl, sym, true, List, [], ◌∷◌, ◌++◌, length, All, arith, ap}
use polarbeam.Spool.Frames.{frame}
use polarbeam.Spool.Frames.Replay.{frames}
use polarbeam.Spool.Files.{total_size}
use polarbeam.Spool.Segments.Blocks.{queue}
use polarbeam.Spool.Segments.Samples.{
  plain, second, third, two_files, two_blocks, two_files-IsSound, queue_two,
}
use polarbeam.Pusher.{Pusher, Event, idle, appends, fetches, reads_dropped, answers, acks}
use polarbeam.Pusher.Fates.{Fates, all_of, Delivered, drops}
use polarbeam.Pusher.Delivery.{Begins, AllFit, run_all, run-Accounted}
use polarbeam.Pusher.Drain.{rounds, run-rounds}

-- An idle loop over the two files.
abbrev at_rest : Pusher (List ℕ)
at_rest = record {
  spool = two_files;
  phase = idle;
  backoff = 1000000000;
  accepted = (1 ∷ 2 ∷ []) ∷ [];
  appended = second ∷ third ∷ [];
}

abbrev one_batch : List (Event (List ℕ))
one_batch = appends 250 (5 ∷ []) ∷ fetches 300 ∷ reads_dropped ∷ answers true ∷ acks ∷ []

at_rest-Begins : Begins plain at_rest two_blocks
at_rest-Begins = record {
  sound = two_files-IsSound;
  idle_phase = refl;
  appended_so_far = sym queue_two;
  balance = omega arith;
}

one_batch-AllFit : AllFit plain at_rest one_batch
unfolding frames frame total_size
one_batch-AllFit = ((omega arith, omega arith, omega arith), (tt, (tt, (tt, (tt, tt)))))

run-Accounted_example :
    (settled : Fates (List ℕ)) × ((run_all plain at_rest one_batch).appended
      ≡ all_of settled ++ queue plain (run_all plain at_rest one_batch).spool)
    × All (Delivered (run_all plain at_rest one_batch).accepted) settled
    × (at_rest.spool.counters.total + drops settled
        ≤ (run_all plain at_rest one_batch).spool.counters.total)
run-Accounted_example =
    run-Accounted plain one_batch at_rest two_blocks at_rest-Begins one_batch-AllFit

run-rounds_example :
    ((run_all plain at_rest (rounds plain 300 1)).accepted
      ≡ at_rest.accepted ++ queue plain at_rest.spool)
    × (queue plain (run_all plain at_rest (rounds plain 300 1)).spool ≡ [])
run-rounds_example =
    run-rounds plain 1 300 at_rest two_blocks two_files-IsSound refl
      (omega (arith, ap length queue_two))
