-- ===== src/Syslog/Tests.antt =====
-- The syslog forwarder (internal/server/syslogfwd/forwarder.go) at concrete records and runs.
use polarbeam.Base.{
  ◌+◌, ◌-◌, ◌≡◌, refl, true, false, ◌&&◌, none, some, List, [], ◌∷◌, ◌++◌, map, length, arith, leb,
}
use polarbeam.Syslog.{
  Message, produced, Sink, Numbered, new_sink, make_room, put_last, append_locked, take_locked,
  push,
}
use polarbeam.Syslog.Queue.{Queue, append, put_front}
use polarbeam.Syslog.Window.{window}
use polarbeam.Syslog.Ring.{Holds, append_locked-Holds}
use polarbeam.Syslog.Rising.{Rising}
use polarbeam.Syslog.Pushes.{count_opt}
use polarbeam.Syslog.Delivery.{queued, keep_some, probes_after, run_in_order, run_none_lost}
use polarbeam.Syslog.Outage.{disconnected_record, next_record, failure_recorded_first}
use polarbeam.Syslog.Clock.{halt_counts_from_first}
use polarbeam.Syslog.Writer.{
  Policy, World, Input, new_world, run, fail_locked, wake, slept, dialed, dial_failed, write_ok,
  write_failed, requeued, confirm, produce, probe,
}

abbrev first_message : Message
first_message = record { seq = 1; origin_ip = ""; body = produced "a" }

abbrev second_message : Message
second_message = record { seq = 2; origin_ip = ""; body = produced "b" }

abbrev empty_queue : Queue
empty_queue = record { items = []; inflight = none; dropped = 0; stopping = false }

new_sink-Holds : Holds (new_sink 0) empty_queue
unfolding window
new_sink-Holds = record {
  slots = refl;
  head_in = omega arith;
  same_inflight = refl;
  same_dropped = refl;
  same_stopping = refl;
}

abbrev one_sink : Sink
one_sink = append_locked (new_sink 0) first_message false

abbrev one_queue : Queue
one_queue = append empty_queue first_message false

one_sink-Holds : Holds one_sink one_queue
one_sink-Holds = append_locked-Holds first_message false (omega arith) new_sink-Holds

one_sink_count : one_sink.n ≡ 1
unfolding append_locked make_room put_last
one_sink_count = refl

append_locked-Holds_example :
    Holds (append_locked one_sink second_message true) (append one_queue second_message true)
append_locked-Holds_example =
    append_locked-Holds second_message true (omega (arith, one_sink_count)) one_sink-Holds

taken_inflight : (take_locked one_sink).inflight ≡ some first_message
unfolding take_locked append_locked make_room put_last
taken_inflight = refl

taken_count : (take_locked one_sink).n ≡ 0
unfolding take_locked append_locked make_room put_last
taken_count = refl

abbrev halting : Policy
halting = record { halts = true; failure_timeout = 60_000_000_000 }

-- A record is written, the next one fails on the wire and goes back, and the second dial is refused.
abbrev stormy : List Input
stormy =
    produce false "a"
    ∷ wake
    ∷ dialed 1 (some "10.0.0.1") 5
    ∷ wake
    ∷ write_ok
    ∷ confirm 6
    ∷ probe
    ∷ produce true "b"
    ∷ produce false "c"
    ∷ wake
    ∷ write_failed "reset" 7
    ∷ requeued
    ∷ wake
    ∷ slept
    ∷ dial_failed "refused" 8
    ∷ produce true "d"
    ∷ []

abbrev after_storm : World
after_storm = run halting (new_world 5 0) stormy

after_storm_numbers :
    (map (λ m. m.seq) after_storm.sent ≡ 1 ∷ [])
    × (map (λ m. m.seq) (queued after_storm.core.sink) ≡ 3 ∷ 4 ∷ 5 ∷ 6 ∷ [])
    × (after_storm.core.seq ≡ 6)
unfolding run keep_some window put_last make_room
after_storm_numbers = (refl, refl, refl)

run_in_order_example :
    Rising 0
      (after_storm.sent ++ put_front after_storm.core.sink.inflight (queued after_storm.core.sink))
      after_storm.core.seq
run_in_order_example = run_in_order halting 5 0 stormy (omega arith)

run_none_lost_example :
    after_storm.core.seq
    ≡ probes_after 0 stormy
      + length after_storm.sent
      + count_opt after_storm.core.sink.inflight
      + length (queued after_storm.core.sink)
      + after_storm.core.sink.dropped
run_none_lost_example = run_none_lost halting 5 0 stormy (omega arith)

one_sink_live : one_sink.stopping ≡ false
unfolding append_locked make_room put_last
one_sink_live = refl

one_sink_up : one_sink.first_failure ≡ 0
unfolding append_locked make_room put_last
one_sink_up = refl

-- The first failure of a sink that holds one record.
abbrev one_numbered : Numbered
one_numbered = record { sink = one_sink; seq = 1 }

failure_recorded_first_example :
    let failed = record one_numbered { sink = (fail_locked halting one_sink none "refused" 9).0 } in
    (rest : List Message) × (queued (push failed true (some "b")).0.sink
      ≡ rest ++ disconnected_record one_numbered "refused" ∷ next_record one_numbered "b" ∷ [])
failure_recorded_first_example =
    failure_recorded_first halting one_numbered one_queue none "refused" "b" 9 true one_sink-Holds
      (omega (arith, one_sink_count)) one_sink_live one_sink_live one_sink_up

-- The outage of the storm goes on, and a dial fails again a minute after its start.
abbrev still_down : List Input
still_down = wake ∷ slept ∷ dialed 2 none 20 ∷ wake ∷ write_failed "reset" 30 ∷ requeued ∷ []

storm_start : after_storm.core.sink.first_failure ≡ 7
unfolding run put_last make_room
storm_start = refl

still_live : (run halting after_storm still_down).core.sink.stopping ≡ false
unfolding run put_last make_room
still_live = refl

halt_counts_from_first_example :
    (fail_locked halting
      (run halting after_storm still_down).core.sink
      none
      "refused"
      60_000_000_007).1.halt
    ≡ (true && leb 60_000_000_000 (60_000_000_007 - after_storm.core.sink.first_failure))
halt_counts_from_first_example =
    halt_counts_from_first halting after_storm still_down none "refused" 60_000_000_007
      (omega (arith, storm_start)) (tt, (tt, (tt, (tt, (tt, (tt, tt)))))) still_live
