-- ===== src/PathMtu/Prober.antt =====
-- The loop of `PathMTU.Run` (internal/agent/probes/pathmtu.go): sizes, attempts, sends and waits, as
-- a state machine whose inputs are what the socket, the timer and the context do. A time is in
-- nanoseconds on one clock, on which a reply is not earlier than its probe.
use polarbeam.Base.{
  ℕ, ◌+◌, ◌-◌, ◌/◌, Bool, Option, none, some, List, [], ◌∷◌, ltb, ◌==◌, if◌then◌else◌,
}
use polarbeam.PathMtu.{
  Verdict, ok, too_big, silent, local, Search, new_search, next, record_verdict,
}

abbrev pub retries_per_size : ℕ
retries_per_size = 3

pub record SentProbe : Type 0 where
  pub size : ℕ
  pub at : ℕ

-- `replyEcho` and `replyTooBig`; a `replyNone` makes no event.
pub data ReplyKind : Type 0 where
  echo_reply too_big_reply : ReplyKind

-- `pmtuEvent`
pub record Reply : Type 0 where
  pub kind : ReplyKind
  pub seq : ℕ
  pub mtu : ℕ
  pub at : ℕ

-- `pmtuFolder`, its maps as functions.
pub record Folder : Type 0 where
  pub search : Search
  pub sent_at : ℕ → Option SentProbe
  pub rtt_by_size : ℕ → Option ℕ

abbrev pub update {ℓ} : {A : Type ℓ} → (ℕ → Option A) → ℕ → A → ℕ → Option A
update m k v n = if n == k then some v else m n

abbrev pub best_rtt : Option ℕ → ℕ → ℕ
best_rtt none rtt = rtt
best_rtt (some old) rtt = if ltb rtt old then rtt else old

abbrev pub note_rtt : Folder → SentProbe → ℕ → Folder
note_rtt f sp at = record f {
  rtt_by_size =
      update f.rtt_by_size sp.size (best_rtt (f.rtt_by_size sp.size) ((at - sp.at) / 1000));
}

abbrev pub record_late : Folder → ℕ → Verdict → ℕ → Folder
record_late f size v adv = record f { search = record_verdict f.search size v adv }

-- The `switch` of `fold`, for a sequence number that is known.
unfoldable pub fold_known :
    Folder → ReplyKind → SentProbe → ℕ → ℕ → ℕ → Folder × Option (Verdict × ℕ)
fold_known f echo_reply sp mtu at cur =
    let f' = note_rtt f sp at in
    if sp.size == cur then (f', some (ok, 0)) else (record_late f' sp.size ok 0, none)
fold_known f too_big_reply sp mtu at cur =
    if sp.size == cur then (f, some (too_big, mtu)) else (record_late f sp.size too_big mtu, none)

abbrev pub fold_sent : Folder → Reply → ℕ → Option SentProbe → Folder × Option (Verdict × ℕ)
fold_sent f ev cur none = (f, none)
fold_sent f ev cur (some sp) = fold_known f ev.kind sp ev.mtu ev.at cur

-- `fold`: the verdict on the current size, if the event resolves it.
unfoldable pub fold : Folder → Reply → ℕ → Folder × Option (Verdict × ℕ)
unfolding fold_known
fold f ev cur = fold_sent f ev cur (f.sent_at ev.seq)

-- Why the loop ended: `next` had nothing more, the deadline or the context ended it, or Run
-- returned an error at once.
pub data Stop : Type 0 where
  finished interrupted failed : Stop

-- At the top of an attempt for a size, or waiting for its reply. The number counts the attempts
-- that went before.
pub data Phase : Type 0 where
  sending : ℕ → ℕ → Phase
  waiting : ℕ → ℕ → Phase
  stopped : Stop → Phase

pub record Prober : Type 0 where
  pub folder : Folder
  pub seq : ℕ
  pub phase : Phase

-- What may happen at a send, and while waiting.
pub data Input : Type 0 where
  expired marshal_failed message_too_long send_failed timer cancelled : Input
  sent : ℕ → Input
  reply : Reply → Input

abbrev pub phase_of : Option ℕ → Phase
phase_of none = stopped finished
phase_of (some n) = sending n 0

-- The top of sizeLoop.
abbrev pub next_size : Folder → ℕ → Prober
next_size f seq = record { folder = f; seq = seq; phase = phase_of (next f.search) }

-- `search.record(size, verdict, adv)` and on to the next size.
unfoldable pub conclude : Folder → ℕ → ℕ → Verdict → ℕ → Prober
conclude f seq n v adv = next_size (record_late f n v adv) seq

abbrev pub after_fold : ℕ → ℕ → ℕ → Folder × Option (Verdict × ℕ) → Prober
after_fold seq n k (f, some (v, adv)) = conclude f seq n v adv
after_fold seq n k (f, none) = record { folder = f; seq = seq; phase = waiting n k }

abbrev pub remember : Folder → ℕ → ℕ → ℕ → Folder
remember f seq n at = record f { sent_at = update f.sent_at seq (record { size = n; at = at }) }

-- One input. What cannot happen in a phase is ignored.
unfoldable pub step_in : Phase → Input → Prober → Prober
unfolding conclude fold
step_in (sending n k) expired p = record p { phase = stopped interrupted }
step_in (sending n k) marshal_failed p = record p { seq = p.seq + 1; phase = stopped failed }
step_in (sending n k) message_too_long p = conclude p.folder (p.seq + 1) n local 0
step_in (sending n k) send_failed p = record p { seq = p.seq + 1; phase = stopped failed }
step_in (sending n k) (sent at) p = record {
  folder = remember p.folder (p.seq + 1) n at;
  seq = p.seq + 1;
  phase = waiting n k;
}
step_in (waiting n k) (reply ev) p = after_fold p.seq n k (fold p.folder ev n)
step_in (waiting n k) timer p =
    if k + 1 == retries_per_size
    then conclude p.folder p.seq n silent 0
    else record p { phase = sending n (k + 1) }
step_in (waiting n k) cancelled p = record p { phase = stopped interrupted }
step_in _ _ p = p

unfoldable pub step : Prober → Input → Prober
unfolding step_in
step p i = step_in p.phase i p

unfoldable pub run : Prober → List Input → Prober
unfolding step
run p [] = p
run p (i ∷ is) = run (step p i) is

unfoldable pub start : ℕ → ℕ → Bool → Prober
start lowest highest v6 =
    next_size
      (record {
        search = new_search lowest highest v6;
        sent_at = λ q. none;
        rtt_by_size = λ n. none;
      })
      0
