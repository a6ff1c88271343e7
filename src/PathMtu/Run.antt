-- ===== src/PathMtu/Run.antt =====
-- Every run of the prober (`PathMTU.Run` in internal/agent/probes/pathmtu.go): what it sends, how
-- much it sends, and how it ends.
use polarbeam.Base.{
  ℕ, ◌+◌, ◌-◌, ◌*◌, ◌≤◌, ◌<◌, ◌≡◌, ◌⊎◌, inl, inr, refl, Bool, true, ◌&&◌, Option, none, some,
  Bool-cases, List, [], ◌∷◌, arith, ltb, ◌==◌, if◌then◌else◌,
}
use polarbeam.PathMtu.{
  Verdict, ok, too_big, silent, local, Search, new_search, is_done, next, record_verdict,
}
use polarbeam.PathMtu.Bracket.{
  IsBracket, new_search-IsBracket, next_inside, next-none, record_verdict-IsBracket,
}
use polarbeam.PathMtu.Prober.{
  SentProbe, Reply, ReplyKind, echo_reply, too_big_reply, Folder, finished, interrupted, failed,
  Phase, sending, waiting, stopped, Prober, Input, expired, marshal_failed, message_too_long,
  send_failed, timer, cancelled, sent, reply, remember, record_late, note_rtt, fold_known,
  fold_sent, fold, phase_of, conclude, after_fold, step_in, step, run, start,
}

-- What is left to test, in packets: three for each size of the bracket, and three more once the
-- current size has dropped out of it.
abbrev pub left : Search → ℕ
left s = 3 * (s.hi - s.lo)

abbrev pub left_at : Search → ℕ → ℕ
left_at s n = left s + (if ltb s.lo n && ltb n s.hi then 0 else 3)

-- A size that may have been sent.
abbrev pub IsSize : Search → ℕ → Type 0
IsSize s n = (s.min ≤ n) × (n ≤ s.max) × ((n ≡ s.max) ⊎ (s.tested s.max ≡ true))

abbrev pub InPhase : Search → ℕ → Phase → Type 0
InPhase s seq (sending n k) = (k < 3) × IsSize s n × (seq + left_at s n ≤ 3 * (s.max + 1) + k)
InPhase s seq (waiting n k) = (k < 3) × IsSize s n × (seq + left_at s n ≤ 3 * (s.max + 1) + (k + 1))
InPhase s seq (stopped finished) = (is_done s ≡ true) × (seq ≤ 3 * (s.max + 1))
InPhase s seq (stopped interrupted) = seq ≤ 3 * (s.max + 1)
InPhase s seq (stopped failed) = seq ≤ 3 * (s.max + 1)

abbrev pub AllSizes : Folder → Type 0
AllSizes f = (q : ℕ) (sp : SentProbe) → f.sent_at q ≡ some sp → IsSize f.search sp.size

pub record IsSound (p : Prober) : Type 0 where
  pub bracket : IsBracket p.folder.search
  pub sizes : AllSizes p.folder
  pub phase : InPhase p.folder.search p.seq p.phase

phase_of-InPhase :
    (s : Search) (seq : ℕ) (o : Option ℕ)
    → IsBracket s
    → next s ≡ o
    → seq + left s ≤ 3 * (s.max + 1)
    → InPhase s seq (phase_of o)
phase_of-InPhase s seq none b e l = ((next-none s b).0 e, omega arith)
phase_of-InPhase s seq (some n) b e l = ground (arith, next_inside s n b e)

record_late-AllSizes :
    (f : Folder) (n : ℕ) (v : Verdict) (adv : ℕ) → AllSizes f → AllSizes (record_late f n v adv)
unfolding record_verdict
record_late-AllSizes f n v adv h q sp e = ground (arith, h q sp e)

record_verdict-left :
    (s : Search) (n : ℕ) (v : Verdict) (adv : ℕ) → left (record_verdict s n v adv) + 3 ≤ left_at s n
unfolding record_verdict
record_verdict-left s n v adv = ground arith

pub record_verdict-max :
    (s : Search) (n : ℕ) (v : Verdict) (adv : ℕ)
    → ((record_verdict s n v adv).max ≡ s.max) × ((record_verdict s n v adv).min ≡ s.min)
unfolding record_verdict
record_verdict-max s n v adv = ground arith

record_verdict-left_at :
    (s : Search) (m n : ℕ) (v : Verdict) (adv : ℕ)
    → left_at (record_verdict s m v adv) n ≤ left_at s n
unfolding record_verdict
record_verdict-left_at s m n v adv = ground arith

kept-IsSize :
    (s : Search) (m n : ℕ) (v : Verdict) (adv : ℕ)
    → IsSize s n
    → IsSize (record_verdict s m v adv) n
unfolding record_verdict
kept-IsSize s m n v adv z = ground arith

conclude-IsSound :
    (f : Folder) (seq n : ℕ) (v : Verdict) (adv : ℕ)
    → IsBracket f.search
    → AllSizes f
    → IsSize f.search n
    → seq + left_at f.search n ≤ 3 * (f.search.max + 1) + 3
    → IsSound (conclude f seq n v adv)
unfolding conclude
conclude-IsSound f seq n v adv b a z l =
    let s' = record_verdict f.search n v adv in
    let b' = record_verdict-IsBracket f.search n v adv b z.0 z.1 z.2 in
    record {
      bracket = b';
      sizes = record_late-AllSizes f n v adv a;
      phase = phase_of-InPhase s' seq (next s') b' refl (
          omega (arith, record_verdict-left f.search n v adv, record_verdict-max f.search n v adv));
    }

keep_waiting-IsSound :
    (f : Folder) (seq m n k : ℕ) (v : Verdict) (adv : ℕ)
    → IsBracket f.search
    → AllSizes f
    → IsSize f.search m
    → InPhase f.search seq (waiting n k)
    → IsSound (record { folder = record_late f m v adv; seq = seq; phase = waiting n k })
keep_waiting-IsSound f seq m n k v adv b a y w = record {
  bracket = record_verdict-IsBracket f.search m v adv b y.0 y.1 y.2;
  sizes = record_late-AllSizes f m v adv a;
  phase = (
    w.0,
    kept-IsSize f.search m n v adv w.1,
    omega (
      arith,
      record_verdict-left_at f.search m n v adv,
      record_verdict-max f.search m v adv,
      w.2,
    ),
  );
}

fold_known-IsSound :
    (f : Folder) (seq n k : ℕ) (kind : ReplyKind) (sp : SentProbe) (mtu at : ℕ)
    → IsBracket f.search
    → AllSizes f
    → IsSize f.search sp.size
    → InPhase f.search seq (waiting n k)
    → IsSound (after_fold seq n k (fold_known f kind sp mtu at n))
unfolding fold_known
fold_known-IsSound f seq n k echo_reply sp mtu at b a y w = elim (Bool-cases (sp.size == n)) [
  | inl e ↦ rw e (conclude-IsSound (note_rtt f sp at) seq n ok 0 b a w.1 (omega arith))
  | inr e ↦ rw e (keep_waiting-IsSound (note_rtt f sp at) seq sp.size n k ok 0 b a y w)
]
fold_known-IsSound f seq n k too_big_reply sp mtu at b a y w = elim (Bool-cases (sp.size == n)) [
  | inl e ↦ rw e (conclude-IsSound f seq n too_big mtu b a w.1 (omega arith))
  | inr e ↦ rw e (keep_waiting-IsSound f seq sp.size n k too_big mtu b a y w)
]

fold_sent-IsSound :
    (f : Folder) (seq n k : ℕ) (ev : Reply) (o : Option SentProbe)
    → f.sent_at ev.seq ≡ o
    → IsBracket f.search
    → AllSizes f
    → InPhase f.search seq (waiting n k)
    → IsSound (after_fold seq n k (fold_sent f ev n o))
fold_sent-IsSound f seq n k ev none e b a w = record { bracket = b; sizes = a; phase = w }
fold_sent-IsSound f seq n k ev (some sp) e b a w =
    fold_known-IsSound f seq n k ev.kind sp ev.mtu ev.at b a (a ev.seq sp e) w

remember-AllSizes :
    (f : Folder) (q n at : ℕ) → AllSizes f → IsSize f.search n → AllSizes (remember f q n at)
remember-AllSizes f q n at a z p sp e = ground (arith, a p sp)

pub left_at-ge : (s : Search) (n : ℕ) → 3 ≤ left_at s n
left_at-ge s n = ground arith

step_in-IsSound :
    (ph : Phase) (i : Input) (p : Prober)
    → IsBracket p.folder.search
    → AllSizes p.folder
    → p.phase ≡ ph
    → InPhase p.folder.search p.seq ph
    → IsSound (step_in ph i p)
unfolding step_in fold
step_in-IsSound (sending n k) expired p b a e w = record {
  bracket = b;
  sizes = a;
  phase = omega (arith, left_at-ge p.folder.search n, w.2, w.0);
}
step_in-IsSound (sending n k) marshal_failed p b a e w = record {
  bracket = b;
  sizes = a;
  phase = omega (arith, left_at-ge p.folder.search n, w.2, w.0);
}
step_in-IsSound (sending n k) send_failed p b a e w = record {
  bracket = b;
  sizes = a;
  phase = omega (arith, left_at-ge p.folder.search n, w.2, w.0);
}
step_in-IsSound (sending n k) message_too_long p b a e w =
    conclude-IsSound p.folder (p.seq + 1) n local 0 b a w.1 (omega (arith, w.2, w.0))
step_in-IsSound (sending n k) (sent at) p b a e w = record {
  bracket = b;
  sizes = remember-AllSizes p.folder (p.seq + 1) n at a w.1;
  phase = (w.0, w.1, omega (arith, w.2));
}
step_in-IsSound (waiting n k) (reply ev) p b a e w =
    fold_sent-IsSound p.folder p.seq n k ev (p.folder.sent_at ev.seq) refl b a w
step_in-IsSound (waiting n k) timer p b a e w = elim (Bool-cases (k + 1 == 3)) [
  | inl t ↦ rw t (conclude-IsSound p.folder p.seq n silent 0 b a w.1 (omega (arith, w.2, w.0)))
  | inr t ↦ rw t (record { bracket = b; sizes = a; phase = (ground (arith, w.0), w.1, w.2) })
]
step_in-IsSound (waiting n k) cancelled p b a e w = record {
  bracket = b;
  sizes = a;
  phase = omega (arith, left_at-ge p.folder.search n, w.2, w.0);
}
step_in-IsSound (stopped s) i p b a e w = record { bracket = b; sizes = a; phase = rw e w }
step_in-IsSound (sending n k) timer p b a e w = record { bracket = b; sizes = a; phase = rw e w }
step_in-IsSound (sending n k) cancelled p b a e w = record {
  bracket = b;
  sizes = a;
  phase = rw e w;
}
step_in-IsSound (sending n k) (reply ev) p b a e w = record {
  bracket = b;
  sizes = a;
  phase = rw e w;
}
step_in-IsSound (waiting n k) _ p b a e w = record { bracket = b; sizes = a; phase = rw e w }

pub run-IsSound : (p : Prober) (is : List Input) → IsSound p → IsSound (run p is)
unfolding run
run-IsSound p [] h = h
run-IsSound p (i ∷ is) h =
    run-IsSound (step p i) is
      (unfold step in step_in-IsSound p.phase i p h.bracket h.sizes refl h.phase)

pub start-IsSound :
    (lowest highest : ℕ) (v6 : Bool)
    → 0 < lowest
    → lowest < highest
    → IsSound (start lowest highest v6)
unfolding start
start-IsSound lowest highest v6 p l =
    let b = new_search-IsBracket lowest highest v6 p l in
    record {
      bracket = b;
      sizes = λ q sp e. cc;
      phase = phase_of-InPhase (new_search lowest highest v6) 0 _ b refl (omega arith);
    }
