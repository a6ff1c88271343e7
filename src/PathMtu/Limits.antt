-- ===== src/PathMtu/Limits.antt =====
-- What a whole run of the prober is limited to (`PathMTU.Run` in internal/agent/probes/pathmtu.go).
use polarbeam.Base.{
  ℕ, ◌+◌, ◌*◌, ◌≤◌, ◌<◌, ◌≡◌, ◌∙◌, refl, subst, Bool, true, Option, none, some, List, [], ◌∷◌,
  arith,
}
use polarbeam.PathMtu.{Verdict, Search, new_search, is_done, record_verdict}
use polarbeam.PathMtu.Prober.{
  SentProbe, Reply, Folder, finished, interrupted, failed, Phase, sending, waiting, stopped, Prober,
  Input, reply, fold, fold_known, fold_sent, after_fold, conclude, step_in, step, run, start,
}
use polarbeam.PathMtu.Run.{InPhase, left_at-ge, record_verdict-max, run-IsSound, start-IsSound}

-- The configured range of a search.
abbrev SameRange : Prober → Search → Type 0
SameRange p s = (p.folder.search.min ≡ s.min) × (p.folder.search.max ≡ s.max)

conclude-SameRange :
    (f : Folder) (seq n : ℕ) (v : Verdict) (adv : ℕ) → SameRange (conclude f seq n v adv) f.search
unfolding conclude
conclude-SameRange f seq n v adv = ground (arith, record_verdict-max f.search n v adv)

fold_sent-SameRange :
    (f : Folder) (seq n k : ℕ) (ev : Reply) (o : Option SentProbe)
    → SameRange (after_fold seq n k (fold_sent f ev n o)) f.search
unfolding fold_known conclude record_verdict
fold_sent-SameRange f seq n k ev none = (refl, refl)
fold_sent-SameRange f seq n k ev (some sp) = ground arith

step_in-SameRange :
    (ph : Phase) (i : Input) (p : Prober) → SameRange (step_in ph i p) p.folder.search
unfolding step_in fold conclude record_verdict
step_in-SameRange (waiting n k) (reply ev) p =
    fold_sent-SameRange p.folder p.seq n k ev (p.folder.sent_at ev.seq)
step_in-SameRange (sending n k) _ p = ground arith
step_in-SameRange _ _ p = ground arith

step-SameRange : (p : Prober) (i : Input) → SameRange (step p i) p.folder.search
unfolding step
step-SameRange p i = step_in-SameRange p.phase i p

run-SameRange : (p : Prober) (is : List Input) → SameRange (run p is) p.folder.search
unfolding run
run-SameRange p [] = (refl, refl)
run-SameRange p (i ∷ is) =
    let a = run-SameRange (step p i) is in let b = step-SameRange p i in (a.0 ∙ b.0, a.1 ∙ b.1)

start-SameRange :
    (lowest highest : ℕ) (v6 : Bool)
    → SameRange (start lowest highest v6) (new_search lowest highest v6)
unfolding start
start-SameRange lowest highest v6 = (refl, refl)

seq_bound :
    (p : Prober) (ph : Phase)
    → InPhase p.folder.search p.seq ph
    → p.seq ≤ 3 * (p.folder.search.max + 1)
seq_bound p (sending n k) w = omega (arith, left_at-ge p.folder.search n, w.0, w.2)
seq_bound p (waiting n k) w = omega (arith, left_at-ge p.folder.search n, w.0, w.2)
seq_bound p (stopped finished) w = w.1
seq_bound p (stopped interrupted) w = w
seq_bound p (stopped failed) w = w

-- Whatever the socket, the timer and the context do, a run over the sizes from `lowest` to
-- `highest` sends at most 3 * (`highest` + 1) packets, sends none of a size outside that range, and
-- where it ends by having nothing more to test, the search is done.
pub run_limits :
    (lowest highest : ℕ) (v6 : Bool) (is : List Input)
    → 0 < lowest
    → lowest < highest
    → let p = run (start lowest highest v6) is in
      (p.seq ≤ 3 * (highest + 1))
      × ((n k : ℕ) → p.phase ≡ sending n k → (lowest ≤ n) × (n ≤ highest))
      × (p.phase ≡ stopped finished → is_done p.folder.search ≡ true)
run_limits lowest highest v6 is a b =
    let p = run (start lowest highest v6) is in
    let h = run-IsSound (start lowest highest v6) is (start-IsSound lowest highest v6 a b) in
    let r = run-SameRange (start lowest highest v6) is in
    let q = start-SameRange lowest highest v6 in
    (
      omega (arith, seq_bound p p.phase h.phase, r.1, q.1),
      (λ n k e.
          let w = subst (InPhase p.folder.search p.seq) e h.phase in
          (omega (arith, w.1, r.0, q.0), omega (arith, w.1, r.1, q.1))),
      (λ e. (subst (InPhase p.folder.search p.seq) e h.phase).0),
    )
