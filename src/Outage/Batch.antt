-- ===== src/Outage/Batch.antt =====
-- One series' batch, folded by `Apply` of internal/server/outage/outage.go.
use polarbeam.Base.{
  ℕ, ◌≡◌, refl, sym, ap, subst, ◌∙◌, Option, List, [], ◌∷◌, All, Outcome, done, arith, ◌>>=◌,
}
use polarbeam.Outage.{Result, State, step}
use polarbeam.Outage.Table.{Event, Env}
use polarbeam.Outage.Apply.{Fault, Work, fold_one, fold_batch}
use polarbeam.Outage.Streaks.{after_ops, advance}
use polarbeam.Outage.Store.{step-Fits, IsTracked, IsPointed, exec_ops-Ran}

-- The states of a batch in its order, with no table in sight.
unfoldable pub advance_all : State → List Result → State
unfolding advance
advance_all st [] = st
advance_all st (r ∷ rs) = advance_all (advance st r) rs

abbrev pub with_event : State → Option ℕ → State
with_event s i = record s { open_event_id = i }

step_keeps :
    (st : State) (r : Result)
    → ((step st r).0.open_event_id ≡ st.open_event_id) × ((step st r).0.open_kind ≡ st.open_kind)
unfolding step
step_keeps st r = ground arith

advance-with_event :
    (s : State) (i : Option ℕ) (r : Result)
    → advance (with_event s i) r ≡ with_event (advance s r) i
unfolding advance
advance-with_event s i r = ground arith

advance_all-with_event :
    (s : State) (i : Option ℕ) (rs : List Result)
    → advance_all (with_event s i) rs ≡ with_event (advance_all s rs) i
unfolding advance_all
advance_all-with_event s i [] = refl
advance_all-with_event s i (r ∷ rs) =
    rw (advance-with_event s i r) (advance_all-with_event (advance s r) i rs)

repoint :
    (a p : ℕ) (st st' : State) (es : List Event)
    → st'.open_event_id ≡ st.open_event_id
    → st'.open_kind ≡ st.open_kind
    → All (IsPointed a p st) es
    → All (IsPointed a p st') es
repoint a p st st' [] e k h = tt
repoint a p st st' (x ∷ xs) e k h =
    ((λ o. (e ∙ (h.0 o).0, k ∙ (h.0 o).1)), repoint a p st st' xs e k h.1)

step-IsTracked :
    (a p : ℕ) (st : State) (r : Result) (es : List Event)
    → IsTracked a p st es
    → IsTracked a p (step st r).0 es
step-IsTracked a p st r es t =
    let k = step_keeps st r in
    record {
      linked = λ e. k.1 ∙ t.linked (sym k.0 ∙ e);
      only = repoint a p st (step st r).0 es k.0 k.1 t.only;
    }

-- One result of a tracked series: its operations run, and leave the state of `advance`.
pub record Folded (a p : ℕ) (s : State) (o : Outcome Fault Work) : Type 0 where
  pub after : Work
  pub ran : o ≡ done after
  pub state : after.st ≡ with_event s after.st.open_event_id
  pub tracked : IsTracked a p after.st after.events

advance_lem :
    (st : State) (r : Result)
    → record (step st r).0 { open_kind = after_ops (step st r).1 (step st r).0.open_kind }
      ≡ advance st r
unfolding advance
advance_lem st r = refl

fold_one-Folded :
    (env : Env) (a : ℕ) (r : Result) (w : Work)
    → IsTracked a r.probe_id w.st w.events
    → Folded a r.probe_id (advance w.st r) (fold_one env a r w)
unfolding fold_one
fold_one-Folded env a r w t =
    let h =
      exec_ops-Ran env a r (step w.st r).0.open_kind (step w.st r).1
        (record w { st = (step w.st r).0 }) refl (step-Fits w.st r)
        (step-IsTracked a r.probe_id w.st r w.events t) in
    record {
      after = h.after;
      ran = h.ran;
      state =
          h.state ∙ ap (λ (s : State). with_event s h.after.st.open_event_id) (advance_lem w.st r);
      tracked = h.tracked;
    }

join-Folded :
    (a p : ℕ) (s : State) (rs : List Result) (o : Outcome Fault Work)
    (f : Work → Outcome Fault Work) (h : Folded a p s o)
    → Folded a p (advance_all h.after.st rs) (f h.after)
    → Folded a p (advance_all s rs) (o >>= f)
join-Folded a p s rs o f h g = record {
  after = g.after;
  ran = ap (λ x. x >>= f) h.ran ∙ g.ran;
  state =
      g.state
      ∙ ap (λ (x : State). with_event x g.after.st.open_event_id)
          (ap (λ (x : State). advance_all x rs) h.state
            ∙ advance_all-with_event s h.after.st.open_event_id rs);
  tracked = g.tracked;
}

-- For a series whose only open event, if any, is the one that its state points to, the loop over a
-- batch of its results, in any order, ends without a fault; it leaves the state that `step` and
-- the operations' kinds alone determine, and again at most the event pointed to is open.
pub fold_batch-Folded :
    (env : Env) (a p : ℕ) (rs : List Result) (w : Work)
    → All (λ (r : Result). r.probe_id ≡ p) rs
    → IsTracked a p w.st w.events
    → Folded a p (advance_all w.st rs) (fold_batch env a rs w)
unfolding fold_batch advance_all
fold_batch-Folded env a p [] w b t = record { after = w; ran = refl; state = refl; tracked = t }
fold_batch-Folded env a p (r ∷ rs) w b t =
    let h =
      subst (λ q. Folded a q (advance w.st r) (fold_one env a r w)) b.0
        (fold_one-Folded env a r w (subst (λ q. IsTracked a q w.st w.events) (sym b.0) t)) in
    join-Folded a p (advance w.st r) rs (fold_one env a r w) (fold_batch env a rs) h
      (fold_batch-Folded env a p rs h.after b.1 h.tracked)
