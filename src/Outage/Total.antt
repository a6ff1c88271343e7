-- ===== src/Outage/Total.antt =====
-- `Apply` of internal/server/outage/outage.go ends without a fault of its own, from any tables.
use polarbeam.Base.{
  ℕ, ◌<◌, ◌≡◌, refl, sym, ap, subst, ◌∙◌, Bool-cases, Option, none, some, Option-cases, String,
  List, [], ◌∷◌, All, Outcome, done, inl, inr, length, arith, ltb, ◌==◌, ◌>>=◌,
}
use polarbeam.Outage.{Kind, Result, State, Op, open_op, close_op, step}
use polarbeam.Outage.Table.{Event, Env, Row, select_open, from_row}
use polarbeam.Outage.Apply.{
  Fault, adopt, Work, Progress, Tables, opened_work, closed_work, record_open, record_close,
  open_event, exec_op, exec_ops, fold_batch, of_series, insert_id, probe_ids, ensure_states,
  lock_state, fold_series, fold_all, queue_final, commit, apply,
}
use polarbeam.Outage.Store.{open_event_lem, Fits, step-Fits}

-- A fallible computation returned a value.
abbrev pub Returns {ℓ} : {E A : Type ℓ} → Outcome E A → Type ℓ
Returns {A = A} o = (a : A) × (o ≡ done a)

open_event-Returns :
    (env : Env) (a : ℕ) (r : Result) (k : Kind) (at : ℕ) (detail : String) (es : List Event)
    → Returns (open_event env a r k at detail es)
unfolding open_event
open_event-Returns env a r k at detail es = elim (Option-cases (select_open k a r.probe_id es)) [
  | inl n ↦ (_, open_event_lem env a r k at detail es n)
  | inr (i, q) ↦ ((i, es), rw q (ap (λ o. adopt o es) q))
]

abbrev IsLinked : State → Type 0
IsLinked st = st.open_event_id ≡ none → st.open_kind ≡ none

-- The computation returned a state with an id wherever it has a kind, of the kind expected.
record Keeps (k : Option Kind) (o : Outcome Fault Work) : Type 0 where
  after : Work
  ran : o ≡ done after
  kind : after.st.open_kind ≡ k
  linked : IsLinked after.st

opened-Keeps :
    (env : Env) (a : ℕ) (r : Result) (k : Kind) (at : ℕ) (detail : String) (w : Work)
    → Keeps (some k) (exec_op env a r (open_op k at detail) w)
unfolding exec_op
opened-Keeps env a r k at detail w =
    let (x, q) = open_event-Returns env a r k at detail w.events in
    record {
      after = opened_work r k at w x.0 x.1;
      ran = ap (λ o. o >>= record_open r k at w) q;
      kind = refl;
      linked = λ e. cc;
    }

closed-Keeps :
    (env : Env) (a : ℕ) (r : Result) (k : Kind) (at : ℕ) (w : Work)
    → w.st.open_kind ≡ some k
    → IsLinked w.st
    → Keeps none (exec_op env a r (close_op at) w)
unfolding exec_op
closed-Keeps env a r k at w e l = elim (Option-cases w.st.open_event_id) [
  | inl n ↦ absurd (cc (l n))
  | inr (i, q) ↦ record {
    after = closed_work env r at w i;
    ran = ap (record_close env r at w) q;
    kind = refl;
    linked = λ e. refl;
  }
]

exec_ops-Keeps :
    (env : Env) (a : ℕ) (r : Result) (k : Option Kind) (os : List Op) (w : Work)
    → w.st.open_kind ≡ k
    → Fits k os
    → IsLinked w.st
    → (w' : Work) × (exec_ops env a r os w ≡ done w') × IsLinked w'.st
unfolding exec_ops
exec_ops-Keeps env a r k [] w e f l = (w, refl, l)
exec_ops-Keeps env a r none (open_op k at detail ∷ os) w e f l =
    let h = opened-Keeps env a r k at detail w in
    let (w', q, l') = exec_ops-Keeps env a r (some k) os h.after h.kind f.1 h.linked in
    (w', ap (λ o. o >>= exec_ops env a r os) h.ran ∙ q, l')
exec_ops-Keeps env a r none (close_op at ∷ os) w e f l = absurd f
exec_ops-Keeps env a r (some k) (close_op at ∷ os) w e f l =
    let h = closed-Keeps env a r k at w e l in
    let (w', q, l') = exec_ops-Keeps env a r none os h.after h.kind f h.linked in
    (w', ap (λ o. o >>= exec_ops env a r os) h.ran ∙ q, l')
exec_ops-Keeps env a r (some k) (open_op j at detail ∷ os) w e f l = absurd f

step-IsLinked : (st : State) (r : Result) → IsLinked st → IsLinked (step st r).0
unfolding step
step-IsLinked st r l = ground arith

fold_batch-Keeps :
    (env : Env) (a : ℕ) (rs : List Result) (w : Work)
    → IsLinked w.st
    → (w' : Work) × (fold_batch env a rs w ≡ done w') × IsLinked w'.st
unfolding fold_batch
fold_batch-Keeps env a [] w l = (w, refl, l)
fold_batch-Keeps env a (r ∷ rs) w l =
    let (w', q, l') =
      exec_ops-Keeps env a r (step w.st r).0.open_kind (step w.st r).1
        (record w { st = (step w.st r).0 }) refl (step-Fits w.st r) (step-IsLinked w.st r l) in
    let (w'', q', l'') = fold_batch-Keeps env a rs w' l' in
    (w'', ap (λ o. o >>= fold_batch env a rs) q ∙ q', l'')

lock_state-IsLinked :
    (a p : ℕ) (es : List Event) (rows : List Row) → IsLinked (lock_state a p es rows)
unfolding lock_state from_row
lock_state-IsLinked a p es rows = ground arith

fold_series-Returns :
    (env : Env) (a : ℕ) (st : State) (batch : List Result) (acc : Progress)
    → IsLinked st
    → 0 < length batch
    → Returns (fold_series env a st batch acc)
unfolding fold_series
fold_series-Returns env a st [] acc l b = elim b [ ]
fold_series-Returns env a st (r ∷ rs) acc l b =
    let (w', q, l') =
      fold_batch-Keeps env a (r ∷ rs)
        (record { st = st; events = acc.events; transitions = acc.transitions }) l in
    (_, ap (λ o. o >>= queue_final env a (r ∷ rs) acc) q)

module _ (env : Env)
    (sort_length : (rs : List Result) → length (env.sort_by_time rs) ≡ length rs) where
  fold_all-Returns :
      (a : ℕ) (states : ℕ → State) (results : List Result) (ps : List ℕ) (acc : Progress)
      → ((p : ℕ) → IsLinked (states p))
      → All (λ p. 0 < length (of_series p results)) ps
      → Returns (fold_all env a states results ps acc)
  unfolding fold_all
  fold_all-Returns a states results [] acc l n = (acc, refl)
  fold_all-Returns a states results (p ∷ ps) acc l n =
      let batch = env.sort_by_time (of_series p results) in
      let (acc', q) =
        fold_series-Returns env a (states p) batch acc (l p)
          (subst (λ k. 0 < k) (sym (sort_length (of_series p results))) n.0) in
      let (acc'', q') = fold_all-Returns a states results ps acc' l n.1 in
      (acc'', ap (λ o. o >>= fold_all env a states results ps) q ∙ q')

insert_id-All : (P : ℕ → Type 0) (p : ℕ) (qs : List ℕ) → P p → All P qs → All P (insert_id p qs)
unfolding insert_id
insert_id-All P p [] h hs = (h, tt)
insert_id-All P p (q ∷ qs) h hs = elim (Bool-cases (ltb p q)) [
  | inl e ↦ rw e (h, hs)
  | inr e ↦ elim (Bool-cases (p == q)) [
    | inl f ↦ rw (e, f) hs
    | inr f ↦ rw (e, f) (hs.0, insert_id-All P p qs h hs.1)
  ]
]

of_series_self : (r : Result) (rs : List Result) → 0 < length (of_series r.probe_id (r ∷ rs))
unfolding of_series
of_series_self r rs = ground arith

more_results :
    (r : Result) (rs : List Result) (ps : List ℕ)
    → All (λ p. 0 < length (of_series p rs)) ps
    → All (λ p. 0 < length (of_series p (r ∷ rs))) ps
unfolding of_series
more_results r rs [] h = tt
more_results r rs (p ∷ ps) h = (ground arith, more_results r rs ps h.1)

probe_ids_nonempty : (rs : List Result) → All (λ p. 0 < length (of_series p rs)) (probe_ids rs)
unfolding probe_ids
probe_ids_nonempty [] = tt
probe_ids_nonempty (r ∷ rs) =
    insert_id-All (λ p. 0 < length (of_series p (r ∷ rs))) r.probe_id (probe_ids rs)
      (of_series_self r rs) (more_results r rs (probe_ids rs) (probe_ids_nonempty rs))

-- Where sorting keeps the number of results, a batch of results ends without a fault whatever the
-- tables hold: no nil event is dereferenced, no event to adopt is missing, no group is empty.
pub apply-Returns :
    (env : Env)
    → ((rs : List Result) → length (env.sort_by_time rs) ≡ length rs)
    → (a : ℕ) (results : List Result) (db : Tables) → Returns (apply env a results db)
unfolding apply
apply-Returns env s a [] db = ((db, []), refl)
apply-Returns env s a (r ∷ rs) db =
    let ids = probe_ids (r ∷ rs) in
    let rows = ensure_states a (r ∷ rs) ids db.series in
    let (acc, q) =
      fold_all-Returns env s a (λ p. lock_state a p db.events rows) (r ∷ rs) ids
        (record { events = db.events; transitions = []; finals = [] })
        (λ p. lock_state-IsLinked a p db.events rows) (probe_ids_nonempty (r ∷ rs)) in
    (_, ap (λ o. o >>= commit rows) q)
