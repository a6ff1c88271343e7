-- ===== src/Outage/Store.antt =====
-- A series' open event in the tables (the loop of `Apply` in internal/server/outage/outage.go):
-- the operations never fault, and at most one probe event of the series stays open.
use polarbeam.Base.{
  ℕ, ◌≡◌, ◌≢◌, refl, inl, inr, Bool, true, ◌&&◌, not, Option, none, some, String, List, [], ◌∷◌,
  ◌++◌, All, All-append, Outcome, done, arith, ◌==◌, Option-cases, ap, ◌∙◌, ◌>>=◌,
}
use polarbeam.Outage.{Kind, agent_offline, Result, State, Op, open_op, close_op, step}
use polarbeam.Outage.Table.{Event, Env, is_kind, is_none, select_open, update_closed, new_row}
use polarbeam.Outage.Apply.{
  Fault, Work, opened_work, closed_work, record_close, open_event, exec_op, exec_ops,
}
use polarbeam.Outage.Streaks.{after_ops}

-- The operations fit the open kind: an open only where nothing is open, a close only where
-- something is, and never an agent_offline event.
abbrev pub Fits : Option Kind → List Op → Type 0
Fits k [] = Unit
Fits none (open_op k at detail ∷ os) = (k ≢ agent_offline) × Fits (some k) os
Fits none (close_op at ∷ os) = ⊥
Fits (some k) (close_op at ∷ os) = Fits none os
Fits (some k) (open_op _ _ _ ∷ os) = ⊥

pub step-Fits : (st : State) (r : Result) → Fits (step st r).0.open_kind (step st r).1
unfolding step
step-Fits st r = ground arith

-- An open event of a probe, of either kind.
abbrev pub is_probe_open : ℕ → ℕ → Event → Bool
is_probe_open a p e =
    not (is_kind agent_offline e.kind) && e.agent_id == a && e.probe_id == p && is_none e.closed_at

-- The event is the one that the state of the series points to.
abbrev pub IsPointed : ℕ → ℕ → State → Event → Type 0
IsPointed a p st e =
    is_probe_open a p e ≡ true → (st.open_event_id ≡ some e.id) × (st.open_kind ≡ some e.kind)

-- A kind comes with an id, and no other event of the series is open.
pub record IsTracked (a p : ℕ) (st : State) (es : List Event) : Type 0 where
  pub linked : st.open_event_id ≡ none → st.open_kind ≡ none
  pub only : All (IsPointed a p st) es

closed_rows :
    (env : Env) (a p at i : ℕ) (st st' : State) (es : List Event)
    → st.open_event_id ≡ some i
    → All (IsPointed a p st) es
    → All (IsPointed a p st') (update_closed env i at es)
unfolding update_closed
closed_rows env a p at i st st' [] e h = tt
closed_rows env a p at i st st' (x ∷ xs) e h =
    (ground arith, closed_rows env a p at i st st' xs e h.1)

none_selected :
    (k : Kind) (a p : ℕ) (st : State) (es : List Event)
    → k ≢ agent_offline
    → st.open_kind ≡ none
    → All (IsPointed a p st) es
    → select_open k a p es ≡ none
unfolding select_open
none_selected k a p st [] o n h = refl
none_selected k a p st (x ∷ xs) o n h = ground (arith, none_selected k a p st xs o n h.1)

repointed :
    (a p : ℕ) (st st' : State) (es : List Event)
    → st.open_kind ≡ none
    → All (IsPointed a p st) es
    → All (IsPointed a p st') es
repointed a p st st' [] n h = tt
repointed a p st st' (x ∷ xs) n h = (ground arith, repointed a p st st' xs n h.1)

pub open_event_lem :
    (env : Env) (a : ℕ) (r : Result) (k : Kind) (at : ℕ) (detail : String) (es : List Event)
    → select_open k a r.probe_id es ≡ none
    → open_event env a r k at detail es
      ≡ done (env.new_id es, es ++ new_row env a r k at detail es ∷ [])
unfolding open_event
open_event_lem env a r k at detail es n = rw n

-- What the operations leave of a series: they ran, changed the state in the open event alone, and
-- the event that is open, if any, is the one that the state points to.
pub record Ran (a p : ℕ) (w : Work) (k : Option Kind) (o : Outcome Fault Work) : Type 0 where
  pub after : Work
  pub ran : o ≡ done after
  pub state : after.st ≡ record w.st { open_event_id = after.st.open_event_id; open_kind = k }
  pub tracked : IsTracked a p after.st after.events

opened-Ran :
    (env : Env) (a : ℕ) (r : Result) (k : Kind) (at : ℕ) (detail : String) (w : Work)
    → k ≢ agent_offline
    → w.st.open_kind ≡ none
    → IsTracked a r.probe_id w.st w.events
    → Ran a r.probe_id w (some k) (exec_op env a r (open_op k at detail) w)
unfolding exec_op
opened-Ran env a r k at detail w o n t =
    let es = w.events ++ new_row env a r k at detail w.events ∷ [] in
    let w' = opened_work r k at w (env.new_id w.events) es in
    record {
      after = w';
      ran = rw (
          open_event_lem env a r k at detail w.events
            (none_selected k a r.probe_id w.st w.events o n t.only));
      state = refl;
      tracked = record {
        linked = λ e. cc;
        only =
            All-append (IsPointed a r.probe_id w'.st) w.events
              (new_row env a r k at detail w.events ∷ [])
              (repointed a r.probe_id w.st w'.st w.events n t.only) ((λ e. (refl, refl)), tt);
      };
    }

closed-Ran :
    (env : Env) (a : ℕ) (r : Result) (k : Kind) (at : ℕ) (w : Work)
    → w.st.open_kind ≡ some k
    → IsTracked a r.probe_id w.st w.events
    → Ran a r.probe_id w none (exec_op env a r (close_op at) w)
unfolding exec_op
closed-Ran env a r k at w e t = elim (Option-cases w.st.open_event_id) [
  | inl n ↦ absurd (cc (t.linked n))
  | inr (i, q) ↦ record {
    after = closed_work env r at w i;
    ran = ap (record_close env r at w) q;
    state = refl;
    tracked = record {
      linked = λ e. refl;
      only = closed_rows env a r.probe_id at i w.st (closed_work env r at w i).st w.events q t.only;
    };
  }
]

done-Ran :
    {a p : ℕ} {w : Work} {k : Option Kind} {o o' : Outcome Fault Work}
    → o ≡ o'
    → Ran a p w k o'
    → Ran a p w k o
done-Ran e h = record { after = h.after; ran = e ∙ h.ran; state = h.state; tracked = h.tracked }

-- After one operation that ran, the others.
next-Ran :
    (a p : ℕ) (w : Work) (k j : Option Kind) (o : Outcome Fault Work)
    (f : Work → Outcome Fault Work) (h : Ran a p w k o)
    → Ran a p h.after j (f h.after)
    → Ran a p w j (o >>= f)
next-Ran a p w k j o f h g = record {
  after = g.after;
  ran = ap (λ x. x >>= f) h.ran ∙ g.ran;
  state =
      g.state
      ∙ ap (λ (s : State). record s { open_event_id = g.after.st.open_event_id; open_kind = j })
          h.state;
  tracked = g.tracked;
}

pub exec_ops-Ran :
    (env : Env) (a : ℕ) (r : Result) (k : Option Kind) (os : List Op) (w : Work)
    → w.st.open_kind ≡ k
    → Fits k os
    → IsTracked a r.probe_id w.st w.events
    → Ran a r.probe_id w (after_ops os k) (exec_ops env a r os w)
unfolding exec_ops
exec_ops-Ran env a r k [] w e f t = record { after = w; ran = refl; state = rw (← e); tracked = t }
exec_ops-Ran env a r none (open_op k at detail ∷ os) w e f t =
    let h = opened-Ran env a r k at detail w f.0 e t in
    next-Ran a r.probe_id w (some k) (after_ops os (some k)) _ (exec_ops env a r os) h (
      exec_ops-Ran env a r (some k) os h.after (ap (λ (s : State). s.open_kind) h.state) f.1
        h.tracked)
exec_ops-Ran env a r none (close_op at ∷ os) w e f t = absurd f
exec_ops-Ran env a r (some k) (close_op at ∷ os) w e f t =
    let h = closed-Ran env a r k at w e t in
    next-Ran a r.probe_id w none (after_ops os none) _ (exec_ops env a r os) h
      (exec_ops-Ran env a r none os h.after (ap (λ (s : State). s.open_kind) h.state) f h.tracked)
exec_ops-Ran env a r (some k) (open_op j at detail ∷ os) w e f t = absurd f
