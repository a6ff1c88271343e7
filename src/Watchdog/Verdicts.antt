-- ===== src/Watchdog/Verdicts.antt =====
-- When the watchdog ends the agent (internal/agent/uplink/watchdog.go), and when it does not.
use polarbeam.Base.{
  ℕ, ◌<◌, ◌≡◌, ◌≢◌, inl, inr, refl, sym, ap, subst, ◌∙◌, false, Bool-cases, List, [], ◌∷◌, ◌++◌,
  All, ◌==◌, if◌then◌else◌, arith,
}
use polarbeam.Watchdog.{
  sub_time, Tick, State, Verdict, watching, ended, unreachable, budget_of, tick, loop, watchdog,
}
use polarbeam.Watchdog.Turns.{ready_since, Recent, Dead, Turn, stopped, goes_on, dies, tick-Turn}

-- A return with this error, from a turn that found the network dead behind turns of a live context.
pub record Unreached (limit start since budget : ℕ) (ts : List Tick) : Type 0 where
  pub before : List Tick
  pub turn : Tick
  pub after : List Tick
  pub split : ts ≡ before ++ turn ∷ after
  pub alive : All (λ (t : Tick). t.cancelled ≡ false) before
  pub dead : Dead limit (ready_since start before) turn
  pub shown :
      (since ≡ sub_time turn.now (ready_since start before))
      × (budget ≡ budget_of limit turn.fastest)

loop_ended : (limit : ℕ) (ts : List Tick) → loop limit ended ts ≡ ended
unfolding loop
loop_ended limit [] = refl
loop_ended limit (t ∷ ts) = loop_ended limit ts

loop_unreachable :
    (limit s b : ℕ) (ts : List Tick) → loop limit (unreachable s b) ts ≡ unreachable s b
unfolding loop
loop_unreachable limit s b [] = refl
loop_unreachable limit s b (t ∷ ts) = loop_unreachable limit s b ts

unreachable_same : {s s' b b' : ℕ} → unreachable s b ≡ unreachable s' b' → (s' ≡ s) × (b' ≡ b)
unreachable_same e = ground arith

Unreached-later :
    (limit start s b : ℕ) (t : Tick) (ts : List Tick)
    → t.cancelled ≡ false
    → Unreached limit (if t.ready then t.now else start) s b ts
    → Unreached limit start s b (t ∷ ts)
unfolding ready_since
Unreached-later limit start s b t ts c h = record {
  before = t ∷ h.before;
  turn = h.turn;
  after = h.after;
  split = λ i. t ∷ h.split i;
  alive = (c, h.alive);
  dead = h.dead;
  shown = h.shown;
}

Unreached-Turn :
    (limit s b : ℕ) (st : State) (t : Tick) (ts : List Tick) (v : Verdict)
    → Turn limit st t v
    → ((st' : State)
        → loop limit (watching st') ts ≡ unreachable s b
        → Unreached limit st'.last_ready s b ts)
    → loop limit v ts ≡ unreachable s b
    → Unreached limit st.last_ready s b (t ∷ ts)
unfolding ready_since
Unreached-Turn limit s b st t ts ended (stopped c) later e = absurd (cc (loop_ended limit ts, e))
Unreached-Turn limit s b st t ts (watching st') (goes_on _ c r) later e =
    Unreached-later limit st.last_ready s b t ts c
      (subst (λ (n : ℕ). Unreached limit n s b ts) r (later st' e))
Unreached-Turn limit s b st t ts (unreachable _ _) (dies d) later e = record {
  before = [];
  turn = t;
  after = ts;
  split = refl;
  alive = tt;
  dead = d;
  shown = unreachable_same (sym (loop_unreachable limit _ _ ts) ∙ e);
}

loop-Unreached :
    (limit s b : ℕ) (st : State) (ts : List Tick)
    → loop limit (watching st) ts ≡ unreachable s b
    → Unreached limit st.last_ready s b ts
unfolding loop
loop-Unreached limit s b st [] e = absurd (cc e)
loop-Unreached limit s b st (t ∷ ts) e =
    Unreached-Turn limit s b st t ts (tick limit st t) (tick-Turn limit st t)
      (λ st' q. loop-Unreached limit s b st' ts q) e

-- Where the watchdog ends the agent, it is at a turn, with no turn of a cancelled context before it
-- or at it, at which the channel is not Ready, has not been Ready for the budget since the last
-- turn that saw it Ready (or since the start), and no probe was OK within that budget; the error
-- shows this time and this budget.
watchdog-Unreached :
    (limit start : ℕ) (ts : List Tick) {s b : ℕ}
    → watchdog limit start ts ≡ unreachable s b
    → Unreached limit start s b ts
unfolding watchdog
watchdog-Unreached limit start ts e = elim (Bool-cases (limit == 0)) [
  | inl q ↦ absurd (cc (rw q at e))
  | inr q ↦
      loop-Unreached limit _ _ (record { last_ready = start; held_back = false }) ts (rw q at e)
]

-- The loop ends the agent.
abbrev Ends : ℕ → Verdict → List Tick → Type 0
Ends limit v ts = (s : ℕ) × (b : ℕ) × (loop limit v ts ≡ unreachable s b)

tick-Dead :
    (limit : ℕ) (st : State) (t : Tick)
    → Dead limit st.last_ready t
    → tick limit st t ≡ unreachable (sub_time t.now st.last_ready) (budget_of limit t.fastest)
unfolding tick
tick-Dead limit st t d = ground (arith, d.not_cancelled, d.not_ready, d.over_budget, d.no_evidence)

Ends-Turn :
    (limit : ℕ) (st : State) (t : Tick) (ts : List Tick) (v : Verdict)
    → Turn limit st t v
    → t.cancelled ≡ false
    → ((st' : State)
        → st'.last_ready ≡ (if t.ready then t.now else st.last_ready)
        → Ends limit (watching st') ts)
    → Ends limit v ts
Ends-Turn limit st t ts ended (stopped c) a later = absurd (cc (c, a))
Ends-Turn limit st t ts (watching st') (goes_on _ c r) a later = later st' r
Ends-Turn limit st t ts (unreachable s b) (dies d) a later = (s, b, loop_unreachable limit s b ts)

loop-Dead :
    (limit start : ℕ) (st : State) (before after : List Tick) (turn : Tick)
    → st.last_ready ≡ start
    → All (λ (t : Tick). t.cancelled ≡ false) before
    → Dead limit (ready_since start before) turn
    → Ends limit (watching st) (before ++ turn ∷ after)
unfolding loop ready_since
loop-Dead limit start st [] after turn q a d =
    let e = tick-Dead limit st turn (subst (λ (n : ℕ). Dead limit n turn) (sym q) d) in
    (_, _, ap (λ v. loop limit v after) e ∙ loop_unreachable limit _ _ after)
loop-Dead limit start st (t ∷ before) after turn q a d =
    Ends-Turn limit st t (before ++ turn ∷ after) (tick limit st t) (tick-Turn limit st t) a.0
      (λ st' r.
        loop-Dead limit (if t.ready then t.now else start) st' before after turn
          (r ∙ ap (λ (n : ℕ). if t.ready then t.now else n) q) a.1 d)

-- With a limit above 0, the agent is ended, no later than at the first turn, behind turns with a
-- live context, that finds the context live, the channel not Ready for the budget, and no OK probe
-- within the budget.
pub watchdog-Dead :
    (limit start : ℕ) (before after : List Tick) (turn : Tick)
    → 0 < limit
    → All (λ (t : Tick). t.cancelled ≡ false) before
    → Dead limit (ready_since start before) turn
    → (s : ℕ) × (b : ℕ) × (watchdog limit start (before ++ turn ∷ after) ≡ unreachable s b)
unfolding watchdog
watchdog-Dead limit start before after turn l a d = elim (Bool-cases (limit == 0)) [
  | inl q ↦ absurd (ground arith)
  | inr q ↦
      let (s, b, e) =
        loop-Dead limit start (record { last_ready = start; held_back = false }) before after turn
          refl a d in
      (s, b, rw (q, e))
]

All-at :
    (P : Tick → Type 0) (before after : List Tick) (turn : Tick)
    → All P (before ++ turn ∷ after)
    → P turn
All-at P [] after turn a = a.0
All-at P (t ∷ before) after turn a = All-at P before after turn a.1

-- An agent whose probes keep succeeding is not ended, however long the control plane is out: where
-- every turn finds an OK probe within its budget, the watchdog does not return the error.
watchdog_holds_back :
    (limit start : ℕ) (ts : List Tick)
    → All (Recent limit) ts
    → (s b : ℕ) → watchdog limit start ts ≢ unreachable s b
watchdog_holds_back limit start ts a s b e =
    let h = watchdog-Unreached limit start ts e in
    h.dead.no_evidence
      (All-at (Recent limit) h.before h.after h.turn (subst (All (Recent limit)) h.split a))
