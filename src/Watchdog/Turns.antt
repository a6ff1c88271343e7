-- ===== src/Watchdog/Turns.antt =====
-- What one turn of the watchdog's loop can do (internal/agent/uplink/watchdog.go).
use polarbeam.Base.{ℕ, ◌≤◌, ◌≡◌, refl, Bool, true, false, List, [], ◌∷◌, ltb, if◌then◌else◌, arith}
use polarbeam.Watchdog.{
  last_probe_ok_at, sub_time, Tick, State, Verdict, watching, ended, unreachable, budget_of,
  is_recent, judge, tick,
}

-- The last time the channel was seen Ready, or the start.
unfoldable pub ready_since : ℕ → List Tick → ℕ
ready_since since [] = since
ready_since since (t ∷ ts) = ready_since (if t.ready then t.now else since) ts

-- A probe was OK within the budget of this tick.
abbrev pub Recent : ℕ → Tick → Type 0
Recent limit t =
    is_recent (last_probe_ok_at t.last_probe_ok) t.now (budget_of limit t.fastest) ≡ true

-- A turn that finds the network dead, `since` being the last time the channel was Ready.
pub record Dead (limit since : ℕ) (t : Tick) : Type 0 where
  pub not_cancelled : t.cancelled ≡ false
  pub not_ready : t.ready ≡ false
  pub over_budget : budget_of limit t.fastest ≤ sub_time t.now since
  pub no_evidence : ¬ Recent limit t

-- What one turn of the loop can do.
pub data Turn (limit : ℕ) (st : State) (t : Tick) : Verdict → Type 0 where
  stopped : t.cancelled ≡ true → Turn limit st t ended
  goes_on :
      (st' : State)
      → t.cancelled ≡ false
      → st'.last_ready ≡ (if t.ready then t.now else st.last_ready)
      → Turn limit st t (watching st')
  dies :
      Dead limit st.last_ready t
      → Turn limit st t (unreachable (sub_time t.now st.last_ready) (budget_of limit t.fastest))

judge-Turn :
    (limit : ℕ) (st : State) (t : Tick) (over recent : Bool)
    → t.cancelled ≡ false
    → t.ready ≡ false
    → ltb (sub_time t.now st.last_ready) (budget_of limit t.fastest) ≡ over
    → is_recent (last_probe_ok_at t.last_probe_ok) t.now (budget_of limit t.fastest) ≡ recent
    → Turn limit st t (
        if over
        then watching st
        else if recent
        then watching (record st { held_back = true })
        else unreachable (sub_time t.now st.last_ready) (budget_of limit t.fastest))
judge-Turn limit st t true recent a b c d = goes_on st a (rw b)
judge-Turn limit st t false true a b c d = goes_on (record st { held_back = true }) a (rw b)
judge-Turn limit st t false false a b c d = dies (record {
  not_cancelled = a;
  not_ready = b;
  over_budget = ground arith;
  no_evidence = λ e. ground arith;
})

Turn-of :
    (limit : ℕ) (st : State) (t : Tick) (c r : Bool)
    → t.cancelled ≡ c
    → t.ready ≡ r
    → Turn limit st t (
        if c
        then ended
        else if r
        then watching (record { last_ready = t.now; held_back = false })
        else judge st
            (sub_time t.now st.last_ready)
            (budget_of limit t.fastest)
            (is_recent (last_probe_ok_at t.last_probe_ok) t.now (budget_of limit t.fastest)))
Turn-of limit st t true r a b = stopped a
Turn-of limit st t false true a b =
    goes_on (record { last_ready = t.now; held_back = false }) a (rw b)
Turn-of limit st t false false a b = judge-Turn limit st t _ _ a b refl refl

pub tick-Turn : (limit : ℕ) (st : State) (t : Tick) → Turn limit st t (tick limit st t)
unfolding tick
tick-Turn limit st t = Turn-of limit st t t.cancelled t.ready refl refl
