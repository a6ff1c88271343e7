-- ===== src/Outage/Sweep/Offline.antt =====
-- One turn of the silence sweep (internal/server/outage/sweep.go) makes the open agent_offline events
-- of the agent what its signals say.
use polarbeam.Base.{
  ℕ, ◌+◌, ◌≤◌, ◌≡◌, refl, Bool, true, false, not, Option, none, some, List, [], ◌∷◌, ◌++◌, arith,
  if◌then◌else◌,
}
use polarbeam.Outage.Table.{Event, Env, Row, is_none, update_closed}
use polarbeam.Outage.Sweep.{
  Agent, Signals, is_offline_open, select_offline, signals_of, is_silent, decide_offline,
  insert_offline, sweep_agent, act_offline,
}

-- The open agent_offline events of an agent.
unfoldable pub count_open : ℕ → List Event → ℕ
count_open a [] = 0
count_open a (e ∷ es) = (if is_offline_open a e then 1 else 0) + count_open a es

count_open-append :
    (a : ℕ) (es fs : List Event) → count_open a (es ++ fs) ≡ count_open a es + count_open a fs
unfolding count_open
count_open-append a [] fs = omega arith
count_open-append a (e ∷ es) fs = omega (arith, count_open-append a es fs)

select_offline-none : (a : ℕ) (es : List Event) → select_offline a es ≡ none → count_open a es ≡ 0
unfolding select_offline count_open
select_offline-none a [] h = refl
select_offline-none a (e ∷ es) h = ground (arith, select_offline-none a es)

select_offline-some :
    (a i : ℕ) (es : List Event) → select_offline a es ≡ some i → 1 ≤ count_open a es
unfolding select_offline count_open
select_offline-some a i [] h = absurd (cc h)
select_offline-some a i (e ∷ es) h = ground (arith, select_offline-some a i es)

update_closed-le :
    (env : Env) (a i now : ℕ) (es : List Event)
    → count_open a (update_closed env i now es) ≤ count_open a es
unfolding update_closed count_open
update_closed-le env a i now [] = omega arith
update_closed-le env a i now (e ∷ es) = ground (arith, update_closed-le env a i now es)

update_closed-last :
    (env : Env) (a i now : ℕ) (es : List Event)
    → select_offline a es ≡ some i
    → count_open a es ≤ 1
    → count_open a (update_closed env i now es) ≡ 0
unfolding update_closed count_open select_offline
update_closed-last env a i now [] h l = refl
update_closed-last env a i now (e ∷ es) h l =
    ground (arith, update_closed-last env a i now es, update_closed-le env a i now es)

count_open-snoc :
    (a : ℕ) (es : List Event) (e : Event)
    → is_offline_open a e ≡ true
    → count_open a es ≡ 0
    → count_open a (es ++ e ∷ []) ≡ 1
unfolding count_open
count_open-snoc a es e o z = ground (arith, count_open-append a es (e ∷ []))

-- What the code does for each of the answers of the decision.
act_offline-count :
    (env : Env) (now : ℕ) (s : Signals) (silent : Bool) (held : Option ℕ) (es : List Event)
    → s.open_event_id ≡ held
    → select_offline s.agent_id es ≡ held
    → count_open s.agent_id es ≤ 1
    → count_open s.agent_id
        (act_offline env now s (if is_none held then (silent, false) else (false, not silent)) es)
      ≡ (if silent then 1 else 0)
unfolding insert_offline count_open
act_offline-count env now s false none es b c l = select_offline-none s.agent_id es c
act_offline-count env now s true none es b c l =
    rw c (count_open-snoc s.agent_id es _ (ground arith) (select_offline-none s.agent_id es c))
act_offline-count env now s false (some i) es b c l =
    rw (b, update_closed-last env s.agent_id i now es c l)
act_offline-count env now s true (some i) es b c l =
    omega (arith, l, select_offline-some s.agent_id i es c)

-- Where the agent has at most one open agent_offline event, as the unique index has it: after its turn
-- of the sweep, on the signals that were read from these tables, it has exactly one if both signals
-- are silent, and none if either is not.
pub sweep_agent-count :
    (env : Env) (now : ℕ) (a : Agent) (es : List Event) (rows : List Row)
    → count_open a.id es ≤ 1
    → count_open a.id (sweep_agent env now (signals_of a es rows) es)
      ≡ (if is_silent now (signals_of a es rows) then 1 else 0)
unfolding sweep_agent decide_offline signals_of
sweep_agent-count env now a es rows l =
    let s = signals_of a es rows in
    act_offline-count env now s (is_silent now s) (select_offline a.id es) es refl refl l
