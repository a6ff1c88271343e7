-- ===== src/Watchdog.antt =====
-- The watchdog of the agent's uplink (internal/agent/uplink/watchdog.go): `Watchdog` as a fold over
-- what each tick of its loop sees. A time is in nanoseconds since Go's zero time, and a Duration that
-- is a difference of times stops at the largest int64; one that would be negative is 0, which the
-- code cannot tell from it, since it only asks whether a positive budget is reached.
pub mod Turns
pub mod Verdicts
mod Tests
use polarbeam.Base.{
  ℕ, ◌+◌, ◌-◌, ◌*◌, ◌%◌, ◌^◌, Bool, true, false, not, Option, none, some, List, [], ◌∷◌, min, max,
  ltb, ◌==◌, if◌then◌else◌,
}

-- `time.Unix(0, 0)`.
abbrev pub unix_epoch : ℕ
unix_epoch = 62_135_596_800_000_000_000

-- `lastProbeOKAt`, of the stored UnixNano of a clock that is not before 1970; 0 says never.
abbrev pub last_probe_ok_at : ℕ → Option ℕ
last_probe_ok_at ns = if ns == 0 then none else some (unix_epoch + ns)

-- `t.Sub(u)`
abbrev pub sub_time : ℕ → ℕ → ℕ
sub_time t u = min (t - u) (2 ^ 63 - 1)

-- What one turn of the loop sees: whether the context is done, at the select or behind it, the
-- clock, the channel state, the fastest interval and the stored time of the last OK probe.
pub record Tick : Type 0 where
  pub cancelled : Bool
  pub now : ℕ
  pub ready : Bool
  pub fastest : ℕ
  pub last_probe_ok : ℕ

pub record State : Type 0 where
  pub last_ready : ℕ
  pub held_back : Bool

-- Still looping, returned nil, or returned an error with what it shows.
pub data Verdict : Type 0 where
  watching : State → Verdict
  ended : Verdict
  unreachable : ℕ → ℕ → Verdict

-- `max(limit, 2*fastest())`: a product that wraps to a negative Duration is below the limit.
abbrev pub budget_of : ℕ → ℕ → ℕ
budget_of limit fastest =
    let d = 2 * fastest % 2 ^ 64 in if ltb d (2 ^ 63) then max limit d else limit

-- `!ok.IsZero() && now.Sub(ok) < budget`
abbrev pub is_recent : Option ℕ → ℕ → ℕ → Bool
is_recent none now budget = false
is_recent (some ok) now budget = ltb (sub_time now ok) budget

-- The rest of a turn, once the channel was seen not Ready.
abbrev pub judge : State → ℕ → ℕ → Bool → Verdict
judge st since budget recent =
    if ltb since budget
    then watching st
    else if recent
    then watching (record st { held_back = true })
    else unreachable since budget

-- One turn of the loop.
unfoldable pub tick : ℕ → State → Tick → Verdict
tick limit st t =
    if t.cancelled
    then ended
    else if t.ready
    then watching (record { last_ready = t.now; held_back = false })
    else (let budget = budget_of limit t.fastest in
        judge st (sub_time t.now st.last_ready) budget
          (is_recent (last_probe_ok_at t.last_probe_ok) t.now budget))

-- A loop that has returned sees no more ticks.
unfoldable pub tick_on : ℕ → Verdict → Tick → Verdict
unfolding tick
tick_on limit (watching st) t = tick limit st t
tick_on limit ended t = ended
tick_on limit (unreachable since budget) t = unreachable since budget

-- The loop, on as many ticks as there are.
unfoldable pub loop : ℕ → Verdict → List Tick → Verdict
unfolding tick_on
loop limit v [] = v
loop limit v (t ∷ ts) = loop limit (tick_on limit v t) ts

-- `Watchdog`, started at a time: a limit of 0 disables it.
unfoldable pub watchdog : ℕ → ℕ → List Tick → Verdict
unfolding loop
watchdog limit now ts =
    if limit == 0
    then ended
    else loop limit (watching (record { last_ready = now; held_back = false })) ts
