-- ===== src/PathMtu/Finalize.antt =====
-- The parameters of a path MTU probe and the status of its result: `pmtuParams` and `pmtuFinalize`
-- of internal/agent/probes/pathmtu.go. An error text is a constructor with what it shows.
use polarbeam.Base.{
  ℕ, ◌<◌, ◌≤◌, ◌≡◌, String, true, false, ◌&&◌, ◌||◌, not, Option, none, some, Outcome, done, fail,
  arith, ltb, leb, ◌==◌, if◌then◌else◌, ◌>>=◌,
}
use text.Mathlib.Text.{◌==◌ as str_eq}
use polarbeam.PathMtu.{mtu_floor, mtu_ceil, is_too_big, is_silence, Search, is_done, outcome}

-- What `strconv.Atoi` gives of a text: an error, a negative number, or a natural one.
pub data Parsed : Type 0 where
  invalid : Parsed
  negative : ℕ → Parsed
  natural : ℕ → Parsed

pub data ParamError : Type 0 where
  bad_min bad_max out_of_range not_less bad_family : ParamError

-- The parameters that are set.
pub record Params : Type 0 where
  pub mtu_min : Option String
  pub mtu_max : Option String
  pub family : String

pub record Sizes : Type 0 where
  pub min_size : ℕ
  pub max_size : ℕ
  pub family : String

-- `strconv.Atoi` is the argument. The value is an int, so a negative one is kept as such.
abbrev pub size_param :
    (String → Parsed) → ParamError → ℕ → Option String → Outcome ParamError Parsed
size_param atoi e default none = done (natural default)
size_param atoi e default (some v) = elim (atoi v) [ invalid ↦ fail e | n ↦ done n ]

-- Within mtuFloor and mtuCeil, both included.
abbrev pub in_range : Parsed → Option ℕ
in_range (natural n) = if ltb n mtu_floor || ltb mtu_ceil n then none else some n
in_range _ = none

abbrev pub check_family : ℕ → ℕ → String → Outcome ParamError Sizes
check_family a b f =
    if not (str_eq f "") && not (str_eq f "4") && not (str_eq f "6")
    then fail bad_family
    else done (record { min_size = a; max_size = b; family = f })

abbrev pub check_sizes : Option ℕ → Option ℕ → String → Outcome ParamError Sizes
check_sizes none _ f = fail out_of_range
check_sizes (some a) none f = fail out_of_range
check_sizes (some a) (some b) f = if leb b a then fail not_less else check_family a b f

unfoldable pub pmtu_params : (String → Parsed) → Params → Outcome ParamError Sizes
pmtu_params atoi ps = do
  a ← size_param atoi bad_min 1280 ps.mtu_min
  b ← size_param atoi bad_max 1500 ps.mtu_max
  check_sizes (in_range a) (in_range b) ps.family

-- The status and the error text of the result.
pub data Status : Type 0 where
  ok_status timeout_status error_status : Status

pub data Message : Type 0 where
  no_message not_converged no_replies : Message
  local_limit path_limit black_hole : ℕ → Message

-- The `switch` of `pmtuFinalize`.
unfoldable pub finalize : Search → ℕ → Status × Message
finalize s lowest =
    let o = outcome s in
    if not (is_done s)
    then (timeout_status, not_converged)
    else if o.local_constraint && o.largest_ok == 0
    then (error_status, local_limit lowest)
    else if o.black_hole
    then (timeout_status, black_hole o.largest_ok)
    else if o.largest_ok == 0 && is_too_big o.cause
    then (error_status, path_limit lowest)
    else if o.largest_ok == 0
    then (timeout_status, no_replies)
    else (ok_status, no_message)

-- Accepted parameters are in the bounds of the search: sizes from mtuFloor to mtuCeil, the least
-- below the largest, whatever the texts parse to.
pmtu_params_bounds :
    (atoi : String → Parsed) (ps : Params) {z : Sizes}
    → pmtu_params atoi ps ≡ done z
    → (mtu_floor ≤ z.min_size) × (z.min_size < z.max_size) × (z.max_size ≤ mtu_ceil)
unfolding pmtu_params
pmtu_params_bounds atoi ps e = ground arith

-- A result is OK exactly when the search is done, some size was delivered, and what bounds it from
-- above is not silence.
finalize-ok :
    (s : Search) (lowest : ℕ)
    → ((finalize s lowest).0 ≡ ok_status
        → (is_done s ≡ true) × (0 < s.lo) × (is_silence s.cause ≡ false))
      × ((is_done s ≡ true) × (0 < s.lo) × (is_silence s.cause ≡ false)
          → (finalize s lowest).0 ≡ ok_status)
unfolding finalize outcome
finalize-ok s lowest = ((λ e. ground arith), (λ h. ground arith))
