-- ===== src/PathMtu.antt =====
-- The search for a path's MTU (internal/agent/probes/pathmtu.go, the agent's side): `pmtuSearch`
-- with its bracket of packet sizes. Sizes are ints between 0 and mtuCeil + 1, and an advertised MTU
-- is at most 2 ^ 32, so that no operation on them reaches the range of an int.
pub mod Bracket
mod Tests
pub mod Creeping
pub mod Finalize
pub mod Network
pub mod Limits
pub mod Run
pub mod Prober
use polarbeam.Base.{
  ℕ, ◌+◌, ◌-◌, ◌/◌, Bool, true, false, ◌&&◌, ◌||◌, not, Option, none, some, ltb, leb, ◌==◌,
  if◌then◌else◌,
}

abbrev pub mtu_floor : ℕ
mtu_floor = 68

abbrev pub mtu_ceil : ℕ
mtu_ceil = 9216

abbrev pub ipv6_min_mtu : ℕ
ipv6_min_mtu = 1280

-- `sizeVerdict`
pub data Verdict : Type 0 where
  ok too_big silent local : Verdict

-- `hiCause`: what kind of failure set the upper bound.
pub data Cause : Type 0 where
  unset by_too_big by_silence by_local : Cause

abbrev pub is_too_big : Cause → Bool
is_too_big by_too_big = true
is_too_big _ = false

abbrev pub is_silence : Cause → Bool
is_silence by_silence = true
is_silence _ = false

abbrev pub is_local : Cause → Bool
is_local by_local = true
is_local _ = false

-- `pmtuSearch`. The map `tested` is the test for its keys.
pub record Search : Type 0 where
  pub min : ℕ
  pub max : ℕ
  pub v6 : Bool
  pub lo : ℕ
  pub hi : ℕ
  pub cause : Cause
  pub tested : ℕ → Bool
  pub next_hop_mtu : ℕ
  pub override : ℕ
  pub adv_confirmed : Bool

abbrev pub new_search : ℕ → ℕ → Bool → Search
new_search lowest highest v6 = record {
  min = lowest;
  max = highest;
  v6 = v6;
  lo = 0;
  hi = highest + 1;
  cause = unset;
  tested = λ n. false;
  next_hop_mtu = 0;
  override = 0;
  adv_confirmed = false;
}

-- `done`
unfoldable pub is_done : Search → Bool
is_done s = leb s.max s.lo || leb s.hi s.min || leb (s.hi - s.lo) 1 || s.adv_confirmed

-- `next`: the size to test, `none` for `more == false`.
unfoldable pub next : Search → Option ℕ
unfolding is_done
next s =
    let mid = (s.lo + s.hi) / 2 in
    if is_done s
    then none
    else if not (s.tested s.max)
    then some s.max
    else if ltb s.lo s.override && ltb s.override s.hi && not (s.tested s.override)
    then some s.override
    else if s.lo == 0 && not (s.tested s.min)
    then some s.min
    else if s.tested mid || leb mid s.lo || leb s.hi mid
    then none
    else some mid

abbrev pub with_tested : Search → ℕ → Search
with_tested s size = record s { tested = λ n. n == size || s.tested n }

-- The case verdictOK of `record`.
unfoldable pub raise_lo : Search → ℕ → Search
raise_lo s size =
    if ltb s.lo size && ltb size s.hi
    then record s {
      lo = size;
      adv_confirmed = is_too_big s.cause && size == s.next_hop_mtu || s.adv_confirmed;
    }
    else s

abbrev pub lower_hi : Search → ℕ → Cause → Search
lower_hi s size c = if ltb size s.hi then record s { hi = size; cause = c } else s

-- The least MTU that an ICMP message can plausibly advertise.
abbrev pub floor_of : Search → ℕ
floor_of s = if s.v6 then ipv6_min_mtu else mtu_floor

-- The advertised MTU of the case verdictTooBig.
unfoldable pub advertise : Search → ℕ → ℕ → Search
advertise s size adv =
    if leb (floor_of s) adv && ltb adv size && (s.next_hop_mtu == 0 || ltb adv s.next_hop_mtu)
    then record s { next_hop_mtu = adv; override = if leb s.min adv then adv else s.override }
    else s

abbrev pub fold_verdict : Search → ℕ → Verdict → ℕ → Search
fold_verdict s size ok adv = raise_lo s size
fold_verdict s size too_big adv = advertise (lower_hi s size by_too_big) size adv
fold_verdict s size silent adv = lower_hi s size by_silence
fold_verdict s size local adv = lower_hi s size by_local

-- `record`
unfoldable pub record_verdict : Search → ℕ → Verdict → ℕ → Search
unfolding raise_lo advertise
record_verdict s size v adv = fold_verdict (with_tested s size) size v adv

-- `pmtuOutcome`
pub record SearchOutcome : Type 0 where
  pub largest_ok : ℕ
  pub smallest_failed : ℕ
  pub next_hop_mtu : ℕ
  pub cause : Cause
  pub black_hole : Bool
  pub local_constraint : Bool

unfoldable pub outcome : Search → SearchOutcome
unfolding is_done
outcome s = record {
  largest_ok = s.lo;
  smallest_failed = if leb s.hi s.max then s.hi else 0;
  next_hop_mtu = s.next_hop_mtu;
  cause = s.cause;
  black_hole = is_done s && ltb 0 s.lo && is_silence s.cause;
  local_constraint = is_local s.cause;
}
