-- ===== src/PathMtu/Bracket.antt =====
-- The bracket of the search (`pmtuSearch` in internal/agent/probes/pathmtu.go): evidence tightens
-- it, every size that is asked for lies inside it, and the search stops only when it is done.
use polarbeam.Base.{ℕ, ◌+◌, ◌-◌, ◌/◌, ◌≤◌, ◌<◌, ◌≡◌, ◌⊎◌, Bool, true, false, none, some, arith}
use polarbeam.PathMtu.{Verdict, Search, new_search, is_done, next, record_verdict}

-- The bounds lie in the configured range, and whatever was tested lies outside them. A reply that
-- contradicts an earlier one may leave `hi` at or below `lo`, which ends the search.
pub record IsBracket (s : Search) : Type 0 where
  pub positive : 0 < s.min
  pub min_lt : s.min < s.max
  pub top : s.hi ≤ s.max + 1
  pub lo_top : s.lo ≤ s.max
  pub reached : (s.lo ≡ 0) ⊎ (s.min ≤ s.lo)
  pub bottom : s.min ≤ s.hi
  pub first : s.tested s.max ≡ false → s.hi ≡ s.max + 1
  pub outside : (n : ℕ) → s.tested n ≡ true → (n ≤ s.lo) ⊎ (s.hi ≤ n)
  pub override_at : (s.override ≡ 0) ⊎ (s.min ≤ s.override)

pub new_search-IsBracket :
    (lowest highest : ℕ) (v6 : Bool)
    → 0 < lowest
    → lowest < highest
    → IsBracket (new_search lowest highest v6)
new_search-IsBracket lowest highest v6 p l = ground arith

-- Of a well-formed bracket, a size that the search asks for lies strictly inside it and in the
-- configured range, and has not been tested; none but the largest is asked for before the largest
-- was tested.
pub next_inside :
    (s : Search) (n : ℕ)
    → IsBracket s
    → next s ≡ some n
    → (s.lo < n)
      × (n < s.hi)
      × (s.min ≤ n)
      × (n ≤ s.max)
      × (s.tested n ≡ false)
      × ((n ≡ s.max) ⊎ (s.tested s.max ≡ true))
unfolding next
next_inside s n h e = ground (arith, h.outside s.min, h.outside s.max, h.outside n)

-- Of a well-formed bracket, the search asks for nothing exactly when it is done: it never gives up
-- on an open bracket.
pub next-none :
    (s : Search)
    → IsBracket s
    → (next s ≡ none → is_done s ≡ true) × (is_done s ≡ true → next s ≡ none)
unfolding next
next-none s h = ((λ e. ground (arith, h.outside s.min, h.outside ((s.lo + s.hi) / 2))), λ d. rw d)

-- One verdict of any kind on a size of the range leaves a well-formed bracket well-formed, once the
-- largest size was tested or is the one tested now.
pub record_verdict-IsBracket :
    (s : Search) (n : ℕ) (v : Verdict) (adv : ℕ)
    → IsBracket s
    → s.min ≤ n
    → n ≤ s.max
    → (n ≡ s.max) ⊎ (s.tested s.max ≡ true)
    → IsBracket (record_verdict s n v adv)
unfolding record_verdict
record_verdict-IsBracket s n v adv h a b c = ground arith

-- Evidence of any kind, in any order, never widens the bracket.
pub record_verdict_tightens :
    (s : Search) (n : ℕ) (v : Verdict) (adv : ℕ)
    → (s.lo ≤ (record_verdict s n v adv).lo) × ((record_verdict s n v adv).hi ≤ s.hi)
unfolding record_verdict
record_verdict_tightens s n v adv = ground arith

-- A verdict on the size that was asked for makes the bracket strictly narrower, so that a search
-- tests at most as many sizes as its bracket is wide.
pub record_verdict_narrows :
    (s : Search) (n : ℕ) (v : Verdict) (adv : ℕ)
    → s.lo < n
    → n < s.hi
    → (record_verdict s n v adv).hi - (record_verdict s n v adv).lo < s.hi - s.lo
unfolding record_verdict
record_verdict_narrows s n v adv a b = ground arith
