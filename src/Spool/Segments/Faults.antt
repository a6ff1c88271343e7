-- ===== src/Spool/Segments/Faults.antt =====
-- A result that cannot be spooled (internal/agent/spool/spool.go).
use polarbeam.Base.{
  ℕ, ◌+◌, ◌-◌, ◌^◌, ◌<◌, ◌≡◌, refl, Option, none, some, List, length, done, arith, ltb, true, sym,
  subst,
}
use polarbeam.Spool.Counters.{Counters, open_counters, count_drops}
use polarbeam.Spool.Counters.Recovery.{IsBalanced, count_drops-IsBalanced, open_counters-persist}
use polarbeam.Spool.Frames.{max_record_bytes, record_overhead}
use polarbeam.Spool.Segments.{Spool, append, drop_unspoolable, record_drops}

-- No encoding, or one that is too long.
abbrev pub IsUnspoolable : Option (List ℕ) → Type 0
IsUnspoolable none = Unit
IsUnspoolable (some p) = max_record_bytes - record_overhead < length p

over :
    (n : ℕ)
    → max_record_bytes - record_overhead < n
    → ltb (max_record_bytes - record_overhead) n ≡ true
over n h = ground arith

append_unspoolable :
    (crc32 : List ℕ → ℕ) (now : ℕ) (encoded : Option (List ℕ)) (s : Spool)
    → IsUnspoolable encoded
    → append crc32 now encoded s ≡ drop_unspoolable s
unfolding append
append_unspoolable crc32 now none s h = refl
append_unspoolable crc32 now (some p) s h = simp (over (length p) h) refl

-- One more drop, in the counters and on the disk, and the files as they were.
pub record IsCounted (s s' : Spool) : Type 0 where
  pub files : s'.files ≡ s.files
  pub total : s'.counters.total ≡ s.counters.total + 1
  pub unacked : s'.counters.unacked ≡ s.counters.unacked + 1
  pub reopened : open_counters s'.disk ≡ done (s'.counters, s'.disk)

counted_total : (c : Counters) → c.total + 1 < 2 ^ 64 → (count_drops 1 c).total ≡ c.total + 1
unfolding count_drops
counted_total c l = omega arith

counted_unacked :
    (c : Counters) → IsBalanced c → c.total + 1 < 2 ^ 64 → (count_drops 1 c).unacked ≡ c.unacked + 1
unfolding count_drops
counted_unacked c b l = omega (arith, b.sum)

drop_unspoolable-IsCounted :
    (s : Spool)
    → IsBalanced s.counters
    → s.counters.total + 1 < 2 ^ 64
    → IsCounted s (drop_unspoolable s)
unfolding drop_unspoolable record_drops
drop_unspoolable-IsCounted s b l = record {
  files = refl;
  total = counted_total s.counters l;
  unacked = counted_unacked s.counters b l;
  reopened =
      open_counters-persist (count_drops 1 s.counters) s.disk
        (count_drops-IsBalanced 1 s.counters l b);
}

-- A result that has no encoding, or one that is too long, leaves the segment files as they are and
-- is counted once, when the counters are balanced and do not overflow; a spool that is opened on the
-- disk it leaves starts from the new counts.
pub append-IsCounted :
    (crc32 : List ℕ → ℕ) (now : ℕ) (encoded : Option (List ℕ)) (s : Spool)
    → IsUnspoolable encoded
    → IsBalanced s.counters
    → s.counters.total + 1 < 2 ^ 64
    → IsCounted s (append crc32 now encoded s)
append-IsCounted crc32 now encoded s h b l =
    subst (IsCounted s) (sym (append_unspoolable crc32 now encoded s h))
      (drop_unspoolable-IsCounted s b l)
