-- ===== src/Syslog/Format/Receiver.antt =====
-- A receiver of the escaped values (internal/server/syslogfwd/format.go), as RFC 5424 and the comment on
-- `sdEscape` say: it reads up to the closing quote, undoes the backslashes, and then the percent signs.
use polarbeam.Base.{
  ℕ, ◌+◌, ◌-◌, ◌*◌, Bool, true, false, Option, none, some, List, [], ◌∷◌, ltb, ◌==◌, if◌then◌else◌,
}
use polarbeam.Syslog.Format.{is_special}

abbrev pub put : ℕ → Option (List ℕ × List ℕ) → Option (List ℕ × List ℕ)
put a none = none
put a (some (bytes, rest)) = some (a ∷ bytes, rest)

-- A byte, behind a backslash or not, with what the bytes after it give.
abbrev pub read_byte : Bool → ℕ → List ℕ → Option (List ℕ × List ℕ) → Option (List ℕ × List ℕ)
read_byte true a r more = if is_special a then put a more else put 92 (put a more)
read_byte false a r more = if a == 34 then some ([], r) else if a == 92 then more else put a more

abbrev pub escapes : Bool → ℕ → Bool
escapes true a = false
escapes false a = a == 92

-- The value up to the closing quote, and what follows.
unfoldable pub read_value : Bool → List ℕ → Option (List ℕ × List ℕ)
read_value b [] = none
read_value b (a ∷ r) = read_byte b a r (read_value (escapes b a) r)

abbrev pub unhex : ℕ → ℕ
unhex d = if ltb d 58 then d - 48 else d - 55

-- In plain text, behind a percent sign, or behind its first digit.
pub data At : Type 0 where
  plain percent : At
  digit : ℕ → At

abbrev pub next_at : At → ℕ → At
next_at plain a = if a == 37 then percent else plain
next_at percent a = digit (unhex a)
next_at (digit h) a = plain

abbrev pub decoded : At → ℕ → List ℕ → List ℕ
decoded plain a out = if a == 37 then out else a ∷ out
decoded percent a out = out
decoded (digit h) a out = (16 * h + unhex a) ∷ out

unfoldable pub percent_decode : At → List ℕ → List ℕ
percent_decode at [] = []
percent_decode at (a ∷ r) = decoded at a (percent_decode (next_at at a) r)

abbrev pub decode_value : Option (List ℕ × List ℕ) → Option (List ℕ × List ℕ)
decode_value none = none
decode_value (some (bytes, rest)) = some (percent_decode plain bytes, rest)

-- What the receiver makes of the text behind an opening quote.
abbrev pub receive : List ℕ → Option (List ℕ × List ℕ)
receive bytes = decode_value (read_value false bytes)
