-- ===== src/Syslog/Format.antt =====
-- The escaping of header values and the cutting of long texts in a syslog message
-- (internal/server/syslogfwd/format.go). A text is the list of its bytes.
pub mod Receiver
pub mod Escaping
pub mod Cutting
mod Tests
use polarbeam.Base.{
  ℕ, zero, suc, ◌-◌, length, take, leb, ◌+◌, ◌/◌, ◌%◌, ◌<◌, Bool, true, false, ◌&&◌, ◌||◌, not,
  List, [], ◌∷◌, ◌++◌, ltb, ◌==◌, if◌then◌else◌,
}

-- `"`, `\` and `]`.
abbrev pub is_special : ℕ → Bool
is_special c = c == 34 || c == 92 || c == 93

abbrev pub is_control : ℕ → Bool
is_control c = ltb c 32 || c == 127

abbrev pub is_percent : ℕ → Bool
is_percent c = c == 37

-- `strings.ContainsAny` of the specials and `%`.
unfoldable pub contains_any : List ℕ → Bool
contains_any [] = false
contains_any (c ∷ s) = let rest = contains_any s in is_special c || is_percent c || rest

unfoldable pub has_control : List ℕ → Bool
has_control [] = false
has_control (c ∷ s) = let rest = has_control s in is_control c || rest

-- A digit of "0123456789ABCDEF".
abbrev pub hex : ℕ → ℕ
hex n = if ltb n 10 then 48 + n else 55 + n

abbrev pub escape_byte : ℕ → List ℕ
escape_byte c =
    if is_special c
    then 92 ∷ c ∷ []
    else if is_control c || is_percent c
    then 37 ∷ hex (c / 16) ∷ hex (c % 16) ∷ []
    else c ∷ []

unfoldable pub escape_loop : List ℕ → List ℕ
escape_loop [] = []
escape_loop (c ∷ s) = escape_byte c ++ escape_loop s

-- `sdEscape`
unfoldable pub sd_escape : List ℕ → List ℕ
unfolding contains_any has_control escape_loop
sd_escape s = if not (contains_any s) && not (has_control s) then s else escape_loop s

-- `utf8.RuneStart`: not a continuation byte.
abbrev pub rune_start : ℕ → Bool
rune_start b = ltb b 128 || not (ltb b 192)

-- `s[i]`, of an index in range.
abbrev pub byte_at : List ℕ → ℕ → ℕ
byte_at [] i = 0
byte_at (c ∷ s) zero = c
byte_at (c ∷ s) (suc i) = byte_at s i

-- The loop `for cut > 0 && !utf8.RuneStart(s[cut]) { cut-- }`.
unfoldable pub cut_back : List ℕ → ℕ → ℕ
cut_back s zero = zero
cut_back s (suc cut) =
    let lower = cut_back s cut in if rune_start (byte_at s (suc cut)) then suc cut else lower

-- `clipRunes`
unfoldable pub clip_runes : List ℕ → ℕ → List ℕ
unfolding cut_back
clip_runes s limit = if leb (length s) limit then s else take (cut_back s limit) s

abbrev pub max_message_bytes : ℕ
max_message_bytes = 8192

-- " truncated=1"
abbrev pub truncated_mark : List ℕ
truncated_mark = 32 ∷ 116 ∷ 114 ∷ 117 ∷ 110 ∷ 99 ∷ 97 ∷ 116 ∷ 101 ∷ 100 ∷ 61 ∷ 49 ∷ []

-- `truncate`
unfoldable pub truncate : List ℕ → List ℕ
unfolding cut_back
truncate msg =
    if leb (length msg) max_message_bytes
    then msg
    else take (cut_back msg (max_message_bytes - length truncated_mark)) msg ++ truncated_mark
