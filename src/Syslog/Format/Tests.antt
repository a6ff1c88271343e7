-- ===== src/Syslog/Format/Tests.antt =====
-- The escaping of the syslog header (internal/server/syslogfwd/format.go) at a hostile value.
use polarbeam.Base.{
  ℕ, ◌<◌, ◌≤◌, ◌⊎◌, take, length, ◌≡◌, refl, some, List, [], ◌∷◌, ◌++◌, All, arith,
}
use polarbeam.Syslog.Format.{sd_escape, clip_runes, truncate, truncated_mark, max_message_bytes}
use polarbeam.Syslog.Format.Cutting.{IsCut, truncate-IsCut}
use polarbeam.Syslog.Format.Receiver.{receive}
use polarbeam.Syslog.Format.Escaping.{receive-sd_escape, IsPrintable, sd_escape-IsPrintable}

-- `a"]` and a line feed.
abbrev hostile : List ℕ
hostile = 97 ∷ 34 ∷ 93 ∷ 10 ∷ []

abbrev hostile_bytes : All (λ c. c < 256) hostile
hostile_bytes = (omega arith, (omega arith, (omega arith, (omega arith, tt))))

hostile_escaped : sd_escape hostile ≡ 97 ∷ 92 ∷ 34 ∷ 92 ∷ 93 ∷ 37 ∷ 48 ∷ 65 ∷ []
unfolding sd_escape
hostile_escaped = refl

receive-sd_escape_example : receive (sd_escape hostile ++ 34 ∷ 93 ∷ []) ≡ some (hostile, 93 ∷ [])
receive-sd_escape_example = receive-sd_escape hostile (93 ∷ []) hostile_bytes

sd_escape-IsPrintable_example : All IsPrintable (sd_escape hostile)
sd_escape-IsPrintable_example = sd_escape-IsPrintable hostile hostile_bytes

-- An `é` that the limit would cut in two.
abbrev accented : List ℕ
accented = 97 ∷ 195 ∷ 169 ∷ 98 ∷ []

accented_clipped : clip_runes accented 2 ≡ 97 ∷ []
unfolding clip_runes
accented_clipped = refl

truncate-IsCut_example :
    (length (truncate accented) ≤ max_message_bytes)
    × (((length accented ≤ max_message_bytes) × (truncate accented ≡ accented))
        ⊎ ((max_message_bytes < length accented)
            × (cut : ℕ) × IsCut accented 8180 cut
            × (truncate accented ≡ take cut accented ++ truncated_mark)))
truncate-IsCut_example = truncate-IsCut accented
