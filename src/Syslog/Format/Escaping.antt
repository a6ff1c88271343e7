-- ===== src/Syslog/Format/Escaping.antt =====
-- The escaping of the syslog header is undone by the receiver, and nothing in it ends the value or the
-- record (internal/server/syslogfwd/format.go).
use polarbeam.Base.{
  ℕ, ◌/◌, ◌%◌, ◌<◌, ◌≡◌, refl, sym, ap, ap₂, subst, ◌∙◌, Bool, true, false, ◌&&◌, ◌||◌, not,
  Bool-cases, inl, inr, Option, some, List, [], ◌∷◌, ◌++◌, All, All-append, arith, ◌==◌,
  if◌then◌else◌,
}
use polarbeam.Syslog.Format.{
  is_special, is_control, is_percent, contains_any, has_control, hex, escape_byte, escape_loop,
  sd_escape,
}
use polarbeam.Syslog.Format.Receiver.{
  put, read_value, plain, percent, percent_decode, decode_value, receive, unhex,
}

-- The value with the percent signs alone.
abbrev percent_byte : ℕ → List ℕ
percent_byte c =
    if is_control c || is_percent c then 37 ∷ hex (c / 16) ∷ hex (c % 16) ∷ [] else c ∷ []

percent_encode : List ℕ → List ℕ
percent_encode [] = []
percent_encode (c ∷ s) = percent_byte c ++ percent_encode s

unhex-hex : (n : ℕ) → n < 16 → unhex (hex n) ≡ n
unhex-hex n l = ground arith

percent_byte-coded :
    (c : ℕ)
    → (is_control c || is_percent c) ≡ true
    → percent_byte c ≡ 37 ∷ hex (c / 16) ∷ hex (c % 16) ∷ []
percent_byte-coded c t =
    ap (λ (b : Bool). if b then 37 ∷ hex (c / 16) ∷ hex (c % 16) ∷ [] else c ∷ []) t

percent_byte-plain : (c : ℕ) → (is_control c || is_percent c) ≡ false → percent_byte c ≡ c ∷ []
percent_byte-plain c t =
    ap (λ (b : Bool). if b then 37 ∷ hex (c / 16) ∷ hex (c % 16) ∷ [] else c ∷ []) t

escape_byte-special : (c : ℕ) → is_special c ≡ true → escape_byte c ≡ 92 ∷ c ∷ []
escape_byte-special c t = ap (λ (b : Bool). if b then 92 ∷ c ∷ [] else percent_byte c) t

escape_byte-other : (c : ℕ) → is_special c ≡ false → escape_byte c ≡ percent_byte c
escape_byte-other c t = ap (λ (b : Bool). if b then 92 ∷ c ∷ [] else percent_byte c) t

percent_decode-encode :
    (s : List ℕ) → All (λ c. c < 256) s → percent_decode plain (percent_encode s) ≡ s
unfolding percent_decode percent_encode
percent_decode-encode [] b = refl
percent_decode-encode (c ∷ s) b = elim (Bool-cases (is_control c || is_percent c)) [
  | inl t ↦
      ap (λ bs. percent_decode plain (bs ++ percent_encode s)) (percent_byte-coded c t)
      ∙ ap₂ ◌∷◌
          (omega (arith, unhex-hex (c / 16) (omega (arith, b.0)), unhex-hex (c % 16) (omega arith)))
          (percent_decode-encode s b.1)
  | inr t ↦
      let after : Bool → List ℕ =
        λ p. percent_decode (if p then percent else plain) (percent_encode s) in
      let f : (c == 37) ≡ false = ground (arith, t) in
      ap (λ bs. percent_decode plain (bs ++ percent_encode s)) (percent_byte-plain c t)
      ∙ ap (λ (p : Bool). if p then after p else c ∷ after p) f
      ∙ ap (λ out. c ∷ out) (percent_decode-encode s b.1)
]

hex_plain :
    (n : ℕ)
    → n < 16
    → ((hex n == 34) ≡ false) × ((hex n == 92) ≡ false) × (is_control (hex n) ≡ false)
hex_plain n l = (ground arith, ground arith, ground arith)

read_plain :
    (a : ℕ) (r : List ℕ)
    → (a == 34) ≡ false
    → (a == 92) ≡ false
    → read_value false (a ∷ r) ≡ put a (read_value false r)
unfolding read_value
read_plain a r q k =
    ap
      (λ (p : Bool).
        if p
        then some ([], r)
        else if a == 92
        then read_value (a == 92) r
        else put a (read_value (a == 92) r))
      q
    ∙ ap (λ (p : Bool). if p then read_value p r else put a (read_value p r)) k

read_special :
    (c : ℕ) (r : List ℕ)
    → is_special c ≡ true
    → read_value false (92 ∷ c ∷ r) ≡ put c (read_value false r)
unfolding read_value
read_special c r t =
    ap (λ (b : Bool). if b then put c (read_value false r) else put 92 (put c (read_value false r)))
      t

read_coded :
    (c : ℕ) (r : List ℕ)
    → c < 256
    → read_value false (37 ∷ hex (c / 16) ∷ hex (c % 16) ∷ r)
      ≡ put 37 (put (hex (c / 16)) (put (hex (c % 16)) (read_value false r)))
read_coded c r l =
    let h = hex_plain (c / 16) (omega (arith, l)) in
    let k = hex_plain (c % 16) (omega arith) in
    read_plain 37 (hex (c / 16) ∷ hex (c % 16) ∷ r) refl refl
    ∙ ap (put 37) (
        read_plain (hex (c / 16)) (hex (c % 16) ∷ r) h.0 h.1
        ∙ ap (put (hex (c / 16))) (read_plain (hex (c % 16)) r k.0 k.1))

read_value-escaped :
    (s rest : List ℕ)
    → All (λ c. c < 256) s
    → read_value false (escape_loop s ++ 34 ∷ rest) ≡ some (percent_encode s, rest)
unfolding read_value escape_loop percent_encode
read_value-escaped [] rest b = refl
read_value-escaped (c ∷ s) rest b =
    let more = escape_loop s ++ 34 ∷ rest in
    let text : List ℕ → Option (List ℕ × List ℕ) =
      λ bs. read_value false ((bs ++ escape_loop s) ++ 34 ∷ rest) in
    let result : List ℕ → Option (List ℕ × List ℕ) = λ bs. some (bs ++ percent_encode s, rest) in
    let next = read_value-escaped s rest b.1 in
    elim (Bool-cases (is_special c)) [
      | inl t ↦
          ap text (escape_byte-special c t)
          ∙ read_special c more t
          ∙ ap (put c) next
          ∙ sym (ap result (percent_byte-plain c (ground (arith, t))))
      | inr t ↦ elim (Bool-cases (is_control c || is_percent c)) [
        | inl f ↦
            ap text (escape_byte-other c t ∙ percent_byte-coded c f)
            ∙ read_coded c more b.0
            ∙ ap (λ o. put 37 (put (hex (c / 16)) (put (hex (c % 16)) o))) next
            ∙ sym (ap result (percent_byte-coded c f))
        | inr f ↦
            ap text (escape_byte-other c t ∙ percent_byte-plain c f)
            ∙ read_plain c more (ground (arith, t)) (ground (arith, t))
            ∙ ap (put c) next
            ∙ sym (ap result (percent_byte-plain c f))
      ]
    ]

-- A text with nothing to escape is its own escape.
escape_loop_id : (s : List ℕ) → contains_any s ≡ false → has_control s ≡ false → escape_loop s ≡ s
unfolding contains_any has_control escape_loop
escape_loop_id [] a b = refl
escape_loop_id (c ∷ s) a b =
    let i : is_special c ≡ false = ground (arith, a) in
    let j : (is_control c || is_percent c) ≡ false = ground (arith, a, b) in
    ap (λ bs. bs ++ escape_loop s) (escape_byte-other c i ∙ percent_byte-plain c j)
    ∙ ap (λ out. c ∷ out) (escape_loop_id s (ground (arith, a)) (ground (arith, b)))

sd_escape-loop : (s : List ℕ) → sd_escape s ≡ escape_loop s
unfolding sd_escape
sd_escape-loop s = elim (Bool-cases (contains_any s)) [
  | inl t ↦ ap (λ (b : Bool). if not b && not (has_control s) then s else escape_loop s) t
  | inr t ↦ elim (Bool-cases (has_control s)) [
    | inl u ↦ simp (t, u) refl
    | inr u ↦ simp (t, u) (sym (escape_loop_id s t u))
  ]
]

-- A receiver that reads an escaped value up to the closing quote, undoes the backslashes and then the
-- percent signs gets the value, byte for byte, and what stands behind the quote.
pub receive-sd_escape :
    (s rest : List ℕ) → All (λ c. c < 256) s → receive (sd_escape s ++ 34 ∷ rest) ≡ some (s, rest)
receive-sd_escape s rest b =
    ap (λ bs. receive (bs ++ 34 ∷ rest)) (sd_escape-loop s)
    ∙ ap decode_value (read_value-escaped s rest b)
    ∙ ap (λ bs. some (bs, rest)) (percent_decode-encode s b)

-- No control character.
abbrev pub IsPrintable : ℕ → Type 0
IsPrintable c = is_control c ≡ false

escape_byte-IsPrintable : (c : ℕ) → c < 256 → All IsPrintable (escape_byte c)
escape_byte-IsPrintable c l = elim (Bool-cases (is_special c)) [
  | inl t ↦ subst (All IsPrintable) (sym (escape_byte-special c t)) (refl, (ground (arith, t), tt))
  | inr t ↦ elim (Bool-cases (is_control c || is_percent c)) [
    | inl f ↦ subst (All IsPrintable) (sym (escape_byte-other c t ∙ percent_byte-coded c f)) (
      refl,
      ((hex_plain (c / 16) (omega (arith, l))).2, ((hex_plain (c % 16) (omega arith)).2, tt)),
    )
    | inr f ↦
        subst (All IsPrintable) (sym (escape_byte-other c t ∙ percent_byte-plain c f))
          (ground (arith, f), tt)
  ]
]

escape_loop-IsPrintable : (s : List ℕ) → All (λ c. c < 256) s → All IsPrintable (escape_loop s)
unfolding escape_loop
escape_loop-IsPrintable [] b = tt
escape_loop-IsPrintable (c ∷ s) b =
    All-append IsPrintable (escape_byte c) (escape_loop s) (escape_byte-IsPrintable c b.0)
      (escape_loop-IsPrintable s b.1)

-- An escaped value has no control character, so no line feed that would end a record.
pub sd_escape-IsPrintable : (s : List ℕ) → All (λ c. c < 256) s → All IsPrintable (sd_escape s)
sd_escape-IsPrintable s b =
    subst (All IsPrintable) (sym (sd_escape-loop s)) (escape_loop-IsPrintable s b)
