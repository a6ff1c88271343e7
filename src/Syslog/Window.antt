-- ===== src/Syslog/Window.antt =====
-- The slots in use of the syslog forwarder's ring (internal/server/syslogfwd/forwarder.go), read as a
-- list.
use polarbeam.Base.{
  ℕ, zero, suc, ◌+◌, ◌-◌, ◌%◌, ◌<◌, ◌≡◌, ◌≢◌, refl, sym, ap, ap₂, ◌∙◌, Option, some, List, [], ◌∷◌,
  ◌++◌, map, length, drop, arith,
}
use polarbeam.Syslog.{Message, ring_len, set_slot}

-- The `n` slots from `h` on, round the ring.
unfoldable pub window : (ℕ → Option Message) → ℕ → ℕ → List (Option Message)
window f h zero = []
window f h (suc n) = f h ∷ window f ((h + 1) % ring_len) n

pub window-away :
    (f : ℕ → Option Message) (i : ℕ) (v : Option Message) (h n : ℕ)
    → ((j : ℕ) → j < n → (h + j) % ring_len ≢ i)
    → h < ring_len
    → window (set_slot f i v) h n ≡ window f h n
unfolding window
window-away f i v h zero a b = refl
window-away f i v h (suc n) a b = ap₂ ◌∷◌ (ground (arith, a 0)) (
    window-away f i v ((h + 1) % ring_len) n (λ j l e. a (suc j) (omega arith) (omega arith))
      (omega arith))

window-snoc :
    (f : ℕ → Option Message) (h n : ℕ)
    → h < ring_len
    → window f h (suc n) ≡ window f h n ++ f ((h + n) % ring_len) ∷ []
unfolding window
window-snoc f h zero b = ap (λ k. f k ∷ []) (omega arith)
window-snoc f h (suc n) b =
    ap (λ ms. f h ∷ ms)
      (window-snoc f ((h + 1) % ring_len) n (omega arith)
        ∙ ap (λ k. window f ((h + 1) % ring_len) n ++ f k ∷ []) (omega arith))

pub window-put :
    (f : ℕ → Option Message) (v : Option Message) (h n : ℕ)
    → h < ring_len
    → n < ring_len
    → window (set_slot f ((h + n) % ring_len) v) h (suc n) ≡ window f h n ++ v ∷ []
window-put f v h n b c =
    window-snoc (set_slot f ((h + n) % ring_len) v) h n b
    ∙ ap₂ (λ ms m. ms ++ m ∷ []) (window-away f ((h + n) % ring_len) v h n (λ j l e. omega arith) b)
        (ground arith)

pub window-front :
    (f : ℕ → Option Message) (v : Option Message) (h n : ℕ)
    → h < ring_len
    → n < ring_len
    → let front = (h + ring_len - 1) % ring_len in
      window (set_slot f front v) front (suc n) ≡ v ∷ window f h n
unfolding window
window-front f v h n b c =
    let front = (h + ring_len - 1) % ring_len in
    ap₂ ◌∷◌ (ground arith) (
      ap (λ k. window (set_slot f front v) k n) (omega arith)
      ∙ window-away f front v h n (λ j l e. omega arith) b)

length-window : (f : ℕ → Option Message) (h n : ℕ) → length (window f h n) ≡ n
unfolding window
length-window f h zero = refl
length-window f h (suc n) = ap suc (length-window f ((h + 1) % ring_len) n)

length-map : (ms : List Message) → length (map (λ m. some m) ms) ≡ length ms
length-map [] = refl
length-map (m ∷ ms) = ap suc (length-map ms)

pub map-snoc :
    (ms : List Message) (m : Message)
    → map (λ k. some k) (ms ++ m ∷ []) ≡ map (λ k. some k) ms ++ some m ∷ []
map-snoc [] m = refl
map-snoc (x ∷ ms) m = ap (λ ks. some x ∷ ks) (map-snoc ms m)

-- The slots in use hold the queue's records.
abbrev pub Slots : (ℕ → Option Message) → ℕ → ℕ → List Message → Type 0
Slots f h n ms = window f h n ≡ map (λ m. some m) ms

pub Slots-length :
    (f : ℕ → Option Message) (h n : ℕ) (ms : List Message) → Slots f h n ms → n ≡ length ms
Slots-length f h n ms e = sym (length-window f h n) ∙ ap (λ ks. length ks) e ∙ length-map ms

pub Slots-tail :
    (f : ℕ → Option Message) (h n : ℕ) (ms : List Message)
    → 0 < n
    → Slots f h n ms
    → Slots f ((h + 1) % ring_len) (n - 1) (drop 1 ms)
unfolding window
Slots-tail f h zero ms b e = absurd (omega arith)
Slots-tail f h (suc n) [] b e = absurd (cc e)
Slots-tail f h (suc n) (m ∷ ms) b e =
    ap (λ k. window f ((h + 1) % ring_len) k) (omega arith) ∙ ap (λ ks. drop 1 ks) e

pub Slots-head :
    (f : ℕ → Option Message) (h n : ℕ) (m : Message) (ms : List Message)
    → Slots f h n (m ∷ ms)
    → f h ≡ some m
unfolding window
Slots-head f h zero m ms e = absurd (cc e)
Slots-head f h (suc n) m ms e = cc e
