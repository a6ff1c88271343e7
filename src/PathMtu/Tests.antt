-- ===== src/PathMtu/Tests.antt =====
-- Runs of the path MTU search on small inputs (internal/agent/probes/pathmtu.go).
use polarbeam.Base.{
  ℕ, ◌+◌, ◌*◌, ◌≤◌, ◌<◌, ◌≡◌, refl, true, false, none, some, String, List, [], ◌∷◌, length, done,
  min, arith, leb, if◌then◌else◌,
}
use polarbeam.PathMtu.{ok, silent, Search, new_search, is_done, next, record_verdict}
use polarbeam.PathMtu.Bracket.{IsBracket, new_search-IsBracket}
use polarbeam.PathMtu.Prober.{
  Input, sent, timer, message_too_long, sending, stopped, finished, run, start,
}
use polarbeam.PathMtu.Limits.{run_limits}
use polarbeam.PathMtu.Network.{Answer, search_loop, search_loop_finds}
use polarbeam.PathMtu.Creeping.{creeping, creeping_scan}
use polarbeam.PathMtu.Finalize.{Parsed, natural, Params, pmtu_params}

abbrev fresh : Search
fresh = new_search 1280 1500 false

fresh-IsBracket : IsBracket fresh
fresh-IsBracket = new_search-IsBracket 1280 1500 false (omega arith) (omega arith)

fresh_next : next fresh ≡ some 1500
unfolding next
fresh_next = refl

-- A socket that sends nothing larger than the local interface allows, and a path that is silent.
abbrev mute : List Input
mute = sent 1 ∷ timer ∷ sent 2 ∷ timer ∷ sent 3 ∷ timer ∷ message_too_long ∷ []

mute_ends : (run (start 1280 1500 false) mute).phase ≡ stopped finished
unfolding run start next record_verdict
mute_ends = refl

run_limits_example :
    let p = run (start 1280 1500 false) mute in
    (p.seq ≤ 3 * (1500 + 1))
    × ((n k : ℕ) → p.phase ≡ sending n k → (1280 ≤ n) × (n ≤ 1500))
    × (p.phase ≡ stopped finished → is_done p.folder.search ≡ true)
run_limits_example = run_limits 1280 1500 false mute (omega arith) (omega arith)

-- A tunnel of 1400 bytes that drops what is larger.
abbrev tunnel : Answer
tunnel n = if leb n 1400 then (ok, 0) else (silent, 0)

search_loop_finds_example :
    let (t, sizes) = search_loop (1500 + 2) tunnel fresh in
    (is_done t ≡ true)
    × (length sizes ≤ 1500 + 1)
    × (t.lo ≤ 1400)
    × (t.adv_confirmed ≡ false → 1400 < 1280 → t.lo ≡ 0)
    × (t.adv_confirmed ≡ false → 1280 ≤ 1400 → t.lo ≡ min 1400 1500)
search_loop_finds_example =
    search_loop_finds tunnel 1280 1500 1400 false (omega arith) (omega arith) (λ n. ground arith)

tunnel_found : (search_loop 20 tunnel fresh).0.lo ≡ 1400
unfolding search_loop next record_verdict
tunnel_found = refl

creeping_scan_example :
    (search_loop (1280 + 4 + 2) (creeping 1280) (new_search 1280 (1280 + 4) false)).1
    ≡ 1284 ∷ 1283 ∷ 1282 ∷ 1281 ∷ 1280 ∷ []
creeping_scan_example = creeping_scan 1280 3 (omega arith)

abbrev atoi_1400 : String → Parsed
atoi_1400 v = natural 1400

abbrev some_params : Params
some_params = record { mtu_min = none; mtu_max = some "1400"; family = "4" }

some_params_accepted :
    pmtu_params atoi_1400 some_params
    ≡ done (record { min_size = 1280; max_size = 1400; family = "4" })
unfolding pmtu_params
some_params_accepted = refl
