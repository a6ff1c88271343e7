-- ===== src/MeshExpand.antt =====
-- The expansion of an agent's probe assignments into its snapshot
-- (internal/server/meshexpand/meshexpand.go, internal/server/probeid/probeid.go). A UUID is its 128-bit
-- number, whose order is that of its text. `sort.Slice`, the SHA-1 UUID, the number scan, the protobuf
-- encoder and SHA-256 are arguments.
pub mod Orders
pub mod Expanded
pub mod Same
pub mod Hash
mod Tests
use polarbeam.Base.{
  ℕ, zero, suc, ◌+◌, ◌-◌, ◌%◌, ◌/◌, ◌^◌, ◌<◌, ℤ, pos, negsuc, String, Bool, true, false, ◌&&◌, ◌||◌,
  not, Option, none, some, List, [], ◌∷◌, ◌++◌, map, length, ◌==◌, if◌then◌else◌,
}
use polarbeam.Scheduler.{lookup, same}
use Prim.Native.String as Text
use mathlib.Core.List.{filter_map}

-- `store.ProbeSettings`. A Duration is in nanoseconds.
pub record Settings : Type 0 where
  pub probe_type : ℕ
  pub interval : ℤ
  pub timeout : ℤ
  pub train_count : ℤ
  pub train_spacing : ℤ
  pub params : List (String × String)

pub record DirectProbeRow : Type 0 where
  pub id : ℕ
  pub settings : Settings
  pub target_id : ℕ
  pub kind : String
  pub address : String
  pub port : ℤ
  pub url : String

pub record MeshProbeRow : Type 0 where
  pub config_id : ℕ
  pub mesh_id : ℕ
  pub settings : Settings

pub record PeerRow : Type 0 where
  pub mesh_id : ℕ
  pub agent_id : ℕ
  pub site_id : ℕ
  pub target_id : ℕ
  pub probe_address : String

pub record Inputs : Type 0 where
  pub agent_id : ℕ
  pub site_id : ℕ
  pub direct : List DirectProbeRow
  pub mesh : List MeshProbeRow
  pub peers : List PeerRow

pub data TargetKind : Type 0 where
  external agent_peer : TargetKind

pub record Target : Type 0 where
  pub kind : TargetKind
  pub target_id : ℕ
  pub address : String
  pub port : ℕ
  pub url : String

pub record ProbeSpec : Type 0 where
  pub probe_id : ℕ
  pub probe_type : ℕ
  pub target : Target
  pub interval : ℤ
  pub timeout : ℤ
  pub train : Option (ℕ × ℤ)
  pub params : List (String × String)

pub record Snapshot : Type 0 where
  pub config_hash : String
  pub probes : List ProbeSpec

-- The error shows the id and the agent.
pub data Built : Type 0 where
  duplicate : ℕ → ℕ → Built
  built : Snapshot → Built

-- `uint32` of an int32.
abbrev pub to_uint32 : ℤ → ℕ
to_uint32 (pos n) = n % 2 ^ 32
to_uint32 (negsuc n) = 2 ^ 32 - 1 - n % 2 ^ 32

abbrev pub train_of : ℤ → ℤ → Option (ℕ × ℤ)
train_of (pos (suc n)) spacing = some (to_uint32 (pos (suc n)), spacing)
train_of _ spacing = none

-- `spec`. Params that are not set are empty.
abbrev pub spec : ℕ → Settings → Target → ProbeSpec
spec id ps target = record {
  probe_id = id;
  probe_type = ps.probe_type;
  target = target;
  interval = ps.interval;
  timeout = ps.timeout;
  train = train_of ps.train_count ps.train_spacing;
  params = ps.params;
}

abbrev pub direct_kind : String → TargetKind
direct_kind kind = if same kind "agent" then agent_peer else external

abbrev pub direct_spec : DirectProbeRow → ProbeSpec
direct_spec d = spec d.id d.settings (record {
  kind = direct_kind d.kind;
  target_id = d.target_id;
  address = d.address;
  port = to_uint32 d.port;
  url = d.url;
})

-- A missing key of a Go map of strings.
abbrev pub or_empty : Option String → String
or_empty none = ""
or_empty (some s) = s

-- The adjacent test behind the sort.
unfoldable pub first_duplicate : List ProbeSpec → Option ℕ
first_duplicate [] = none
first_duplicate (x ∷ []) = none
first_duplicate (x ∷ y ∷ specs) =
    let rest = first_duplicate (y ∷ specs) in
    if y.probe_id == x.probe_id then some y.probe_id else rest

-- A number in `n` bytes, the lowest first.
abbrev pub le_bytes : ℕ → ℕ → List ℕ
le_bytes zero k = []
le_bytes (suc n) k = k % 256 ∷ le_bytes n (k / 256)

-- "marshal-error"
abbrev pub marshal_error : List ℕ
marshal_error = 109 ∷ 97 ∷ 114 ∷ 115 ∷ 104 ∷ 97 ∷ 108 ∷ 45 ∷ 101 ∷ 114 ∷ 114 ∷ 111 ∷ 114 ∷ []

abbrev pub hashed : Option (List ℕ) → List ℕ
hashed none = marshal_error
hashed (some bytes) = le_bytes 8 (length bytes % 2 ^ 64) ++ bytes

-- What `hashSpecs` writes into the hash.
unfoldable pub hash_input : (ProbeSpec → Option (List ℕ)) → List ProbeSpec → List ℕ
hash_input encode [] = []
hash_input encode (s ∷ specs) = hashed (encode s) ++ hash_input encode specs

-- The libraries that the expansion calls.
pub record Calls : Type 0 where
  pub new_sha1 : ℕ → String → ℕ
  pub uuid_text : ℕ → String
  pub scan_port : String → ℕ
  pub sort_slice : List ProbeSpec → List ProbeSpec
  pub encode : ProbeSpec → Option (List ℕ)
  pub sha256_hex : List ℕ → String

module _ (calls : Calls) where
  -- `MeshProbeID`
  abbrev pub mesh_probe_id : ℕ → ℕ → ℕ → ℕ
  mesh_probe_id template src_site target =
      calls.new_sha1 template
        (Text.◌++◌ (calls.uuid_text src_site) (Text.◌++◌ "|" (calls.uuid_text target)))

  abbrev pub mesh_port : List (String × String) → ℕ
  mesh_port params = calls.scan_port (or_empty (lookup "port" params))

  -- One turn of the loop over the peers.
  abbrev pub mesh_spec : ℕ → MeshProbeRow → PeerRow → Option ProbeSpec
  mesh_spec site_id m p =
      if not (p.mesh_id == m.mesh_id) || p.site_id == site_id
      then none
      else some (
          spec (mesh_probe_id m.config_id site_id p.target_id) m.settings (record {
            kind = agent_peer;
            target_id = p.target_id;
            address = p.probe_address;
            port = mesh_port m.settings.params;
            url = "";
          }))

  unfoldable pub expand_mesh : ℕ → List MeshProbeRow → List PeerRow → List ProbeSpec
  expand_mesh site_id [] peers = []
  expand_mesh site_id (m ∷ ms) peers =
      filter_map (mesh_spec site_id m) peers ++ expand_mesh site_id ms peers

  unfoldable pub all_specs : Inputs → List ProbeSpec
  all_specs i = map direct_spec i.direct ++ expand_mesh i.site_id i.mesh i.peers

  unfoldable pub checked : ℕ → List ProbeSpec → Option ℕ → Built
  checked agent_id specs (some id) = duplicate id agent_id
  checked agent_id specs none =
      built
        (record { config_hash = calls.sha256_hex (hash_input calls.encode specs); probes = specs })

  -- `BuildSnapshot`
  unfoldable pub build_snapshot : Inputs → Built
  build_snapshot i =
      let specs = calls.sort_slice (all_specs i) in checked i.agent_id specs (first_duplicate specs)
