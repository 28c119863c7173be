-- ===== src/Registry.antt =====
-- internal/registry/registry.go: the manifests of the providers, and the route of a request. Reading
-- the folder of the drivers and running a driver are I/O; the comparison of methods without regard
-- to case is a parameter.
pub mod Declared
pub mod Invoke
use quarkgate.Exec.{Result, err, failure, ok}
use quarkgate.Json.{Fields, Raw, put_all}
use quarkgate.Models.{RouteMatch}
use quarkgate.Prelude.{
  Bool, Dict, List, Option, Text, [], any, codes, false, has_prefix, if◌then◌else◌, insert, lookup,
  none, not, some, true, ◌&&◌, ◌++◌, ◌==◌, ◌||◌, ◌∷◌, nat_eq, text_eq, int_eq,
}

pub record ManifestOperation : Type 0 where
  pub operation_id : Text
  pub method : Text
  pub path : Text
  pub streaming : Bool
  pub compat_paths : List Text

pub record DriverCapabilities : Type 0 where
  pub parse_response : Bool
  pub normalize_usage : Bool
  pub async_poll : Bool

pub record Manifest : Type 0 where
  pub manifest_id : Text
  pub version : Text
  pub category : Text
  pub operations : List ManifestOperation
  pub capabilities : DriverCapabilities

-- An entry of the folder that Load reads: its name, whether it is a folder, and what its manifest
-- decodes to, if there is one.
pub record Folder : Type 0 where
  pub name : Text
  pub is_dir : Bool
  pub manifest : Option (Raw Manifest)

abbrev pub is_driver : Folder → Bool
is_driver f =
    f.is_dir
    && not (has_prefix f.name (codes "_") || f.name == codes "fixtures" || f.name == codes "sdk")

-- One manifest, under its id, or under the folder's name where it has none.
unfoldable pub add_manifest : Text → Raw Manifest → Dict Text Manifest → Result (Dict Text Manifest)
add_manifest name none loaded = err (failure (codes "manifest"))
add_manifest name (some m) loaded =
    if not (m.manifest_id == []) && not (m.manifest_id == name)
    then err (failure (codes "manifest id"))
    else ok (insert name (record m { manifest_id = name }) loaded)

abbrev pub and_load :
    Result (Dict Text Manifest)
    → (Dict Text Manifest → Result (Dict Text Manifest))
    → Result (Dict Text Manifest)
and_load (err e) rest = err e
and_load (ok loaded) rest = rest loaded

-- Load: a folder without a manifest is passed over; one bad manifest fails the whole.
unfoldable pub load_manifests : List Folder → Dict Text Manifest → Result (Dict Text Manifest)
load_manifests [] loaded = ok loaded
load_manifests (f ∷ fs) loaded =
    let passed_over = load_manifests fs loaded in
    if not (is_driver f) then passed_over else elim f.manifest [
      | none ↦ passed_over
      | some m ↦ and_load (add_manifest f.name m loaded) (load_manifests fs)
    ]

module _ (equal_fold : Text → Text → Bool) where
  abbrev pub provider_path : Text → ManifestOperation → Text
  provider_path provider op = codes "/v1/providers/" ++ provider ++ op.path

  -- One operation against a request.
  unfoldable pub match_operation : Text → Text → Text → ManifestOperation → Option RouteMatch
  match_operation method path provider op =
      let route : Bool → RouteMatch =
        λ compat. record { provider = provider; operation = op.operation_id; compat = compat } in
      if any (λ (cp : Text). path == cp && equal_fold method op.method) op.compat_paths
      then some (route true)
      else if path == provider_path provider op && equal_fold method op.method
      then some (route false)
      else none

  abbrev pub or_next : Option RouteMatch → Option RouteMatch → Option RouteMatch
  or_next none rest = rest
  or_next (some found) rest = some found

  unfoldable pub match_operations : Text → Text → Text → List ManifestOperation → Option RouteMatch
  match_operations method path provider [] = none
  match_operations method path provider (op ∷ ops) =
      or_next (match_operation method path provider op) (match_operations method path provider ops)

  -- The loop over the manifests, in the order in which Go walks the map.
  unfoldable pub match_manifests : Text → Text → Dict Text Manifest → Option RouteMatch
  match_manifests method path [] = none
  match_manifests method path ((provider, m) ∷ rest) =
      or_next (match_operations method path provider m.operations)
        (match_manifests method path rest)

  -- MatchRoute
  unfoldable pub match_route : Text → Text → Dict Text Manifest → Option RouteMatch
  match_route method path manifests =
      if method == codes "POST" && path == codes "/v1/chat/completions"
      then some (record {
        provider = codes "openrouter";
        operation = codes "chat.completions.create";
        compat = true;
      })
      else if method == codes "POST" && path == codes "/v1/quarkgate"
      then some (record { provider = []; operation = codes "envelope"; compat = false })
      else match_manifests method path manifests

-- HasCapability
unfoldable pub has_capability : Text → Text → Dict Text Manifest → Bool
has_capability provider cap manifests = elim (lookup provider manifests) [
  | none ↦ false
  | some m ↦
      if cap == codes "parse_response"
      then m.capabilities.parse_response
      else if cap == codes "normalize_usage"
      then m.capabilities.normalize_usage
      else if cap == codes "async_poll"
      then m.capabilities.async_poll
      else false
]

-- mergeUsage
unfoldable pub merge_usage : Fields → Fields → Fields
merge_usage base patch = put_all (put_all Fields.empty base) patch
