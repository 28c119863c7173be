-- ===== src/Registry/Invoke.antt =====
-- The calls of a driver in internal/registry/registry.go: one run of its host process for each. The
-- processes, the file system and JSON are parameters.
use quarkgate.Exec.{Error, Result, err, failure, ok}
use quarkgate.Json.{Fields}
use quarkgate.Models.{DownstreamRequest}
use quarkgate.Prelude.{
  Bool, Dict, List, Option, Text, [], codes, if◌then◌else◌, lookup, none, not, some, ℤ, ◌∷◌, nat_eq,
  text_eq, int_eq,
}
use quarkgate.Registry.{Manifest, has_capability, merge_usage}

-- A value of the `map[string]interface{}` that goes to a driver. A `json.RawMessage` is `null` where
-- it is nil.
pub data IpcValue : Type 0 where
  text : Text → IpcValue
  flag : Bool → IpcValue
  texts : Dict Text Text → IpcValue
  usage : Fields → IpcValue
  raw : Option Text → IpcValue

abbrev pub IpcInput : Type 0
IpcInput = Dict Text IpcValue

pub record HealthResult : Type 0 where
  pub healthy : Bool
  pub latency_ms : ℤ
  pub message : Text

pub record PollResult : Type 0 where
  pub raw_usage : Option Fields
  pub done : Bool

-- What the calls use: json.Marshal, os.Stat, filepath.Abs and filepath.Join, a run of a command (its
-- name, arguments, folder and standard input), and json.Unmarshal at each type of an answer.
pub record Host : Type 0 where
  pub marshal : IpcInput → Option Text
  pub exists : Text → Bool
  pub abs : Text → Option Text
  pub join : List Text → Text
  pub run : Text → List Text → Text → Text → Result Text
  pub decode_request : Text → Option DownstreamRequest
  pub decode_estimate : Text → Option ℤ
  pub decode_usage : Text → Option (Option Fields)
  pub decode_health : Text → Option HealthResult
  pub decode_poll : Text → Option PollResult

pub record Registry : Type 0 where
  pub manifests : Dict Text Manifest
  pub drivers_path : Text
  pub node_path : Text
  pub python_path : Text

-- `if err != nil { return nil, err }` in a function that writes no state
infixl 5 ◌>>=◌
abbrev ◌>>=◌ : {A B : Type 0} → Result A → (A → Result B) → Result B
ok a >>= f = f a
err e >>= f = err e

abbrev or_err : {A : Type 0} → Option A → Text → Result A
or_err none message = err (failure message)
or_err (some a) message = ok a

abbrev ipc_version : Text × IpcValue
ipc_version = (codes "ipc_version", text (codes "1"))

module _ (host : Host) (r : Registry) where
  abbrev host_with : Text → Text → Result (Text × List Text)
  host_with bin script = do path ← or_err (host.abs script) (codes "abs"); ok (bin, path ∷ [])

  -- hostCommand: the JavaScript driver first.
  unfoldable pub host_command : Text → Result (Text × List Text)
  host_command provider =
      let at = λ (folder file : Text). host.join (r.drivers_path ∷ folder ∷ file ∷ []) in
      if host.exists (at provider (codes "driver.js"))
      then host_with r.node_path (at (codes "sdk") (codes "host.js"))
      else if host.exists (at provider (codes "driver.py"))
      then host_with r.python_path (at (codes "sdk") (codes "host.py"))
      else err (failure (codes "no driver"))

  -- `input["provider"].(string)`
  abbrev provider_in : IpcInput → Text
  provider_in input = elim (lookup (codes "provider") input) [ some (text t) ↦ t | _ ↦ [] ]

  -- invokeJSON
  unfoldable pub invoke_json : IpcInput → Result Text
  invoke_json input = do
    body ← or_err (host.marshal input) (codes "marshal")
    (bin, args) ← host_command (provider_in input)
    host.run bin args r.drivers_path body

  -- InvokePrepare
  unfoldable pub invoke_prepare : Text → Option Text → Text → Text → Result DownstreamRequest
  invoke_prepare provider envelope credential base_url = do
    out ← invoke_json (
        ipc_version
        ∷ (codes "action", text (codes "prepare"))
        ∷ (codes "provider", text provider)
        ∷ (codes "envelope", raw envelope)
        ∷ (codes "credential", text credential)
        ∷ (codes "baseURL", text base_url)
        ∷ [])
    or_err (host.decode_request out) (codes "unmarshal")

  -- InvokeEstimate
  unfoldable pub invoke_estimate : Text → Option Text → Result ℤ
  invoke_estimate provider envelope = do
    out ← invoke_json (
        ipc_version
        ∷ (codes "action", text (codes "estimate"))
        ∷ (codes "provider", text provider)
        ∷ (codes "envelope", raw envelope)
        ∷ [])
    or_err (host.decode_estimate out) (codes "unmarshal")

  -- The usage that a driver answers with; a `null` is none.
  abbrev usage_from : IpcInput → Result (Option Fields)
  usage_from input = do out ← invoke_json input; or_err (host.decode_usage out) (codes "unmarshal")

  abbrev merged_with : Fields → Option Fields → Fields
  merged_with base none = base
  merged_with base (some patch) = merge_usage base patch

  -- The usage of InvokeNormalize, whose caller drops the error: the driver's, where it answers.
  abbrev usage_or : Fields → Result (Option Fields) → Fields × Option Error
  usage_or base (ok answer) = (merged_with base answer, none)
  usage_or base (err e) = (base, some e)

  -- InvokeNormalize: a usage, and an error beside it where the driver failed.
  unfoldable pub invoke_normalize : Text → Fields → Option Text → Fields × Option Error
  invoke_normalize provider base envelope =
      if not (has_capability provider (codes "normalize_usage") r.manifests)
      then (base, none)
      else usage_or base (
          usage_from (
            ipc_version
            ∷ (codes "action", text (codes "normalize"))
            ∷ (codes "provider", text provider)
            ∷ (codes "raw_usage", usage base)
            ∷ (codes "envelope", raw envelope)
            ∷ []))

  -- InvokeParseResponse
  unfoldable pub invoke_parse_response :
      Text → Dict Text Text → Text → Bool → Option Text → Result (Option Fields)
  invoke_parse_response provider headers body streaming envelope =
      if not (has_capability provider (codes "parse_response") r.manifests)
      then ok none
      else usage_from (
          ipc_version
          ∷ (codes "action", text (codes "parseResponse"))
          ∷ (codes "provider", text provider)
          ∷ (codes "headers", texts headers)
          ∷ (codes "body", text body)
          ∷ (codes "streaming", flag streaming)
          ∷ (codes "envelope", raw envelope)
          ∷ [])

  -- InvokeHealthCheck
  unfoldable pub invoke_health_check : Text → Text → Text → Result HealthResult
  invoke_health_check provider base_url credential = do
    out ← invoke_json (
        ipc_version
        ∷ (codes "action", text (codes "healthCheck"))
        ∷ (codes "provider", text provider)
        ∷ (codes "baseURL", text base_url)
        ∷ (codes "credential", text credential)
        ∷ [])
    or_err (host.decode_health out) (codes "unmarshal")

  -- InvokePoll
  unfoldable pub invoke_poll : Text → Text → Text → Dict Text Text → Result PollResult
  invoke_poll provider base_url credential context =
      if not (has_capability provider (codes "async_poll") r.manifests)
      then err (failure (codes "poll not supported"))
      else (do
        out ← invoke_json (
            ipc_version
            ∷ (codes "action", text (codes "poll"))
            ∷ (codes "provider", text provider)
            ∷ (codes "baseURL", text base_url)
            ∷ (codes "credential", text credential)
            ∷ (codes "poll_context", texts context)
            ∷ [])
        or_err (host.decode_poll out) (codes "unmarshal"))
