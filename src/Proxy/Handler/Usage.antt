-- ===== src/Proxy/Handler/Usage.antt =====
-- mergeDriverUsage of internal/proxy/handler.go: the usage that a provider's driver finds in the
-- answer, and what it finds by asking the provider again.
use mathlib.Core.Option
use quarkgate.Exec.{Result, err, ok}
use quarkgate.Gateway.{Context}
use quarkgate.Gateway.Headers.{HeaderMap}
use quarkgate.Json.{Fields, Value, as_string, get, put_all, remove}
use quarkgate.Prelude.{
  Bool, Dict, Option, Text, [], codes, false, if◌then◌else◌, none, not, some, ◌&&◌, ◌==◌, ◌∷◌,
  nat_eq, text_eq, int_eq,
}
use quarkgate.Proxy.Handler.Answer.{HandlerCodec, HandlerConfig}
use quarkgate.Registry.{has_capability}
use quarkgate.Registry.Invoke.{PollResult, Registry, invoke_parse_response, invoke_poll}

-- needsPoll
unfoldable pub needs_poll : Fields → Bool
needs_poll usage = elim (get (codes "needs_poll") usage) [
  | some (Value.bool b) ↦ b
  | some (Value.str t) ↦ t == codes "true"
  | _ ↦ false
]

abbrev some_unless_empty : Fields → Option Fields
some_unless_empty Fields.empty = none
some_unless_empty (Fields.field k v m) = some (Fields.field k v m)

-- mergeMaps; a nil map has no entries.
unfoldable pub merge_maps : Option Fields → Fields → Option Fields
merge_maps none patch = some_unless_empty (put_all Fields.empty patch)
merge_maps (some base) patch = some_unless_empty (put_all (put_all Fields.empty base) patch)

-- The first value of each header, for the driver.
unfoldable pub driver_headers : HeaderMap → Dict Text Text
driver_headers [] = []
driver_headers ((k, []) ∷ h) = driver_headers h
driver_headers ((k, v ∷ vs) ∷ h) = (k, v) ∷ driver_headers h

-- By the answer to a poll: its usage over the rest, without the mark.
unfoldable pub after_poll : Option Fields → Result PollResult → Option Fields
after_poll merged (err e) = merged
after_poll merged (ok p) = elim p.raw_usage [
  | none ↦ merged
  | some polled ↦ Option.map (remove (codes "needs_poll")) (merge_maps merged polled)
]

module _ (codec : HandlerCodec) (config : HandlerConfig) where
  -- `merged["run_id"].(string)`
  abbrev run_id : Fields → Text
  run_id usage = elim (as_string (get (codes "run_id") usage)) [ none ↦ [] | some t ↦ t ]

  -- The poll of a run that is not done.
  unfoldable pub poll_usage : Registry → Context → Text → Option Fields → Option Fields
  poll_usage reg c provider none = none
  poll_usage reg c provider (some usage) =
      if needs_poll usage
        && has_capability provider (codes "async_poll") reg.manifests
        && not (run_id usage == [])
        && not (c.credential == [])
        && not (c.base_url == [])
      then after_poll (some usage) (
          invoke_poll config.host reg provider c.base_url c.credential
            ((codes "run_id", run_id usage) ∷ []))
      else some usage

  -- By the driver's answer.
  unfoldable pub after_parse :
      Registry → Context → Text → Option Fields → Result (Option Fields) → Option Fields
  after_parse reg c provider base (err e) = base
  after_parse reg c provider base (ok none) = base
  after_parse reg c provider base (ok (some found)) =
      poll_usage reg c provider (merge_maps base found)

  unfoldable pub merge_with :
      Option Registry → Context → Text → HeaderMap → Text → Bool → Option Fields → Option Fields
  merge_with none c provider headers body streaming base = base
  merge_with (some reg) c provider headers body streaming base =
      if has_capability provider (codes "parse_response") reg.manifests
      then after_parse reg c provider base (
          invoke_parse_response config.host reg provider (driver_headers headers) body streaming
            (Option.map codec.encode_envelope c.envelope))
      else base

  -- mergeDriverUsage
  unfoldable pub merge_driver_usage :
      Context → Text → HeaderMap → Text → Bool → Option Fields → Option Fields
  merge_driver_usage c = merge_with config.registry c
