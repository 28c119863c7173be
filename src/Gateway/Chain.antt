-- ===== src/Gateway/Chain.antt =====
-- The chain of middlewares of cmd/gateway/main.go.
use quarkgate.Gateway.{Handler, wrap}
use quarkgate.Gateway.Admission.{check_solvency}
use quarkgate.Gateway.Auth.{KeyCodec, authenticate, check_scope, limit_rate}
use quarkgate.Gateway.Idempotency.{idempotent, with_request_id, CachedResponse}
use quarkgate.Gateway.Route.{RouteCodec, find_route}
use quarkgate.Models.{Time, Uuid}
use quarkgate.Prelude.{Dict, Option, Text, ℤ}
use quarkgate.Registry.{Manifest}
use quarkgate.World.{World}

-- `handler` is the proxy's.
unfoldable pub gateway :
    KeyCodec
    → RouteCodec
    → Dict Text Manifest
    → (ℤ → Text)
    → (Text → Option ℤ)
    → (World → Uuid)
    → (CachedResponse → Text)
    → (Text → Option CachedResponse)
    → Time
    → ℤ
    → Handler
    → Handler
gateway keys routes manifests format_int64 parse_int64 new_uuid encode_reply decode_reply hold_ttl
      default_hold handler =
    let solvent =
      wrap
        (check_solvency keys.encode keys.show_uuid format_int64 parse_int64 new_uuid hold_ttl
          default_hold)
        handler in
    let scoped = wrap (check_scope keys) solvent in
    let repeated =
      idempotent keys.encode keys.show_uuid encode_reply decode_reply routes.equal_fold
        routes.canonical scoped in
    let routed = wrap (find_route routes manifests) repeated in
    let limited = wrap (limit_rate keys) routed in
    let authenticated = wrap (authenticate keys) limited in
    with_request_id keys.encode keys.show_uuid encode_reply decode_reply routes.equal_fold
      routes.canonical new_uuid authenticated
