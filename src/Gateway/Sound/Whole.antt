-- ===== src/Gateway/Sound/Whole.antt =====
-- The whole gateway and the invariant of the credit tables: IdempotencyMiddleware, and the chain of
-- cmd/gateway/main.go.
use quarkgate.Gateway.{Handler, Reply, Request}
use quarkgate.Gateway.Auth.{KeyCodec}
use quarkgate.Gateway.Chain.{gateway}
use quarkgate.Gateway.Idempotency.{
  get_cached, idempotent, is_streaming_request, remember, replay_or, with_idempotency_key,
  with_request_id, CachedResponse,
}
use quarkgate.Gateway.Route.{RouteCodec}
use quarkgate.Gateway.Sound.{
  HasInt64Hold, KeepsHandler, KeepsHandler-wrap, authenticate-KeepsGate, check_scope-KeepsGate,
  limit_rate-KeepsGate,
}
use quarkgate.Gateway.Sound.Routing.{find_route-KeepsGate}
use quarkgate.Gateway.Sound.Solvency.{check_solvency-KeepsGate}
use quarkgate.Models.{Time, Uuid}
use quarkgate.Prelude.{
  Bool, Bool-cases, Dict, InInt64, Option, Text, [], inl, inr, leb, ltb, none, some, ℤ, ◌&&◌, ◌==◌,
  nat_eq, text_eq, int_eq,
}
use quarkgate.Proxy.StreamMeter.{trim_space}
use quarkgate.Registry.{Manifest}
use quarkgate.Store.Balance.{IsSound}
use quarkgate.World.{World}

module _ (encode : Dict Text Text → Text) (show_uuid : Uuid → Text)
    (encode_reply : CachedResponse → Text) (decode_reply : Text → Option CachedResponse)
    (equal_fold : Text → Text → Bool) (canonical : Text → Text) (next : Handler)
    (keeps : KeepsHandler next) where
  remember-Keeps :
      (key : Text) (r : Request) (reply : Reply) (w : World)
      → IsSound w.db.tables
      → IsSound
          (remember encode show_uuid encode_reply decode_reply equal_fold canonical key r reply
            w).1.db.tables
  unfolding remember
  remember-Keeps key r reply w s =
      elim (Bool-cases (leb 200 reply.status && ltb reply.status 300)) [
        | inl good ↦ rw good s
        | inr other ↦ rw other s
      ]

  replay_or-Keeps :
      (key : Text) (r : Request) (hit : Option CachedResponse) (w : World)
      → HasInt64Hold r
      → IsSound w.db.tables
      → IsSound
          (replay_or encode show_uuid encode_reply decode_reply equal_fold canonical next key r
            (hit, w)).1.db.tables
  unfolding replay_or
  replay_or-Keeps key r (some c) w h s = s
  replay_or-Keeps key r none w h s = remember-Keeps key r _ _ (keeps.at r w h s)

  idempotent-KeepsHandler :
      KeepsHandler (idempotent encode show_uuid encode_reply decode_reply equal_fold canonical next)
  unfolding idempotent get_cached
  idempotent-KeepsHandler = record {
    at = λ r w h s.
        let key = trim_space r.idempotency_header in
        let r₁ =
          with_idempotency_key encode show_uuid encode_reply decode_reply equal_fold canonical r
            key in
        elim (Bool-cases (key == [])) [
          | inl absent ↦ rw absent (keeps.at r₁ w h s)
          | inr given ↦
              elim (Bool-cases (
                is_streaming_request encode show_uuid encode_reply decode_reply equal_fold canonical
                  r.context)) [
                    | inl streaming ↦ rw (given, streaming) s
                    | inr whole ↦ elim (Bool-cases (r.context.user_id == 0)) [
                      | inl nobody ↦ rw (given, whole, nobody) (keeps.at r₁ w h s)
                      | inr known ↦ rw (given, whole, known) (replay_or-Keeps _ r₁ _ _ h s)
                    ]
                  ]
        ];
  }

-- The gateway keeps the balances equal to the ledger sums and not negative, whatever the rest of the
-- request, the drivers and the stored values are, and wherever the database or Redis fails, if the
-- last handler does, and the default hold and the hold in the context of the request are int64s.
pub gateway-IsSound :
    (keys : KeyCodec) (routes : RouteCodec) (manifests : Dict Text Manifest)
    (format_int64 : ℤ → Text) (parse_int64 : Text → Option ℤ) (new_uuid : World → Uuid)
    (encode_reply : CachedResponse → Text) (decode_reply : Text → Option CachedResponse)
    (hold_ttl : Time) (default_hold : ℤ) (handler : Handler) (r : Request) (w : World)
    → InInt64 default_hold
    → KeepsHandler handler
    → InInt64 r.context.hold_micro
    → IsSound w.db.tables
    → IsSound
        (gateway keys routes manifests format_int64 parse_int64 new_uuid encode_reply decode_reply
          hold_ttl default_hold handler r w).1.db.tables
unfolding gateway with_request_id
gateway-IsSound keys routes manifests format_int64 parse_int64 new_uuid encode_reply decode_reply
      hold_ttl default_hold handler r w fits keeps h s =
    let solvent =
      KeepsHandler-wrap _ handler
        (check_solvency-KeepsGate keys.encode keys.show_uuid format_int64 parse_int64 new_uuid
          hold_ttl default_hold fits)
        keeps in
    let scoped = KeepsHandler-wrap _ _ (check_scope-KeepsGate keys) solvent in
    let repeated =
      idempotent-KeepsHandler keys.encode keys.show_uuid encode_reply decode_reply routes.equal_fold
        routes.canonical _ scoped in
    let routed = KeepsHandler-wrap _ _ (find_route-KeepsGate routes manifests) repeated in
    let limited = KeepsHandler-wrap _ _ (limit_rate-KeepsGate keys) routed in
    let authenticated = KeepsHandler-wrap _ _ (authenticate-KeepsGate keys) limited in
    authenticated.at _ w h s
