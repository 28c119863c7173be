-- ===== src/Gateway/Auth.antt =====
-- AuthMiddleware, ScopeMiddleware and RateLimitMiddleware of internal/gateway/middleware.go, with
-- internal/keys and internal/auth. Hashing, the HMAC and the JSON of a cached key are parameters.
pub mod Revoked
use quarkgate.Exec.{Exec, Result, attempt, err, failure, ignore, ok, or_fail, pure, ◌>>=◌, ◌>>◌}
use quarkgate.Gateway.{
  Decision, Gate, Reply, Request, pass, refuse, refuse_with, write_json, set_header,
}
use quarkgate.Json.{Raw}
use quarkgate.Keys.{KeyCacheMeta, key_from_cache, key_to_cache}
use quarkgate.Models.{QuarkGateKey, RouteMatch, Uuid}
use quarkgate.Prelude.{
  Bool, Dict, Option, Text, [], any, codes, drop, false, find, has_prefix, if◌then◌else◌, leb,
  length, none, not, some, take, true, ◌&&◌, ◌++◌, ◌==◌, ◌||◌, ◌∷◌, List, nat_eq, text_eq, int_eq,
}
use quarkgate.Proxy.StreamMeter.{trim_space}
use quarkgate.Redis.Rate.{allow_rate}
use quarkgate.Redis.Values.{get_key_meta, set_key_id_index, set_key_meta}
use quarkgate.Store.{Db}
use quarkgate.Store.Keys.{active_keys_by_prefix}
use quarkgate.World.{World, on_db, on_redis}

pub record KeyCodec : Type 0 where
  pub compare_hash : Text → Text → Bool
  pub hmac : Text → Text
  pub marshal : KeyCacheMeta → Option Text
  pub unmarshal : Text → Option KeyCacheMeta
  pub parse_uuid : Text → Option Uuid
  pub show_uuid : Uuid → Text
  pub encode : Dict Text Text → Text

abbrev pub bearer : Text
bearer = codes "Bearer "

-- extractBearer
unfoldable pub extract_bearer : Text → Text
extract_bearer header = if has_prefix header bearer then trim_space (drop 7 header) else []

-- ValidateFormat, as a test
unfoldable pub is_valid_format : Text → Bool
is_valid_format token =
    (has_prefix token (codes "qg_live_") || has_prefix token (codes "qg_test_"))
    && leb 20 (length token)

module _ (codec : KeyCodec) where
  -- findKeyByTokenPG
  unfoldable pub find_key_by_token_pg : Text → Exec Db QuarkGateKey
  find_key_by_token_pg token = do
    candidates ← active_keys_by_prefix (take 12 token)
    or_fail (find (λ (k : QuarkGateKey). codec.compare_hash k.key_hash token) candidates)
        (failure (codes "key not found"))

  -- The cached key, if there is one that fits the token.
  unfoldable pub cached_key : Text → Result (Option Text) → Option QuarkGateKey
  cached_key token (ok (some text)) = elim (key_from_cache codec.parse_uuid codec.unmarshal text) [
    | none ↦ none
    | some k ↦ if codec.compare_hash k.key_hash token then some k else none
  ]
  cached_key token _ = none

  -- Caching a key: its entry, and the index by its id.
  unfoldable pub cache_key : Text → QuarkGateKey → Option Text → Exec World QuarkGateKey
  cache_key token k none = pure k
  cache_key token k (some text) = do
    ignore (on_redis (set_key_meta (codec.hmac token) text))
    ignore (on_redis (set_key_id_index (codec.show_uuid k.id) (codec.hmac token)))
    pure k

  -- The cached key, or the key from the database, which is then cached.
  unfoldable pub use_or_find : Text → Option QuarkGateKey → Exec World QuarkGateKey
  use_or_find token (some k) = pure k
  use_or_find token none = do
    k ← on_db (find_key_by_token_pg token)
    cache_key token k (key_to_cache codec.show_uuid codec.marshal k)

  -- findKeyByToken
  unfoldable pub find_key_by_token : Text → Exec World QuarkGateKey
  find_key_by_token token = do
    meta ← attempt (on_redis (get_key_meta (codec.hmac token)))
    use_or_find token (cached_key token meta)

  abbrev pub with_key : Request → QuarkGateKey → Request
  with_key r k = record r {
    context = record r.context { user_id = k.user_id; key_id = k.id; key = some k };
  }

  -- AuthMiddleware.Wrap, once the key was looked up
  unfoldable pub admit_key : Request → Result QuarkGateKey → Decision
  admit_key r (err e) = refuse_with codec.encode 401 (codes "invalid token")
  admit_key r (ok k) = pass (with_key r k)

  -- AuthMiddleware.Wrap
  unfoldable pub authenticate : Gate
  authenticate r w =
      let token = extract_bearer r.authorization in
      if token == []
      then (refuse_with codec.encode 401 (codes "missing bearer token"), w)
      else if not (is_valid_format token)
      then (refuse_with codec.encode 401 (codes "invalid token format"), w)
      else (admit_key r (find_key_by_token token w).0, (find_key_by_token token w).1)

  -- One scope of a key against a route.
  abbrev pub scope_matches : RouteMatch → Text → Bool
  scope_matches route scope =
      scope == codes "*"
      || scope == route.provider
      || scope == route.provider ++ codes ":" ++ route.operation

  -- The scopes of a key against a route; scopes that are no list of texts pass.
  unfoldable pub scope_decision : Raw (List Text) → RouteMatch → Request → Decision
  scope_decision none route r = pass r
  scope_decision (some scopes) route r =
      if any (scope_matches route) scopes
      then pass r
      else refuse_with codec.encode 403 (codes "scope denied")

  -- A request without a key or without a route passes.
  unfoldable pub scope_for : Option QuarkGateKey → Option RouteMatch → Request → Decision
  scope_for (some k) (some route) r = scope_decision k.scopes route r
  scope_for _ _ r = pass r

  -- ScopeMiddleware.Wrap
  unfoldable pub check_scope : Gate
  check_scope r w = (scope_for r.context.key r.context.route r, w)

  unfoldable pub too_many_requests : Reply
  too_many_requests =
      let reply = write_json codec.encode 429 ((codes "error", codes "rate limit exceeded") ∷ []) in
      record reply { headers = set_header (codes "Retry-After") (codes "60") ∷ reply.headers }

  abbrev pub limited : Request → Result Bool → Decision
  limited r (ok true) = pass r
  limited r (ok false) = refuse too_many_requests
  limited r (err e) = refuse too_many_requests

  -- By the request's key: without one it passes.
  unfoldable pub limit_for : Option QuarkGateKey → Gate
  limit_for none r w = (pass r, w)
  limit_for (some k) r w =
      let (allowed, redis) = allow_rate (codec.show_uuid k.user_id) k.rate_limit_rpm w.redis in
      (limited r allowed, record w { redis = redis })

  -- RateLimitMiddleware.Wrap
  unfoldable pub limit_rate : Gate
  limit_rate r w = limit_for r.context.key r w
