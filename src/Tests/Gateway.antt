-- ===== src/Tests/Gateway.antt =====
-- The theorems on the gateway, at a small request.
use quarkgate.Exec.{ok}
use quarkgate.Gateway.{Context, Request, decide, wrap}
use quarkgate.Gateway.Admission.{
  check_solvency, balance_from, cache_hold, create_session, hold_credits, hold_for, known_balance,
  log_request, open_session, record_hold, stored_balance, hold_idempotency_key, pending_log,
}
use quarkgate.Gateway.Admission.Held.{IsHeldIfPassed, check_solvency-IsHeld}
use quarkgate.Gateway.Auth.{
  KeyCodec, find_key_by_token_pg, admit_key, authenticate, cache_key, cached_key, check_scope,
  extract_bearer, find_key_by_token, is_valid_format, limit_for, limit_rate, scope_decision,
  scope_for, use_or_find,
}
use quarkgate.Gateway.Auth.Revoked.{find_key_by_token_pg-IsValid}
use quarkgate.Gateway.Chain.{gateway}
use quarkgate.Gateway.Headers.{apply_call, apply_calls, snapshot, record_calls}
use quarkgate.Gateway.Idempotency.{
  get_cached, idempotent, is_streaming_request, with_request_id, remember, replay_or, recorded,
}
use quarkgate.Gateway.Route.{
  RouteCodec, envelope_for, fetch_credential, find_provider, find_route, hinted_hold,
  plain_envelope, prepare_request, read_envelope, requested_hold, routed, transformed, vault_label,
}
use quarkgate.Gateway.Sound.Whole.{gateway-IsSound}
use quarkgate.Keys.{key_to_cache}
use quarkgate.Models.{KeyStatus, QuarkGateKey, RouteMatch, DownstreamRequest, ProviderConfig}
use quarkgate.Prelude.{
  Dict, Option, Text, [], codes, lookup, none, pos, refl, some, ◌==◌, ◌∷◌, ◌≡◌, false, int_laws,
  take, true, ℤ, ◌⊎◌, inl, insert, neg, wrap64, ◌+ℤ◌, ◌-ℤ◌, nat_eq, text_eq, int_eq,
}
use quarkgate.Proxy.StreamMeter.{trim_left, trim_right, trim_space}
use quarkgate.Redis.{command}
use quarkgate.Redis.Keys.{bucket_key}
use quarkgate.Redis.Rate.{add_member, allow_rate, drop_old}
use quarkgate.Redis.Values.{
  get_cell, get_idempotency, get_text, get_balance, get_int64, get_key_meta,
}
use quarkgate.Registry.{
  Manifest, ManifestOperation, match_manifests, match_operation, match_operations, match_route,
}
use quarkgate.Registry.Declared.{declares, match_route-declares, chat_route, envelope_route}
use quarkgate.Store.{Db, statement, Tables, transaction}
use quarkgate.Store.Balance.{IsSound}
use quarkgate.Store.Credits.{apply_hold, insert_transaction, select_balance, update_balance}
use quarkgate.Store.Keys.{active_keys_by_prefix, is_candidate}
use quarkgate.Store.Usage.{create_metering_session, create_usage_log, get_provider_by_slug}
use quarkgate.Store.Users.{get_user}
use quarkgate.Tests.Credits.{database, tables-IsSound}
use quarkgate.Tests.Redis.{world}
use quarkgate.Tests.Replay.{
  answer_done, answer_done-KeepsHandler, decode_reply, empty_context, encode, encode_reply,
  fold_equal, new_id, request, show, same_name,
}
use quarkgate.Vault.{find_blob, get_credential}
use quarkgate.World.{World}
use quarkgate.World.Sound.{IsSound-same}

abbrev pub vast_key : QuarkGateKey
vast_key = record {
  id = 5;
  user_id = 1;
  key_prefix = codes "qg_live_0123";
  key_hash = codes "qg_live_0123456789abcdef";
  name = codes "first";
  scopes = some (codes "*" ∷ []);
  rate_limit_rpm = pos 120;
  status = KeyStatus.active;
  created_at = 5;
  revoked_at = none;
}

abbrev pub key_codec : KeyCodec
key_codec = record {
  compare_hash = λ h t. h == t;
  hmac = λ t. t;
  marshal = λ m. none;
  unmarshal = λ t. none;
  parse_uuid = λ t. none;
  show_uuid = show;
  encode = encode;
}

abbrev key_database : Db
key_database = record database { tables = record database.tables { keys = vast_key ∷ [] } }

abbrev pub token : Text
token = codes "qg_live_0123456789abcdef"

abbrev after_find : Db
after_find = (find_key_by_token_pg key_codec token key_database).1

found_run : find_key_by_token_pg key_codec token key_database ≡ (ok vast_key, after_find)
unfolding find_key_by_token_pg active_keys_by_prefix statement
found_run = refl

find_key_by_token_pg-IsValid_example :
    (is_candidate (take 12 token) vast_key ≡ true) × (fold_equal vast_key.key_hash token ≡ true)
find_key_by_token_pg-IsValid_example =
    find_key_by_token_pg-IsValid key_codec token key_database found_run

abbrev run : ManifestOperation
run = record {
  operation_id = codes "run";
  method = codes "POST";
  path = codes "/run";
  streaming = false;
  compat_paths = [];
}

abbrev pub manifests : Dict Text Manifest
manifests =
    (
      codes "vast",
      record {
        manifest_id = codes "vast";
        version = codes "1";
        category = codes "execution";
        operations = run ∷ [];
        capabilities = record {
          parse_response = false;
          normalize_usage = false;
          async_poll = false;
        };
      },
    )
    ∷ []

abbrev pub run_route : RouteMatch
run_route = record { provider = codes "vast"; operation = codes "run"; compat = false }

matched :
    match_route fold_equal (codes "POST") (codes "/v1/providers/vast/run") manifests
    ≡ some run_route
unfolding match_route match_manifests match_operations match_operation
matched = refl

match_route-declares_example :
    ((codes "POST" ≡ codes "POST")
      × (((codes "/v1/providers/vast/run" ≡ codes "/v1/chat/completions")
            × (run_route ≡ chat_route fold_equal (codes "POST") (codes "/v1/providers/vast/run")))
          ⊎ ((codes "/v1/providers/vast/run" ≡ codes "/v1/quarkgate")
              × (run_route
                  ≡ envelope_route fold_equal (codes "POST") (codes "/v1/providers/vast/run")))))
    ⊎ (declares fold_equal (codes "POST") (codes "/v1/providers/vast/run") run_route manifests
        ≡ true)
match_route-declares_example =
    match_route-declares fold_equal (codes "POST") (codes "/v1/providers/vast/run") manifests
      matched

abbrev routed_context : Context
routed_context = record empty_context {
  request_id = 9;
  key_id = 5;
  route = some run_route;
  hold_micro = pos 2000;
}

abbrev pub routed_request : Request
routed_request = record request { context = routed_context }

abbrev pub key_world : World
key_world = record world { db = key_database }

abbrev pub format : ℤ → Text
format a = codes "0"

abbrev pub parse : Text → Option ℤ
parse text = none

check_solvency-IsHeld_example :
    IsHeldIfPassed encode show format parse new_id 900
      (pos 10000000)
      routed_context
      (check_solvency encode show format parse new_id 900 (pos 10000000) routed_request key_world)
check_solvency-IsHeld_example =
    check_solvency-IsHeld encode show format parse new_id 900 (pos 10000000) routed_request
      key_world

abbrev pub vast : ProviderConfig
vast = record {
  id = 11;
  provider_slug = codes "vast";
  base_url = codes "https://vast";
  auth_injection = none;
  pricing_model = none;
  enabled = true;
}

abbrev pub prepared : DownstreamRequest
prepared = record {
  url = codes "https://vast/run";
  method = codes "POST";
  headers = [];
  body = [];
  streaming = false;
  provider = codes "vast";
  operation = codes "run";
  estimate = pos 2000;
  estimate_fits = (omega int_laws, omega int_laws);
}

abbrev pub route_codec : RouteCodec
route_codec = record {
  encode = encode;
  decode_envelope = λ t. none;
  decode_payload = λ t. none;
  decrypt = λ t. some t;
  encrypt = λ t. some t;
  equal_fold = fold_equal;
  canonical = same_name;
  prepare = λ p e c u. inl prepared;
}

-- A database in which the request's key, its provider and the provider's credential are known.
abbrev pub full_tables : Tables
full_tables = record database.tables {
  keys = vast_key ∷ [];
  providers = vast ∷ [];
  vault =
      record { provider_config_id = 11; label = codes "master_vast"; blob = codes "secret" } ∷ [];
}

pub full_tables-IsSound : IsSound full_tables
full_tables-IsSound = IsSound-same database.tables full_tables refl refl tables-IsSound

abbrev pub full_world : World
full_world = record world { db = record database { tables = full_tables } }

-- The request goes through, and its hold is taken.
went_through :
    (gateway key_codec route_codec manifests format parse new_id encode_reply decode_reply 900
      (pos 10000000)
      answer_done
      request
      full_world).0.status
    ≡ 200
unfolding gateway with_request_id wrap decide authenticate extract_bearer trim_space trim_left
    trim_right is_valid_format admit_key find_key_by_token use_or_find cached_key get_key_meta
    get_text command get_cell lookup find_key_by_token_pg active_keys_by_prefix statement cache_key
    limit_rate limit_for allow_rate drop_old add_member find_route read_envelope match_route
    match_manifests match_operations match_operation envelope_for plain_envelope find_provider
    get_provider_by_slug fetch_credential get_credential find_blob vault_label prepare_request
    transformed routed requested_hold hinted_hold idempotent is_streaming_request get_cached
    get_idempotency replay_or remember recorded record_calls apply_calls apply_call snapshot
    check_scope scope_for scope_decision check_solvency known_balance get_balance get_int64
    balance_from stored_balance get_user hold_credits hold_for apply_hold transaction select_balance
    update_balance insert_transaction wrap64 ◌-ℤ◌ ◌+ℤ◌ neg record_hold cache_hold log_request
    create_usage_log create_session create_metering_session open_session insert bucket_key
    hold_idempotency_key pending_log key_to_cache
went_through = refl

gateway-IsSound_example :
    IsSound
      (gateway key_codec route_codec manifests format parse new_id encode_reply decode_reply 900
        (pos 10000000)
        answer_done
        request
        full_world).1.db.tables
gateway-IsSound_example =
    gateway-IsSound key_codec route_codec manifests format parse new_id encode_reply decode_reply
      900 (pos 10000000) answer_done request full_world (omega int_laws, omega int_laws)
      answer_done-KeepsHandler (omega int_laws, omega int_laws) full_tables-IsSound
