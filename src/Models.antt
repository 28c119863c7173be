-- ===== src/Models.antt =====
-- The records of internal/models and the enumerations of migrations/001_initial.sql. A UUID is a
-- number, and uuid.Nil is 0; a time is a number of seconds.
use quarkgate.Json.{Fields, Float64, Raw}
use quarkgate.Prelude.{Bool, Dict, List, Option, Text, ℕ, ℤ, InInt64}

abbrev pub Uuid : Type 0
Uuid = ℕ

abbrev pub Time : Type 0
Time = ℕ

pub data KeyStatus : Type 0 where
  active revoked : KeyStatus

pub data TxnType : Type 0 where
  deposit hold capture release adjustment refund : TxnType

pub data UsageStatus : Type 0 where
  pending completed failed partial : UsageStatus

pub record User : Type 0 where
  pub id : Uuid
  pub email : Text
  pub balance : ℤ
  pub created_at : Time
  pub updated_at : Time

-- `scopes` is decoded as the middleware decodes it, a list of strings.
pub record QuarkGateKey : Type 0 where
  pub id : Uuid
  pub user_id : Uuid
  pub key_prefix : Text
  pub key_hash : Text
  pub name : Text
  pub scopes : Raw (List Text)
  pub rate_limit_rpm : ℤ
  pub status : KeyStatus
  pub created_at : Time
  pub revoked_at : Option Time

-- metering.PricingModel; the minimum charge is an int64.
pub record PricingModel : Type 0 where
  pub passthrough_usd : Bool
  pub platform_margin : Float64
  pub base_rates : Option (Dict Text ℤ)
  pub model_overrides : Option (Dict Text (Dict Text ℤ))
  pub minimum_charge : ℤ
  pub minimum_fits : InInt64 minimum_charge

pub record ProviderConfig : Type 0 where
  pub id : Uuid
  pub provider_slug : Text
  pub base_url : Text
  pub auth_injection : Raw (Dict Text Text)
  pub pricing_model : Raw PricingModel
  pub enabled : Bool

pub record UsageLog : Type 0 where
  pub id : Uuid
  pub user_id : Uuid
  pub key_id : Uuid
  pub provider_slug : Text
  pub operation : Text
  pub request_id : Uuid
  pub status : UsageStatus
  pub raw_usage : Fields
  pub normalized_usage : Fields
  pub credits_reserved : ℤ
  pub credits_captured : ℤ
  pub latency_ms : Option ℤ
  pub trace_id : Text
  pub started_at : Time
  pub completed_at : Option Time
  pub capture_txn : Option Uuid
  pub release_txn : Option Uuid

pub record LedgerTransaction : Type 0 where
  pub id : Uuid
  pub user_id : Uuid
  pub type : TxnType
  pub amount : ℤ
  pub balance_after : ℤ
  pub reference_type : Text
  pub reference_id : Option Uuid
  pub idempotency_key : Text
  pub created_at : Time

pub record MeteringSession : Type 0 where
  pub request_id : Uuid
  pub user_id : Uuid
  pub hold : ℤ
  pub expires_at : Time

pub record VaultEntry : Type 0 where
  pub provider_config_id : Uuid
  pub label : Text
  pub blob : Text

pub record RouteMatch : Type 0 where
  pub provider : Text
  pub operation : Text
  pub compat : Bool

pub record MeteringHints : Type 0 where
  pub estimated_max_credits : ℤ

pub record Envelope : Type 0 where
  pub version : Text
  pub provider : Text
  pub operation : Text
  pub payload : Raw Fields
  pub metering_hints : Option MeteringHints
  pub trace_id : Text

pub record DownstreamRequest : Type 0 where
  pub url : Text
  pub method : Text
  pub headers : Dict Text Text
  pub body : Text
  pub streaming : Bool
  pub provider : Text
  pub operation : Text
  pub estimate : ℤ
  pub estimate_fits : InInt64 estimate

-- What the proxy reports of a request; its JSON texts are encoded, and "" where there is none.
pub record MeteringEvent : Type 0 where
  pub request_id : Text
  pub user_id : Text
  pub key_id : Text
  pub provider : Text
  pub operation : Text
  pub status : Text
  pub raw_usage : Text
  pub is_partial : Bool
  pub duration_ms : ℤ
  pub timestamp : Text
  pub error : Text
  pub hold_micro : ℤ
  pub idempotency_key : Text
  pub envelope : Text
