-- ===== src/Gateway/Route.antt =====
-- RouteMiddleware of internal/gateway/route.go. The JSON of an envelope and the driver's `prepare`
-- are parameters.
use quarkgate.Exec.{Result, err, ok}
use quarkgate.Gateway.{Decision, Gate, Request, pass, refuse, refuse_with, write_json}
use quarkgate.Json.{Fields, Raw}
use quarkgate.Metering.Normalize.{estimate_max}
use quarkgate.Models.{DownstreamRequest, Envelope, ProviderConfig, RouteMatch, MeteringHints}
use quarkgate.Prelude.{
  Bool, Dict, Option, Text, [], beq_ℤ, codes, if◌then◌else◌, inl, inr, lookup, ltb_ℤ, none, pos,
  some, wrap64, ℤ, ◌&&◌, ◌*ℤ◌, ◌++◌, ◌==◌, ◌∷◌, ◌⊎◌, nat_eq, text_eq, int_eq,
}
use quarkgate.Registry.{Manifest, match_route}
use quarkgate.Store.Usage.{get_provider_by_slug}
use quarkgate.Vault.{get_credential}
use quarkgate.World.{World, on_db}

-- `prepare` is InvokePrepare: the provider, the envelope, the credential and the base URL, and what
-- the driver answers, or the text of its error.
pub record RouteCodec : Type 0 where
  pub encode : Dict Text Text → Text
  pub decode_envelope : Text → Option Envelope
  pub decode_payload : Text → Raw Fields
  pub decrypt : Text → Option Text
  pub encrypt : Text → Option Text
  pub equal_fold : Text → Text → Bool
  pub canonical : Text → Text
  pub prepare : Text → Envelope → Text → Text → DownstreamRequest ⊎ Text

module _ (codec : RouteCodec) (manifests : Dict Text Manifest) where
  -- The envelope of a request that brings none of its own.
  unfoldable pub plain_envelope : Request → Text → Text → Envelope
  plain_envelope r provider operation = record {
    version = codes "1";
    provider = provider;
    operation = operation;
    payload = codec.decode_payload r.body;
    metering_hints = none;
    trace_id = r.context.trace_id;
  }

  -- The envelope, and the route that it names.
  unfoldable pub envelope_for : Request → RouteMatch → Option (Envelope × RouteMatch)
  envelope_for r route =
      if route.operation == codes "envelope"
      then elim (codec.decode_envelope r.body) [
        | none ↦ none
        | some e ↦ some (e, record route { provider = e.provider; operation = e.operation })
      ]
      else if route.compat && (route.provider == codes "openrouter")
      then some (plain_envelope r (codes "openrouter") (codes "chat.completions.create"), route)
      else some (plain_envelope r route.provider route.operation, route)

  -- The label of the credential: the provider's own, or `master_…`.
  unfoldable pub vault_label : ProviderConfig → Text → Text
  vault_label p provider =
      let label : Text = elim p.auth_injection [
        | none ↦ []
        | some inject ↦ elim (lookup (codes "vault_label") inject) [ none ↦ [] | some l ↦ l ]
      ] in
      if label == [] then codes "master_" ++ provider else label

  -- The client's positive hint in place of the driver's estimate.
  unfoldable pub hinted_hold : ℤ → Option MeteringHints → ℤ
  hinted_hold estimate none = estimate
  hinted_hold estimate (some hints) =
      if ltb_ℤ (pos 0) hints.estimated_max_credits
      then wrap64 (hints.estimated_max_credits *ℤ pos 1000000)
      else estimate

  -- The hold: the driver's estimate, else what the client names, else by the pricing.
  unfoldable pub requested_hold : DownstreamRequest → Envelope → ProviderConfig → ℤ
  requested_hold downstream envelope p =
      let hinted = hinted_hold downstream.estimate envelope.metering_hints in
      if beq_ℤ hinted (pos 0) then estimate_max p.pricing_model (pos 0) (pos 10000000) else hinted

  -- The request with everything that was found out.
  unfoldable pub routed :
      Request → RouteMatch → Envelope → ProviderConfig → Text → DownstreamRequest → Request
  routed r route envelope p credential downstream = record r {
    context = record r.context {
      route = some route;
      envelope = some envelope;
      downstream = some downstream;
      hold_micro = requested_hold downstream envelope p;
      credential = credential;
      base_url = p.base_url;
    };
  }

  -- By the driver's answer.
  unfoldable pub transformed :
      Request → RouteMatch → Envelope → ProviderConfig → Text → DownstreamRequest ⊎ Text → Decision
  transformed r route envelope p credential (inl downstream) =
      pass (routed r route envelope p credential downstream)
  transformed r route envelope p credential (inr detail) = refuse (
      write_json codec.encode 400
        ((codes "error", codes "transform failed") ∷ (codes "detail", detail) ∷ []))

  -- After the credential.
  unfoldable pub prepare_request :
      Request → RouteMatch → Envelope → ProviderConfig → Result Text → Decision
  prepare_request r route envelope p (err e) =
      refuse_with codec.encode 503 (codes "credential unavailable")
  prepare_request r route envelope p (ok credential) =
      transformed r route envelope p credential
        (codec.prepare route.provider envelope credential p.base_url)

  -- After the provider.
  unfoldable pub fetch_credential :
      Request → RouteMatch → Envelope → Result ProviderConfig → World → Decision × World
  fetch_credential r route envelope (err e) w =
      (refuse_with codec.encode 404 (codes "provider not found"), w)
  fetch_credential r route envelope (ok p) w =
      let (credential, w₁) =
        on_db
          (get_credential codec.encrypt codec.decrypt route.provider (vault_label p route.provider))
          w in
      (prepare_request r route envelope p credential, w₁)

  -- After the envelope.
  unfoldable pub find_provider : Request → Option (Envelope × RouteMatch) → World → Decision × World
  find_provider r none w = (refuse_with codec.encode 400 (codes "invalid envelope"), w)
  find_provider r (some (envelope, named)) w =
      let (found, w₁) = on_db (get_provider_by_slug named.provider) w in
      fetch_credential r named envelope found w₁

  -- After the match.
  unfoldable pub read_envelope : Request → Option RouteMatch → World → Decision × World
  read_envelope r none w = (refuse_with codec.encode 404 (codes "unknown route"), w)
  read_envelope r (some route) w = find_provider r (envelope_for r route) w

  -- RouteMiddleware.Wrap
  unfoldable pub find_route : Gate
  find_route r w = read_envelope r (match_route codec.equal_fold r.method r.path manifests) w
