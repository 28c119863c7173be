-- ===== src/Gateway/Sound/Routing.antt =====
-- RouteMiddleware of internal/gateway/route.go and the invariant of the credit tables.
use quarkgate.Exec.{Error, Exec, Result, continue, err, failure, ok, or_fail}
use quarkgate.Gateway.{Request}
use quarkgate.Gateway.Route.{
  RouteCodec, envelope_for, fetch_credential, find_provider, find_route, hinted_hold,
  prepare_request, read_envelope, requested_hold, routed, transformed,
}
use quarkgate.Gateway.Sound.{KeepsGate, LeavesSound, Passes}
use quarkgate.Json.{Raw}
use quarkgate.Metering.Normalize.{estimate_max}
use quarkgate.Models.{
  DownstreamRequest, Envelope, MeteringHints, PricingModel, ProviderConfig, RouteMatch,
}
use quarkgate.Prelude.{
  Bool-cases, Dict, InInt64, Option, Text, beq_ℤ, codes, inl, inr, int_laws, ltb_ℤ, none, pos, refl,
  some, wrap64-InInt64, ℤ, ◌&&◌, ◌⊎◌,
}
use quarkgate.Registry.{Manifest}
use quarkgate.Store.{Db, statement}
use quarkgate.Store.Balance.{IsSound}
use quarkgate.Vault.{find_blob, get_credential}
use quarkgate.World.{World}
use quarkgate.World.Sound.{get_provider_by_slug-IsSound, statement-IsSound}

estimate_max-InInt64 :
    (pricing : Raw PricingModel) → InInt64 (estimate_max pricing (pos 0) (pos 10000000))
unfolding estimate_max
estimate_max-InInt64 none = (omega int_laws, omega int_laws)
estimate_max-InInt64 (some pm) =
    elim (Bool-cases (ltb_ℤ (pos 0) pm.minimum_charge && ltb_ℤ (pos 10000000) pm.minimum_charge)) [
      | inl raised ↦ rw raised (wrap64-InInt64 _)
      | inr plain ↦ rw plain (omega int_laws, omega int_laws)
    ]

module _ (codec : RouteCodec) (manifests : Dict Text Manifest) where
  hinted_hold-InInt64 :
      (estimate : ℤ) (hints : Option MeteringHints)
      → InInt64 estimate
      → InInt64 (hinted_hold codec manifests estimate hints)
  unfolding hinted_hold
  hinted_hold-InInt64 estimate none h = h
  hinted_hold-InInt64 estimate (some hints) h =
      elim (Bool-cases (ltb_ℤ (pos 0) hints.estimated_max_credits)) [
        | inl hinted ↦ rw hinted (wrap64-InInt64 _)
        | inr plain ↦ rw plain h
      ]

  -- The hold that a route asks for is an int64.
  requested_hold-InInt64 :
      (downstream : DownstreamRequest) (envelope : Envelope) (p : ProviderConfig)
      → InInt64 (requested_hold codec manifests downstream envelope p)
  unfolding requested_hold
  requested_hold-InInt64 downstream envelope p =
      let hinted = hinted_hold codec manifests downstream.estimate envelope.metering_hints in
      elim (Bool-cases (beq_ℤ hinted (pos 0))) [
        | inl unset ↦ rw unset (estimate_max-InInt64 p.pricing_model)
        | inr set ↦ rw set (
            hinted_hold-InInt64 downstream.estimate envelope.metering_hints
              downstream.estimate_fits)
      ]

  transformed-Passes :
      (r : Request) (route : RouteMatch) (envelope : Envelope) (p : ProviderConfig)
      (credential : Text) (answer : DownstreamRequest ⊎ Text)
      → Passes (transformed codec manifests r route envelope p credential answer)
  unfolding transformed routed
  transformed-Passes r route envelope p credential (inl downstream) =
      requested_hold-InInt64 downstream envelope p
  transformed-Passes r route envelope p credential (inr detail) = tt

  prepare_request-Passes :
      (r : Request) (route : RouteMatch) (envelope : Envelope) (p : ProviderConfig)
      (credential : Result Text)
      → Passes (prepare_request codec manifests r route envelope p credential)
  unfolding prepare_request
  prepare_request-Passes r route envelope p (err e) = tt
  prepare_request-Passes r route envelope p (ok credential) =
      transformed-Passes r route envelope p credential _

  get_credential-IsSound :
      (slug label : Text) (db : Db)
      → IsSound db.tables
      → IsSound (get_credential codec.encrypt codec.decrypt slug label db).1.tables
  unfolding get_credential find_blob
  get_credential-IsSound slug label db s =
      decrypted (statement (find_blob codec.encrypt codec.decrypt slug label) db).0 _ (
        statement-IsSound (find_blob codec.encrypt codec.decrypt slug label) (λ t. (refl, refl)) db
          s)
    where
      plain : Text → Exec Db Text
      plain blob = or_fail (codec.decrypt blob) (failure (codes "decrypt"))

      or_failed :
          (o : Option Text) (e : Error) (db : Db)
          → IsSound db.tables
          → IsSound (or_fail o e db).1.tables
      or_failed none e db s = s
      or_failed (some t) e db s = s

      decrypted :
          (r : Result Text) (db : Db) → IsSound db.tables → IsSound (continue r plain db).1.tables
      decrypted (err e) db s = s
      decrypted (ok blob) db s = or_failed (codec.decrypt blob) _ db s

  fetch_credential-Keeps :
      (r : Request) (route : RouteMatch) (envelope : Envelope) (p : Result ProviderConfig)
      (w : World)
      → IsSound w.db.tables
      → LeavesSound (fetch_credential codec manifests r route envelope p w)
  unfolding fetch_credential
  fetch_credential-Keeps r route envelope (err e) w s = (s, tt)
  fetch_credential-Keeps r route envelope (ok p) w s =
      (get_credential-IsSound _ _ w.db s, prepare_request-Passes r route envelope p _)

  find_provider-Keeps :
      (r : Request) (o : Option (Envelope × RouteMatch)) (w : World)
      → IsSound w.db.tables
      → LeavesSound (find_provider codec manifests r o w)
  unfolding find_provider
  find_provider-Keeps r none w s = (s, tt)
  find_provider-Keeps r (some (envelope, named)) w s =
      fetch_credential-Keeps r named envelope _ _
        (get_provider_by_slug-IsSound named.provider w.db s)

  read_envelope-Keeps :
      (r : Request) (o : Option RouteMatch) (w : World)
      → IsSound w.db.tables
      → LeavesSound (read_envelope codec manifests r o w)
  unfolding read_envelope
  read_envelope-Keeps r none w s = (s, tt)
  read_envelope-Keeps r (some route) w s =
      find_provider-Keeps r (envelope_for codec manifests r route) w s

  pub find_route-KeepsGate : KeepsGate (find_route codec manifests)
  unfolding find_route
  find_route-KeepsGate = record { at = λ r w h s. read_envelope-Keeps r _ w s }
