-- ===== src/Gateway/Sound.antt =====
-- The middlewares and the invariant of the credit tables.
pub mod Solvency
pub mod Routing
pub mod Whole
use quarkgate.Exec.{Error, Exec, Result, continue, err, failure, ok, or_fail}
use quarkgate.Gateway.{Decision, Gate, Handler, Request, decide, pass, refuse, wrap}
use quarkgate.Gateway.Auth.{
  KeyCodec, admit_key, authenticate, cache_key, find_key_by_token, find_key_by_token_pg,
  use_or_find, cached_key, check_scope, extract_bearer, is_valid_format, limit_for, limit_rate,
  limited, scope_decision, scope_for, scope_matches,
}
use quarkgate.Json.{Raw}
use quarkgate.Keys.{key_to_cache}
use quarkgate.Models.{QuarkGateKey, RouteMatch}
use quarkgate.Prelude.{
  InInt64, List, Option, Text, codes, find, none, some, take, Bool, Bool-cases, [], any, false, inl,
  inr, true, ◌==◌, nat_eq, text_eq, int_eq,
}
use quarkgate.Redis.Values.{get_key_meta}
use quarkgate.Store.{Db}
use quarkgate.Store.Balance.{IsSound}
use quarkgate.Store.Keys.{active_keys_by_prefix}
use quarkgate.World.{World, on_db}
use quarkgate.World.Sound.{KeepsSound, KeepsSound-bind, active_keys_by_prefix-IsSound}

-- The hold that a request's context asks for is an int64.
abbrev pub HasInt64Hold : Request → Type 0
HasInt64Hold r = InInt64 r.context.hold_micro

abbrev pub Passes : Decision → Type 0
Passes (refuse reply) = Unit
Passes (pass r) = HasInt64Hold r

-- What a gate leaves: sound tables, and an int64 hold where it passes.
abbrev pub LeavesSound : Decision × World → Type 0
LeavesSound (d, w) = IsSound w.db.tables × Passes d

pub record KeepsGate (g : Gate) : Type 0 where
  pub at : (r : Request) (w : World) → HasInt64Hold r → IsSound w.db.tables → LeavesSound (g r w)

pub record KeepsHandler (h : Handler) : Type 0 where
  pub at :
      (r : Request) (w : World) → HasInt64Hold r → IsSound w.db.tables → IsSound (h r w).1.db.tables

pub KeepsHandler-wrap :
    (g : Gate) (h : Handler) → KeepsGate g → KeepsHandler h → KeepsHandler (wrap g h)
unfolding wrap decide
KeepsHandler-wrap g h kg kh = record {
  at = λ r w hold s.
      let (sound, passes) = kg.at r w hold s in decided (g r w).0 (g r w).1 r passes sound;
}
  where
    decided :
        (d : Decision) (w : World) (r : Request)
        → Passes d
        → IsSound w.db.tables
        → IsSound (decide h d r w).1.db.tables
    decided (refuse reply) w r p s = s
    decided (pass r') w r p s = kh.at r' w p s

module _ (codec : KeyCodec) where
  cache_key-KeepsSound :
      (token : Text) (k : QuarkGateKey) (text : Option Text)
      → KeepsSound (cache_key codec token k text)
  unfolding cache_key
  cache_key-KeepsSound token k none = record { at = λ w s. s }
  cache_key-KeepsSound token k (some text) = record { at = λ w s. s }

  find_key_by_token_pg-IsSound :
      (token : Text) (db : Db)
      → IsSound db.tables
      → IsSound (find_key_by_token_pg codec token db).1.tables
  unfolding find_key_by_token_pg
  find_key_by_token_pg-IsSound token db s =
      chosen (active_keys_by_prefix (take 12 token) db).0
        (active_keys_by_prefix (take 12 token) db).1
        (active_keys_by_prefix-IsSound (take 12 token) db s)
    where
      found : List QuarkGateKey → Exec Db QuarkGateKey
      found ks =
          or_fail (find (λ (k : QuarkGateKey). codec.compare_hash k.key_hash token) ks)
            (failure (codes "key not found"))

      or_failed :
          (o : Option QuarkGateKey) (e : Error) (db : Db)
          → IsSound db.tables
          → IsSound (or_fail o e db).1.tables
      or_failed none e db s = s
      or_failed (some k) e db s = s

      chosen :
          (r : Result (List QuarkGateKey)) (db : Db)
          → IsSound db.tables
          → IsSound (continue r found db).1.tables
      chosen (err e) db s = s
      chosen (ok ks) db s =
          or_failed (find (λ (k : QuarkGateKey). codec.compare_hash k.key_hash token) ks) _ db s

  use_or_find-KeepsSound :
      (token : Text) (o : Option QuarkGateKey) → KeepsSound (use_or_find codec token o)
  unfolding use_or_find
  use_or_find-KeepsSound token (some k) = record { at = λ w s. s }
  use_or_find-KeepsSound token none =
      KeepsSound-bind (on_db (find_key_by_token_pg codec token)) _
        (record { at = λ w s. find_key_by_token_pg-IsSound token w.db s })
        λ k. cache_key-KeepsSound token k (key_to_cache codec.show_uuid codec.marshal k)

  admit_key-Passes :
      (r : Request) (k : Result QuarkGateKey) → HasInt64Hold r → Passes (admit_key codec r k)
  unfolding admit_key
  admit_key-Passes r (err e) h = tt
  admit_key-Passes r (ok k) h = h

  find_key_by_token-KeepsSound : (token : Text) → KeepsSound (find_key_by_token codec token)
  unfolding find_key_by_token
  find_key_by_token-KeepsSound token = record {
    at = λ w s.
        let (meta, redis) = get_key_meta (codec.hmac token) w.redis in
        (use_or_find-KeepsSound token (cached_key codec token meta)).at (record w { redis = redis })
          s;
  }

  pub authenticate-KeepsGate : KeepsGate (authenticate codec)
  unfolding authenticate
  authenticate-KeepsGate = record {
    at = λ r w h s. elim (Bool-cases (extract_bearer r.authorization == [])) [
      | inl missing ↦ rw missing (s, tt)
      | inr given ↦ elim (Bool-cases (is_valid_format (extract_bearer r.authorization))) [
        | inl good ↦
            rw (given, good)
              (
                (find_key_by_token-KeepsSound (extract_bearer r.authorization)).at w s,
                admit_key-Passes r _ h,
              )
        | inr bad ↦ rw (given, bad) (s, tt)
      ]
    ];
  }

  scope_decision-Passes :
      (scopes : Raw (List Text)) (route : RouteMatch) (r : Request)
      → HasInt64Hold r
      → Passes (scope_decision codec scopes route r)
  unfolding scope_decision
  scope_decision-Passes none route r h = h
  scope_decision-Passes (some scopes) route r h =
      elim (Bool-cases (any (scope_matches codec route) scopes)) [
        | inl allowed ↦ rw allowed h
        | inr denied ↦ rw denied tt
      ]

  scope_for-Passes :
      (k : Option QuarkGateKey) (route : Option RouteMatch) (r : Request)
      → HasInt64Hold r
      → Passes (scope_for codec k route r)
  unfolding scope_for
  scope_for-Passes none none r h = h
  scope_for-Passes none (some route) r h = h
  scope_for-Passes (some k) none r h = h
  scope_for-Passes (some k) (some route) r h = scope_decision-Passes k.scopes route r h

  pub check_scope-KeepsGate : KeepsGate (check_scope codec)
  unfolding check_scope
  check_scope-KeepsGate = record {
    at = λ r w h s. (s, scope_for-Passes r.context.key r.context.route r h);
  }

  limited-Passes :
      (r : Request) (allowed : Result Bool) → HasInt64Hold r → Passes (limited codec r allowed)
  limited-Passes r (ok true) h = h
  limited-Passes r (ok false) h = tt
  limited-Passes r (err e) h = tt

  limit_for-Keeps :
      (k : Option QuarkGateKey) (r : Request) (w : World)
      → HasInt64Hold r
      → IsSound w.db.tables
      → IsSound (limit_for codec k r w).1.db.tables
  unfolding limit_for
  limit_for-Keeps none r w h s = s
  limit_for-Keeps (some k) r w h s = s

  limit_for-Passes :
      (k : Option QuarkGateKey) (r : Request) (w : World)
      → HasInt64Hold r
      → Passes (limit_for codec k r w).0
  unfolding limit_for
  limit_for-Passes none r w h = h
  limit_for-Passes (some k) r w h = limited-Passes r _ h

  pub limit_rate-KeepsGate : KeepsGate (limit_rate codec)
  unfolding limit_rate
  limit_rate-KeepsGate = record {
    at = λ r w h s. (limit_for-Keeps r.context.key r w h s, limit_for-Passes r.context.key r w h);
  }
