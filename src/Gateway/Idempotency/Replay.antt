-- ===== src/Gateway/Idempotency/Replay.antt =====
-- What IdempotencyMiddleware of internal/gateway/idempotency.go answers to a request that is sent
-- twice.
use quarkgate.Exec.{ok}
use quarkgate.Gateway.{Reply, Handler, Request}
use quarkgate.Gateway.Idempotency.{
  get_cached, idempotency_cache_key, idempotent, is_streaming_request, remember, replay_cached,
  with_idempotency_key, replay_or, CachedResponse, recorded,
}
use quarkgate.Models.{Time, Uuid}
use quarkgate.Prelude.{
  Bool, Dict, Option, Text, some, ◌≡◌, [], ap, false, leb, ltb, none, refl, text_beq_refl, true,
  ◌&&◌, ◌+◌, ◌==◌, ◌∙◌, Bool-cases, arith, inl, inr, nat_eq, text_eq, int_eq,
}
use quarkgate.Proxy.StreamMeter.{trim_space}
use quarkgate.Redis.{Redis, IsUp, command_up}
use quarkgate.Redis.Keys.{idem_key}
use quarkgate.Redis.Values.{
  get_text, set_text, get_cell, get_cell-set_cell, get_idempotency, set_cell, set_idempotency,
}
use quarkgate.World.{World}

-- A value that was set is read back.
set_text-get_text :
    (key value : Text) (ttl : Time) (r : Redis)
    → IsUp r
    → (get_text key (set_text key value ttl r).1).0 ≡ ok (some value)
unfolding get_text set_text
set_text-get_text key value ttl r up =
    let after : Redis = record r {
      server = set_cell key value ttl r.server;
      commands = r.commands + 1;
    } in
    rw (command_up (λ s. (ok tt, set_cell key value ttl s)) r up) (
      rw (command_up (λ s. (ok (get_cell key s), s)) after up)
        (ap ok (get_cell-set_cell key key value ttl r.server ∙ rw (text_beq_refl key) refl)))

module _ (encode : Dict Text Text → Text) (show_uuid : Uuid → Text)
    (encode_reply : CachedResponse → Text) (decode_reply : Text → Option CachedResponse)
    (equal_fold : Text → Text → Bool) (canonical : Text → Text) where
  -- What the recorder holds of a reply.
  abbrev pub kept : Request → Reply → CachedResponse
  kept = recorded encode show_uuid encode_reply decode_reply equal_fold canonical

  -- A reply of 200 to 299 is found again.
  get_cached-remember :
      (key : Text) (r : Request) (reply : Reply) (w : World)
      → IsUp w.redis
      → leb 200 reply.status && ltb reply.status 300 ≡ true
      → decode_reply (encode_reply (kept r reply)) ≡ some (kept r reply)
      → (get_cached encode show_uuid encode_reply decode_reply equal_fold canonical key
          (remember encode show_uuid encode_reply decode_reply equal_fold canonical key r reply
            w).1).0
        ≡ some (kept r reply)
  unfolding get_cached remember get_idempotency set_idempotency
  get_cached-remember key r reply w up good whole =
      rw (good, set_text-get_text (idem_key key) (encode_reply (kept r reply)) 86400 w.redis up)
        whole

  -- The reply is passed on as it is.
  remember_reply :
      (key : Text) (r : Request) (reply : Reply) (w : World)
      → (remember encode show_uuid encode_reply decode_reply equal_fold canonical key r reply w).0
        ≡ reply
  unfolding remember
  remember_reply key r reply w = elim (Bool-cases (leb 200 reply.status && ltb reply.status 300)) [
    | inl good ↦ rw good refl
    | inr other ↦ rw other refl
  ]

  replay_or_hit :
      (next : Handler) (key : Text) (r : Request) (c : CachedResponse)
      (p : Option CachedResponse × World)
      → p.0 ≡ some c
      → replay_or encode show_uuid encode_reply decode_reply equal_fold canonical next key r p
        ≡ (replay_cached encode show_uuid encode_reply decode_reply equal_fold canonical c, p.1)
  unfolding replay_or
  replay_or_hit next key r c (some d, w) e =
      ap
        (λ (x : CachedResponse).
          (replay_cached encode show_uuid encode_reply decode_reply equal_fold canonical x, w))
        (ground (arith, e))
  replay_or_hit next key r c (none, w) e = cc

  replay_or_miss :
      (next : Handler) (key : Text) (r : Request) (p : Option CachedResponse × World)
      → p.0 ≡ none
      → replay_or encode show_uuid encode_reply decode_reply equal_fold canonical next key r p
        ≡ remember encode show_uuid encode_reply decode_reply equal_fold canonical key r
            (next r p.1).0
            (next r p.1).1
  unfolding replay_or
  replay_or_miss next key r (some d, w) e = cc
  replay_or_miss next key r (none, w) e = refl

  module _ (r : Request) where
    abbrev client_key : Text
    client_key = trim_space r.idempotency_header

    abbrev reply_key : Text
    reply_key =
        idempotency_cache_key encode show_uuid encode_reply decode_reply equal_fold canonical
          r.context.user_id client_key r.path

    abbrev keyed : Request
    keyed =
        with_idempotency_key encode show_uuid encode_reply decode_reply equal_fold canonical r
          client_key

    -- A request that is looked up in the cache.
    abbrev pub IsLookedUp : Type 0
    IsLookedUp =
        ((trim_space r.idempotency_header == []) ≡ false)
        × (is_streaming_request encode show_uuid encode_reply decode_reply equal_fold canonical
              r.context
            ≡ false)
        × ((r.context.user_id == 0) ≡ false)

    looked_up :
        (next : Handler) (w : World)
        → IsLookedUp
        → idempotent encode show_uuid encode_reply decode_reply equal_fold canonical next r w
          ≡ replay_or encode show_uuid encode_reply decode_reply equal_fold canonical next reply_key
              keyed
              (get_cached encode show_uuid encode_reply decode_reply equal_fold canonical reply_key
                w)
    unfolding idempotent
    looked_up next w (given, whole, known) = rw (given, whole, known) refl

    -- A request with an idempotency key that is no stream, sent twice: where the first was answered
    -- by a handler with a status of 200 to 299 and Redis answers afterwards, the second gets that
    -- status and that body, and the headers that the recorder kept but for `Content-Length`. No
    -- handler runs for it: whatever handler would be there, all that happens to the world is the
    -- lookup in the cache.
    pub idempotent_replays :
        (next next' : Handler) (w : World) (reply : Reply) (w₁ : World)
        → IsLookedUp
        → (get_cached encode show_uuid encode_reply decode_reply equal_fold canonical reply_key w).0
          ≡ none
        → next keyed
            (get_cached encode show_uuid encode_reply decode_reply equal_fold canonical reply_key
              w).1
          ≡ (reply, w₁)
        → IsUp w₁.redis
        → leb 200 reply.status && ltb reply.status 300 ≡ true
        → decode_reply (encode_reply (kept keyed reply)) ≡ some (kept keyed reply)
        → let (first, w₂) =
            idempotent encode show_uuid encode_reply decode_reply equal_fold canonical next r w in
          let (second, w₃) =
            idempotent encode show_uuid encode_reply decode_reply equal_fold canonical next' r w₂ in
          (first ≡ reply)
          × (second
              ≡ replay_cached encode show_uuid encode_reply decode_reply equal_fold canonical
                  (kept keyed reply))
          × (w₃
              ≡ (get_cached encode show_uuid encode_reply decode_reply equal_fold canonical
                  reply_key w₂).1)
          × (second.status ≡ reply.status)
          × (second.body ≡ reply.body)
    unfolding recorded replay_cached
    idempotent_replays next next' w reply w₁ asked miss answered up good decodes =
        let first : idempotent encode show_uuid encode_reply decode_reply equal_fold canonical next
              r w
            ≡ remember encode show_uuid encode_reply decode_reply equal_fold canonical reply_key
                keyed reply w₁ =
          looked_up next w asked
          ∙ replay_or_miss next reply_key keyed
              (get_cached encode show_uuid encode_reply decode_reply equal_fold canonical reply_key
                w)
              miss
          ∙ ap
              (λ (p : Reply × World).
                remember encode show_uuid encode_reply decode_reply equal_fold canonical reply_key
                  keyed p.0 p.1)
              answered in
        let w₂ =
          (remember encode show_uuid encode_reply decode_reply equal_fold canonical reply_key keyed
            reply w₁).1 in
        let replayed : idempotent encode show_uuid encode_reply decode_reply equal_fold canonical
              next' r w₂
            ≡ (
              replay_cached encode show_uuid encode_reply decode_reply equal_fold canonical
                  (kept keyed reply),
              (get_cached encode show_uuid encode_reply decode_reply equal_fold canonical reply_key
                  w₂).1,
            ) =
          looked_up next' w₂ asked
          ∙ replay_or_hit next' reply_key keyed (kept keyed reply) _
              (get_cached-remember reply_key keyed reply w₁ up good decodes) in
        rw (first, replayed) (remember_reply reply_key keyed reply w₁, refl, refl, refl, refl)
