-- ===== src/Tests/Replay.antt =====
-- The theorem on repeated requests, at a small request.
use quarkgate.Gateway.{Context, Handler, Reply, Request, set_header}
use quarkgate.Gateway.Headers.{apply_call, apply_calls, snapshot, record_calls}
use quarkgate.Gateway.Idempotency.{
  get_cached, idempotency_cache_key, idempotent, is_streaming_request, replay_cached,
  CachedResponse, recorded, with_idempotency_key,
}
use quarkgate.Gateway.Idempotency.Replay.{IsLookedUp, idempotent_replays, kept}
use quarkgate.Gateway.Sound.{KeepsHandler}
use quarkgate.Models.{Uuid}
use quarkgate.Prelude.{
  Bool, Dict, Option, Text, [], codes, lookup, none, pos, refl, some, ◌==◌, ◌∷◌, ◌≡◌, insert,
  nat_eq, text_eq, int_eq,
}
use quarkgate.Proxy.StreamMeter.{trim_left, trim_right, trim_space}
use quarkgate.Redis.{IsUp, command}
use quarkgate.Redis.Values.{get_cell, get_idempotency, get_text}
use quarkgate.Tests.Redis.{world}
use quarkgate.World.{World}

abbrev pub encode : Dict Text Text → Text
encode fields = []

abbrev pub show : Uuid → Text
show n = n ∷ []

abbrev pub new_id : World → Uuid
new_id w = 7

abbrev pub fold_equal : Text → Text → Bool
fold_equal a b = a == b

abbrev pub same_name : Text → Text
same_name t = t

abbrev pub empty_context : Context
empty_context = record {
  request_id = 0;
  user_id = 1;
  key_id = 0;
  key = none;
  route = none;
  hold_micro = pos 0;
  trace_id = [];
  envelope = none;
  downstream = none;
  idempotency_key = [];
  credential = [];
  base_url = [];
}

abbrev pub request : Request
request = record {
  method = codes "POST";
  path = codes "/v1/providers/vast/run";
  authorization = codes "Bearer qg_live_0123456789abcdef";
  idempotency_header = codes "once";
  trace_header = [];
  body = [];
  written = set_header (codes "X-Request-Id") (codes "7") ∷ [];
  context = empty_context;
}

abbrev pub done : Reply
done = record {
  status = 200;
  headers = set_header (codes "Content-Type") (codes "text/plain") ∷ [];
  body = codes "done";
}

abbrev pub answer_done : Handler
answer_done r w = (done, w)

abbrev answer_nothing : Handler
answer_nothing r w = (record { status = 500; headers = []; body = [] }, w)

pub answer_done-KeepsHandler : KeepsHandler answer_done
answer_done-KeepsHandler = record { at = λ r w h s. s }

-- A codec of replies that knows one reply.
abbrev pub encode_reply : CachedResponse → Text
encode_reply reply = codes "done"

abbrev pub decode_reply : Text → Option CachedResponse
decode_reply text =
    some (record {
      status = 200;
      headers = (codes "X-Request-Id", codes "7") ∷ [];
      body = codes "done";
    })

abbrev answered : Request
answered =
    with_idempotency_key encode show encode_reply decode_reply fold_equal same_name request
      (codes "once")

asked : IsLookedUp encode show encode_reply decode_reply fold_equal same_name request
unfolding is_streaming_request trim_space trim_left trim_right
asked = (refl, refl, refl)

missed :
    (get_cached encode show encode_reply decode_reply fold_equal same_name
      (idempotency_cache_key encode show encode_reply decode_reply fold_equal same_name 1
        (trim_space request.idempotency_header)
        request.path)
      world).0
    ≡ none
unfolding get_cached get_idempotency get_text command get_cell lookup
missed = refl

abbrev world_after : World
world_after =
    (get_cached encode show encode_reply decode_reply fold_equal same_name
      (idempotency_cache_key encode show encode_reply decode_reply fold_equal same_name 1
        (trim_space request.idempotency_header) request.path)
      world).1

world_after-IsUp : IsUp world_after.redis
unfolding get_cached get_idempotency get_text command
world_after-IsUp n = refl

idempotent_replays_example :
    let (first, w₂) =
      idempotent encode show encode_reply decode_reply fold_equal same_name answer_done request
        world in
    let (second, w₃) =
      idempotent encode show encode_reply decode_reply fold_equal same_name answer_nothing request
        w₂ in
    (first ≡ done)
    × (second
        ≡ replay_cached encode show encode_reply decode_reply fold_equal same_name
            (kept encode show encode_reply decode_reply fold_equal same_name answered done))
    × (w₃
        ≡ (get_cached encode show encode_reply decode_reply fold_equal same_name
            (idempotency_cache_key encode show encode_reply decode_reply fold_equal same_name 1
              (trim_space request.idempotency_header)
              request.path)
            w₂).1)
    × (second.status ≡ 200)
    × (second.body ≡ codes "done")
unfolding recorded record_calls apply_calls apply_call snapshot insert lookup
idempotent_replays_example =
    idempotent_replays encode show encode_reply decode_reply fold_equal same_name request
      answer_done answer_nothing world done world_after asked missed refl world_after-IsUp refl refl
