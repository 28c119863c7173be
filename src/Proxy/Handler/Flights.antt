-- ===== src/Proxy/Handler/Flights.antt =====
-- The requests that ServeHTTP of internal/proxy/handler.go has running, begun and ended in any order:
-- what the proxy counts is what runs.
use quarkgate.Gateway.{Reply, Request}
use quarkgate.Models.{DownstreamRequest}
use quarkgate.Prelude.{
  Option, Text, ap, arith, inl, inr, refl, true, ◌∙◌, ◌≡◌, ◌⊎◌, List, [], length, max_int64, pos,
  ◌++◌, ◌<◌, ◌∷◌, subst, suc, sym, wrap64_id, ℕ, ◌≤◌, InInt64, ℤ,
}
use quarkgate.Proxy.Breaker.{dec_active, inc_active}
use quarkgate.Proxy.Bulkhead.{Bulkhead, release, try_acquire, new_bulkhead}
use quarkgate.Proxy.Bulkhead.Running.{
  Counts?, pos_add_one, pos_sub_one, release-Counts, try_acquire-Counts, Counts-CountsOf, CountsOf,
  new_bulkhead-Counts,
}
use quarkgate.Proxy.Handler.{begin, finish, answered, sent, Outbound}
use quarkgate.Proxy.Handler.Answer.{HandlerCodec, HandlerConfig, Response}
use quarkgate.Proxy.Handler.Emission.{Moments}
use quarkgate.Proxy.Handler.Places.{BeginsAs, begin-BeginsAs, finish-Leaves}
use quarkgate.Proxy.State.{ProxyState}
use quarkgate.World.{World}

inc_active-pos : (n : ℕ) → n < max_int64 → inc_active (pos n) ≡ pos (suc n)
unfolding inc_active
inc_active-pos n h = rw pos_add_one (wrap64_id (pos (suc n)) (omega arith, omega arith))

dec_active-pos : (n : ℕ) → n ≤ max_int64 → dec_active (pos (suc n)) ≡ pos n
unfolding dec_active
dec_active-pos n h = rw pos_sub_one (wrap64_id (pos n) (omega arith, omega arith))

length-middle : (p : Text) (xs ys : List Text) → length (xs ++ p ∷ ys) ≡ suc (length (xs ++ ys))
length-middle p [] ys = refl
length-middle p (x ∷ xs) ys = ap suc (length-middle p xs ys)

module _ (codec : HandlerCodec) (config : HandlerConfig) where
  -- What can happen to the world and to the list of the providers of the requests that run: a request
  -- comes and is answered at once, or is sent; one that runs ends, with an answer or none; or
  -- anything that does not touch the proxy's state. Fewer than 2^63 requests run at a time.
  pub data Step : World → List Text → World → List Text → Type 0 where
    answers :
        {w w' : World} {running : List Text} (r : Request) (t : Moments) (reply : Reply)
        → length running < max_int64
        → begin codec config r t w ≡ (answered reply, w')
        → Step w running w' running
    sends :
        {w w' : World} {running : List Text} (r : Request) (t : Moments) (d : DownstreamRequest)
        (out : Outbound)
        → length running < max_int64
        → begin codec config r t w ≡ (sent d out, w')
        → Step w running w' (d.provider ∷ running)
    ends :
        {w w' : World} {running running' : List Text} (d : DownstreamRequest) (r : Request)
        (t : Moments) (a : Option Response) (xs ys : List Text)
        → running ≡ xs ++ d.provider ∷ ys
        → running' ≡ xs ++ ys
        → w' ≡ (finish codec config d r t a w).1
        → Step w running w' running'
    elsewhere :
        {w w' : World} {running : List Text} → w'.proxy ≡ w.proxy → Step w running w' running

  -- From a start with no request running.
  pub data Run (start : World) : World → List Text → Type 0 where
    here : Run start start []
    next :
        {w w' : World} {running running' : List Text}
        → Run start w running
        → Step w running w' running'
        → Run start w' running'

  -- The proxy counts the requests that run, each provider's and all.
  pub record Tracks (s : ProxyState) (running : List Text) : Type 0 where
    pub active : s.active ≡ pos (length running)
    pub counts : Counts? s.bulkhead running
    pub bounded : length running ≤ max_int64

  answered-Counts :
      (s s' : ProxyState) (running : List Text)
      → Tracks s running
      → (s'.bulkhead ≡ s.bulkhead)
        ⊎ ((p : Text) × (b : Option Bulkhead) × (try_acquire p s.bulkhead ≡ (true, b))
            × (s'.bulkhead ≡ release p b))
      → Counts? s'.bulkhead running
  answered-Counts s s' running k (inl same) = subst (λ b. Counts? b running) (sym same) k.counts
  answered-Counts s s' running k (inr (p, b, let_in, given_back)) =
      subst (λ b'. Counts? b' running) (sym given_back)
        (release-Counts p b [] running (try_acquire-Counts p s.bulkhead b running k.counts let_in))

  Step-Tracks :
      {w w' : World} {running running' : List Text}
      → Step w running w' running'
      → Tracks w.proxy running
      → Tracks w'.proxy running'
  Step-Tracks {w} {w'} {running} (answers r t reply few begun) k =
      let begins : BeginsAs (answered reply) w.proxy w'.proxy =
        rw begun at (begin-BeginsAs codec config r t w) in
      record {
        active =
            begins.0
            ∙ ap (λ n. dec_active (inc_active n)) k.active
            ∙ ap dec_active (inc_active-pos (length running) few)
            ∙ dec_active-pos (length running) k.bounded;
        counts = answered-Counts w.proxy w'.proxy running k begins.1;
        bounded = k.bounded;
      }
  Step-Tracks {w} {w'} {running} (sends r t d out few begun) k =
      let begins : BeginsAs (sent d out) w.proxy w'.proxy =
        rw begun at (begin-BeginsAs codec config r t w) in
      record {
        active = begins.0 ∙ ap inc_active k.active ∙ inc_active-pos (length running) few;
        counts =
            try_acquire-Counts d.provider w.proxy.bulkhead w'.proxy.bulkhead running k.counts
              begins.1;
        bounded = omega arith;
      }
  Step-Tracks {w} {w'} {running} {running'} (ends d r t a xs ys ran left ended) k =
      let leaves = finish-Leaves codec config d r t a w in
      let fits : suc (length (xs ++ ys)) ≤ max_int64 =
        rw (← length-middle d.provider xs ys, ← ran) k.bounded in
      rw (ended, left)
        (record {
          active =
              leaves.0
              ∙ ap dec_active (
                  k.active ∙ ap (λ l. pos (length l)) ran ∙ ap pos (length-middle d.provider xs ys))
              ∙ dec_active-pos (length (xs ++ ys)) (omega arith);
          counts =
              subst (λ b. Counts? b (xs ++ ys)) (sym leaves.1)
                (release-Counts d.provider w.proxy.bulkhead xs ys
                  (subst (λ l. Counts? w.proxy.bulkhead l) ran k.counts));
          bounded = omega arith;
        })
  Step-Tracks {w} {w'} {running} (elsewhere same) k = rw same k

  Run-Tracks :
      {start w : World} {running : List Text}
      → Tracks start.proxy []
      → Run start w running
      → Tracks w.proxy running
  Run-Tracks k here = k
  Run-Tracks k (next run step) = Step-Tracks step (Run-Tracks k run)

  -- From a start with no request running and a new bulkhead, while fewer than 2^63 - 1 run at a
  -- time, however requests come and end, and whatever else happens between: the counter of active
  -- requests is the number of requests that run, and the bulkhead's count of a provider is the number
  -- of those that are the provider's, which is within the limit. So no place is lost, on any way
  -- through ServeHTTP.
  pub Run-counts :
      (limit : ℤ) (start w : World) (running : List Text) (p : Text)
      → InInt64 limit
      → start.proxy.active ≡ pos 0
      → start.proxy.bulkhead ≡ new_bulkhead limit
      → Run start w running
      → (w.proxy.active ≡ pos (length running)) × CountsOf w.proxy.bulkhead p running
  Run-counts limit start w running p fits idle fresh run =
      let k =
        Run-Tracks
          (record {
            active = idle;
            counts = subst (λ b. Counts? b []) (sym fresh) (new_bulkhead-Counts limit fits);
            bounded = omega arith;
          })
          run in
      (k.active, Counts-CountsOf w.proxy.bulkhead p running k.counts)
