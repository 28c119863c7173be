-- ===== src/Proxy/Handler/Left.antt =====
-- Whether the copy of an answer in internal/proxy/handler.go ended because the client had left.
use quarkgate.Gateway.{Request}
use quarkgate.Models.{DownstreamRequest}
use quarkgate.Prelude.{
  Bool, Bool-cases, false, if◌then◌else◌, inl, inr, leb, ltb, refl, true, ◌&&◌, ◌≡◌,
}
use quarkgate.Proxy.Handler.Answer.{
  HandlerCodec, HandlerConfig, Response, Served, cut_stream, serve_answer, serve_stream,
  serve_whole, served_stream,
}
use quarkgate.Proxy.StreamMeter.{MeteringReader, new_metering_reader}
use quarkgate.Proxy.StreamMeter.Copy.{
  CopyResult, context_done, copy, deadline_exceeded, finished, insufficient_credits, read_failed,
}

module _ (codec : HandlerCodec) (config : HandlerConfig) where
  abbrev pub is_context_done : CopyResult → Bool
  is_context_done context_done = true
  is_context_done finished = false
  is_context_done deadline_exceeded = false
  is_context_done insufficient_credits = false
  is_context_done read_failed = false

  -- The copy of a stream ended because the context was cancelled.
  abbrev pub copy_left : DownstreamRequest → Request → Response → Bool
  copy_left d r a =
      if d.streaming && leb 200 a.status && ltb a.status 300
      then is_context_done
          (copy codec.decode a.started a.events
            (new_metering_reader config.idle_sec config.max_stream_sec r.context.hold_micro)).1
      else false

  served_stream-cancelled :
      (ended : CopyResult) (m : MeteringReader)
      → (served_stream codec config ended m).cancelled ≡ is_context_done ended
  unfolding served_stream
  served_stream-cancelled finished m = refl
  served_stream-cancelled context_done m = refl
  served_stream-cancelled deadline_exceeded m = refl
  served_stream-cancelled insufficient_credits m = refl
  served_stream-cancelled read_failed m = refl

  cut_stream-cancelled :
      (ended : CopyResult) (m : MeteringReader)
      → (cut_stream codec config ended m).cancelled ≡ is_context_done ended
  unfolding cut_stream
  cut_stream-cancelled finished m = refl
  cut_stream-cancelled context_done m = refl
  cut_stream-cancelled deadline_exceeded m = refl
  cut_stream-cancelled insufficient_credits m = refl
  cut_stream-cancelled read_failed m = refl

  if-cancelled :
      (b : Bool) (x y : Served) {left : Bool}
      → x.cancelled ≡ left
      → y.cancelled ≡ left
      → (if b then x else y).cancelled ≡ left
  if-cancelled true x y e f = e
  if-cancelled false x y e f = f

  serve_stream-cancelled :
      (r : Request) (a : Response)
      → (serve_stream codec config r.context a).cancelled
        ≡ is_context_done
            (copy codec.decode a.started a.events
              (new_metering_reader config.idle_sec config.max_stream_sec r.context.hold_micro)).1
  unfolding serve_stream
  serve_stream-cancelled r a =
      let (total, ended, m) =
        copy codec.decode a.started a.events
          (new_metering_reader config.idle_sec config.max_stream_sec r.context.hold_micro) in
      shown ended m
    where
      shown :
          (ended : CopyResult) (m : MeteringReader)
          → (if m.soft_cap_exceeded
              then cut_stream codec config ended m
              else served_stream codec config ended m).cancelled
            ≡ is_context_done ended
      shown ended m =
          if-cancelled m.soft_cap_exceeded _ _ (cut_stream-cancelled ended m)
            (served_stream-cancelled ended m)

  -- What the answer comes to says whether the copy ended so.
  pub serve_answer-cancelled :
      (d : DownstreamRequest) (r : Request) (a : Response)
      → (serve_answer codec config d r.context a).cancelled ≡ copy_left d r a
  unfolding serve_answer serve_whole
  serve_answer-cancelled d r a =
      elim (Bool-cases (d.streaming && leb 200 a.status && ltb a.status 300)) [
        | inl stream ↦ rw stream (serve_stream-cancelled r a)
        | inr whole ↦ rw whole refl
      ]
