-- ===== src/Redis/Rate.antt =====
-- AllowRate of internal/redis/client.go: the sliding window of a minute. The members of the sorted
-- set are the seconds of the requests, each with itself as its score.
pub mod Window
use quarkgate.Exec.{Exec, ok}
use quarkgate.Models.{Time}
use quarkgate.Prelude.{
  Bool, List, Text, [], any, if◌then◌else◌, insert, leb_ℤ, length, lookup, ltb, nat_beq, none, pos,
  select, some, ℤ, ◌+◌, ◌∷◌, nat_eq, text_eq, int_eq,
}
use quarkgate.Redis.{Redis, Server, command}
use quarkgate.Redis.Keys.{bucket_key}

-- `ZRemRangeByScore key 0 now-60`
unfoldable pub drop_old : Time → List Time → List Time
drop_old now = select (λ t. ltb now (t + 60))

-- `ZAdd`: a member that is there is not added again.
unfoldable pub add_member : Time → List Time → List Time
add_member now w = if any (λ t. nat_beq t now) w then w else now ∷ w

-- The window after the pipeline's first two commands.
unfoldable pub slide : Time → List Time → List Time
unfolding drop_old add_member
slide now w = add_member now (drop_old now w)

abbrev pub window_of : Text → Server → List Time
window_of key s = elim (lookup key s.windows) [ none ↦ [] | some w ↦ w ]

abbrev pub put_window : Text → List Time → Server → Server
put_window key w s = record s { windows = insert key w s.windows }

-- AllowRate; the pipeline fails as a whole. The set's own expiry after two minutes drops nothing
-- that the next call would count.
unfoldable pub allow_rate : Text → ℤ → Exec Redis Bool
unfolding slide
allow_rate user rpm = command λ s.
    let w = slide s.now (window_of (bucket_key user) s) in
    (ok (leb_ℤ (pos (length w)) rpm), put_window (bucket_key user) w s)
