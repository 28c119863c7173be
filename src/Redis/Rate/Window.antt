-- ===== src/Redis/Rate/Window.antt =====
-- What the sliding window of AllowRate in internal/redis/client.go counts.
use quarkgate.Exec.{ok}
use quarkgate.Models.{Time}
use quarkgate.Prelude.{
  List, [], any, false, nat_beq, ◌∷◌, ◌≡◌, ◌≤◌, arith, length, not, refl, select, ℕ, ◌+◌, ◌<◌,
  Bool-cases, inl, inr, nat_beq_iff, suc, zero, ◌-◌, Text, leb_ℤ, lookup-insert_self, pos, true, ℤ,
  ◌≤ℤ◌, Option, ap, none, some, subst, sym, ◌∙◌, nat_eq, text_eq, int_eq,
}
use quarkgate.Redis.{Redis, Server, command}
use quarkgate.Redis.Keys.{bucket_key}
use quarkgate.Redis.Rate.{add_member, drop_old, slide, allow_rate, window_of, put_window}

-- The seconds of a window are different, and none lies after `now`.
abbrev pub IsWindow : Time → List Time → Type 0
IsWindow now [] = Unit
IsWindow now (t ∷ w) = (t ≤ now) × (any (λ u. nat_beq u t) w ≡ false) × IsWindow now w

any-drop_old :
    (now t : Time) (w : List Time)
    → any (λ u. nat_beq u t) w ≡ false
    → any (λ u. nat_beq u t) (drop_old now w) ≡ false
unfolding drop_old
any-drop_old now t [] h = refl
any-drop_old now t (u ∷ w) h = ground (arith, any-drop_old now t w)

drop_old-IsWindow : (now : Time) (w : List Time) → IsWindow now w → IsWindow now (drop_old now w)
unfolding drop_old
drop_old-IsWindow now [] h = tt
drop_old-IsWindow now (t ∷ w) h = ground (arith, drop_old-IsWindow now w h.2, any-drop_old now t w)

add_member-IsWindow :
    (now : Time) (w : List Time) → IsWindow now w → IsWindow now (add_member now w)
unfolding add_member
add_member-IsWindow now w h = ground arith

pub slide-IsWindow : (now : Time) (w : List Time) → IsWindow now w → IsWindow now (slide now w)
unfolding slide
slide-IsWindow now w h = add_member-IsWindow now (drop_old now w) (drop_old-IsWindow now w h)

-- Later, a window is still one.
pub IsWindow-later :
    (now later : Time) (w : List Time) → now ≤ later → IsWindow now w → IsWindow later w
IsWindow-later now later [] le h = tt
IsWindow-later now later (t ∷ w) le h = (omega arith, h.1, IsWindow-later now later w le h.2)

-- Every second of a list lies in the last `k` before and at `now`.
abbrev pub IsRecent : Time → ℕ → List Time → Type 0
IsRecent now k [] = Unit
IsRecent now k (t ∷ w) = (now < t + k) × IsRecent now k w

abbrev without : Time → List Time → List Time
without t = select (λ u. not (nat_beq u t))

any-without :
    (s t : Time) (w : List Time)
    → any (λ u. nat_beq u t) w ≡ false
    → any (λ u. nat_beq u t) (without s w) ≡ false
any-without s t [] h = refl
any-without s t (u ∷ w) h = ground (arith, any-without s t w)

without-IsWindow : (s now : Time) (w : List Time) → IsWindow now w → IsWindow now (without s w)
without-IsWindow s now [] h = tt
without-IsWindow s now (t ∷ w) h = ground (arith, without-IsWindow s now w h.2, any-without s t w)

length-without_absent :
    (t : Time) (w : List Time) → any (λ u. nat_beq u t) w ≡ false → length (without t w) ≡ length w
length-without_absent t [] h = refl
length-without_absent t (u ∷ w) h = ground (arith, length-without_absent t w)

-- Different seconds lose one at most.
length-without :
    (t now : Time) (w : List Time) → IsWindow now w → length w ≤ length (without t w) + 1
length-without t now [] h = omega arith
length-without t now (u ∷ w) h = elim (Bool-cases (nat_beq u t)) [
  | inl e ↦
      let same : u ≡ t = (nat_beq_iff u t).0 e in
      rw e (omega (arith, length-without_absent t w (rw same at h.1)))
  | inr e ↦ rw e (omega (arith, length-without t now w h.2))
]

without-IsRecent :
    (now k : ℕ) (w : List Time) → IsRecent now (suc k) w → IsRecent now k (without (now - k) w)
without-IsRecent now k [] r = tt
without-IsRecent now k (t ∷ w) r = ground (arith, without-IsRecent now k w r.1)

-- Different seconds that all lie in the last `k` are at most `k`.
length-IsRecent : (now k : ℕ) (w : List Time) → IsWindow now w → IsRecent now k w → length w ≤ k
length-IsRecent now zero [] h r = omega arith
length-IsRecent now zero (t ∷ w) h r = omega arith
length-IsRecent now (suc k) w h r = omega (
  arith,
  length-without (now - k) now w h,
  length-IsRecent now k (without (now - k) w) (without-IsWindow (now - k) now w h)
      (without-IsRecent now k w r),
)

drop_old-IsRecent : (now : Time) (w : List Time) → IsRecent now 60 (drop_old now w)
unfolding drop_old
drop_old-IsRecent now [] = tt
drop_old-IsRecent now (t ∷ w) = ground (arith, drop_old-IsRecent now w)

slide-IsRecent : (now : Time) (w : List Time) → IsRecent now 60 (slide now w)
unfolding slide add_member
slide-IsRecent now w = ground (arith, drop_old-IsRecent now w)

-- The count of a slid window is at most 60: it counts seconds, not requests.
pub length-slide : (now : Time) (w : List Time) → IsWindow now w → length (slide now w) ≤ 60
length-slide now w h =
    length-IsRecent now 60 (slide now w) (slide-IsWindow now w h) (slide-IsRecent now w)

drop_old_recent : (now : Time) (w : List Time) → IsRecent now 60 w → drop_old now w ≡ w
unfolding drop_old
drop_old_recent now [] r = refl
drop_old_recent now (t ∷ w) r = ground (arith, drop_old_recent now w)

any-add_member : (now : Time) (w : List Time) → any (λ t. nat_beq t now) (add_member now w) ≡ true
unfolding add_member
any-add_member now w = ground arith

-- A second request in the same second leaves the window as the first one made it.
slide-slide : (now : Time) (w : List Time) → slide now (slide now w) ≡ slide now w
unfolding slide
slide-slide now w =
    rw (drop_old_recent now (add_member now (drop_old now w)) (slide-IsRecent now w))
      (unfold add_member in rw (any-add_member now (drop_old now w)))

-- The user's seconds in the server are different, and none is in the future.
abbrev pub HasWindow : Text → Server → Type 0
HasWindow user s = IsWindow s.now (window_of (bucket_key user) s)

window_of-put : (key : Text) (w : List Time) (s : Server) → window_of key (put_window key w s) ≡ w
window_of-put key w s =
    ap (λ (o : Option (List Time)). elim o [ none ↦ [] | some v ↦ v ])
      (lookup-insert_self key w s.windows)

abbrev slid : Text → Redis → List Time
slid user r = slide r.server.now (window_of (bucket_key user) r.server)

-- AllowRate where Redis answers.
allow_rate_up :
    (user : Text) (rpm : ℤ) (r : Redis)
    → r.outage r.commands ≡ false
    → allow_rate user rpm r ≡ (
      ok (leb_ℤ (pos (length (slid user r))) rpm),
      record r {
        server = put_window (bucket_key user) (slid user r) r.server;
        commands = r.commands + 1;
      },
    )
unfolding allow_rate command
allow_rate_up user rpm r up = rw up

-- A limit of 60 requests a minute or more refuses nobody: the limiter counts the seconds of the last
-- minute that had a request, of which there are at most 60. The window keeps its form.
pub allow_rate_at_60 :
    (user : Text) (rpm : ℤ) (r : Redis)
    → r.outage r.commands ≡ false
    → HasWindow user r.server
    → pos 60 ≤ℤ rpm
    → ((allow_rate user rpm r).0 ≡ ok true) × HasWindow user (allow_rate user rpm r).1.server
allow_rate_at_60 user rpm r up h big =
    let bound = length-slide r.server.now (window_of (bucket_key user) r.server) h in
    let test : leb_ℤ (pos (length (slid user r))) rpm ≡ true = ground arith in
    rw (allow_rate_up user rpm r up) (
      ap ok test,
      subst (IsWindow r.server.now) (sym (window_of-put (bucket_key user) (slid user r) r.server))
          (slide-IsWindow r.server.now (window_of (bucket_key user) r.server) h),
    )

-- A request that follows one of the same user in the same second, with no other between them, gets
-- that one's answer, and leaves the window as that one did.
allow_rate_again :
    (user : Text) (rpm : ℤ) (r : Redis)
    → r.outage r.commands ≡ false
    → r.outage (r.commands + 1) ≡ false
    → let (answer, r') = allow_rate user rpm r in
      ((allow_rate user rpm r').0 ≡ answer)
      × (window_of (bucket_key user) (allow_rate user rpm r').1.server
          ≡ window_of (bucket_key user) r'.server)
allow_rate_again user rpm r up up' =
    let key = bucket_key user in
    let r' : Redis = record r {
      server = put_window key (slid user r) r.server;
      commands = r.commands + 1;
    } in
    let same : slid user r' ≡ slid user r =
      ap (slide r.server.now) (window_of-put key (slid user r) r.server)
      ∙ slide-slide r.server.now (window_of key r.server) in
    rw (allow_rate_up user rpm r up) (
      rw (allow_rate_up user rpm r' up') (
        ap (λ w. ok (leb_ℤ (pos (length w)) rpm)) same,
        window_of-put key (slid user r') r'.server
            ∙ same
            ∙ sym (window_of-put key (slid user r) r.server),
      ))
