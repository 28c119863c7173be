-- ===== src/Redis/Quiet.antt =====
-- What the plain commands of internal/redis/client.go leave alone: the metering stream.
use quarkgate.Exec.{continue, Exec, Result, err, ok, ◌>>=◌, fail, failure, pure}
use quarkgate.Models.{Time}
use quarkgate.Prelude.{Bool-cases, Text, inl, inr, refl, ◌∙◌, ◌≡◌, Option, none, some, ℤ, codes}
use quarkgate.Redis.{IsUp, Redis, Server, command}
use quarkgate.Redis.Values.{get_text, set_cell, set_text, get_int64}
use quarkgate.Store.{Db}
use quarkgate.World.{World, on_db}

-- The stream, the number of its next message and the outages to come are the same.
pub record SameStream (a b : Redis) : Type 0 where
  pub outage : b.outage ≡ a.outage
  pub stream : b.server.stream ≡ a.server.stream
  pub next_id : b.server.next_id ≡ a.server.next_id

abbrev pub same_stream : (r : Redis) → SameStream r r
same_stream r = record { outage = refl; stream = refl; next_id = refl }

pub SameStream-trans : {a b c : Redis} → SameStream a b → SameStream b c → SameStream a c
SameStream-trans ab bc = record {
  outage = bc.outage ∙ ab.outage;
  stream = bc.stream ∙ ab.stream;
  next_id = bc.next_id ∙ ab.next_id;
}

pub SameStream-IsUp : {a b : Redis} → SameStream a b → IsUp a → IsUp b
SameStream-IsUp same up n = rw same.outage (up n)

-- A command on the cells only
abbrev OnCells : {A : Type 0} → (Server → Result A × Server) → Type 0
OnCells body = (s : Server) → ((body s).1.stream ≡ s.stream) × ((body s).1.next_id ≡ s.next_id)

command-SameStream :
    {A : Type 0} (body : Server → Result A × Server) (r : Redis)
    → OnCells body
    → SameStream r (command body r).1
unfolding command
command-SameStream body r cells = elim (Bool-cases (r.outage r.commands)) [
  | inl down ↦ rw down (record { outage = refl; stream = refl; next_id = refl })
  | inr up ↦
      rw up (record { outage = refl; stream = (cells r.server).0; next_id = (cells r.server).1 })
]

pub set_text-SameStream :
    (key value : Text) (ttl : Time) (r : Redis) → SameStream r (set_text key value ttl r).1
unfolding set_text set_cell
set_text-SameStream key value ttl r = command-SameStream _ r λ s. (refl, refl)

pub get_text-SameStream : (key : Text) (r : Redis) → SameStream r (get_text key r).1
unfolding get_text
get_text-SameStream key r = command-SameStream _ r λ s. (refl, refl)

continue-SameStream :
    {A B : Type 0} (x : Result A) (f : A → Exec Redis B) (r : Redis)
    → ((a : A) (s : Redis) → SameStream s (f a s).1)
    → SameStream r (continue x f r).1
continue-SameStream (ok a) f r rest = rest a r
continue-SameStream (err e) f r rest = same_stream r

pub get_int64-SameStream :
    (format_int : ℤ → Text) (parse_int : Text → Option ℤ) (key : Text) (r : Redis)
    → SameStream r (get_int64 format_int parse_int key r).1
unfolding get_int64
get_int64-SameStream format_int parse_int key r =
    SameStream-trans (get_text-SameStream key r)
      (continue-SameStream (get_text key r).0 _ (get_text key r).1 found)
  where
    parsed :
        (n : Option ℤ) (s : Redis)
        → SameStream s
            ((elim n as (λ x. Exec Redis (Option ℤ)) [
              | none ↦ fail (failure (codes "strconv.ParseInt"))
              | some k ↦ pure (some k)
            ])
              s).1
    parsed none s = same_stream s
    parsed (some k) s = same_stream s

    found :
        (value : Option Text) (s : Redis)
        → SameStream s
            ((elim value as (λ x. Exec Redis (Option ℤ)) [
              | none ↦ pure none
              | some v ↦ elim (parse_int v) as (λ x. Exec Redis (Option ℤ)) [
                | none ↦ fail (failure (codes "strconv.ParseInt"))
                | some k ↦ pure (some k)
              ]
            ])
              s).1
    found none s = same_stream s
    found (some v) s = parsed (parse_int v) s

-- A call that leaves the metering stream alone.
pub record IsQuiet {A : Type 0} (m : Exec World A) : Type 0 where
  pub at : (w : World) → SameStream w.redis (m w).1.redis

pub IsQuiet-bind :
    {A B : Type 0} (m : Exec World A) (f : A → Exec World B)
    → IsQuiet m
    → ((a : A) → IsQuiet (f a))
    → IsQuiet (m >>= f)
IsQuiet-bind {A} {B} m f first rest = record {
  at = λ w. SameStream-trans (first.at w) (after (m w).0 (m w).1);
}
  where
    after : (r : Result A) (w : World) → SameStream w.redis (continue r f w).1.redis
    after (ok a) w = (rest a).at w
    after (err e) w = same_stream w.redis

pub on_db-IsQuiet : {A : Type 0} (m : Exec Db A) → IsQuiet (on_db m)
on_db-IsQuiet m = record { at = λ w. same_stream w.redis }
