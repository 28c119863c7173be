-- ===== src/Proxy/StreamMeter/Pass/Reads.antt =====
-- The reads of the copy of internal/proxy/stream_meter.go, up to its end.
use quarkgate.Models.{Time}
use quarkgate.Prelude.{
  Bool, Bool-cases, List, Option, Option-cases, [], ap, append-nil, append_assoc, arith, false,
  if◌then◌else◌, inl, inr, length, length-append, none, refl, some, subst, suc, sym, take, true, ℕ,
  ◌++◌, ◌+◌, ◌∙◌, ◌∷◌, ◌≡◌, ◌⊎◌,
}
use quarkgate.Proxy.StreamMeter.{Decode, MeteringReader, finalize_usage}
use quarkgate.Proxy.StreamMeter.Copy.{
  CopyEnd, CopyResult, Event, ReadEnd, context_done, copy_from, deadline_exceeded, finished,
  insufficient_credits, is_past, next_activity, next_reader, read_failed, stop_at, take_line,
}
use quarkgate.Proxy.StreamMeter.Pass.Lines.{
  Passed, finalize_usage-texts, lines, next_reader-Passed, next_reader-body, take_line-Passed,
  take_line-body,
}

-- How many events the copy reads of these, and how it ends: it looks at the context and the deadline
-- before each read, and it goes on after a read just where more may follow.
pub data ReadsTo (deadline : Option Time) : List Event → ℕ → CopyResult → Type 0 where
  ran_out : ReadsTo deadline [] 0 read_failed
  left :
      {e : Event} {es : List Event} → e.cancelled ≡ true → ReadsTo deadline (e ∷ es) 0 context_done
  late :
      {e : Event} {es : List Event}
      → e.cancelled ≡ false
      → is_past deadline e.before ≡ true
      → ReadsTo deadline (e ∷ es) 0 deadline_exceeded
  cut :
      {e : Event} {es : List Event}
      → e.cancelled ≡ false
      → is_past deadline e.before ≡ false
      → ReadsTo deadline (e ∷ es) 1 insufficient_credits
  ended :
      {e : Event} {es : List Event}
      → e.cancelled ≡ false
      → is_past deadline e.before ≡ false
      → e.ending ≡ ReadEnd.eof
      → ReadsTo deadline (e ∷ es) 1 finished
  broke :
      {e : Event} {es : List Event}
      → e.cancelled ≡ false
      → is_past deadline e.before ≡ false
      → e.ending ≡ ReadEnd.broken
      → ReadsTo deadline (e ∷ es) 1 read_failed
  goes_on :
      {e : Event} {es : List Event} {n : ℕ} {result : CopyResult}
      → e.cancelled ≡ false
      → is_past deadline e.before ≡ false
      → e.ending ≡ ReadEnd.more
      → ReadsTo deadline es n result
      → ReadsTo deadline (e ∷ es) (suc n) result

-- What an end of the copy has kept and passed on, from a reader and a total before it.
pub record HasRead (deadline : Option Time) (total : ℕ) (events : List Event) (m : MeteringReader)
    (r : CopyEnd) : Type 0 where
  pub count : ℕ
  pub reads : ReadsTo deadline events count r.1
  pub kept : r.2.body ≡ m.body ++ lines (take count events)
  pub total_eq : r.0 ≡ total + length (lines (take count events))
  pub passed : Passed m.written m.body → Passed r.2.written r.2.body

-- An end that has read nothing more, or one line more.
finalize-HasRead_none :
    (deadline : Option Time) (total : ℕ) (events : List Event) (result : CopyResult)
    (m : MeteringReader)
    → ReadsTo deadline events 0 result
    → HasRead deadline total events m (total, result, finalize_usage m)
finalize-HasRead_none deadline total events result m reads =
    let (b, w) = finalize_usage-texts m in
    record {
      count = 0;
      reads = reads;
      kept = rw b (sym (append-nil m.body));
      total_eq = omega arith;
      passed = λ h. rw (b, w) h;
    }

finalize-HasRead_one :
    (decode : Decode) (deadline : Option Time) (total : ℕ) (e : Event) (events : List Event)
    (result : CopyResult) (m : MeteringReader)
    → ReadsTo deadline (e ∷ events) 1 result
    → HasRead deadline total
        (e ∷ events)
        m
        (total + length e.line, result, finalize_usage (take_line decode e.line m))
finalize-HasRead_one decode deadline total e events result m reads =
    let (b, w) = finalize_usage-texts (take_line decode e.line m) in
    record {
      count = 1;
      reads = reads;
      kept = rw (b, take_line-body, append-nil);
      total_eq = rw append-nil;
      passed = λ h. rw (b, w) (take_line-Passed decode e.line m h);
    }

ReadEnd-cases : (x : ReadEnd) → (x ≡ ReadEnd.more) ⊎ (x ≡ ReadEnd.eof) ⊎ (x ≡ ReadEnd.broken)
ReadEnd-cases ReadEnd.more = inl refl
ReadEnd-cases ReadEnd.eof = inr (inl refl)
ReadEnd-cases ReadEnd.broken = inr (inr refl)

module _ (decode : Decode) (deadline : Option Time) (total : ℕ) (e : Event) (events : List Event)
    (m : MeteringReader) {r : CopyEnd} (result : CopyResult) where
  unread-HasRead :
      ReadsTo deadline (e ∷ events) 0 result
      → some (total, result, finalize_usage m) ≡ some r
      → HasRead deadline total (e ∷ events) m r
  unread-HasRead reads same =
      subst (HasRead deadline total (e ∷ events) m) (ground (arith, same))
        (finalize-HasRead_none deadline total (e ∷ events) result m reads)

  read-HasRead :
      ReadsTo deadline (e ∷ events) 1 result
      → some (total + length e.line, result, finalize_usage (take_line decode e.line m)) ≡ some r
      → HasRead deadline total (e ∷ events) m r
  read-HasRead reads same =
      subst (HasRead deadline total (e ∷ events) m) (ground (arith, same))
        (finalize-HasRead_one decode deadline total e events result m reads)

if-true :
    {A : Type 0} (b : Bool) {x : A} (y : A) {r : A} → b ≡ true → (if b then x else y) ≡ r → x ≡ r
if-true true y e h = h
if-true false y e h = cc

if-false : {A : Type 0} (b : Bool) (x : A) {y r : A} → b ≡ false → (if b then x else y) ≡ r → y ≡ r
if-false true x e h = cc
if-false false x e h = h

-- The loop returns before a read, or after one.
stop_at-HasRead :
    (decode : Decode) (deadline : Option Time) (total : ℕ) (e : Event) (events : List Event)
    (m : MeteringReader) {r : CopyEnd}
    → stop_at decode deadline total e m ≡ some r
    → HasRead deadline total (e ∷ events) m r
unfolding stop_at
stop_at-HasRead decode deadline total e events m {r} h = elim (Bool-cases e.cancelled) [
  | inl gone ↦
      unread-HasRead decode deadline total e events m context_done (ReadsTo.left gone)
        (rw gone at h)
  | inr stayed ↦ elim (Bool-cases (is_past deadline e.before)) [
    | inl past ↦
        unread-HasRead decode deadline total e events m deadline_exceeded (ReadsTo.late stayed past)
          (rw (stayed, past) at h)
    | inr in_time ↦ elim (Bool-cases (take_line decode e.line m).soft_cap_exceeded) [
      | inl over ↦
          read-HasRead decode deadline total e events m insufficient_credits
            (ReadsTo.cut stayed in_time)
            (if-true (take_line decode e.line m).soft_cap_exceeded _ over
              (rw (stayed, in_time) at h))
      | inr within ↦
          let rest =
            if-false (take_line decode e.line m).soft_cap_exceeded _ within
              (rw (stayed, in_time) at h) in
          elim (ReadEnd-cases e.ending) [
            | inl more ↦ cc (rw more at rest)
            | inr (inl at_end) ↦
                read-HasRead decode deadline total e events m finished
                  (ReadsTo.ended stayed in_time at_end) (rw at_end at rest)
            | inr (inr failed) ↦
                read-HasRead decode deadline total e events m read_failed
                  (ReadsTo.broke stayed in_time failed) (rw failed at rest)
          ]
    ]
  ]
]

-- Where the loop goes on, it has read a line that is not the last.
stop_at-eq-none :
    (decode : Decode) (deadline : Option Time) (total : ℕ) (e : Event) (m : MeteringReader)
    → stop_at decode deadline total e m ≡ none
    → (e.cancelled ≡ false) × (is_past deadline e.before ≡ false) × (e.ending ≡ ReadEnd.more)
unfolding stop_at
stop_at-eq-none decode deadline total e m h = ground arith

HasRead-next :
    (deadline : Option Time) (total : ℕ) (e : Event) (events : List Event) (m m' : MeteringReader)
    (r : CopyEnd)
    → e.cancelled ≡ false
    → is_past deadline e.before ≡ false
    → e.ending ≡ ReadEnd.more
    → m'.body ≡ m.body ++ e.line
    → (Passed m.written m.body → Passed m'.written m'.body)
    → HasRead deadline (total + length e.line) events m' r
    → HasRead deadline total (e ∷ events) m r
HasRead-next deadline total e events m m' r stayed in_time more body keep rest = record {
  count = suc rest.count;
  reads = ReadsTo.goes_on stayed in_time more rest.reads;
  kept =
      rest.kept
      ∙ ap (λ b. b ++ lines (take rest.count events)) body
      ∙ append_assoc m.body e.line (lines (take rest.count events));
  total_eq = omega (arith, rest.total_eq, length-append e.line (lines (take rest.count events)));
  passed = λ h. rest.passed (keep h);
}

pub copy_from-HasRead :
    (decode : Decode) (deadline : Option Time) (total : ℕ) (last : Time) (events : List Event)
    (m : MeteringReader)
    → HasRead deadline total events m (copy_from decode deadline total last events m)
unfolding copy_from
copy_from-HasRead decode deadline total last [] m =
    finalize-HasRead_none deadline total [] read_failed m ReadsTo.ran_out
copy_from-HasRead decode deadline total last (e ∷ events) m =
    elim (Option-cases (stop_at decode deadline total e m)) [
      | inl on ↦
          let (stayed, in_time, more) = stop_at-eq-none decode deadline total e m on in
          rw on (
            HasRead-next deadline total e events m _ _ stayed in_time more
              (next_reader-body decode last e m) (next_reader-Passed decode last e m)
              (copy_from-HasRead decode deadline (total + length e.line) (next_activity last e m)
                events (next_reader decode last e m)))
      | inr (r, stopped) ↦ rw stopped (stop_at-HasRead decode deadline total e events m stopped)
    ]
