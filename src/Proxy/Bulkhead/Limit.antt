-- ===== src/Proxy/Bulkhead/Limit.antt =====
-- The bulkhead of internal/proxy/bulkhead.go as a limit on the requests that are running.
use quarkgate.Prelude.{
  Bool-cases, InInt64, List, Option, Text, [], arith, false, if◌then◌else◌, inl, inr, int_laws,
  leb_ℤ, leb→le, lookup, lookup-insert, ltb_ℤ, none, pos, some, text_beq_refl, true, wrap64,
  wrap64_id, ℤ, ◌+ℤ◌, ◌<ℤ◌, ◌==◌, ◌∷◌, ◌≡◌, ◌≤ℤ◌, ◌⊎◌, +ℤ_parts, ap, text_beq_iff, ◌-ℤ◌, nat_eq,
  text_eq, int_eq,
}
use quarkgate.Proxy.Bulkhead.{set_count, Bulkhead, active_count, new_bulkhead, try_acquire, release}

-- Every provider's count lies between 0 and the limit, which is a positive int.
pub record IsLimited (b : Bulkhead) : Type 0 where
  pub limit_pos : pos 0 <ℤ b.limit
  pub limit_fits : InInt64 b.limit
  pub counts : (p : Text) → (pos 0 ≤ℤ active_count p b) × (active_count p b ≤ℤ b.limit)

abbrev pub IsLimited? : Option Bulkhead → Type 0
IsLimited? none = Unit
IsLimited? (some b) = IsLimited b

pub active_count-set :
    (p q : Text) (n : ℤ) (b : Bulkhead)
    → active_count q (set_count p n b) ≡ (if p == q then wrap64 n else active_count q b)
unfolding active_count
active_count-set p q n b = ground (arith, lookup-insert p q (wrap64 n) b.active)

set_count-IsLimited :
    (p : Text) (n : ℤ) (b : Bulkhead)
    → IsLimited b
    → pos 0 ≤ℤ n
    → n ≤ℤ b.limit
    → IsLimited (set_count p n b)
set_count-IsLimited p n b v l u = record {
  limit_pos = v.limit_pos;
  limit_fits = v.limit_fits;
  counts = λ q.
      let fits = v.limit_fits in
      let id : wrap64 n ≡ n = wrap64_id n (omega arith, omega arith) in
      elim (Bool-cases (p == q)) [
        | inl e ↦ rw (active_count-set, e, id) (l, u)
        | inr e ↦ rw (active_count-set, e) (v.counts q)
      ];
}

pub new_bulkhead-IsLimited : (limit : ℤ) → InInt64 limit → IsLimited? (new_bulkhead limit)
unfolding new_bulkhead active_count lookup
new_bulkhead-IsLimited limit fits = elim (Bool-cases (leb_ℤ limit (pos 0))) [
  | inl e ↦ rw e tt
  | inr e ↦ rw e (record {
    limit_pos = ground arith;
    limit_fits = fits;
    counts = λ p. (omega arith, ground arith);
  })
]

pub try_acquire-IsLimited :
    (p : Text) (b : Option Bulkhead) → IsLimited? b → IsLimited? (try_acquire p b).1
unfolding try_acquire
try_acquire-IsLimited p none v = tt
try_acquire-IsLimited p (some b) v = elim (Bool-cases (leb_ℤ b.limit (active_count p b))) [
  | inl full ↦ rw full v
  | inr room ↦
      let below : active_count p b <ℤ b.limit = ground arith in
      let from = v.counts p in
      rw room (set_count-IsLimited p _ b v (omega int_laws) (omega int_laws))
]

pub release-IsLimited : (p : Text) (b : Option Bulkhead) → IsLimited? b → IsLimited? (release p b)
unfolding release
release-IsLimited p none v = tt
release-IsLimited p (some b) v = elim (Bool-cases (ltb_ℤ (pos 0) (active_count p b))) [
  | inl some_active ↦
      let above : pos 0 <ℤ active_count p b = ground arith in
      let from = v.counts p in
      rw some_active (set_count-IsLimited p _ b v (omega int_laws) (omega int_laws))
  | inr idle ↦ rw idle v
]

-- A call of the handler on the bulkhead: a request begins, or one that was let in ends.
pub data Call : Type 0 where
  begin : Text → Call
  finish : Text → Call

unfoldable pub call : Call → Option Bulkhead → Option Bulkhead
call (begin p) b = (try_acquire p b).1
call (finish p) b = release p b

unfoldable pub calls : List Call → Option Bulkhead → Option Bulkhead
unfolding call
calls [] b = b
calls (c ∷ cs) b = calls cs (call c b)

pub calls-IsLimited :
    (cs : List Call) (b : Option Bulkhead) → IsLimited? b → IsLimited? (calls cs b)
unfolding calls
calls-IsLimited [] b v = v
calls-IsLimited (begin p ∷ cs) b v = calls-IsLimited cs _ (try_acquire-IsLimited p b v)
calls-IsLimited (finish p ∷ cs) b v = calls-IsLimited cs _ (release-IsLimited p b v)

-- From a new bulkhead, after any calls in any order, no provider has more active requests than the
-- limit, and none has a negative count.
pub calls-within_limit :
    (limit : ℤ) (cs : List Call) (p : Text) {b : Bulkhead}
    → InInt64 limit
    → calls cs (new_bulkhead limit) ≡ some b
    → (pos 0 ≤ℤ active_count p b) × (active_count p b ≤ℤ b.limit)
calls-within_limit limit cs p {b} fits e =
    let v : IsLimited? (some b) =
      rw e at (calls-IsLimited cs (new_bulkhead limit) (new_bulkhead-IsLimited limit fits)) in
    v.counts p

-- The two ways TryAcquire goes.
try_acquire_cases :
    (p : Text) (b : Bulkhead)
    → IsLimited b
    → ((active_count p b <ℤ b.limit)
        × ((b' : Bulkhead) × (try_acquire p (some b) ≡ (true, some b'))
            × (active_count p b' ≡ active_count p b +ℤ pos 1)
            × ((q : Text) → (p == q) ≡ false → active_count q b' ≡ active_count q b)))
      ⊎ ((b.limit ≤ℤ active_count p b) × (try_acquire p (some b) ≡ (false, some b)))
unfolding try_acquire
try_acquire_cases p b v = elim (Bool-cases (leb_ℤ b.limit (active_count p b))) [
  | inl full ↦ inr (leb→le _ _ full, rw full)
  | inr room ↦
      let below : active_count p b <ℤ b.limit = ground arith in
      let from = v.counts p in
      let fits = v.limit_fits in
      let next = active_count p b +ℤ pos 1 in
      let id : wrap64 next ≡ next = wrap64_id next (omega int_laws, omega int_laws) in
      inl (
        below,
        (
          set_count p next b,
          rw room,
          rw (active_count-set, text_beq_refl p) id,
          λ q ne. rw (active_count-set, ne),
        ),
      )
]

-- On a limited bulkhead, a request is let in exactly when its provider is below the limit; then its
-- count goes up by one and every other provider's stays. Else nothing changes.
pub try_acquire_lem :
    (p q : Text) (b : Bulkhead)
    → IsLimited b
    → ((active_count p b <ℤ b.limit)
        × ((b' : Bulkhead) × (try_acquire p (some b) ≡ (true, some b'))
            × (active_count q b'
                ≡ (if p == q then active_count p b +ℤ pos 1 else active_count q b))))
      ⊎ ((b.limit ≤ℤ active_count p b) × (try_acquire p (some b) ≡ (false, some b)))
try_acquire_lem p q b v = elim (try_acquire_cases p b v) [
  | inr full ↦ inr full
  | inl (below, (c, let_in, up, others)) ↦ inl (
    below,
    (
      c,
      let_in,
      elim (Bool-cases (p == q)) [
        | inl own ↦ rw (own, ← ((text_beq_iff p q).0 own)) up
        | inr other ↦ rw other (others q other)
      ],
    ),
  )
]

-- A release after a request that was let in gives back every provider's count.
pub release-try_acquire :
    (p q : Text) (b b' : Bulkhead)
    → IsLimited b
    → try_acquire p (some b) ≡ (true, some b')
    → (b'' : Bulkhead) × (release p (some b') ≡ some b'') × (active_count q b'' ≡ active_count q b)
unfolding release
release-try_acquire p q b b' v e = elim (try_acquire_cases p b v) [
  | inl (below, (c, let_in, up, others)) ↦
      let same : c ≡ b' = ground (arith, let_in, e) in
      let up' : active_count p b' ≡ active_count p b +ℤ pos 1 = rw (← same) up in
      let from = v.counts p in
      let fits = v.limit_fits in
      let running : ltb_ℤ (pos 0) (active_count p b +ℤ pos 1) ≡ true =
        ground (arith, +ℤ_parts (active_count p b) (pos 1)) in
      let back : active_count p b +ℤ pos 1 -ℤ pos 1 ≡ active_count p b = omega int_laws in
      let id : wrap64 (active_count p b) ≡ active_count p b =
        wrap64_id (active_count p b) (omega arith, omega arith) in
      (
        set_count p (active_count p b) b',
        rw (up', running, back),
        elim (Bool-cases (p == q)) [
          | inl own ↦
              rw (active_count-set, own, id) (ap (λ r. active_count r b) ((text_beq_iff p q).0 own))
          | inr other ↦ rw (active_count-set, other, ← same) (others q other)
        ],
      )
  | inr (full, refused) ↦ ground (arith, refused, e)
]
