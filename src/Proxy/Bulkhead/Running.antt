-- ===== src/Proxy/Bulkhead/Running.antt =====
-- The bulkhead of internal/proxy/bulkhead.go as a count of the requests that are running: it agrees
-- with the list of their providers.

use quarkgate.Prelude.{
  Bool-cases, List, Option, Text, [], arith, false, if◌then◌else◌, inl, inr, none, pos, refl, some,
  suc, text_beq_iff, true, ℕ, ◌++◌, ◌+ℤ◌, ◌<ℤ◌, ◌==◌, ◌∷◌, ◌≡◌, ◌≤ℤ◌, ◌⊎◌, ap, ltb_ℤ, text_beq_refl,
  wrap64, wrap64_id, ◌-ℤ◌, ◌∙◌, InInt64, leb_ℤ, lookup, ℤ, nat_eq, text_eq, int_eq,
}
use quarkgate.Proxy.Bulkhead.{Bulkhead, active_count, try_acquire, release, new_bulkhead}
use quarkgate.Proxy.Bulkhead.Limit.{
  IsLimited, IsLimited?, try_acquire-IsLimited, try_acquire_lem, active_count-set,
  release-IsLimited, new_bulkhead-IsLimited,
}

-- How many of the running requests are a provider's.
abbrev pub count : Text → List Text → ℕ
count q [] = 0
count q (p ∷ ps) = let rest = count q ps in if p == q then suc rest else rest

pub count-middle :
    (q p : Text) (xs ys : List Text)
    → count q (xs ++ p ∷ ys) ≡ (if p == q then suc (count q (xs ++ ys)) else count q (xs ++ ys))
count-middle q p [] ys = refl
count-middle q p (x ∷ xs) ys = elim (Bool-cases (x == q)) [
  | inl own ↦ rw own (ground (arith, count-middle q p xs ys))
  | inr other ↦ rw other (count-middle q p xs ys)
]

pub pos_add_one : (n : ℕ) → pos n +ℤ pos 1 ≡ pos (suc n)
unfolding ◌+ℤ◌
pos_add_one n = ground arith

pub pos_sub_one : (n : ℕ) → pos (suc n) -ℤ pos 1 ≡ pos n
unfolding ◌-ℤ◌
pos_sub_one n = ground arith

-- The bulkhead counts the running requests.
pub record Counts (b : Bulkhead) (running : List Text) : Type 0 where
  pub limited : IsLimited b
  pub counted : (q : Text) → active_count q b ≡ pos (count q running)

abbrev pub Counts? : Option Bulkhead → List Text → Type 0
Counts? none running = Unit
Counts? (some b) running = Counts b running

pub try_acquire-Counts :
    (p : Text) (b b' : Option Bulkhead) (running : List Text)
    → Counts? b running
    → try_acquire p b ≡ (true, b')
    → Counts? b' (p ∷ running)
unfolding try_acquire
try_acquire-Counts p none none running c e = tt
try_acquire-Counts p none (some b') running c e = cc
try_acquire-Counts p (some b) none running c e = ground arith
try_acquire-Counts p (some b) (some b') running c e = record {
  limited =
      let v : IsLimited? (try_acquire p (some b)).1 = try_acquire-IsLimited p (some b) c.limited in
      rw e at v;
  counted = λ q. counted_at q (try_acquire_lem p q b c.limited);
}
  where
    counted_at :
        (q : Text)
        → ((active_count p b <ℤ b.limit)
            × ((b'' : Bulkhead) × (try_acquire p (some b) ≡ (true, some b''))
                × (active_count q b''
                    ≡ (if p == q then active_count p b +ℤ pos 1 else active_count q b))))
          ⊎ ((b.limit ≤ℤ active_count p b) × (try_acquire p (some b) ≡ (false, some b)))
        → active_count q b' ≡ pos (count q (p ∷ running))
    counted_at q (inr (full, refused)) = cc
    counted_at q (inl (below, (b'', let_in, up))) =
        let same : b'' ≡ b' = cc in
        elim (Bool-cases (p == q)) [
          | inl own ↦
              let same_provider : p ≡ q = (text_beq_iff p q).0 own in
              let before : active_count p b ≡ pos (count q running) =
                ap (λ r. active_count r b) same_provider ∙ c.counted q in
              let after : active_count q b'' ≡ active_count p b +ℤ pos 1 = rw own at up in
              rw (own, ← same, after, before) (pos_add_one (count q running))
          | inr other ↦ rw other (ground (arith, rw other at up, c.counted q))
        ]

pub try_acquire-refuses :
    (p : Text) (b : Option Bulkhead) → (try_acquire p b).0 ≡ false → (try_acquire p b).1 ≡ b
unfolding try_acquire
try_acquire-refuses p none h = cc
try_acquire-refuses p (some b) h = ground arith

-- A running request that ends gives its place back.
pub release-Counts :
    (p : Text) (b : Option Bulkhead) (xs ys : List Text)
    → Counts? b (xs ++ p ∷ ys)
    → Counts? (release p b) (xs ++ ys)
unfolding release
release-Counts p none xs ys c = tt
release-Counts p (some b) xs ys c =
    let held : active_count p b ≡ pos (suc (count p (xs ++ ys))) =
      c.counted p ∙ ap pos (count-middle p p xs ys ∙ rw (text_beq_refl p) refl) in
    let running : ltb_ℤ (pos 0) (active_count p b) ≡ true = rw held (ground arith) in
    let v : IsLimited? (release p (some b)) = release-IsLimited p (some b) c.limited in
    let bounded : pos (suc (count p (xs ++ ys))) ≤ℤ b.limit = rw held at (c.limited.counts p).1 in
    let fits = c.limited.limit_fits in
    let id : wrap64 (pos (count p (xs ++ ys))) ≡ pos (count p (xs ++ ys)) =
      wrap64_id (pos (count p (xs ++ ys))) (omega arith, omega arith) in
    rw running (record {
      limited = rw running at v;
      counted = λ q. elim (Bool-cases (p == q)) [
        | inl own ↦
            rw (active_count-set, own, held, pos_sub_one, id)
              (ap (λ r. pos (count r (xs ++ ys))) ((text_beq_iff p q).0 own))
        | inr other ↦
            rw (active_count-set, other)
              (c.counted q ∙ ap pos (count-middle q p xs ys ∙ rw other refl))
      ];
    })

pub new_bulkhead-Counts : (limit : ℤ) → InInt64 limit → Counts? (new_bulkhead limit) []
unfolding new_bulkhead active_count lookup
new_bulkhead-Counts limit fits =
    let v : IsLimited? (new_bulkhead limit) = new_bulkhead-IsLimited limit fits in
    elim (Bool-cases (leb_ℤ limit (pos 0))) [
      | inl off ↦ rw off tt
      | inr on ↦ rw on (record { limited = rw on at v; counted = λ q. refl })
    ]

-- What the bulkhead says of one provider: the number of its requests that run, within the limit.
abbrev pub CountsOf : Option Bulkhead → Text → List Text → Type 0
CountsOf none p running = Unit
CountsOf (some b) p running =
    (active_count p b ≡ pos (count p running)) × (pos (count p running) ≤ℤ b.limit)

pub Counts-CountsOf :
    (b : Option Bulkhead) (p : Text) (running : List Text)
    → Counts? b running
    → CountsOf b p running
Counts-CountsOf none p running c = tt
Counts-CountsOf (some b) p running c = (c.counted p, rw (c.counted p) at (c.limited.counts p).1)
