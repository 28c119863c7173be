-- ===== src/Store/Usage/Summary.antt =====
-- UsageSummary24h and BurnRate24h of internal/store/store.go: two views of the same charges.
use quarkgate.Exec.{ok}
use quarkgate.Models.{Time, UsageLog, Uuid}
use quarkgate.Prelude.{
  Bool-cases, List, Text, [], arith, if◌then◌else◌, inl, inr, int_laws, ltb, pos, refl, select, sym,
  text_beq_iff, ℤ, ◌&&◌, ◌+ℤ◌, ◌+◌, ◌==◌, ◌∙◌, ◌∷◌, ◌≡◌, nat_eq, text_eq, int_eq,
}
use quarkgate.Store.{Db, statement-eq-ok}
use quarkgate.Store.Usage.{
  UsageSummaryRow, add_to_summary, burn_rate_24h, is_recent, sum_captured, summarize,
  usage_summary_24h,
}

-- The totals of a provider's rows, summed up.
abbrev pub total_of : Text → List UsageSummaryRow → ℤ
total_of provider [] = pos 0
total_of provider (r ∷ rows) =
    if r.provider_slug == provider
    then r.total +ℤ total_of provider rows
    else total_of provider rows

-- The totals of a summary, summed up.
abbrev pub sum_totals : List UsageSummaryRow → ℤ
sum_totals [] = pos 0
sum_totals (r ∷ rows) = r.total +ℤ sum_totals rows

-- What a user's requests that started in the last 24 hours were charged.
abbrev pub charged : Uuid → Time → List UsageLog → ℤ
charged user now [] = pos 0
charged user now (l ∷ ls) =
    if (l.user_id == user) && ltb now (l.started_at + 86400)
    then l.credits_captured +ℤ charged user now ls
    else charged user now ls

-- The same, of one provider's.
abbrev pub charged_by : Text → Uuid → Time → List UsageLog → ℤ
charged_by provider user now [] = pos 0
charged_by provider user now (l ∷ ls) =
    if (l.user_id == user) && ltb now (l.started_at + 86400) && (l.provider_slug == provider)
    then l.credits_captured +ℤ charged_by provider user now ls
    else charged_by provider user now ls

sum_totals-add_to_summary :
    (l : UsageLog) (rows : List UsageSummaryRow)
    → sum_totals (add_to_summary l rows) ≡ l.credits_captured +ℤ sum_totals rows
unfolding add_to_summary
sum_totals-add_to_summary l [] = refl
sum_totals-add_to_summary l (r ∷ rows) = elim (Bool-cases (r.provider_slug == l.provider_slug)) [
  | inl e ↦ rw e (omega int_laws)
  | inr e ↦ rw (e, sum_totals-add_to_summary l rows) (omega int_laws)
]

total_of-add_to_summary :
    (provider : Text) (l : UsageLog) (rows : List UsageSummaryRow)
    → total_of provider (add_to_summary l rows) ≡ (
        if l.provider_slug == provider
        then l.credits_captured +ℤ total_of provider rows
        else total_of provider rows)
unfolding add_to_summary
total_of-add_to_summary provider l [] = refl
total_of-add_to_summary provider l (r ∷ rows) =
    elim (Bool-cases (r.provider_slug == l.provider_slug)) [
      | inl e ↦
          let same = (text_beq_iff r.provider_slug l.provider_slug).0 e in
          elim (Bool-cases (l.provider_slug == provider)) [
            | inl own ↦ rw (e, same, own) (omega int_laws)
            | inr other ↦ rw (e, same, other) refl
          ]
      | inr e ↦ elim (Bool-cases (l.provider_slug == provider)) [
        | inl own ↦ elim (Bool-cases (r.provider_slug == provider)) [
          | inl both ↦ rw (e, total_of-add_to_summary provider l rows, own, both) (omega int_laws)
          | inr apart ↦ rw (e, total_of-add_to_summary provider l rows, own, apart) refl
        ]
        | inr other ↦ rw (e, total_of-add_to_summary provider l rows, other) refl
      ]
    ]

sum_totals-summarize :
    (user : Uuid) (now : Time) (ls : List UsageLog)
    → sum_totals (summarize (select (is_recent user now) ls)) ≡ charged user now ls
unfolding summarize
sum_totals-summarize user now [] = refl
sum_totals-summarize user now (l ∷ ls) = elim (Bool-cases (is_recent user now l)) [
  | inl recent ↦
      rw
        (
          recent,
          sum_totals-add_to_summary l (summarize (select (is_recent user now) ls)),
          sum_totals-summarize user now ls,
        )
        refl
  | inr old ↦ rw (old, sum_totals-summarize user now ls) refl
]

total_of-summarize :
    (provider : Text) (user : Uuid) (now : Time) (ls : List UsageLog)
    → total_of provider (summarize (select (is_recent user now) ls))
      ≡ charged_by provider user now ls
unfolding summarize
total_of-summarize provider user now [] = refl
total_of-summarize provider user now (l ∷ ls) = elim (Bool-cases (is_recent user now l)) [
  | inl recent ↦
      rw
        (
          recent,
          total_of-add_to_summary provider l (summarize (select (is_recent user now) ls)),
          total_of-summarize provider user now ls,
        )
        (ground (arith, recent))
  | inr old ↦ rw (old, total_of-summarize provider user now ls) (ground (arith, old))
]

sum_captured-select :
    (user : Uuid) (now : Time) (ls : List UsageLog)
    → sum_captured (select (is_recent user now) ls) ≡ charged user now ls
sum_captured-select user now [] = refl
sum_captured-select user now (l ∷ ls) = elim (Bool-cases (is_recent user now l)) [
  | inl recent ↦ rw (recent, sum_captured-select user now ls) refl
  | inr old ↦ rw (old, sum_captured-select user now ls) refl
]

-- Where both queries of a user succeed on the same tables, the burn rate is what the user's requests
-- that started in the last 24 hours were charged; the totals of the summary sum up to it; and the
-- summary's total of a provider is what that provider's requests among them were charged.
pub usage_summary_24h-burn_rate_24h :
    (user : Uuid) (db : Db) (provider : Text) {rows : List UsageSummaryRow} {total : ℤ}
    {db₁ db₂ : Db}
    → usage_summary_24h user db ≡ (ok rows, db₁)
    → burn_rate_24h user db ≡ (ok total, db₂)
    → (total ≡ charged user db.tables.now db.tables.usage_logs)
      × (sum_totals rows ≡ total)
      × (total_of provider rows ≡ charged_by provider user db.tables.now db.tables.usage_logs)
unfolding usage_summary_24h burn_rate_24h
usage_summary_24h-burn_rate_24h user db provider {rows} {total} h k =
    let now = db.tables.now in
    let logs = db.tables.usage_logs in
    let found : summarize (select (is_recent user now) logs) ≡ rows =
      ground (arith, statement-eq-ok _ db h) in
    let burnt : sum_captured (select (is_recent user now) logs) ≡ total =
      ground (arith, statement-eq-ok _ db k) in
    (
      sym burnt ∙ sum_captured-select user now logs,
      rw (← found, ← burnt)
          (sum_totals-summarize user now logs ∙ sym (sum_captured-select user now logs)),
      rw (← found) (total_of-summarize provider user now logs),
    )
