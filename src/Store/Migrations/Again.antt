-- ===== src/Store/Migrations/Again.antt =====
-- What a second run of Migrate of internal/db/db.go does.
use quarkgate.Exec.{Result, continue, Exec, or_fail, Error, ok, bind-eq-ok, err}
use quarkgate.Prelude.{
  All, List, Option, Text, [], any, any-append, arith, true, ◌++◌, ◌==◌, ◌||◌, ◌∷◌, ◌≡◌, Bool-cases,
  ap, inl, inr, none, refl, some, sym, text_beq_refl, ◌∙◌, subst, nat_eq, text_eq, int_eq,
}
use quarkgate.Store.{Tables, Db, statement, round_trip}
use quarkgate.Store.From.{
  From, From-bind, From-only, From-statement, From-if, From-known, From-pure, From-weaken,
}
use quarkgate.Store.Migrations.{
  applied, apply_migration, record_migration, migrate_each, migrate_path, migrate,
}

module _ (read_file : Text → Option Text) (run_sql : Text → Exec Tables (Unit {0})) where
  -- The scripts leave the table of the migrations alone.
  abbrev pub SparesMigrations : Type 0
  SparesMigrations = (s : Text) (t : Tables) → (run_sql s t).1.migrations ≡ t.migrations

  abbrev IsApplied : Text → Tables → Type 0
  IsApplied path t = applied read_file run_sql path t ≡ true

  -- Nothing that was applied is forgotten.
  abbrev Extends : Tables → Tables → Type 0
  Extends t t' = (path : Text) → IsApplied path t → IsApplied path t'

  abbrev AllApplied : List Text → Tables → Type 0
  AllApplied paths t = All (λ path. IsApplied path t) paths

  AllApplied-Extends :
      (paths : List Text) (t t' : Tables) → Extends t t' → AllApplied paths t → AllApplied paths t'
  AllApplied-Extends [] t t' x h = tt
  AllApplied-Extends (path ∷ paths) t t' x h = (x path h.0, AllApplied-Extends paths t t' x h.1)

  applied_after :
      (path other : Text) (t t' : Tables)
      → t'.migrations ≡ t.migrations ++ path ∷ []
      → applied read_file run_sql other t' ≡ (applied read_file run_sql other t || (path == other))
  applied_after path other t t' e =
      ap (any (λ (p : Text). p == other)) e
      ∙ ground (arith, any-append (λ (p : Text). p == other) t.migrations (path ∷ []))

  From-or_fail :
      {A : Type 0} (o : Option A) (e : Error) (t : Tables) → From t (λ _ t'. t' ≡ t) (or_fail o e)
  From-or_fail none e t = record { at = λ db same a db' h. cc }
  From-or_fail (some a) e t = From-pure a refl

  -- What a round of the loop leaves: all that was applied, and its own path.
  abbrev Applies : Text → Tables → Tables → Type 0
  Applies path t t' = Extends t t' × IsApplied path t'

  Applies-recorded :
      (path : Text) (t t' : Tables) → t'.migrations ≡ t.migrations ++ path ∷ [] → Applies path t t'
  Applies-recorded path t t' e = (
    λ other old. ground (arith, applied_after path other t t' e, old),
    ground (arith, applied_after path path t t' e, text_beq_refl path),
  )

  apply_migration-From :
      SparesMigrations
      → (path : Text) (t : Tables)
      → From t (λ _ t'. Applies path t t') (apply_migration read_file run_sql path)
  unfolding apply_migration record_migration
  apply_migration-From spares path t =
      From-bind (λ _ t₁. t₁ ≡ t) (or_fail (read_file path) _) _ (From-or_fail _ _ t)
        λ script t₁ same. From-statement (run_sql script) _ λ a t₂ ran. From-only _ λ b t₃ wrote.
          Applies-recorded path t t₃ (
            ap (λ (r : Result (Unit {0}) × Tables). r.1.migrations) (sym wrote)
            ∙ ap (λ ms. ms ++ path ∷ [])
                (ap (λ (r : Result (Unit {0}) × Tables). r.1.migrations) (sym ran)
                  ∙ spares script t₁
                  ∙ ap (λ (t₀ : Tables). t₀.migrations) same))

  migrate_path-From :
      SparesMigrations
      → (path : Text) (t : Tables)
      → From t (λ _ t'. Applies path t t') (migrate_path read_file run_sql path)
  unfolding migrate_path
  migrate_path-From spares path t =
      From-known (λ t₁. (ok (applied read_file run_sql path t₁), t₁)) _
        (applied read_file run_sql path t) t (λ a t₁ h. ground (arith, h))
        (From-if (applied read_file run_sql path t) _ _
          (λ there. From-pure tt ((λ other old. old), there))
          (λ absent. apply_migration-From spares path t))

  migrate_each-From :
      SparesMigrations
      → (paths : List Text) (t : Tables)
      → From t (λ _ t'. Extends t t' × AllApplied paths t') (migrate_each read_file run_sql paths)
  unfolding migrate_each
  migrate_each-From spares [] t = From-pure tt ((λ other old. old), tt)
  migrate_each-From spares (path ∷ paths) t =
      From-bind (λ _ t₁. Applies path t t₁) (migrate_path read_file run_sql path) _
        (migrate_path-From spares path t)
        λ a t₁ first.
          From-weaken _ _
            (λ b t' rest.
              ((λ other old. rest.0 other (first.0 other old)), (rest.0 path first.1, rest.1)))
            (migrate_each-From spares paths t₁)

  -- Where all is applied nothing is run.
  migrate_path-again :
      (path : Text) (db : Db)
      → IsApplied path db.tables
      → (migrate_path read_file run_sql path db).1.tables ≡ db.tables
  unfolding migrate_path statement
  migrate_path-again path db there = elim (Bool-cases (db.outage db.statements)) [
    | inl down ↦ rw down refl
    | inr up ↦ rw (up, there) refl
  ]

  migrate_each-again :
      (paths : List Text) (db : Db)
      → AllApplied paths db.tables
      → (migrate_each read_file run_sql paths db).1.tables ≡ db.tables
  unfolding migrate_each
  migrate_each-again [] db there = refl
  migrate_each-again (path ∷ paths) db there =
      goes_on (migrate_path read_file run_sql path db).0 (migrate_path read_file run_sql path db).1
        (migrate_path-again path db there.0)
        (λ db₁ same. migrate_each-again paths db₁ (subst (AllApplied paths) (sym same) there.1))
    where
      goes_on :
          (r : Result (Unit {0})) (db₁ : Db)
          → db₁.tables ≡ db.tables
          → ((db₂ : Db)
              → db₂.tables ≡ db.tables
              → (migrate_each read_file run_sql paths db₂).1.tables ≡ db₂.tables)
          → (continue r (λ _. migrate_each read_file run_sql paths) db₁).1.tables ≡ db.tables
      goes_on (err e) db₁ same rest = same
      goes_on (ok _) db₁ same rest = rest db₁ same ∙ same

  statement-reads : (db : Db) → (round_trip db).1.tables ≡ db.tables
  unfolding statement
  statement-reads db = elim (Bool-cases (db.outage db.statements)) [
    | inl down ↦ rw down refl
    | inr up ↦ rw up refl
  ]

  -- Once Migrate has succeeded, running it again with the same paths changes no table, wherever the
  -- database fails, if the scripts leave the table of the migrations alone.
  pub migrate-again :
      (paths : List Text) (db db₁ : Db)
      → SparesMigrations
      → migrate read_file run_sql paths db ≡ (ok tt, db₁)
      → (migrate read_file run_sql paths db₁).1.tables ≡ db₁.tables
  unfolding migrate
  migrate-again paths db db₁ spares ran =
      again (round_trip db₁).0 (round_trip db₁).1 (statement-reads db₁)
    where
      all_there : AllApplied paths db₁.tables
      all_there =
          let (a, db₀, begun, rest) =
            bind-eq-ok round_trip (λ _. migrate_each read_file run_sql paths) db ran in
          ((migrate_each-From spares paths db₀.tables).at db₀ refl tt db₁ rest).1

      again :
          (r : Result (Unit {0})) (db₂ : Db)
          → db₂.tables ≡ db₁.tables
          → (continue r (λ _. migrate_each read_file run_sql paths) db₂).1.tables ≡ db₁.tables
      again (err e) db₂ same = same
      again (ok _) db₂ same =
          migrate_each-again paths db₂ (subst (AllApplied paths) (sym same) all_there) ∙ same
