-- ===== src/Store/From.antt =====
-- What a block of statements has done when it succeeds, from the tables that it starts with: one
-- rule for each way to build a block. No rule says anything of a block that fails.
use quarkgate.Exec.{Error, Exec, Result, bind-eq-ok, check, ok, pure, ◌>>=◌, ◌>>◌}
use quarkgate.Prelude.{Bool, arith, false, if◌then◌else◌, refl, true, ◌∙◌, ◌≡◌, subst}
use quarkgate.Store.{Db, Tables, statement, statement-eq-ok, transaction, transaction-eq-ok}

pub record From {A : Type 0} (t : Tables) (Q : A → Tables → Type 0) (m : Exec Db A) : Type 0 where
  pub at : (db : Db) → db.tables ≡ t → (a : A) (db' : Db) → m db ≡ (ok a, db') → Q a db'.tables

module _ {A : Type 0} {t : Tables} {Q : A → Tables → Type 0} where
  pub From-pure : (a : A) → Q a t → From t Q (pure a)
  From-pure a q = record { at = λ db e b db' h. pure_case db e b db' h }
    where
      pure_case :
          (db : Db) → db.tables ≡ t → (b : A) (db' : Db) → pure a db ≡ (ok b, db') → Q b db'.tables
      pure_case db e b db' h = subst (λ (r : A × Tables). Q r.0 r.1) (ground (arith, e, h)) q

  pub From-if :
      (b : Bool) (m n : Exec Db A)
      → (b ≡ true → From t Q m)
      → (b ≡ false → From t Q n)
      → From t Q (if b then m else n)
  From-if true m n fm fn = fm refl
  From-if false m n fm fn = fn refl

  pub From-transaction : (m : Exec Db A) → From t Q m → From t Q (transaction m)
  From-transaction m fm = record {
    at = λ db e a db' h.
        let (db₁, db₂, start, ran, end) = transaction-eq-ok m db h in
        rw end (fm.at db₁ (start ∙ e) a db₂ ran);
  }

  pub From-only :
      (body : Tables → Result A × Tables)
      → ((a : A) (t' : Tables) → body t ≡ (ok a, t') → Q a t')
      → From t Q (statement body)
  From-only body k = record {
    at = λ db e a db' h. k a db'.tables (rw (← e) (statement-eq-ok body db h));
  }

module _ {A B : Type 0} {t : Tables} {Q : B → Tables → Type 0} where
  pub From-bind :
      (R : A → Tables → Type 0) (m : Exec Db A) (f : A → Exec Db B)
      → From t R m
      → ((a : A) (t' : Tables) → R a t' → From t' Q (f a))
      → From t Q (m >>= f)
  From-bind R m f fm fk = record {
    at = λ db e b db' h.
        let (a, db₁, ran, rest) = bind-eq-ok m f db h in
        (fk a db₁.tables (fm.at db e a db₁ ran)).at db₁ refl b db' rest;
  }

  pub From-statement :
      (body : Tables → Result A × Tables) (f : A → Exec Db B)
      → ((a : A) (t' : Tables) → body t ≡ (ok a, t') → From t' Q (f a))
      → From t Q (statement body >>= f)
  From-statement body f k =
      From-bind (λ a t'. body t ≡ (ok a, t')) (statement body) f (From-only body (λ a t' h. h)) k

  -- A statement of which a lemma says with what result it succeeds, and in which tables.
  pub From-known :
      (body : Tables → Result A × Tables) (f : A → Exec Db B) (a : A) (t' : Tables)
      → ((a' : A) (t₁ : Tables) → body t ≡ (ok a', t₁) → ◌≡◌ {A = A × Tables} (a, t') (a', t₁))
      → From t' Q (f a)
      → From t Q (statement body >>= f)
  From-known body f a t' same k =
      From-statement body f
        λ a' t₁ h. subst (λ (r : A × Tables). From r.1 Q (f r.0)) (same a' t₁ h) k

module _ {B : Type 0} {t : Tables} {Q : B → Tables → Type 0} where
  pub From-check :
      (b : Bool) (e : Error) (m : Exec Db B) → (b ≡ true → From t Q m) → From t Q (check b e >> m)
  From-check true e m k = record { at = λ db s b db' h. (k refl).at db s b db' h }
  From-check false e m k = record { at = λ db s b db' h. cc }

-- From consequences of what a block that succeeds has done.
pub From-weaken :
    {A : Type 0} {t : Tables} {m : Exec Db A} (Q R : A → Tables → Type 0)
    → ((a : A) (t' : Tables) → Q a t' → R a t')
    → From t Q m
    → From t R m
From-weaken Q R k from = record { at = λ db e a db' h. k a db'.tables (from.at db e a db' h) }
