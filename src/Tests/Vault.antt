-- ===== src/Tests/Vault.antt =====
-- The theorem on the vault, with a toy encryption that puts one code in front.
use quarkgate.Exec.{ok}
use quarkgate.Prelude.{Option, Text, [], codes, false, none, refl, some, ◌∷◌, ◌≡◌}
use quarkgate.Store.{Db, statement}
use quarkgate.Tests.Credits.{database}
use quarkgate.Tests.Gateway.{full_tables, vast}
use quarkgate.Vault.{get_credential, put_credential, upsert_entry}
use quarkgate.Vault.Roundtrip.{get_credential-put_credential}

abbrev seal : Text → Option Text
seal text = some (0 ∷ text)

abbrev unseal : Text → Option Text
unseal [] = none
unseal (c ∷ text) = some text

abbrev provider_database : Db
provider_database = record database { tables = full_tables }

abbrev after_put : Db
after_put = (put_credential seal unseal 11 (codes "master_vast") (codes "new") provider_database).1

put_run :
    put_credential seal unseal 11 (codes "master_vast") (codes "new") provider_database
    ≡ (ok tt, after_put)
unfolding put_credential statement upsert_entry
put_run = refl

put_up : after_put.outage after_put.statements ≡ false
unfolding put_credential statement
put_up = refl

get_credential-put_credential_example :
    (get_credential seal unseal (codes "vast") (codes "master_vast") after_put).0 ≡ ok (codes "new")
get_credential-put_credential_example =
    get_credential-put_credential seal unseal (codes "vast") (codes "master_vast") (codes "new")
      (0 ∷ codes "new") provider_database vast refl refl refl put_run put_up
