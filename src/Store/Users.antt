-- ===== src/Store/Users.antt =====
-- The user operations of internal/store/store.go: CreateUser and GetUser.
use quarkgate.Exec.{Exec, err, no_rows, ok, unique_violation}
use quarkgate.Models.{User, Uuid}
use quarkgate.Prelude.{
  Text, [], any, if◌then◌else◌, none, pos, some, ◌++◌, ◌+◌, ◌==◌, ◌∷◌, nat_eq, text_eq, int_eq,
}
use quarkgate.Store.{Db, Tables, statement}
use quarkgate.Store.Rows.{find_user}

abbrev pub new_user : Tables → Text → User
new_user t email = record {
  id = t.next_uuid;
  email = email;
  balance = pos 0;
  created_at = t.now;
  updated_at = t.now;
}

-- CreateUser: the email is unique.
unfoldable pub create_user : Text → Exec Db User
create_user email = statement λ t.
    if any (λ (u : User). u.email == email) t.users then (err unique_violation, t) else (
      ok (new_user t email),
      record t { users = t.users ++ new_user t email ∷ []; next_uuid = t.next_uuid + 1 },
    )

-- GetUser
unfoldable pub get_user : Uuid → Exec Db User
get_user id = statement λ t. (elim (find_user id t.users) [ none ↦ err no_rows | some u ↦ ok u ], t)
