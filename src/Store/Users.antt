-- ===== src/Store/Users.antt =====
-- internal/store/mysql/user_repo.go: the repository of users.
use testovoe_bazis.Common.{
  suc, Bool, Option, [], ◌∷◌, ◌++◌, ℤ, pos, int_eq, ◌==◌, Text, find_first, if◌then◌else◌, sentinel,
  conflict, wrap, plain, Action, pure, gets, on_error, ◌>>=◌, ◌>>◌,
}
use testovoe_bazis.Domain.{User}
use testovoe_bazis.Store.Database.{
  Database, Tables, query_row, exec, or_not_found, now, user_row_error,
}
use testovoe_bazis.Store.Teams.{is_mysql_duplicate}

abbrev pub find_user : ℤ → Tables → Option User
find_user id t = find_first (λ (u : User). u.id == id) t.users

-- `UserRepository.GetByID`
unfoldable pub get_by_id : ℤ → Action Database User
get_by_id id = on_error (query_row (find_user id)) (or_not_found (plain "select user by id"))

abbrev add_user : User → Database → Database
add_user u db = record db {
  tables = record (db.tables) { users = db.tables.users ++ (u ∷ []) };
  next_user = suc db.next_user;
}

-- `collate` is the server's comparison of texts, utf8mb4_unicode_ci.
module _ (collate : Text → Text → Bool) where
  abbrev pub find_email : Text → Tables → Option User
  find_email email t = find_first (λ (u : User). collate u.email email) t.users

  -- `UserRepository.GetByEmail`
  unfoldable pub get_by_email : Text → Action Database User
  get_by_email email =
      on_error (query_row (find_email email)) (or_not_found (plain "select user by email"))

  -- INSERT INTO users
  unfoldable pub insert_user : Text → Text → Text → Action Database ℤ
  insert_user email username password_hash = do
    id ← gets (λ db. pos db.next_user)
    at ← gets now
    let u =
        let row : User = record {
          id = id;
          email = email;
          username = username;
          password_hash = password_hash;
          created_at = at;
        } in
        row
    exec (user_row_error collate u) (add_user u)
    pure id

  -- `UserRepository.Create`
  unfoldable pub create : Text → Text → Text → Action Database User
  create email username password_hash = do
    id ← on_error (insert_user email username password_hash) (λ e.
        if is_mysql_duplicate e
        then wrap (plain "email or username is already taken") (sentinel conflict)
        else wrap (plain "insert user") e)
    get_by_id id
