-- ===== src/Service/Auth.antt =====
-- internal/service/auth_service.go: registration and login.
pub mod Email
pub mod Login
use testovoe_bazis.Common.{
  ℕ, ◌||◌, not, Bool, true, false, Option, none, some, [], ltb, Text, text_eq, byte_len, trim_space,
  to_lower, ◌==◌, if◌then◌else◌, Error, sentinel, not_found, unauthorized, plain, shows_number,
  wrap, invalid, error_is, Action, pure, on_error, fail_if, check, ◌>>=◌, ◌>>◌,
}
use testovoe_bazis.Domain.{User}
use testovoe_bazis.Service.Gateways.{UserStore, TokenIssuer, PasswordHasher}
use Email.{matches_email}

abbrev min_password_length : ℕ
min_password_length = 8

abbrev max_password_length : ℕ
max_password_length = 72

abbrev min_username_length : ℕ
min_username_length = 3

abbrev max_username_length : ℕ
max_username_length = 100

abbrev max_email_length : ℕ
max_email_length = 255

-- `lower` is the table of `unicode.ToLower`.
pub record AuthService (W : Type 0) : Type 0 where
  pub users : UserStore W
  pub tokens : TokenIssuer W
  pub hasher : PasswordHasher W
  pub lower : ℕ → ℕ

-- `len` of a string counts bytes.
unfoldable pub validate_credentials : Text → Text → Text → Option Error
validate_credentials email username password =
    if email == [] || (ltb max_email_length (byte_len email) || not (matches_email email))
    then some (invalid (plain "invalid email"))
    else if ltb (byte_len username) min_username_length
        || ltb max_username_length (byte_len username)
    then some (invalid (plain "username must be 3-100 characters"))
    else if ltb (byte_len password) min_password_length
        || ltb max_password_length (byte_len password)
    then some (invalid (plain "password must be 8-72 characters"))
    else none

module _ {W : Type 0} (s : AuthService W) where
  open s use {users, tokens, hasher, lower}

  abbrev pub address : Text → Text
  address email = to_lower lower (trim_space email)

  unfoldable pub register : Text → Text → Text → Action W User
  register email username password = do
    check (validate_credentials (address email) (trim_space username) password)
    hash ← on_error (hasher.generate_from_password password) (wrap (plain "hash password"))
    users.create (address email) (trim_space username) hash

  -- An unknown address is answered like a wrong password. The comparison with the dummy hash, for
  -- its timing, has no other effect.
  unfoldable pub login : Text → Text → Action W Text
  login email password = do
    user ← on_error (users.get_by_email (address email)) (λ e.
        if error_is e not_found then sentinel unauthorized else wrap (plain "get user by email") e)
    fail_if (not (hasher.compare_hash_and_password user.password_hash password))
        (sentinel unauthorized)
    on_error (tokens.generate user.id user.username) (wrap (plain "generate token"))
