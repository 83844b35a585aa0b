-- ===== src/Service/Auth/Login.antt =====
-- `AuthService.Login` and `Register`: what an answer gives away, and what is stored.
use testovoe_bazis.Common.{
  ◌≡◌, ◌≤◌, ◌⊎◌, inl, inr, true, false, none, arith, Text, text_eq, byte_len, map, to_lower,
  trim_space, Bool-cases, Option-cases, Error, sentinel, not_found, unauthorized, error_is, wrap,
  plain, ok, err, outcome-cases, on_error-eq-ok,
}
use testovoe_bazis.Domain.{User}
use testovoe_bazis.Service.Auth.{AuthService, validate_credentials, register, login}
use testovoe_bazis.Service.Auth.Email.{IsEmail, matches_email_iff}

-- Credentials that may be stored; lengths are in bytes.
pub record IsCredentials (email username password : Text) : Type 0 where
  pub email_form : IsEmail email
  pub email_max : byte_len email ≤ 255
  pub username_min : 3 ≤ byte_len username
  pub username_max : byte_len username ≤ 100
  pub password_min : 8 ≤ byte_len password
  pub password_max : byte_len password ≤ 72

pub validate_credentials-IsCredentials :
    (email username password : Text)
    → validate_credentials email username password ≡ none
    → IsCredentials email username password
unfolding validate_credentials
validate_credentials-IsCredentials email username password h = record {
  email_form = (matches_email_iff email).0 (ground arith);
  email_max = ground arith;
  username_min = ground arith;
  username_max = ground arith;
  password_min = ground arith;
  password_max = ground arith;
}

module _ {W : Type 0} (s : AuthService W) where
  open s use {users, tokens, hasher, lower}

  -- An address without the spaces around it, in lower case letter by letter.
  abbrev pub normalised : Text → Text
  normalised email = map lower (trim_space email)

  -- An unknown address and a wrong password are answered alike, with the bare `ErrUnauthorized`.
  pub login_unknown_or_wrong :
      (email password : Text) (w : W) (w' : W)
      → ((e : Error) × (users.get_by_email (normalised email) w ≡ (err e, w'))
          × (error_is e not_found ≡ true))
        ⊎ ((u : User) × (users.get_by_email (normalised email) w ≡ (ok u, w'))
            × (hasher.compare_hash_and_password u.password_hash password ≡ false))
      → login s email password w ≡ (err (sentinel unauthorized), w')
  unfolding login to_lower
  login_unknown_or_wrong email password w w' (inl (e, there, unknown)) = ground arith
  login_unknown_or_wrong email password w w' (inr (u, there, wrong)) = ground arith

  -- A token is issued only for the user who has the normalised address and whose stored hash
  -- matches the password, and it carries the id and name of that user.
  pub login-eq-ok :
      (email password : Text) (w : W) (token : Text) (w' : W)
      → login s email password w ≡ (ok token, w')
      → (u : User) × (w1 : W) × (users.get_by_email (normalised email) w ≡ (ok u, w1))
        × (hasher.compare_hash_and_password u.password_hash password ≡ true)
        × (tokens.generate u.id u.username w1 ≡ (ok token, w'))
  unfolding login to_lower
  login-eq-ok email password w token w' h =
      elim (outcome-cases (users.get_by_email (normalised email) w)) [
        | inl (u, w1, first) ↦
            elim (Bool-cases (hasher.compare_hash_and_password u.password_hash password)) [
              | inl right ↦ (
                u,
                w1,
                first,
                right,
                on_error-eq-ok (tokens.generate u.id u.username) (wrap (plain "generate token")) w1
                    (ground arith),
              )
              | inr wrong ↦ absurd (ground arith)
            ]
        | inr (e, w1, failed) ↦ absurd (ground arith)
      ]

  -- A successful `Register` was given credentials that are in order once the spaces around address
  -- and name are dropped and the address is in lower case; what it stores is that address and name
  -- with a hash that was made from the password.
  pub register-eq-ok :
      (email username password : Text) (w : W) (u : User) (w' : W)
      → register s email username password w ≡ (ok u, w')
      → IsCredentials (normalised email) (trim_space username) password
        × ((hash : Text) × (w1 : W) × (hasher.generate_from_password password w ≡ (ok hash, w1))
            × (users.create (normalised email) (trim_space username) hash w1 ≡ (ok u, w')))
  unfolding register to_lower
  register-eq-ok email username password w u w' h =
      elim (Option-cases (validate_credentials (normalised email) (trim_space username) password)) [
        | inl valid ↦ elim (outcome-cases (hasher.generate_from_password password w)) [
          | inl (hash, w1, first) ↦ (
            validate_credentials-IsCredentials (normalised email) (trim_space username) password
                valid,
            (hash, w1, first, ground arith),
          )
          | inr (e, w1, failed) ↦ absurd (ground arith)
        ]
        | inr (e, bad) ↦ absurd (ground arith)
      ]
