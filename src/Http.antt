-- ===== src/Http.antt =====
-- internal/httpapi/render.go: answers, and the numbers of a path and of a query.
pub mod Numbers
pub mod Answers
pub mod Requests
pub mod Tasks
pub mod Accounts
pub mod Teams
pub mod Reports
pub mod Router
pub mod Limits
use testovoe_bazis.Common.{
  ℕ, zero, suc, ◌+◌, ◌*◌, ◌-◌, ◌^◌, ◌&&◌, ◌||◌, not, Bool, true, false, Option, none, some, List,
  [], ◌∷◌, ℤ, pos, negsuc, nat_eq, ◌==◌, ltb, leb, ltb_ℤ, leb_ℤ, Text, text_eq, codes,
  if◌then◌else◌, Error, Result, ok, err, sentinel, not_found, forbidden, unauthorized, validation,
  conflict, error_is, invalid, plain, shows_text,
}

-- The body of an answer: a fixed text, the text of an error, or a value as JSON.
pub data Payload (A : Type 0) : Type 0 where
  says : Text → Payload A
  tells : Error → Payload A
  shows : A → Payload A

pub record Response (A : Type 0) : Type 0 where
  pub status : ℕ
  pub payload : Payload A

module _ {A : Type 0} where
  -- `Handler.respondError`
  unfoldable pub respond_error : Error → Response A
  respond_error e =
      if error_is e not_found
      then record { status = 404; payload = says (codes "not found") }
      else if error_is e forbidden
      then record { status = 403; payload = says (codes "forbidden") }
      else if error_is e unauthorized
      then record { status = 401; payload = says (codes "unauthorized") }
      else if error_is e validation
      then record { status = 400; payload = tells e }
      else if error_is e conflict
      then record { status = 409; payload = tells e }
      else record { status = 500; payload = says (codes "internal server error") }

  -- How every handler ends: `respondError`, or `respondJSON` with the status of success.
  unfoldable pub respond : ℕ → Result A → Response A
  respond status (ok a) = record { status = status; payload = shows a }
  respond status (err e) = respond_error e

abbrev is_digit : ℕ → Bool
is_digit c = leb b'0' c && leb c b'9'

unfoldable pub parse_digits : ℕ → Text → Option ℕ
parse_digits acc [] = some acc
parse_digits acc (c ∷ s) =
    let rest = parse_digits (acc * 10 + (c - b'0')) s in if is_digit c then rest else none

abbrev parse_nat : Text → Option ℕ
parse_nat [] = none
parse_nat (c ∷ s) = parse_digits 0 (c ∷ s)

abbrev negated : ℕ → ℤ
negated zero = pos 0
negated (suc n) = negsuc n

abbrev as_pos : Option ℕ → Option ℤ
as_pos none = none
as_pos (some n) = if ltb n (2 ^ 63) then some (pos n) else none

abbrev as_neg : Option ℕ → Option ℤ
as_neg none = none
as_neg (some n) = if leb n (2 ^ 63) then some (negated n) else none

-- `strconv.ParseInt(s, 10, 64)`, which `Atoi` is too: a sign or none, digits, 64 bits.
unfoldable pub parse_int : Text → Option ℤ
parse_int [] = none
parse_int (c ∷ s) =
    if c == b'-'
    then as_neg (parse_nat s)
    else if c == b'+'
    then as_pos (parse_nat s)
    else as_pos (parse_nat (c ∷ s))

abbrev positive : Option ℤ → Result ℤ
positive none = err (invalid (plain "invalid id in path"))
positive (some id) = if leb_ℤ id (pos 0) then err (invalid (plain "invalid id in path")) else ok id

-- `pathID`, of the URL parameter `id`.
unfoldable pub path_id : Text → Result ℤ
path_id raw = positive (parse_int raw)

abbrev or_invalid : Text → Option ℤ → Result ℤ
or_invalid name none = err (invalid (shows_text "%s must be an integer" name))
or_invalid name (some v) = ok v

-- `queryInt` and `queryInt64`; `get` is `url.Values.Get`.
unfoldable pub query_int : (Text → Text) → Text → Result ℤ
query_int get name = if get name == [] then ok (pos 0) else or_invalid name (parse_int (get name))
