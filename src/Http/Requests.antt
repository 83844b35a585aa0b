-- ===== src/Http/Requests.antt =====
-- What the handlers of internal/httpapi share: how a request is read, and how a handler ends.
use testovoe_bazis.Common.{
  ℕ, Option, none, some, ℤ, Text, sentinel, unauthorized, invalid, plain, Result, ok, err, Action,
  pure, fail,
}
use testovoe_bazis.Http.{Response, respond}

-- What the handlers read of a request: the user that the token named, the URL parameter `id`,
-- `url.Values.Get`, and the body.
pub record Request : Type 0 where
  pub user_id : Option ℤ
  pub id : Text
  pub query : Text → Text
  pub body : Text

abbrev pub lift : {W : Type 0} {A : Type 0} → Result A → Action W A
lift (ok a) = pure a
lift (err e) = fail e

-- `Handler.currentUser`
abbrev pub current_user : Option ℤ → Result ℤ
current_user none = err (sentinel unauthorized)
current_user (some id) = ok id

-- `decodeJSON`
abbrev pub decode_json : {A : Type 0} → Option A → Result A
decode_json none = err (invalid (plain "invalid request body: %s"))
decode_json (some a) = ok a

-- Every handler stops at its first error.
abbrev pub answer : {W : Type 0} {A : Type 0} → ℕ → Action W A → W → Response A × W
answer status m w = let (r, w') = m w in (respond status r, w')
