-- ===== src/Http/Accounts.antt =====
-- internal/httpapi/handlers_auth.go: registration and login.
use testovoe_bazis.Common.{Option, Text, ◌>>=◌}
use testovoe_bazis.Domain.{User}
use testovoe_bazis.Service.Auth.{AuthService}
use testovoe_bazis.Service.Auth as AuthOperations
use testovoe_bazis.Http.{Response}
use testovoe_bazis.Http.Requests.{Request, lift, decode_json, answer}

pub record RegisterRequest : Type 0 where
  pub email : Text
  pub username : Text
  pub password : Text

pub record LoginRequest : Type 0 where
  pub email : Text
  pub password : Text

-- `encoding/json` on the bodies: `none` stands for an error.
pub record AccountCodec : Type 0 where
  pub register : Text → Option RegisterRequest
  pub login : Text → Option LoginRequest

module _ {W : Type 0} (s : AuthService W) (codec : AccountCodec) (r : Request) where
  -- `Handler.Register`
  unfoldable pub register : W → Response User × W
  register = answer 201 do
    req ← lift (decode_json (codec.register r.body))
    AuthOperations.register s req.email req.username req.password

  -- `Handler.Login`, which shows the token.
  unfoldable pub login : W → Response Text × W
  login = answer 200 do
    req ← lift (decode_json (codec.login r.body))
    AuthOperations.login s req.email req.password
