-- ===== src/Mail.antt =====
-- internal/email/http_sender.go: the invitation as a POST request behind a circuit breaker.
pub mod Sending
use testovoe_bazis.Common.{
  ℕ, ◌++◌, Bool, Option, none, some, Text, codes, leb, if◌then◌else◌, Error, Result, ok, err, wrap,
  plain, shows_number, foreign, Action, pure, fail, on_error, fail_if, ◌>>=◌, ◌>>◌,
}

pub record InvitePayload : Type 0 where
  pub email : Text
  pub team_name : Text
  pub inviter_name : Text

-- What the sender calls: encoding/json, `http.NewRequestWithContext`, `http.Client.Do`, which
-- returns the status, `Execute` of gobreaker, and the counter `email_errors_total`.
pub record MailLibrary (W : Type 0) : Type 0 where
  pub marshal : InvitePayload → Result Text
  pub new_request : Text → Result (Unit {0})
  pub send : Text → Text → Action W ℕ
  pub execute : Action W (Unit {0}) → Action W (Unit {0})
  pub count_error : W → W

-- The settings of the breaker: it opens at the fifth failure in a row.
unfoldable pub ready_to_trip : ℕ → Bool
ready_to_trip consecutive_failures = leb 5 consecutive_failures

abbrev pub returned : {W A : Type 0} → Result A → Action W A
returned (ok a) = pure a
returned (err e) = fail e

module _ {W : Type 0} (lib : MailLibrary W) (base_url : Text) where
  -- The function that the breaker runs.
  unfoldable pub post_invite : Text → Action W (Unit {0})
  post_invite body = do
    returned (lib.new_request (base_url ++ codes "/invite"))
    status ← lib.send (base_url ++ codes "/invite") body
    fail_if (leb 400 status)
        (wrap (shows_number "email service returned status %d" status) (foreign 0))

  abbrev counted : Result (Unit {0}) × W → Result (Unit {0}) × W
  counted (ok u, w) = (ok u, w)
  counted (err e, w) = (err (wrap (plain "send invitation email: %w") e), lib.count_error w)

  -- `HTTPSender.SendInvitation`
  unfoldable pub send_invitation : Text → Text → Text → Action W (Unit {0})
  send_invitation email team_name inviter_name = do
    body ←
        on_error
          (returned (
            lib.marshal
              (record { email = email; team_name = team_name; inviter_name = inviter_name })))
          (wrap (plain "marshal email payload: %w"))
    λ w. counted (lib.execute (post_invite body) w)
