-- ===== src/Mail/Sending.antt =====
-- What a sent invitation means.
use testovoe_bazis.Common.{
  ℕ, ◌<◌, ◌≡◌, ◌⊎◌, inl, inr, Text, codes, ◌++◌, leb, arith, Bool-cases, Error, ok, err,
  Result-cases, Action, outcome-cases,
}
use testovoe_bazis.Mail.{MailLibrary, post_invite, send_invitation}

-- What gobreaker documents of `Execute`: it succeeds only if it has run the function, which
-- succeeded.
pub record IsBreaker {W : Type 0} (execute : Action W (Unit {0}) → Action W (Unit {0}))
    : Type 0 where
  pub ran :
      (m : Action W (Unit {0})) (w w' : W)
      → execute m w ≡ (ok tt, w')
      → (v : W) × (v' : W) × (m v ≡ (ok tt, v'))

module _ {W : Type 0} (lib : MailLibrary W) (base_url : Text) where
  post_invite-eq-ok :
      (body : Text) (v v' : W)
      → post_invite lib base_url body v ≡ (ok tt, v')
      → (status : ℕ) × (lib.send (base_url ++ codes "/invite") body v ≡ (ok status, v'))
        × (status < 400)
  unfolding post_invite
  post_invite-eq-ok body v v' h =
      elim (Result-cases (lib.new_request (base_url ++ codes "/invite"))) [
        | inl (u, made) ↦ elim (outcome-cases (lib.send (base_url ++ codes "/invite") body v)) [
          | inl (status, x, sent) ↦ elim (Bool-cases (leb 400 status)) [
            | inl bad ↦ absurd (ground arith)
            | inr good ↦ (status, ground arith, ground arith)
          ]
          | inr (e, x, failed) ↦ absurd (ground arith)
        ]
        | inr (e, failed) ↦ absurd (ground arith)
      ]

  -- If the breaker succeeds only where its function did, an invitation that was sent was answered
  -- by the service at `/invite` under the base address with a status below 400, for the body that
  -- holds the address, the team and the one who invites.
  pub send_invitation-eq-ok :
      (email team_name inviter_name : Text) (w w' : W)
      → IsBreaker lib.execute
      → send_invitation lib base_url email team_name inviter_name w ≡ (ok tt, w')
      → (body : Text) × (status : ℕ) × (v : W) × (v' : W) × (lib.marshal
            (record { email = email; team_name = team_name; inviter_name = inviter_name })
          ≡ ok body)
        × (lib.send (base_url ++ codes "/invite") body v ≡ (ok status, v'))
        × (status < 400)
  unfolding send_invitation
  send_invitation-eq-ok email team_name inviter_name w w' breaker h =
      elim (Result-cases (
        lib.marshal
          (record { email = email; team_name = team_name; inviter_name = inviter_name }))) [
            | inl (body, made) ↦
                elim (outcome-cases (lib.execute (post_invite lib base_url body) w)) [
                  | inl (u, x, done) ↦
                      let (v, v', good) = breaker.ran (post_invite lib base_url body) w x done in
                      let (status, sent, below) = post_invite-eq-ok body v v' good in
                      (body, status, v, v', made, sent, below)
                  | inr (e, x, failed) ↦ absurd (ground arith)
                ]
            | inr (e, bad) ↦ absurd (ground arith)
          ]

  -- A failure behind the breaker is counted once, and so an invitation that is not sent leaves
  -- either the state that the breaker left, counted, or the state as it was.
  pub send_invitation-err :
      (email team_name inviter_name : Text) (w : W) (e : Error) (w' : W)
      → send_invitation lib base_url email team_name inviter_name w ≡ (err e, w')
      → (w' ≡ w)
        ⊎ ((body : Text) × (v : W) × ((lib.execute (post_invite lib base_url body) w).1 ≡ v)
            × (w' ≡ lib.count_error v))
  unfolding send_invitation
  send_invitation-err email team_name inviter_name w e w' h =
      elim (Result-cases (
        lib.marshal
          (record { email = email; team_name = team_name; inviter_name = inviter_name }))) [
            | inl (body, made) ↦
                elim (outcome-cases (lib.execute (post_invite lib base_url body) w)) [
                  | inl (u, x, done) ↦ absurd (ground arith)
                  | inr (f, x, failed) ↦ inr (body, x, ground arith, ground arith)
                ]
            | inr (f, bad) ↦ inl (ground arith)
          ]
