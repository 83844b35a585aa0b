-- ===== src/Http/Router/Guarded.antt =====
-- Which routes of internal/httpapi/router.go want a token.
use testovoe_bazis.Common.{◌≡◌, ◌≢◌, ◌⊎◌, refl, inl, inr, All, some, Text, ◌++◌, ok}
use testovoe_bazis.Http.Router.{
  Endpoint, Route, routes, Handler, Incoming, limited, serve_group, member_group, health, metrics,
  register, login,
}
use testovoe_bazis.Tokens.{Claims}
use testovoe_bazis.Tokens.Middleware.{bearer, auth_middleware-cases}

-- The endpoints that anyone may call.
abbrev pub IsPublic : Endpoint → Type 0
IsPublic e = (e ≡ health) ⊎ (e ≡ metrics) ⊎ (e ≡ register) ⊎ (e ≡ login)

module _ {W : Type 0} (h : Handler W) (i : Incoming) (w : W) where
  -- The header names no user: it is not `Bearer ` and a token that can be parsed.
  unfoldable pub HasNoToken : Type 0
  HasNoToken =
      (token : Text) (claims : Claims)
      → i.authorization ≡ bearer ++ token
      → h.parse_token w token ≢ ok claims

  abbrev pub IsRefused : Route → Type 0
  IsRefused r =
      ((serve_group h r.group r.endpoint i w).0.status ≡ 401)
      × ((serve_group h r.group r.endpoint i w).1 ≡ w)

  member_group-IsRefused :
      (e : Endpoint)
      → HasNoToken
      → ((serve_group h member_group e i w).0.status ≡ 401)
        × ((serve_group h member_group e i w).1 ≡ w)
  unfolding serve_group HasNoToken
  member_group-IsRefused e bare =
      elim (auth_middleware-cases (λ user_id. limited h e i (some user_id)) (h.parse_token w)
        i.authorization w) [
          | inl (token, claims, header, good, same) ↦ absurd (bare token claims header good)
          | inr refused ↦ refused
        ]

  -- Without a token every route but those of health, metrics, registration and login is answered
  -- with 401, and neither the limiter nor a service is asked.
  pub routes-IsRefused : HasNoToken → All (λ (r : Route). IsPublic r.endpoint ⊎ IsRefused r) routes
  routes-IsRefused bare =
      let refused = λ (e : Endpoint). member_group-IsRefused e bare in
      (
        inl (inl refl),
        (
          inl (inr (inl refl)),
          (
            inl (inr (inr (inl refl))),
            (
              inl (inr (inr (inr refl))),
              (
                inr (refused _),
                (
                  inr (refused _),
                  (
                    inr (refused _),
                    (
                      inr (refused _),
                      (
                        inr (refused _),
                        (
                          inr (refused _),
                          (
                            inr (refused _),
                            (inr (refused _), (inr (refused _), (inr (refused _), tt))),
                          ),
                        ),
                      ),
                    ),
                  ),
                ),
              ),
            ),
          ),
        ),
      )
