-- ===== src/App/Server/Served.antt =====
-- A request to change a task, from the header that it comes with to the rows that it leaves.
use testovoe_bazis.Common.{
  ◌≡◌, refl, sym, ap, subst, ◌∙◌, inl, inr, some, ℤ, Text, codes, ◌++◌, arith, Result-cases, ok,
  Bool-cases,
}
use testovoe_bazis.Domain.{Task, TaskPatch}
use testovoe_bazis.Config.{Config}
use testovoe_bazis.Tokens.{Claims, parse}
use testovoe_bazis.Tokens.Middleware.{bearer, auth_middleware-cases}
use testovoe_bazis.Service.Tasks.Updating.{trim?}
use testovoe_bazis.Service.Tasks as Operations
use testovoe_bazis.Http.{shows, Response, path_id}
use testovoe_bazis.Http.Tasks as Tasks
use testovoe_bazis.Http.Tasks.Serving.{update_task-served}
use testovoe_bazis.Http.Limits.{rate_limit, rate_key}
use testovoe_bazis.Http.Router.{
  Shown, task, Incoming, Route, update_task, member_group, dispatch, limited, serve_group,
  count_request, serve, request,
}
use testovoe_bazis.App.{World}
use testovoe_bazis.App.Authorized.{Authorized, update-Authorized}
use testovoe_bazis.App.Server.{Outside, handler, jwt_manager, tasks_ttl}

-- `PUT /api/v1/tasks/{id}`
abbrev pub put_task : Route
put_task = record {
  method = codes "PUT";
  pattern = codes "/api/v1/tasks/{id}";
  group = member_group;
  endpoint = update_task;
}

module _ (outside : Outside) (cfg : Config) (i : Incoming) (w : World) where
  -- The user whom the token of the request names.
  pub record Bearer : Type 0 where
    pub token : Text
    pub claims : Claims
    pub header : i.authorization ≡ bearer ++ token
    pub parsed : parse outside.jwt (jwt_manager outside cfg) (outside.clock w) token ≡ ok claims

  -- Behind the limiter stands the handler, in the same world.
  limited-eq-ok :
      (user_id : ℤ)
      → (limited (handler outside cfg) update_task i (some user_id) w).0.status ≡ 200
      → limited (handler outside cfg) update_task i (some user_id) w
        ≡ dispatch (handler outside cfg) update_task (request i (some user_id)) w
  unfolding rate_limit
  limited-eq-ok user_id h =
      let key = rate_key outside.split_host_port (some user_id) i.address in
      elim (Result-cases (outside.allow cfg.rate_limit.requests_per_minute key w)) [
        | inl (allowed, answer) ↦ elim (Bool-cases allowed) [
          | inl let_in ↦ rw (answer, let_in) refl
          | inr refused ↦ absurd (ground arith)
        ]
        | inr (e, failed) ↦ rw failed refl
      ]

  -- What is shown as a task was authorized for the user.
  dispatch-Authorized :
      (user_id : ℤ)
      → (dispatch (handler outside cfg) update_task (request i (some user_id)) w).0.status ≡ 200
      → (task_id : ℤ) × (patch : TaskPatch) × (result : Task) × (path_id i.id ≡ ok task_id)
        × Authorized
            (tasks_ttl outside cfg)
            outside.page_codec
            user_id
            task_id
            patch
            w
            result
            (dispatch (handler outside cfg) update_task (request i (some user_id)) w).1
        × ((dispatch (handler outside cfg) update_task (request i (some user_id)) w).0.payload
            ≡ shows (task result))
  unfolding dispatch
  dispatch-Authorized user_id h =
      let tasks = (handler outside cfg).tasks in
      let (named, task_id, given, result, user, path, updated, shown) =
        update_task-served tasks outside.task_codec (request i (some user_id)) w h in
      let same : named ≡ user_id = ground arith in
      (
        task_id,
        record given { title = trim? given.title },
        result,
        path,
        update-Authorized (tasks_ttl outside cfg) outside.page_codec user_id task_id given w result
            _
            (subst
              (λ u. Operations.update tasks u task_id given w ≡ (
                ok result,
                (Tasks.update_task tasks outside.task_codec (request i (some user_id)) w).1,
              ))
              same updated),
        rw shown refl,
      )

  -- A request to change a task that is answered with 200 came with a token of this server, which
  -- names a user; for that user and the task of the path the change was authorized by the rows of
  -- that moment, and what is shown is the task as it was stored.
  pub put_task-Authorized :
      (serve (handler outside cfg) put_task i w).0.status ≡ 200
      → (b : Bearer) × (task_id : ℤ) × (patch : TaskPatch) × (result : Task) × (path_id i.id
          ≡ ok task_id)
        × Authorized
            (tasks_ttl outside cfg)
            outside.page_codec
            b.claims.user_id
            task_id
            patch
            w
            result
            (serve (handler outside cfg) put_task i w).1
        × ((serve (handler outside cfg) put_task i w).0.payload ≡ shows (task result))
  unfolding serve serve_group count_request
  put_task-Authorized h =
      let h' = handler outside cfg in
      elim (auth_middleware-cases (λ user_id. limited h' update_task i (some user_id))
        (h'.parse_token w) i.authorization w) [
          | inl (token, claims, header, good, same) ↦
              let ok_status = sym (ap (λ (p : Response Shown × World). p.0.status) same) ∙ h in
              let through = limited-eq-ok claims.user_id ok_status in
              let whole = same ∙ through in
              let (task_id, patch, result, path, authorized, shown) =
                dispatch-Authorized claims.user_id
                  (sym (ap (λ (p : Response Shown × World). p.0.status) through) ∙ ok_status) in
              (
                record { token = token; claims = claims; header = header; parsed = good },
                task_id,
                patch,
                result,
                path,
                subst
                    (λ v.
                      Authorized (tasks_ttl outside cfg) outside.page_codec claims.user_id task_id
                        patch w result v)
                    (sym (ap (λ (p : Response Shown × World). p.1) whole)) authorized,
                ap (λ (p : Response Shown × World). p.0.payload) whole ∙ shown,
              )
          | inr (refused, kept) ↦ absurd (ground (arith, refused, h))
        ]
