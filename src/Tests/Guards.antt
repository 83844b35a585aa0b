-- ===== src/Tests/Guards.antt =====
-- Requests with and without a token.
use testovoe_bazis.Common.{
  ℕ, ◌≡◌, ◌⊎◌, refl, true, All, none, some, [], ◌++◌, ℤ, pos, arith, codes, text_beq, ok, err,
  foreign, nat_beq_iff, nat_eq, int_eq, text_eq, int_beq_iff, text_beq_iff, Bool, Bool-cases, inl,
  inr, sym, ◌==◌, ◌&&◌, if◌then◌else◌, format_int,
}
use testovoe_bazis.Domain.{Task, TaskPatch}
use testovoe_bazis.Config.{Config}
use testovoe_bazis.Tokens.{Claims, JwtLibrary, JwtManager, new_claims, generate, parse}
use testovoe_bazis.Tokens.Middleware.{
  bearer, bearer_token, auth_middleware, without_prefix, Verifies, generate-auth_middleware,
}
use testovoe_bazis.Http.{Response, shows, says, respond, path_id, parse_int, parse_digits}
use testovoe_bazis.Http.Limits.{rate_limit}
use testovoe_bazis.Http.Tasks.{update_task, run_update, to_patch, patch_assignee}
use testovoe_bazis.Http.Router.{
  task, Route, Incoming, routes, dispatch, serve_group, count_request, serve,
}
use testovoe_bazis.Http.Router.Guarded.{IsPublic, IsRefused, HasNoToken, routes-IsRefused}
use testovoe_bazis.App.Authorized.{Authorized}
use testovoe_bazis.App.Server.{Outside, handler, tasks_ttl}
use testovoe_bazis.App.Server.Served.{put_task, Bearer, put_task-Authorized}
use testovoe_bazis.Tests.Data.{world, codec, task_runs}

-- A library that signs the claims of bob only, as the token `t`.
abbrev bob_claims : Claims
bob_claims = record {
  user_id = pos 2;
  username = codes "bob";
  subject = codes "2";
  issued_at = 0;
  expires_at = 90;
}

abbrev is_bob : Claims → Bool
is_bob c =
    c.user_id == pos 2
    && (c.username == codes "bob"
        && (c.subject == codes "2" && (c.issued_at == 0 && c.expires_at == 90)))

is_bob-eq : (c : Claims) → is_bob c ≡ true → c ≡ bob_claims
is_bob-eq c h =
    let user : c.user_id ≡ pos 2 = ground (arith, int_beq_iff c.user_id (pos 2)) in
    let name : c.username ≡ codes "bob" = ground (arith, text_beq_iff c.username (codes "bob")) in
    let subject : c.subject ≡ codes "2" = ground (arith, text_beq_iff c.subject (codes "2")) in
    let issued : c.issued_at ≡ 0 = ground (arith, nat_beq_iff c.issued_at 0) in
    let expires : c.expires_at ≡ 90 = ground (arith, nat_beq_iff c.expires_at 90) in
    λ i. record {
      user_id = user i;
      username = name i;
      subject = subject i;
      issued_at = issued i;
      expires_at = expires i;
    }

abbrev jwt : JwtLibrary
jwt = record {
  signed_string = λ claims secret. if is_bob claims then ok (codes "t") else err (foreign 2);
  parse_with_claims = λ now token key.
      if token == codes "t"
      then ok (record { claims = some bob_claims; is_valid = true })
      else err (foreign 2);
}

jwt-Verifies : Verifies jwt
unfolding text_beq
jwt-Verifies = record {
  verifies = λ claims secret token now key signed known fresh. elim (Bool-cases (is_bob claims)) [
    | inl same ↦ let t : codes "t" ≡ token = ground arith in rw (sym t, is_bob-eq claims same) refl
    | inr other ↦ absurd (ground arith)
  ];
}

abbrev manager : JwtManager
manager = record { secret = codes "s"; ttl = 90000000000 }

-- A handler behind the token that answers with the user.
abbrev who : ℤ → ℕ → Response ℤ × ℕ
who user_id w = (record { status = 200; payload = shows user_id }, w)

generate-auth_middleware_example :
    auth_middleware who (parse jwt manager 7) (bearer ++ codes "t") 0 ≡ who (pos 2) 0
unfolding generate new_claims format_int text_beq
generate-auth_middleware_example =
    generate-auth_middleware jwt manager who 0 7 (pos 2) (codes "bob") (codes "t") 0 jwt-Verifies
      refl (omega arith)

abbrev outside : Outside
outside = record {
  page_codec = codec;
  account_codec = record { register = λ _. none; login = λ _. none };
  team_codec = record { create_team = λ _. none; invite = λ _. none };
  task_codec = record {
    create_task = λ _. none;
    update_task = λ _. some (record {
      title = none;
      description = none;
      status = some (codes "done");
      assignee_id = [];
    });
    number = λ _. none;
  };
  hasher = record {
    generate_from_password = λ password w. (ok password, w);
    compare_hash_and_password = λ hash password. text_beq hash password;
  };
  jwt = jwt;
  mail = record {
    marshal = λ p. ok p.email;
    new_request = λ _. ok tt;
    send = λ url body w. (ok 202, w);
    execute = λ m. m;
    count_error = λ w. w;
  };
  lower = λ c. c;
  collate = text_beq;
  clock = λ w. w.db.clock;
  allow = λ limit key w. ok true;
  split_host_port = λ _. none;
  metrics_page = λ w. record { status = 200; payload = says [] };
}

abbrev cfg : Config
cfg = record {
  server = record { addr = [] };
  db = record {
    dsn = [];
    max_open_conns = pos 5;
    max_idle_conns = pos 5;
    conn_max_lifetime = pos 5;
  };
  redis = record { addr = []; password = []; db = pos 0 };
  jwt = record { secret = codes "s"; ttl = pos 90000000000 };
  rate_limit = record { requests_per_minute = pos 100 };
  cache = record { tasks_ttl = pos 300000000000 };
  email = record { base_url = []; timeout = pos 5 };
}

abbrev bare : Incoming
bare = record {
  authorization = codes "Basic t";
  address = codes "a";
  id = codes "1";
  query = λ _. [];
  body = codes "{}";
}

bare-HasNoToken : HasNoToken (handler outside cfg) bare world
unfolding HasNoToken
bare-HasNoToken token claims h k = absurd (ground arith)

routes-IsRefused_example :
    All (λ (r : Route). IsPublic r.endpoint ⊎ IsRefused (handler outside cfg) bare world r) routes
routes-IsRefused_example = routes-IsRefused (handler outside cfg) bare world bare-HasNoToken

abbrev named : Incoming
named = record bare { authorization = codes "Bearer t" }

put_task-Authorized_example :
    (b : Bearer outside cfg named world) × (task_id : ℤ) × (patch : TaskPatch) × (result : Task)
    × (path_id (codes "1") ≡ ok task_id)
    × Authorized
        (tasks_ttl outside cfg)
        codec
        b.claims.user_id
        task_id
        patch
        world
        result
        (serve (handler outside cfg) put_task named world).1
    × ((serve (handler outside cfg) put_task named world).0.payload ≡ shows (task result))
unfolding task_runs update_task run_update respond path_id parse_int parse_digits to_patch
    patch_assignee serve serve_group count_request dispatch rate_limit auth_middleware bearer_token
    without_prefix parse
put_task-Authorized_example = put_task-Authorized outside cfg named world refl
