-- ===== src/Tests/Startup.antt =====
-- A configuration, a server that comes up late, and an invitation by mail.
use testovoe_bazis.Common.{
  ℕ, ◌≡◌, ◌≤◌, ◌<◌, refl, suc, if◌then◌else◌, true, false, none, some, [], ◌∷◌, ◌++◌, pos, arith,
  Text, codes, ok, foreign, text_beq, byte_len,
}
use testovoe_bazis.Config.{Config, load, settled, apply_env_overrides, apply_defaults, validate}
use testovoe_bazis.Config.Loading.{IsUsable, IsFromEnv, load-IsUsable}
use testovoe_bazis.Store.Connection.{Dial, new_db, with_multi_statements}
use testovoe_bazis.Store.Connection.Retries.{IsSettled, new_db-ends, new_db-answers}
use testovoe_bazis.Mail.{MailLibrary, post_invite, send_invitation}
use testovoe_bazis.Mail.Sending.{IsBreaker, send_invitation-eq-ok}

abbrev getenv : Text → Text
getenv name =
    if text_beq name (codes "JWT_SECRET") then codes "0123456789abcdef0123456789abcdef" else []

abbrev written : Config
written = record {
  server = record { addr = [] };
  db = record {
    dsn = codes "dsn";
    max_open_conns = pos 0;
    max_idle_conns = pos 5;
    conn_max_lifetime = pos 0;
  };
  redis = record { addr = codes "redis:6379"; password = []; db = pos 0 };
  jwt = record { secret = []; ttl = pos 0 };
  rate_limit = record { requests_per_minute = pos 0 };
  cache = record { tasks_ttl = pos 0 };
  email = record { base_url = codes "http://mail"; timeout = pos 0 };
}

load-IsUsable_example :
    IsUsable (settled getenv written) × IsFromEnv getenv (settled getenv written)
unfolding load settled apply_env_overrides apply_defaults validate text_beq byte_len
load-IsUsable_example =
    load-IsUsable getenv (λ _. ok (codes "yaml")) (λ _. ok written) (settled getenv written) refl

abbrev late : Dial
late = record {
  answers = some (foreign 0) ∷ some (foreign 0) ∷ none ∷ [];
  is_done = [];
  pings = 0;
  is_open = false;
}

new_db-ends_example : ((new_db late).1.pings ≤ 10) × IsSettled true (new_db late)
new_db-ends_example = new_db-ends late

new_db-answers_example : ((new_db late).0 ≡ ok tt) × ((new_db late).1.pings ≡ 3)
new_db-answers_example = new_db-answers (foreign 0 ∷ foreign 0 ∷ []) [] late (omega arith) refl refl

abbrev dsn_with_question : Text
dsn_with_question = codes "app:a?b@tcp(mysql:3306)/app"

-- An address without parameters whose password holds a question mark.
misplaced :
    with_multi_statements dsn_with_question
    ≡ codes "app:a?b@tcp(mysql:3306)/app&multiStatements=true"
unfolding with_multi_statements
misplaced = refl

-- A breaker that is always closed, and a service that counts what it gets.
abbrev library : MailLibrary ℕ
library = record {
  marshal = λ p. ok p.email;
  new_request = λ _. ok tt;
  send = λ url body n. (ok 202, suc n);
  execute = λ m. m;
  count_error = λ n. n;
}

library-IsBreaker : IsBreaker library.execute
library-IsBreaker = record { ran = λ m w w' h. (w, w', h) }

send_invitation-eq-ok_example :
    (body : Text) × (status : ℕ) × (v : ℕ) × (v' : ℕ) × (library.marshal
        (record { email = codes "c@d.e"; team_name = codes "crew"; inviter_name = codes "alice" })
      ≡ ok body)
    × (library.send (codes "http://mail" ++ codes "/invite") body v ≡ (ok status, v'))
    × (status < 400)
unfolding send_invitation post_invite
send_invitation-eq-ok_example =
    send_invitation-eq-ok library (codes "http://mail") (codes "c@d.e") (codes "crew")
      (codes "alice") 0 1 library-IsBreaker refl
