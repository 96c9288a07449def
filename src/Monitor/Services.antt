-- ===== src/Monitor/Services.antt =====
-- `request`, `access`, `mirakurun`, `database`, `vip` and `s3` of
-- docker/home-service-monitor/monitor.py.
use Prim.Native.String.{◌++◌ as ◌<>◌}
use text.Mathlib.Text.{starts_with}
use my_infra.Prelude.{
  ℕ, ◌+◌, ◌*◌, Bool, false, not, ◌&&◌, ◌||◌, Option, none, some, List, [], ◌∷◌, String, length,
  ◌==◌, nat_eq, string_eq, if◌then◌else◌,
}
use my_infra.Prelude.Strings.{ends_with}
use my_infra.Prelude.Action.{Result, ok, then_do, ◌>>=◌, ◌>>◌, pure, raise}
use my_infra.Monitor.Metrics.{Error, value_error, other_error, Value, whole, micro, ratio, flag}
use my_infra.Monitor.Scan.{Call, secret, get, query, Act, ask, add}

pub record Channel : Type 0 where
  pub id : String
  pub type : ℕ
  pub epg_ready : Bool
  -- Milliseconds.
  pub epg_updated_at : ℕ

pub record Tuner : Type 0 where
  pub name : String
  pub is_available : Bool
  pub is_fault : Bool

-- The answers of Mirakurun; `none` is no list.
pub record TunerWorld : Type 0 where
  pub tuners : List Call → Result Error (Option (List Tuner))
  pub services : List Call → Result Error (Option (List Channel))

abbrev list_or_empty : {A : Type 0} → Option (List A) → List A
list_or_empty none = []
list_or_empty (some xs) = xs

-- `not isinstance(xs, list) or not xs` raises.
abbrev guard_list : {A : Type 0} → List A → Act (Unit {0})
guard_list [] = raise value_error
guard_list (x ∷ xs) = pure tt

unfoldable pub television : List Channel → List Channel
television [] = []
television (c ∷ cs) = let rest = television cs in if c.type == 1 then c ∷ rest else rest

unfoldable pub tuner_values : List Tuner → Act (Unit {0})
unfolding add
tuner_values [] s = (ok tt, s)
tuner_values (t ∷ ts) s =
    then_do
      (add "home_tuner_available" (flag (t.is_available && not t.is_fault)) (("tuner", t.name) ∷ [])
        s)
      (λ _. tuner_values ts)

unfoldable pub channel_values : List Channel → Act (Unit {0})
unfolding add
channel_values [] s = (ok tt, s)
channel_values (c ∷ cs) s =
    then_do (add "home_epg_ready" (flag c.epg_ready) (("service_id", c.id) ∷ []) s) (λ _ t.
      then_do
        (add "home_epg_last_update_seconds" (micro (c.epg_updated_at * 1_000))
          (("service_id", c.id) ∷ []) t)
        (λ _. channel_values cs))

unfoldable pub mirakurun : TunerWorld → String → Act (Unit {0})
unfolding tuner_values television channel_values
mirakurun w url = do
  tuners ← ask (get (url <> "/api/tuners")) (λ log. w.tuners log)
  guard_list (list_or_empty tuners)
  tuner_values (list_or_empty tuners)
  services ← ask (get (url <> "/api/services")) (λ log. w.services log)
  guard_list (list_or_empty services)
  let shown = television (list_or_empty services)
  guard_list shown
  channel_values shown

-- The objects of a bucket, by pages of their sizes.
unfoldable pub count_objects : List (List ℕ) → ℕ
count_objects [] = 0
count_objects (objects ∷ more) = length objects + count_objects more

unfoldable pub sum_sizes : List ℕ → ℕ
sum_sizes [] = 0
sum_sizes (n ∷ ns) = n + sum_sizes ns

unfoldable pub sum_pages : List (List ℕ) → ℕ
unfolding sum_sizes
sum_pages [] = 0
sum_pages (objects ∷ more) = sum_sizes objects + sum_pages more

unfoldable pub s3 :
    (List Call → String → Result Error String)
    → (List Call → Result Error (List (List ℕ)))
    → Act (Unit {0})
unfolding count_objects sum_pages add
s3 credential list = do
  id ← ask (secret "s3-access-key") (λ log. credential log "s3-access-key")
  key ← ask (secret "s3-secret-key") (λ log. credential log "s3-secret-key")
  objects ← ask (query "list_objects_v2") list
  if count_objects objects == 0
      then raise value_error
      else add "home_restic_repository_bytes" (whole (sum_pages objects))
          (("repository", "nas") ∷ [])

-- What a request of a service behind Cloudflare Access brings.
pub record Page : Type 0 where
  pub status : ℕ
  pub body : String
  pub location : String
  -- When the certificate expires.
  pub expires : ℕ

-- The parts of a URL; `none` if it has no host.
pub record Url : Type 0 where
  pub scheme : String
  pub hostname : Option String
  pub path : String

-- The service, with and without credentials; what Python brings: `urlsplit`, and whether a regular
-- expression is found.
pub record AccessWorld : Type 0 where
  pub credential : List Call → String → Result Error String
  pub with_access : List Call → Result Error Page
  pub without_access : List Call → Result Error Page
  pub urlsplit : String → Url
  pub is_login_page : String → Bool
  pub expected : String → Bool

is_access_host : Option String → Bool
unfolding ends_with
is_access_host none = false
is_access_host (some h) = ends_with h ".cloudflareaccess.com"

-- Whether the request without credentials is sent to the login.
unfoldable pub is_guarded : ℕ → Url → Bool
unfolding is_access_host
is_guarded status location =
    ((status == 302) || (status == 303))
    && (location.scheme == "https")
    && is_access_host location.hostname
    && starts_with location.path "/cdn-cgi/access/login"

unfoldable pub access : AccessWorld → String → Act (Unit {0})
unfolding is_guarded add
access w url = do
  id ← ask (secret "access-client-id") (λ log. w.credential log "access-client-id")
  key ← ask (secret "access-client-secret") (λ log. w.credential log "access-client-secret")
  page ← ask (get url) (λ log. w.with_access log)
  add "home_access_tls_expiry_seconds" (whole page.expires) []
  add "home_access_http_status" (whole page.status) []
  negative ← ask (get url) (λ log. w.without_access log)
  let guarded = is_guarded negative.status (w.urlsplit negative.location)
  add "home_access_success"
      (flag (
        (page.status == 200) && not (w.is_login_page page.body) && guarded && w.expected page.body))
      []

-- The answers of a database: to `SELECT 1`, and the numbers that are read.
pub record DatabaseWorld : Type 0 where
  pub credential : List Call → Result Error String
  pub select_one : List Call → Result Error ℕ
  pub threads_connected : List Call → Result Error ℕ
  pub slow_queries : List Call → Result Error ℕ
  pub max_connections : List Call → Result Error ℕ
  pub lock_waits : List Call → Result Error ℕ
  pub slow_active : List Call → Result Error ℕ
  -- PostgreSQL gives the quotient itself.
  pub connections_ratio : List Call → Result Error Value

abbrev quotient : ℕ → ℕ → Act Value
quotient a b = if b == 0 then raise other_error else pure (ratio a b)

unfoldable pub mysql : DatabaseWorld → Act (Unit {0})
unfolding add
mysql w = do
  one ← ask (query "SELECT 1") (λ log. w.select_one log)
  if one == 1 then pure tt else raise value_error
  connected ← ask (query "SHOW GLOBAL STATUS") (λ log. w.threads_connected log)
  slow ← ask (query "SHOW GLOBAL STATUS") (λ log. w.slow_queries log)
  maximum ← ask (query "SELECT @@max_connections") (λ log. w.max_connections log)
  locks ← ask (query "INNODB_LOCK_WAITS") (λ log. w.lock_waits log)
  active ← ask (query "PROCESSLIST") (λ log. w.slow_active log)
  used ← quotient connected maximum
  add "home_db_connections_ratio" used []
  add "home_db_lock_waits" (whole locks) []
  add "home_db_long_queries" (whole active) []
  add "home_db_slow_queries_total" (whole slow) []

unfoldable pub postgres : DatabaseWorld → Act (Unit {0})
unfolding add
postgres w = do
  one ← ask (query "SELECT 1") (λ log. w.select_one log)
  if one == 1 then pure tt else raise value_error
  used ← ask (query "pg_stat_activity") (λ log. w.connections_ratio log)
  add "home_db_connections_ratio" used []
  locks ← ask (query "pg_stat_activity") (λ log. w.lock_waits log)
  add "home_db_lock_waits" (whole locks) []
  active ← ask (query "pg_stat_activity") (λ log. w.slow_active log)
  add "home_db_long_queries" (whole active) []

unfoldable pub database : DatabaseWorld → Bool → Act (Unit {0})
unfolding mysql postgres add
database w is_mysql = do
  password ← ask (secret "password") (λ log. w.credential log)
  if is_mysql then mysql w else postgres w
  add "home_db_query_success" (whole 1) []
