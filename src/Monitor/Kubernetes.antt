-- ===== src/Monitor/Kubernetes.antt =====
-- `kubernetes` of docker/home-service-monitor/monitor.py: the secrets that are synchronised, and the
-- certificates that are requested.
use Prim.Native.String.{◌++◌ as ◌<>◌}
use text.Mathlib.Text.{starts_with}
use my_infra.Prelude.{
  ℕ, ◌+◌, ◌-◌, ◌*◌, Bool, false, not, ◌&&◌, ◌||◌, Option, none, some, List, [], ◌∷◌, ◌++◌, String,
  leb, ◌==◌, string_eq, if◌then◌else◌,
}
use my_infra.Prelude.Dict.{Dict, lookup, insert, keys}
use my_infra.Prelude.Sorted.{text_leb}
use my_infra.Prelude.Action.{Result, ok, err, then_do, ◌>>=◌, ◌>>◌}
use my_infra.Monitor.Metrics.{Error, whole, micro, flag}
use my_infra.Monitor.Scan.{Call, secret, Act, ask, add}
use my_infra.Monitor.Retry.{Response, kubernetes_get_json}

pub record Condition : Type 0 where
  pub type : String
  pub status : String

-- A secret that is synchronised from outside.
pub record Item : Type 0 where
  pub name : String
  pub conditions : List Condition
  pub refresh_time : Option String
  pub refresh_interval : Option String

pub record Csr : Type 0 where
  pub username : String
  pub certificate : Option String
  pub conditions : List Condition
  pub creation : String

-- Each namespace with what is expected there.
pub record SecretsTarget : Type 0 where
  pub namespaces : List String
  pub expected : Dict (List String)

-- The cluster, and what Python brings: `timestamp` in microseconds, `re.findall(r'([\d.]+)([smh])')`,
-- and `float` in millionths.
pub record ClusterWorld : Type 0 where
  pub token : List Call → Result Error String
  pub secrets : String → List Call → Result Error (Response (List Item))
  pub csrs : List Call → Result Error (Response (List Csr))
  pub time : List Call → ℕ
  pub timestamp : String → Result Error ℕ
  pub durations : String → List (String × String)
  pub float : String → Result Error ℕ

-- `{item['metadata']['name']: item for item in items}`
unfoldable pub by_name : Dict Item → List Item → Dict Item
by_name d [] = d
by_name d (item ∷ items) = by_name (insert item.name item d) items

-- `sorted(set(names))`
unfoldable pub insert_name : String → List String → List String
insert_name n [] = n ∷ []
insert_name n (m ∷ ms) =
    let rest = insert_name n ms in
    if n == m then m ∷ ms else if text_leb n m then n ∷ m ∷ ms else m ∷ rest

unfoldable pub sort_names : List String → List String
unfolding insert_name text_leb
sort_names [] = []
sort_names (n ∷ ns) = insert_name n (sort_names ns)

abbrev expected_in : Option (List String) → List String
expected_in none = []
expected_in (some names) = names

-- The names that are looked at: in two namespaces only those that are expected.
unfoldable pub names_in : SecretsTarget → String → Dict Item → List String
unfolding sort_names keys lookup
names_in target namespace discovered =
    let expected = expected_in (lookup namespace target.expected) in
    if (namespace == "arc-runners") || (namespace == "monitoring")
    then sort_names expected
    else sort_names (expected ++ keys discovered)

unfoldable pub any_condition : String → String → List Condition → Bool
any_condition type status [] = false
any_condition type status (c ∷ cs) =
    ((c.type == type) && (c.status == status)) || any_condition type status cs

abbrev no_item : String → Item
no_item name = record { name = name; conditions = []; refresh_time = none; refresh_interval = none }

abbrev item_or_none : String → Option Item → Item
item_or_none name none = no_item name
item_or_none name (some item) = item

-- Seconds of a unit; the expression finds no other.
abbrev unit_seconds : String → ℕ
unit_seconds u = if u == "s" then 1 else if u == "m" then 60 else 3_600

abbrev lift : {A : Type 0} → Result Error A → Act A
lift r s = (r, s)

abbrev interval_of : Item → String
interval_of item = elim (item.refresh_interval) [ none ↦ "1h" | some i ↦ i ]

abbrev max : ℕ → ℕ → ℕ
max a b = if leb a b then b else a

module _ (w : ClusterWorld) where
  unfoldable pub sum_durations : List (String × String) → Result Error ℕ
  sum_durations [] = ok 0
  sum_durations ((n, u) ∷ ds) = elim (w.float n) [
    | err e ↦ err e
    | ok x ↦ elim (sum_durations ds) [ err e ↦ err e | ok rest ↦ ok (x * unit_seconds u + rest) ]
  ]

  -- `timestamp(status['refreshTime']) if status.get('refreshTime') else 0`
  abbrev refreshed : Option String → Result Error ℕ
  refreshed none = ok 0
  refreshed (some t) = if t == "" then ok 0 else w.timestamp t

  unfoldable pub secret_values : String → Dict Item → String → Act (Unit {0})
  unfolding add lookup any_condition sum_durations
  secret_values namespace discovered name = do
    let item = item_or_none name (lookup name discovered)
    let labels : Dict String = ("namespace", namespace) ∷ ("name", item.name) ∷ []
    add "home_secret_ready" (flag (any_condition "Ready" "True" item.conditions)) labels
    last ← lift (refreshed item.refresh_time)
    add "home_secret_last_refresh_seconds" (micro last) labels
    seconds ← lift (sum_durations (w.durations (interval_of item)))
    add "home_secret_refresh_interval_seconds" (micro seconds) labels

  unfoldable pub all_secrets : String → Dict Item → List String → Act (Unit {0})
  unfolding secret_values
  all_secrets namespace discovered [] s = (ok tt, s)
  all_secrets namespace discovered (name ∷ names) s =
      then_do (secret_values namespace discovered name s)
        (λ _. all_secrets namespace discovered names)

  abbrev base : String
  base = "https://kubernetes.default.svc"

  unfoldable pub namespace_values : SecretsTarget → String → Act (Unit {0})
  unfolding kubernetes_get_json by_name names_in all_secrets
  namespace_values target namespace = do
    items ←
        kubernetes_get_json
          (base
            <> ("/apis/external-secrets.io/v1beta1/namespaces/"
                <> (namespace <> "/externalsecrets")))
          (λ log. w.secrets namespace log)
    let discovered = by_name [] items
    all_secrets namespace discovered (names_in target namespace discovered)

  unfoldable pub all_namespaces : SecretsTarget → List String → Act (Unit {0})
  unfolding namespace_values
  all_namespaces target [] s = (ok tt, s)
  all_namespaces target (n ∷ ns) s =
      then_do (namespace_values target n s) (λ _. all_namespaces target ns)

  abbrev has_certificate : Option String → Bool
  has_certificate none = false
  has_certificate (some c) = not (c == "")

  -- The requests of nodes: how many are denied, and the age of the oldest that is pending.
  unfoldable pub csr_values : List Csr → ℕ → ℕ → Act (ℕ × ℕ)
  unfolding any_condition
  csr_values [] denied oldest s = (ok (denied, oldest), s)
  csr_values (csr ∷ csrs) denied oldest s =
      let skip = csr_values csrs denied oldest s in
      let refuse = csr_values csrs (denied + 1) oldest s in
      let wait =
        then_do (w.timestamp csr.creation, s)
          (λ created. csr_values csrs denied (max oldest (w.time s.log - created))) in
      if not (starts_with csr.username "system:node:") || has_certificate csr.certificate
      then skip
      else if any_condition "Denied" "True" csr.conditions
          || any_condition "Failed" "True" csr.conditions
      then refuse
      else wait

  unfoldable pub kubernetes : SecretsTarget → Act (Unit {0})
  unfolding all_namespaces kubernetes_get_json csr_values add
  kubernetes target = do
    token ← ask (secret "/var/run/secrets/kubernetes.io/serviceaccount/token") (λ log. w.token log)
    all_namespaces target target.namespaces
    requests ←
        kubernetes_get_json (base <> "/apis/certificates.k8s.io/v1/certificatesigningrequests")
          (λ log. w.csrs log)
    (denied, oldest) ← csr_values requests 0 0
    add "home_csr_denied" (whole denied) []
    add "home_csr_oldest_pending_seconds" (micro oldest) []
