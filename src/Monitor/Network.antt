-- ===== src/Monitor/Network.antt =====
-- `unifi` of docker/home-service-monitor/monitor.py: the network devices and ports that must be up.
use Prim.Native.String.{◌++◌ as ◌<>◌}
use my_infra.Prelude.{
  ℕ, ◌+◌, Bool, true, false, Option, none, some, List, [], ◌∷◌, String, length, ◌==◌, nat_eq,
  string_eq, if◌then◌else◌,
}
use my_infra.Prelude.Dict.{Dict, lookup, insert}
use my_infra.Prelude.Action.{Result, ok, then_do, ◌>>=◌, ◌>>◌, raise}
use my_infra.Monitor.Metrics.{Error, value_error, whole, flag}
use my_infra.Monitor.Scan.{Call, secret, get, Act, ask, add}
use my_infra.Monitor.Retry.{Response, parse}

-- A device of a site.
pub record Device : Type 0 where
  pub id : String
  pub mac_address : String

pub record Port : Type 0 where
  pub idx : ℕ
  pub state : String

pub record Detail : Type 0 where
  pub state : String
  pub ports : List Port

pub record Required : Type 0 where
  pub name : String
  pub ports : List ℕ

-- The controller, `str.lower` and `str` of a number.
pub record UnifiWorld : Type 0 where
  pub credential : List Call → Result Error String
  -- The sites, and when the certificate expires.
  pub sites : List Call → Result Error (Response (List String) × ℕ)
  pub devices : String → List Call → Result Error (Response (List Device))
  pub detail : String → String → List Call → Result Error (Response Detail)
  pub lower : String → String
  pub str : ℕ → String

abbrev is_known : Option Required → Bool
is_known none = false
is_known (some r) = true

-- `sum(len(d['ports']) for d in devices.values())`
unfoldable pub count_ports : Dict Required → ℕ
count_ports [] = 0
count_ports ((mac, r) ∷ devices) = length r.ports + count_ports devices

-- `{int(p['idx']): p for p in ports}.get(port, {}).get('state') == 'UP'`: the last one counts.
unfoldable pub port_up : ℕ → Bool → List Port → Bool
port_up port found [] = found
port_up port found (p ∷ ports) =
    port_up port (if p.idx == port then p.state == "UP" else found) ports

abbrev is_online : Option Detail → Bool
is_online none = false
is_online (some d) = d.state == "ONLINE"

abbrev ports_of : Option Detail → List Port
ports_of none = []
ports_of (some d) = d.ports

module _ (w : UnifiWorld) (url : String) (required : Dict Required) where
  abbrev base : String
  base = url <> "/proxy/network/integration/v1/"

  -- `get_json`, with the answer of the controller.
  abbrev fetch : {A : Type 0} → String → (List Call → Result Error (Response A)) → Act A
  fetch path answer = do response ← ask (get (base <> path)) answer; parse response

  -- The details of the devices that are expected.
  unfoldable pub see_devices : String → Dict Detail → List Device → Act (Dict Detail)
  unfolding lookup insert
  see_devices site seen [] s = (ok seen, s)
  see_devices site seen (d ∷ devices) s =
      let mac = w.lower d.mac_address in
      let skip = see_devices site seen devices s in
      let look =
        then_do
          (fetch ("sites/" <> (site <> ("/devices/" <> d.id))) (λ log. w.detail site d.id log) s)
          (λ detail. see_devices site (insert mac detail seen) devices) in
      if is_known (lookup mac required) then look else skip

  unfoldable pub see_sites : Dict Detail → List String → Act (Dict Detail)
  unfolding see_devices
  see_sites seen [] s = (ok seen, s)
  see_sites seen (site ∷ sites) s =
      then_do (fetch ("sites/" <> (site <> "/devices?limit=1000")) (λ log. w.devices site log) s)
        (λ devices t. then_do (see_devices site seen devices t) (λ more. see_sites more sites))

  unfoldable pub port_values : String → List Port → List ℕ → Act (Unit {0})
  unfolding add port_up
  port_values name ports [] s = (ok tt, s)
  port_values name ports (port ∷ wanted) s =
      then_do
        (add "home_network_port_up" (flag (port_up port false ports))
          (("device", name) ∷ ("port", w.str port) ∷ []) s)
        (λ _. port_values name ports wanted)

  -- Each device that is expected, also if it has not been seen.
  unfoldable pub device_values : Dict Detail → Dict Required → Act (Unit {0})
  unfolding add lookup port_values
  device_values seen [] s = (ok tt, s)
  device_values seen ((mac, r) ∷ devices) s =
      then_do
        (add "home_network_device_connected" (flag (is_online (lookup mac seen)))
          (("device", r.name) ∷ []) s)
        (λ _ t.
          then_do (port_values r.name (ports_of (lookup mac seen)) r.ports t)
            (λ _. device_values seen devices))

  abbrev no_devices : Dict Required → Bool
  no_devices [] = true
  no_devices (d ∷ ds) = false

  unfoldable pub unifi : Act (Unit {0})
  unfolding see_sites device_values count_ports add
  unifi = do
    key ← ask (secret "unifi-api-key") (λ log. w.credential log)
    (response, expires) ← ask (get (base <> "sites?limit=1000")) (λ log. w.sites log)
    sites ← (if response.status == 200 then (λ s. (response.body, s)) else raise value_error)
    add "home_api_tls_expiry_seconds" (whole expires) []
    seen ← see_sites [] sites
    if no_devices required then raise value_error else (do
      add "home_network_required_port_count" (whole (count_ports required)) []
      device_values seen required)
