-- ===== src/Monitor/Netlink/Fuel.antt =====
-- The loops over a netlink dump in docker/home-service-monitor/monitor.py end: each round moves on.
use my_infra.Prelude.{◌≢◌, nat_eq}
use my_infra.Prelude.Action.{Result, err}
use my_infra.Monitor.Metrics.{Error, out_of_fuel}

abbrev Halts : {A : Type 0} → Result Error A → Type 0
Halts r = r ≢ err out_of_fuel
