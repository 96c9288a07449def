-- ===== src/Lib.antt =====
-- The Python programs of my-infra, the repository of a home infrastructure, and what is proved of
-- them.
--
-- `RecSync` is docker/annict-rec-sync/sync.py, the daily job that reserves television recordings of
-- the season's works that no subscribed service streams. `Text` has `normalize`; `Title` the
-- longest common substring and `title_matches`; `Channel` the channel map and `channel_priority`;
-- `Schedule` the guide and `match_program`; `Http` the requests and the answers; `Scraper`
-- `is_streamable_on_subscription`; `Reserves` the paging of the reservations and `add_reserve`;
-- `Season` the paging of the works; `Quarter` is `current_season`. `Run` is `main`: `Candidates` the loop over the broadcasts of a
-- work, `Booking` the loop over its channels, `Main` the rest. A text is the list of its code
-- points and a time the number of microseconds since 1970. The servers are a record of functions
-- from all requests made so far to the next answer, where `none` is a request that raises; the
-- state that a raise leaves is kept beside it. The loops over pages take fuel, one unit for each
-- page: as many as the server has pages do, since the loops stop at the last one. Python's
-- `unicodedata.normalize`, `str.lower`, `datetime.fromisoformat` and `strftime` are parameters.
-- Logging and the pauses between attempts are not modelled, nor a channel whose name is null: a name is
-- a text or missing.
--
-- `Maintenance` is ansible/host-maintenance/files/maintenance-agent.py, the agent that updates and reboots
-- the hosts. `Backup` is its part about backups: those that run are written to a journal before the
-- host reboots, and submitted again after it. `Exec` are actions that change a state and may raise;
-- `Pve` the journal, the world, `package_idle`, `pve_healthy` and
-- `pve_tasks_idle`. `Backup.Arguments` is `backup_arguments`, the reading of the command that a
-- backup has logged; `Backup.Signature` is `backup_signature`; `Backup.Journal` is `backup_save`,
-- `backup_release` and `replay_backup_item`; `Backup.Replays` is `replay_backups`;
-- `Backup.Prepare` is `prepare_backups`, whose loop takes one unit of fuel for each turn and says
-- so when it has used them up. A turn sleeps two seconds and the deadline is 120, so 61 units do.
-- What commands answer is a function of all events before, kept in a log; JSON files are values.
-- What `shlex.split`, `str.isdigit` and SHA-256 give are parameters. Messages are left out.
-- `Agent` is the rest of the agent: its state has the journals execution.json and update.json, the
-- request update-request.json, `pending` of the program, the state of the backups, and the record of
-- its steps; a part that works on the backups or the cluster is one step. `Agent.Availability` is
-- `availability_policy`, `availability_check` and `loockit_state`; `Agent.Handoff` the handoff of
-- Loockit, `pve_recovered`, `reboot_required` and `pve_preflight`; `Agent.Updates` is `updates`, `api`
-- and `update_packages`; `Agent.Process` is `process`; `Agent.Main` is `main`. The wait of the handoff
-- takes one unit of fuel for each turn: a turn sleeps five seconds and the deadline is 480, so 97 do.
-- The policy's URLs are texts, and writing a file does not fail. `failure_detail` is left out.
--
-- `Monitor` is docker/home-service-monitor/monitor.py, the exporter that polls the services of the
-- home. `Metrics` is its class of that name with the rendering; `Scan` one poll, the requests and the
-- metrics so far; `Pages` is `pages`; `Recorder`, `Pbs`, `Kubernetes`, `Network` (`unifi`), `Nas`
-- (`truenas`), `Netlink` (`ipv4_addresses` and `vip`) and `Services` (the rest) are the collectors;
-- `Retry` is `get_json` and `kubernetes_get_json`; `Poll` is `collect_once`, the threads of `poll`,
-- the handler and the check of the names in `main`. A float is an exact number, in millionths or as a
-- quotient, and a time is in microseconds. What a server answers is a function of the requests so far,
-- with what is parsed from it. A thread's turn under the lock is one step, and the turns come in any
-- order. The wait for an answer of TrueNAS takes one unit of fuel for each message, and says so when
-- it has used them up: one more than the messages that come before the deadline do. The loops over a dump of the kernel take as much fuel as there are bytes. Regular expressions,
-- the splitting of URLs and lines, the writing of floats and the parsing of times and JSON are
-- parameters. Connections, certificates and their pins, the files of secrets and the arguments of
-- `main` are not modelled.
--
-- `Tiered` is ansible/pbs/files/pbs-tiered.py, which copies verified backups to an archive and keeps the
-- copied ones from pruning, and pbs-capacity-hook.py beside it. `Select` is `select_verified`,
-- `require_copies` and `validate_sync`; `Pins` is `set_protected` and `update_pins`; `Daily` is
-- `check_mount`, `housekeeping`, `daily` and `main`; `Capacity` is the hook. The loop of
-- `set_protected` takes one unit of fuel for each turn: a turn that is tried again sleeps, ten seconds
-- but the last, and the deadline is 900, so 92 do. Whether a refusal is a busy one, which the program
-- reads from its message, is part of the answer. How commands are run is not modelled.
--
-- `Prelude` has the names and lemmas that the modules share: `Dict` Python's dictionaries, `Sorted` its
-- `sorted` on pairs, `Action` actions that change a state and may raise. `Tests` runs of the code and the
-- theorems at concrete inputs.
pub mod Maintenance
pub mod Monitor
pub mod Prelude
pub mod RecSync
pub mod Tests
pub mod Tiered
