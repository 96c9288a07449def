-- ===== src/Tests/Monitor.antt =====
-- docker/home-service-monitor/monitor.py on small inputs.
use my_infra.Prelude.{
  ℕ, ◌*◌, ◌≤◌, ◌≡◌, ◌≢◌, ◌⊎◌, ◌↔◌, refl, true, false, arith, Option, none, some, List, [], ◌∷◌,
  ◌++◌, map, String, leb, length, take, drop, IsNodup, All, if◌then◌else◌, string_eq,
}
use my_infra.Prelude.Dict.{lookup}
use my_infra.Prelude.Action.{ok, err, pure}
use my_infra.Monitor.Metrics.{
  Text, text, Value, whole, value_error, http_status, timeout_error, out_of_fuel, Metrics,
  new_metrics, quote, render,
}
use my_infra.Monitor.Metrics.Quote.{unquote, unquote-quote}
use my_infra.Monitor.Metrics.Lines.{split_lines, line_of, render_lines}
use my_infra.Monitor.Scan.{Scan, Act, add}
use my_infra.Monitor.Pages.{Page, pages}
use my_infra.Monitor.Pages.Honest.{pages-Serves}
use my_infra.Monitor.Recorder.{Reserve, Recorded, is_overdue, count_if}
use my_infra.Monitor.Recorder.Due.{Covered, not_started_iff}
use my_infra.Monitor.Pbs.{Snapshot, candidates, latest, last_verified, time_of}
use my_infra.Monitor.Pbs.Latest.{IsNewest, latest-IsNewest}
use my_infra.Monitor.Retry.{
  Server, kubernetes_get_json, FailsForGood, FailsTwice, kubernetes_get_json_fails,
}
use my_infra.Monitor.Nas.{NasWorld, await}
use my_infra.Monitor.Nas.Deadline.{await_ends}
use my_infra.Monitor.Poll.{Target, Exporter, poll_turns, has_duplicates}
use my_infra.Monitor.Poll.Snapshots.{
  or_else, last_turn, poll_turns-lookup, Failed, Succeeded, collect_once_cases, has_duplicates_iff,
}
use my_infra.Monitor.Netlink.{Bytes, ipv4_addresses}

abbrev label : Text
label = b'a' ∷ b'"' ∷ b'\\' ∷ b'\n' ∷ []

quote_run : quote label ≡ b'"' ∷ b'a' ∷ b'\\' ∷ b'"' ∷ b'\\' ∷ b'\\' ∷ b'\\' ∷ b'n' ∷ b'"' ∷ []
unfolding quote
quote_run = refl

unquote-quote_example : unquote (quote label ++ (b',' ∷ [])) ≡ some (label, b',' ∷ [])
unquote-quote_example = unquote-quote label (b',' ∷ [])

abbrev show : Value → Text
show v = text "1.0"

abbrev up : Metrics
up = record {
  labels = ("target", "nas") ∷ ("kind", "truenas") ∷ [];
  samples =
      record { name = "up"; value = whole 1; labels = ("target", "nas") ∷ ("kind", "a\nb") ∷ [] }
      ∷ [];
}

render_run : render show up ≡ text "up{kind=\"a\\nb\",target=\"nas\"} 1.0\n"
unfolding render
render_run = refl

render_lines_example : split_lines (render show up) ≡ map (line_of show) up.samples ++ ([] ∷ [])
render_lines_example =
    render_lines show up (λ v. (refl, (refl, (refl, tt))))
      (
        (
          (refl, (refl, tt)),
          (
            (refl, (refl, (refl, (refl, (refl, (refl, tt)))))),
            ((refl, (refl, (refl, (refl, tt)))), tt),
          ),
        ),
        tt,
      )

abbrev idle : Scan
idle = record { log = []; metrics = new_metrics "recorder" "recorder" }

abbrev three : List ℕ
three = 1 ∷ 2 ∷ 3 ∷ []

abbrev serve : List ℕ → ℕ → Act (Page ℕ)
serve xs offset = pure record { items = some (take 100 (drop offset xs)); total = length xs }

pages_run : (pages (serve (1 ∷ 2 ∷ [])) idle).0 ≡ ok (1 ∷ 2 ∷ [])
unfolding pages
pages_run = refl

pages-Serves_example :
    (pages (serve three) idle).0
    ≡ (if leb (length three) 100_000 then ok three else err value_error)
pages-Serves_example = pages-Serves (serve three) three (λ offset s. refl) idle

abbrev news : Reserve
news = record {
  channel_id = 1;
  start_at = 1_000_000;
  end_at = 2_800_000;
  is_skip = false;
  is_conflict = false;
}

abbrev taped : Recorded
taped = record {
  channel_id = 1;
  start_at = 1_000_000;
  end_at = 2_800_000;
  is_recording = true;
  video_files = true;
}

not_started_run :
    (count_if (is_overdue [] [] 1_500_000_000) (news ∷ []) ≡ 1)
    × (count_if (is_overdue (taped ∷ []) [] 1_500_000_000) (news ∷ []) ≡ 0)
unfolding count_if is_overdue
not_started_run = (refl, refl)

not_started_iff_example :
    (count_if (is_overdue (taped ∷ []) [] 1_500_000_000) (news ∷ []) ≡ 0)
    ↔ All (Covered (taped ∷ []) [] 1_500_000_000) (news ∷ [])
not_started_iff_example = not_started_iff (taped ∷ []) [] 1_500_000_000 (news ∷ [])

abbrev snapshot : ℕ → Option String → Snapshot
snapshot time verification = record {
  backup_type = "vm";
  backup_id = "100";
  backup_time = time;
  files = none ∷ some "index.json.blob" ∷ [];
  comment = none;
  verification = verification;
}

abbrev snapshots : List Snapshot
snapshots = snapshot 5 (some "ok") ∷ snapshot 9 none ∷ snapshot 7 (some "failed") ∷ []

latest_run :
    (time_of (latest (candidates "100" snapshots)) ≡ 9)
    × (last_verified (candidates "100" snapshots) ≡ 5)
unfolding latest candidates last_verified
latest_run = (refl, refl)

latest-IsNewest_example :
    IsNewest "100" snapshots (latest (candidates "100" snapshots))
    × (last_verified (candidates "100" snapshots) ≤ time_of (latest (candidates "100" snapshots)))
latest-IsNewest_example = latest-IsNewest "100" snapshots

-- The first request is answered with 503.
abbrev flaky : Server ℕ
flaky (c ∷ d ∷ log) = ok record { status = 200; body = ok 7 }
flaky (c ∷ []) = ok record { status = 200; body = ok 7 }
flaky [] = ok record { status = 503; body = err value_error }

kubernetes_get_json_run : (kubernetes_get_json "url" flaky idle).0 ≡ ok 7
unfolding kubernetes_get_json
kubernetes_get_json_run = refl

kubernetes_get_json_fails_example :
    ((kubernetes_get_json "url" flaky idle).0 ≡ err (http_status 503)) ↔ (
      FailsForGood "url" flaky idle (http_status 503)
      ⊎ FailsTwice "url" flaky idle (http_status 503))
kubernetes_get_json_fails_example = kubernetes_get_json_fails "url" flaky idle (http_status 503)

-- A server that answers other calls only.
abbrev silent : NasWorld
silent = record {
  credential = λ log. ok "";
  verify_leaf = λ log. ok tt;
  handshake = 101;
  expires = 0;
  messages = λ log. ok record { id = none; answer = none; is_connected = false };
  monotonic = λ log. length log * 1_000_000;
  timestamp = λ s. ok 0;
  about_disks = λ s. false;
}

await_run : (await silent 4 3_000_000 1 idle).0 ≡ err timeout_error
unfolding await
await_run = refl

await_ends_example : (await silent 4 3_000_000 1 idle).0 ≢ err out_of_fuel
await_ends_example =
    await_ends silent 4 3_000_000 1 3 idle (λ log q. absurd cc) (omega arith) (omega arith)

abbrev nas : Target
nas = record { name = "nas"; kind = "broken"; interval = 60 }

-- A collector that shows something and raises then.
abbrev exporter : Exporter
exporter = record {
  collectors = λ kind. some (λ s. (err value_error, (add "up" (whole 1) [] s).1));
  show = show;
}

collect_once_example : Succeeded exporter nas 5 ⊎ Failed exporter nas 5
collect_once_example = collect_once_cases exporter nas 5

poll_turns-lookup_example :
    lookup "nas" (poll_turns exporter ((nas, 5) ∷ (nas, 8) ∷ []) [])
    ≡ or_else (last_turn exporter "nas" ((nas, 5) ∷ (nas, 8) ∷ [])) (lookup "nas" [])
poll_turns-lookup_example = poll_turns-lookup exporter ((nas, 5) ∷ (nas, 8) ∷ []) [] "nas"

has_duplicates_iff_example :
    (has_duplicates ("a" ∷ "b" ∷ []) ≡ false) ↔ IsNodup {A = String} ("a" ∷ "b" ∷ [])
has_duplicates_iff_example = has_duplicates_iff ("a" ∷ "b" ∷ [])

-- One address, and the end of the dump.
abbrev datagram : Bytes
datagram =
    32 ∷ 0 ∷ 0 ∷ 0 ∷ 20 ∷ 0 ∷ 2 ∷ 0 ∷ 1 ∷ 0 ∷ 0 ∷ 0 ∷ 9 ∷ 0 ∷ 0 ∷ 0 ∷ 2 ∷ 24 ∷ 0 ∷ 0 ∷ 1 ∷ 0 ∷ 0 ∷ 0
    ∷ 8 ∷ 0 ∷ 2 ∷ 0 ∷ 10 ∷ 0 ∷ 0 ∷ 5 ∷ 16 ∷ 0 ∷ 0 ∷ 0 ∷ 3 ∷ 0 ∷ 2 ∷ 0 ∷ 1 ∷ 0 ∷ 0 ∷ 0 ∷ 9 ∷ 0 ∷ 0
    ∷ 0 ∷ []

ipv4_addresses_run : ipv4_addresses (datagram ∷ []) ≡ ok ((10 ∷ 0 ∷ 0 ∷ 5 ∷ []) ∷ [])
unfolding ipv4_addresses
ipv4_addresses_run = refl
