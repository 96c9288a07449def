-- ===== src/Maintenance/Backup/Replays.antt =====
-- `replay_backups` of ansible/host-maintenance/files/maintenance-agent.py: one run of the replay of
-- interrupted backups.
pub mod Once
use my_infra.Prelude.{
  ◌≡◌, Bool, true, false, not, ◌&&◌, Option, none, some, List, [], ◌∷◌, String, ◌==◌, string_eq,
  if◌then◌else◌,
}
use my_infra.Maintenance.Exec.{
  Error, runtime_error, subprocess_error, value_error, key_error, index_error, os_error, Result, ok,
  err, ◌>>=◌, ◌>>◌, then_do, pure, raise,
}
use my_infra.Prelude.Dict.{Dict, keys}
use my_infra.Maintenance.Pve.{
  Item, Queue, archived, unlinked, World, State, Act, pve_healthy, pve_tasks_idle,
}
use my_infra.Maintenance.Backup.Journal.{finished, replay_backup_item}

-- `except (OSError, ValueError, RuntimeError, subprocess.SubprocessError)`
abbrev pub deferred : Result (Unit {0}) → Result (Unit {0})
deferred (ok a) = ok a
deferred (err runtime_error) = ok tt
deferred (err subprocess_error) = ok tt
deferred (err value_error) = ok tt
deferred (err os_error) = ok tt
deferred (err key_error) = err key_error
deferred (err index_error) = err index_error

abbrev pub defer : Result (Unit {0}) × State → Result (Unit {0}) × State
defer (r, s) = (deferred r, s)

unfoldable pub all_finished : Dict Item → Bool
all_finished [] = true
all_finished ((key, item) ∷ items) = finished item.state && all_finished items

-- `save(queue, BACKUP_LAST)` and `BACKUP_STATE.unlink()`
unfoldable pub archive : Act (Unit {0})
archive s = (
  ok tt,
  record s { journal = none; last = some s.queue; log = unlinked ∷ archived s.queue ∷ s.log },
)

-- `try: pve_tasks_idle(allow_backups=True) except RuntimeError: return`
abbrev pub after_tasks :
    {A : Type 0} → Act (Unit {0}) → Result A × State → Result (Unit {0}) × State
after_tasks next (ok a, s) = next s
after_tasks next (err runtime_error, s) = (ok tt, s)
after_tasks next (err subprocess_error, s) = (err subprocess_error, s)
after_tasks next (err value_error, s) = (err value_error, s)
after_tasks next (err os_error, s) = (err os_error, s)
after_tasks next (err key_error, s) = (err key_error, s)
after_tasks next (err index_error, s) = (err index_error, s)

unfoldable pub archive_finished : Act (Unit {0})
unfolding all_finished archive
archive_finished s = if all_finished s.queue.items then archive s else (ok tt, s)

module _ (w : World) where
  unfoldable pub replay_items : List String → Act (Unit {0})
  unfolding replay_backup_item
  replay_items [] s = (ok tt, s)
  replay_items (key ∷ rest) s =
      then_do (defer (replay_backup_item w key s)) (λ _. replay_items rest)

  -- No task but backups runs on either node.
  unfoldable pub replay_all : Act (Unit {0})
  unfolding replay_items archive_finished
  replay_all s = then_do (replay_items (keys s.queue.items) s) (λ _. archive_finished)

  unfoldable pub when_tasks_idle : Act (Unit {0})
  unfolding pve_tasks_idle replay_all
  when_tasks_idle s = after_tasks replay_all (pve_tasks_idle w true s)

  -- With the queue that has been read.
  unfoldable pub resume : Queue → Act (Unit {0})
  unfolding pve_healthy when_tasks_idle
  resume queue = elim (queue.boot_id) [
    | none ↦ raise key_error
    | some id ↦
        if (id == w.boot_id) && not queue.resume_allowed
        then pure tt
        else (do healthy ← pve_healthy w; if healthy then when_tasks_idle else pure tt)
  ]

  unfoldable pub replay_backups : Act (Unit {0})
  unfolding resume
  replay_backups s = elim (s.journal) [
    | none ↦ (ok tt, s)
    | some queue ↦ resume queue (record s { queue = queue })
  ]
