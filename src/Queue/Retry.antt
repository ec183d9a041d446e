-- ===== src/Queue/Retry.antt =====
-- queue_service.go, `RetryByUUID`: a canceled entry goes through the initial checks again.
use migration_manager.Prelude.{ℕ, not, [], ◌∷◌, none}
use migration_manager.Errors.{ok, failed}
use migration_manager.Env.{Env}
use migration_manager.Api.Status.{canceled, status_eq, background}
use migration_manager.Api.Types.{QueueEntry, Batch, Instance, Placement}
use migration_manager.Network.{filter_used_networks}
use migration_manager.Store.{M, ◌>>=◌, ◌>>◌, pure, raise_if, lift, query, exec}
use migration_manager.Store.Transaction.{do_tx}
use migration_manager.Store.Repo.{
  get_queue_entry, get_instance, get_windows_by_batch, get_networks_by_source, update_queue_entry,
}
use migration_manager.Queue.NextWindow.{get_batch_by_name}
use migration_manager.Batch.Placement.{determine_placement}
use migration_manager.Batch.Start.{checked}

-- The fields that the retry sets.
abbrev pub retried : Env → Batch → Instance → Placement → QueueEntry → QueueEntry
retried env b i p q = record q {
  migration_status = (checked env b i).0;
  migration_status_message = (checked env b i).1;
  import_stage = background;
  migration_window_name = none;
  placement = p;
}

-- `RetryByUUID`.
unfoldable pub retry : Env → ℕ → M QueueEntry
retry env id = do_tx (do
  q ← query (get_queue_entry id)
  raise_if (not (status_eq q.migration_status canceled))
      (failed "Queue entry has not been cancelled and cleaned up")
  b ← query (get_batch_by_name q.batch_name)
  ws ← query (λ d. ok (get_windows_by_batch q.batch_name d))
  i ← query (get_instance q.instance_uuid)
  nets ← query (λ d. ok (get_networks_by_source i.source d))
  p ← lift (determine_placement env i (filter_used_networks nets (i ∷ [])) b ws)
  exec (update_queue_entry (retried env b i p q))
  pure (retried env b i p q))
