-- ===== src/Tests/Starting.antt =====
-- The theorems on the start of a batch and on placements, at a batch with one instance to queue.
use migration_manager.Prelude.{◌≡◌, refl, true, false, [], ◌∷◌, some}
use mathlib.Core.List.{Memᴰ}
use migration_manager.Prelude.Map.{lookup, string_eq}
use migration_manager.Prelude.Int.{pos}
use migration_manager.Errors.{ok}
use migration_manager.Api.Status.{stopped, is_migration_status}
use migration_manager.Api.Types.{Instance, Disk, Nic, Batch, NetworkPlacement, Placement}
use migration_manager.Instance
use migration_manager.Instance.Os.{
  get_os_type, get_distribution, reported_distribution, is_ubuntu_version,
}
use migration_manager.Network.{filter_used_networks, vlan_text, default_placement, to_api, apply}
use migration_manager.Store.{World, ◌>>=◌, ◌>>◌, pure, raise_if, lift, query, exec}
use migration_manager.Store.Transaction.{do_tx, close_tx}
use migration_manager.Store.Repo.{
  get_batch, update_batch, create_queue_entry, get_windows_by_batch, get_instances_by_batch,
}
use migration_manager.Queue
use migration_manager.Queue.NextWindow.{get_batch_by_name}
use migration_manager.Queue.Operations.{create_entry}
use migration_manager.Window.{has_valid_window}
use migration_manager.Batch.{can_start}
use migration_manager.Batch.Placement.{
  place_disks, place_nic, place_nics, entries, get_incus_placement, determine_placement,
}
use migration_manager.Batch.Placement.Complete.{determine_placement_complete}
use migration_manager.Batch.Start.{start, started, queue_instance, queue_instances}
use migration_manager.Batch.Start.Entries.{IsStarted, start-IsStarted}
use migration_manager.Tests.{env_0, instance_0, make_batch, make_world, network_0, window_0}

abbrev disk_0 : Disk
disk_0 = record {
  capacity = pos 10;
  name = "disk";
  shared = false;
  supported = true;
  background_import_verified = true;
}

abbrev nic_0 : Nic
nic_0 = record {
  uuid = 4;
  source_specific_id = "net-1";
  hardware_address = "00:16:3e:00:00:01";
  location = "/dc/network/vm net";
  ipv4_address = "10.0.0.2";
  ipv6_address = "";
}

abbrev instance_1 : Instance
instance_1 = record instance_0 {
  properties = record instance_0.properties { disks = disk_0 ∷ []; nics = nic_0 ∷ [] };
}

abbrev idle_batch : Batch
idle_batch = record (make_batch []) { status = stopped }

abbrev before_start : World
before_start =
    let w = make_world [] (window_0 ∷ []) [] in
    record w { db = record w.db { batches = idle_batch ∷ []; instances = instance_1 ∷ [] } }

abbrev placed : Placement
placed = record {
  target_name = "target";
  target_project = "default";
  storage_pools = ("disk", "pool") ∷ [];
  networks = some (
      ("00:16:3e:00:00:01", record { network = "vm-net"; nic_type = "physical"; vlan_id = "12" })
      ∷ []);
  running = true;
}

instance_1-placed :
    determine_placement env_0 instance_1 (network_0 ∷ []) idle_batch (window_0 ∷ []) ≡ ok placed
unfolding determine_placement get_incus_placement place_disks place_nics place_nic to_api
    default_placement vlan_text apply migration_manager.Prelude.Text.base
    migration_manager.Prelude.Text.itoa
instance_1-placed = refl

determine_placement_complete_example :
    (placed.target_name ≡ "target")
    × (placed.target_project ≡ "default")
    × ((d : Disk)
        → Memᴰ d (disk_0 ∷ [])
        → d.supported ≡ true
        → lookup d.name placed.storage_pools ≡ some "pool")
    × ((n : Nic)
        → Memᴰ n (nic_0 ∷ [])
        → (q : NetworkPlacement) × (lookup n.hardware_address (entries placed.networks) ≡ some q))
    × (placed.running ≡ true)
determine_placement_complete_example =
    determine_placement_complete env_0 instance_1 (network_0 ∷ []) idle_batch (window_0 ∷ []) placed
      refl instance_1-placed

batch-started : (start env_0 (λ is. is) "batch" before_start).0 ≡ ok (started env_0 idle_batch)
unfolding start ◌>>◌ raise_if do_tx query get_batch_by_name get_batch can_start lift
    has_valid_window get_windows_by_batch migration_manager.Window.validate get_instances_by_batch
    queue_instances queue_instance determine_placement place_nics place_nic is_migration_status
    get_incus_placement place_disks migration_manager.Batch.Placement.to_apis get_distribution
    get_os_type is_ubuntu_version reported_distribution Instance.apply Instance.disabled_reason
    Instance.get_architecture Instance.get_name ◌>>=◌ pure exec close_tx update_batch
    create_queue_entry create_entry Queue.validate filter_used_networks to_api default_placement
    vlan_text apply migration_manager.Prelude.Text.base migration_manager.Prelude.Text.itoa
    Instance.supports_background_import
batch-started = refl

start-IsStarted_example :
    IsStarted env_0
      (λ is. is)
      "batch"
      before_start.db
      (start env_0 (λ is. is) "batch" before_start).1.db
start-IsStarted_example =
    start-IsStarted env_0 (λ is. is) "batch" before_start (started env_0 idle_batch) batch-started
