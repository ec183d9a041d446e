-- ===== src/Tests.antt =====
-- A small installation on which the theorems are run: one batch with one window, one instance in the
-- queue, and the services outside the program as concrete functions.
mod Batches
mod Windows
mod Entries
mod State
mod Starting
mod Locks
mod Services
mod Daemon
use migration_manager.Prelude.{
  suc, ℕ, String, str_eq, not, true, false, List, [], ◌∷◌, Option, some, none,
}
use migration_manager.Prelude.Int.{ℤ, pos}
use migration_manager.Env.{Env}
use migration_manager.Api.Status.{
  MigrationStatus, background_import, ImportStage, success_response, running_response, running,
}
use migration_manager.Api.Types.{
  Placement, QueueEntry, WorkerResponse, Window, BatchConstraint, Batch, Configurable, Instance,
  Source, Target, Network,
}
use migration_manager.Store.{World}

-- It is the 1000th nanosecond; every expression matches, and only the empty name is refused.
abbrev pub env_0 : Env
env_0 = record {
  now = 1000;
  is_api_name = λ n. not (str_eq n "");
  is_hostname = λ n. not (str_eq n "");
  compiles = λ e. true;
  matches = λ i e. some true;
  source_import_limit = λ p. some (pos 2);
  target_import_limit = λ p. some (pos 2);
  testing_mode = false;
  is_scriptlet = λ n s. true;
  loads_scriptlet = λ s n. true;
  random_uuid = λ u. suc u;
  vcenter_vlans = λ p. some ([], pos 12);
  run_scriptlet = λ s i b ws ns. none;
  windows = "windows";
  linux = "linux";
  freebsd = "freebsd";
  macos = "macos";
  other_distro = "other";
  ubuntu = "ubuntu";
  determine_linux_distro = λ d. "debian";
  is_linux_distro = λ d. str_eq d "debian";
  to_windows_version = λ d. none;
  is_windows_version = λ v. true;
  find_version = λ u d. some "12";
  architecture_default = "x86_64";
}

abbrev pub make_window : String → ℕ → ℕ → ℤ → Window
make_window n s e c = record {
  id = pos 1;
  name = n;
  start = s;
  end = e;
  lockout = 0;
  batch = "batch";
  capacity = c;
}

-- It is open now.
abbrev pub window_0 : Window
window_0 = make_window "night" 500 100000000000 (pos 1)

-- It comes later.
abbrev pub window_1 : Window
window_1 = make_window "later" 200000000000 400000000000 (pos 0)

-- It is open, and has no end.
abbrev pub endless : Window
endless = make_window "always" 500 0 (pos 0)

abbrev pub placement_0 : Placement
placement_0 = record {
  target_name = "target";
  target_project = "default";
  storage_pools = ("disk", "pool") ∷ [];
  networks = some [];
  running = false;
}

abbrev pub make_entry : ℕ → MigrationStatus → ImportStage → Option String → QueueEntry
make_entry u s t w = record {
  id = pos 7;
  instance_uuid = u;
  batch_name = "batch";
  secret_token = 11;
  import_stage = t;
  migration_status = s;
  migration_status_message = "";
  last_worker_status = running_response;
  last_background_sync = 900;
  migration_window_name = w;
  placement = placement_0;
}

abbrev pub constraint_0 : BatchConstraint
constraint_0 = record {
  name = "two at once";
  description = "";
  include_expression = "true";
  max_concurrent_instances = pos 2;
  min_instance_boot_time = pos 0;
}

abbrev pub make_batch : List BatchConstraint → Batch
make_batch cs = record {
  id = pos 1;
  name = "batch";
  status = running;
  status_message = "";
  include_expression = "true";
  start_date = 0;
  constraints = cs;
  config = record {
    rerun_scriptlets = false;
    placement_scriptlet = "";
    post_migration_retries = pos 5;
    restriction_overrides = record {
      allow_unknown_os = false;
      allow_no_ipv4 = false;
      allow_no_background_import = false;
    };
    background_sync_interval = pos 600;
    final_background_sync_limit = pos 60;
  };
  defaults = record {
    target = "target";
    target_project = "default";
    storage_pool = "pool";
    migration_network = [];
    force_conflict_resolution = false;
    sync_limit = pos 0;
  };
}

abbrev configurable_0 : Configurable
configurable_0 = record {
  name = "vm";
  cpus = pos 2;
  memory = pos 4;
  config = [];
  architecture = "";
}

abbrev pub instance_0 : Instance
instance_0 = record {
  id = pos 1;
  uuid = 1;
  source = "source";
  source_type = "vmware";
  last_update_from_source = 0;
  overrides = record {
    configurable = configurable_0;
    last_update = 0;
    comment = "";
    os_type = "";
    distribution = "";
    distribution_version = "";
    disable_migration = false;
    ignore_restrictions = false;
    started_after_migration = false;
    stopped_after_migration = false;
  };
  properties = record {
    configurable = configurable_0;
    uuid = 1;
    source_specific_id = "vm-1";
    location = "/dc/vm";
    description = "";
    os = "debian";
    os_description = "";
    os_template = "";
    secure_boot = false;
    legacy_boot = false;
    tpm = false;
    running = true;
    background_import = true;
    nics = [];
    disks = [];
    snapshots = [];
    sdn_tags = none;
    tags = [];
    monitoring = none;
  };
}

abbrev pub source_0 : Source
source_0 = record { id = pos 1; name = "source"; source_type = "vmware"; properties = "{}" }

abbrev pub target_0 : Target
target_0 = record { id = pos 1; name = "target"; target_type = "incus"; properties = "{}" }

abbrev pub network_0 : Network
network_0 = record {
  id = pos 1;
  uuid = 3;
  network_type = "distributed";
  source_specific_id = "net-1";
  location = "/dc/network/vm net";
  source = "source";
  properties = "{}";
  overrides = record { network = ""; nic_type = ""; vlan_id = "" };
}

-- A manager with the entries and the windows, and the import counts that go with them.
abbrev pub make_world : List QueueEntry → List Window → List BatchConstraint → World
make_world qs ws cs = record {
  db = record {
    queue = qs;
    batches = make_batch cs ∷ [];
    windows = ws;
    window_ids = [];
    instances = instance_0 ∷ [];
    assigned = ("batch", 1) ∷ [];
    sources = source_0 ∷ [];
    targets = target_0 ∷ [];
    networks = network_0 ∷ [];
    warnings = [];
    next_id = 8;
  };
  worker_updates = [];
  retries = [];
  source_imports = ("source", pos 1) ∷ [];
  target_imports = ("target", pos 1) ∷ [];
  target_creations = [];
  batch_imports = [];
  in_tx = false;
  commits = true;
}

abbrev pub success : WorkerResponse
success = record { status = success_response; status_message = "done"; has_metadata = false }
