-- ===== src/Store/Repo/Inventory.antt =====
-- internal/migration/repo/sqlite, instance.go, source.go, target.go and network.go: the statements on
-- what is migrated, from where, and to where.
use migration_manager.Prelude.{
  ℕ, String, str_eq, Bool, not, ◌&&◌, ◌==◌, if◌then◌else◌, List, Option, none, some, is_empty,
}
use migration_manager.Prelude.Int.{ℤ}
use migration_manager.Prelude.Table.{find?, filter, any, replace, remove}
use migration_manager.Errors.{Result, ok, err, failed, not_found}
use migration_manager.Api.Types.{QueueEntry, Batch, Instance, Source, Target, Network}
use migration_manager.Store.State.{Db}
use migration_manager.Store.Repo.Keys.{or_not_found, has_uuid, is_instance}

abbrev pub is_source : String → Source → Bool
is_source n s = str_eq s.name n

-- An instance as its row is read: the id is the row's, and the type of the source the source's, which
-- a read joins and neither `Create` nor `Update` writes. A row of the table is kept as it was read.
abbrev pub with_row : ℤ → Source → Instance → Instance
with_row id s i = record i { id = id; source_type = s.source_type }

abbrev pub read_instance : List Source → Instance → Option Instance
read_instance ss i = elim (find? (is_source i.source) ss) [
  | none ↦ none
  | some s ↦ some (with_row i.id s i)
]

-- Instances: by UUID, by the UUIDs of some queue entries, by batch.
unfoldable pub get_instance : ℕ → Db → Result Instance
get_instance id d =
    or_not_found (elim (find? (is_instance id) d.instances) [
      | none ↦ none
      | some i ↦ read_instance d.sources i
    ])

unfoldable pub get_instances_by_uuids : List QueueEntry → Db → List Instance
get_instances_by_uuids qs d =
    if is_empty qs then d.instances else filter (λ i. any (has_uuid i.uuid) qs) d.instances

unfoldable pub get_instances_by_batch : String → Db → List Instance
get_instances_by_batch b d =
    filter (λ i. any (λ a. str_eq a.0 b && (a.1 == i.uuid)) d.assigned) d.instances

-- The batches of an instance.
unfoldable pub get_batches_by_instance : ℕ → Db → List Batch
get_batches_by_instance id d =
    filter (λ (b : Batch). any (λ a. str_eq a.0 b.name && (a.1 == id)) d.assigned) d.batches

-- `Update` of an instance, by its UUID: the row keeps its id, and the source has to be there.
unfoldable pub update_instance : Instance → Db → Result Db
update_instance i d = elim (find? (is_instance i.uuid) d.instances) [
  | none ↦ err not_found
  | some old ↦ elim (find? (is_source i.source) d.sources) [
    | none ↦ err (failed "Update \"instances\" entry failed")
    | some s ↦
        ok (record d { instances = replace (is_instance i.uuid) (with_row old.id s i) d.instances })
  ]
]

-- `DeleteByUUID` of an instance: its queue entry and its batches go with it.
unfoldable pub delete_instance : ℕ → Db → Result Db
delete_instance id d =
    if any (is_instance id) d.instances
    then ok (record d {
      instances = remove (is_instance id) d.instances;
      queue = remove (has_uuid id) d.queue;
      assigned = remove (λ a. a.1 == id) d.assigned;
    })
    else err not_found

-- Sources and targets, by name.
unfoldable pub get_source : String → Db → Result Source
get_source n d = or_not_found (find? (is_source n) d.sources)

-- `DeleteByName` of a source: its networks go with it, but an instance keeps it.
abbrev pub comes_from : String → Instance → Bool
comes_from n i = str_eq i.source n

unfoldable pub delete_source : String → Db → Result Db
delete_source n d =
    if not (any (is_source n) d.sources)
    then err not_found
    else if any (comes_from n) d.instances
    then err (failed "Delete \"sources\"")
    else ok (record d {
      sources = remove (is_source n) d.sources;
      networks = remove (λ (x : Network). str_eq x.source n) d.networks;
    })

-- `DeleteByName` of a target.
abbrev pub is_target : String → Target → Bool
is_target n t = str_eq t.name n

unfoldable pub delete_target : String → Db → Result Db
delete_target n d =
    if any (is_target n) d.targets
    then ok (record d { targets = remove (is_target n) d.targets })
    else err not_found

unfoldable pub get_target : String → Db → Result Target
get_target n d = or_not_found (find? (λ (t : Target). str_eq t.name n) d.targets)

-- Networks: all of them, and those of a source.
abbrev pub get_all_networks : Db → List Network
get_all_networks d = d.networks

unfoldable pub get_networks_by_source : String → Db → List Network
get_networks_by_source s d = filter (λ (n : Network). str_eq n.source s) d.networks
