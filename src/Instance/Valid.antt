-- ===== src/Instance/Valid.antt =====
-- internal/migration/instance_model.go: the validation of an instance.
use migration_manager.Prelude.{String, str_eq, Bool, not, ◌&&◌, ◌==◌, if◌then◌else◌, true}
use migration_manager.Prelude.Table.{any}
use migration_manager.Prelude.Text.{codes, is_int}
use migration_manager.Errors.{Result, ok, validation, refuse_if, ◌>>◌}
use migration_manager.Env.{Env}
use migration_manager.Api.Types.{Instance, Nic}
use migration_manager.Instance.Os.{
  fortigate, get_os_type, get_distribution, is_os_type, is_distribution, is_ubuntu_version,
}

-- The checks of the distribution for each operating system.
unfoldable pub validate_distribution : Env → String → String → String → Result (Unit {0})
unfolding is_ubuntu_version
validate_distribution env os distro version =
    if str_eq os fortigate
    then refuse_if (not (str_eq distro env.other_distro))
        (validation "Invalid FortiGate distribution")
    else if str_eq os env.linux
    then (if str_eq distro env.ubuntu
        then refuse_if (not (is_ubuntu_version version))
            (validation "Failed to parse distribution version")
        else if str_eq distro env.other_distro
        then refuse_if (not (str_eq version "")) (validation "Cannot set a version")
        else refuse_if (not (str_eq version "") && not (is_int (codes version)))
            (validation "Failed to parse distribution version"))
    else if str_eq os env.windows
    then (refuse_if (not (str_eq distro env.other_distro))
          (validation "Invalid Windows distribution")
        >> refuse_if (not (env.is_windows_version version))
            (validation "Windows version is invalid"))
    else ok tt

abbrev pub has_no_uuid : Nic → Bool
has_no_uuid n = n.uuid == 0

-- `Instance.Validate`.
unfoldable pub validate : Env → Instance → Result (Unit {0})
unfolding validate_distribution get_os_type get_distribution
validate env i =
    let os = get_os_type env i true in
    let (distro, version) = get_distribution env i true in
    do
      refuse_if (i.uuid == 0) (validation "Invalid instance, UUID can not be empty")
      refuse_if (str_eq i.properties.location "")
          (validation "Invalid instance, inventory path can not be empty")
      refuse_if (str_eq i.properties.configurable.name "")
          (validation "Invalid instance, name can not be empty")
      refuse_if (str_eq i.source "") (validation "Invalid instance, source id can not be empty")
      refuse_if
          (not (str_eq i.overrides.configurable.name "")
            && not (env.is_hostname i.overrides.configurable.name))
          (validation "Invalid instance override, name is not a valid hostname")
      refuse_if (i.overrides.started_after_migration && i.overrides.stopped_after_migration)
          (validation "Invalid instance override, ambiguous post-migration power state")
      refuse_if (any has_no_uuid i.properties.nics) (validation "Instance NIC has empty UUID")
      refuse_if (not (is_os_type env os)) (validation "Invalid instance OS type")
      refuse_if (not (is_distribution env os distro))
          (validation "Invalid instance OS distribution")
      validate_distribution env os distro version
