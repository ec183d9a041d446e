-- ===== src/Instance/Os.antt =====
-- instance_model.go, `GetOSType` and `GetDistribution`; shared/api/os.go and internal/util/os.go: what an
-- instance says of its operating system.
use migration_manager.Prelude.{
  String, str_eq, Bool, not, ◌&&◌, ◌||◌, ◌==◌, if◌then◌else◌, [], Option, none, some, length,
}
use migration_manager.Prelude.Table.{all}
use migration_manager.Prelude.Text.{codes, lower, begins, contains, split_from, is_int}
use migration_manager.Env.{Env}
use migration_manager.Api.Types.{Instance}

-- `OSTYPE_FORTIGATE`.
abbrev pub fortigate : String
fortigate = "fortigate"

abbrev first_set : String → String → String
first_set a b = if str_eq a "" then b else a

abbrev or_empty : Option String → String
or_empty none = ""
or_empty (some v) = v

-- `GetOSType` without overrides.
abbrev os_from : Env → Instance → String
os_from env i =
    let name = lower (codes (first_set i.properties.os i.properties.os_template)) in
    if contains (codes "windows") name
    then env.windows
    else if begins (codes "FortiGate") (codes i.properties.description)
    then fortigate
    else if contains (codes "freebsd") name
    then env.freebsd
    else env.linux

-- `Instance.GetOSType`.
unfoldable pub get_os_type : Env → Instance → Bool → String
get_os_type env i apply_overrides =
    if apply_overrides && not (str_eq i.overrides.os_type "")
    then i.overrides.os_type
    else os_from env i

-- `util.ValidateUbuntuVersion` returns no error.
unfoldable pub is_ubuntu_version : String → Bool
is_ubuntu_version v =
    let parts = split_from b'.' [] (codes v) in
    str_eq v "" || ((length parts == 2) && all (λ p. (length p == 2) && is_int p) parts)

-- The distribution and version of a Linux guest. A version that does not parse is left out.
abbrev linux_distribution : Env → String → String × String
linux_distribution env description =
    let distro = env.determine_linux_distro description in
    let found =
      if str_eq distro env.other_distro
      then none
      else env.find_version (str_eq distro env.ubuntu) description in
    let version = or_empty found in
    let parses =
      if str_eq distro env.ubuntu then is_ubuntu_version version else is_int (codes version) in
    (distro, if parses then version else "")

-- What the guest reports.
unfoldable pub reported_distribution : Env → Instance → String → String × String
unfolding is_ubuntu_version
reported_distribution env i os =
    let description = first_set i.properties.os_description i.properties.os_template in
    if not (str_eq i.source_type "vmware")
    then (env.other_distro, "")
    else if str_eq os env.windows
    then (env.other_distro, or_empty (env.to_windows_version description))
    else if str_eq os env.linux
    then linux_distribution env description
    else (env.other_distro, "")

-- `Instance.GetDistribution`.
unfoldable pub get_distribution : Env → Instance → Bool → String × String
unfolding get_os_type reported_distribution
get_distribution env i apply_overrides =
    let (distro, version) = reported_distribution env i (get_os_type env i apply_overrides) in
    if apply_overrides
    then (
      first_set i.overrides.distribution distro,
      first_set i.overrides.distribution_version version,
    )
    else (distro, version)

-- `api.ValidateOSType` and `api.ValidateDistribution` return no error.
abbrev pub is_os_type : Env → String → Bool
is_os_type env os =
    str_eq os env.freebsd
    || str_eq os env.linux
    || str_eq os env.macos
    || str_eq os env.windows
    || str_eq os fortigate

abbrev pub is_distribution : Env → String → String → Bool
is_distribution env os distro =
    if str_eq os env.linux
    then env.is_linux_distro distro || str_eq distro env.other_distro
    else str_eq distro env.other_distro
