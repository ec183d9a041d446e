-- ===== src/Env.antt =====
-- What the program does not implement itself: the clock, the random source, the name checks and the
-- operating-system names of the incus library, the expression language, JSON, regular expressions,
-- and the placement scripts. Each operation takes one reading of the clock.
use migration_manager.Prelude.{ℕ, String, Bool, Option, List}
use migration_manager.Prelude.Int.{ℤ}
use migration_manager.Api.Types.{Instance, Batch, Window, ApiNetwork, Placement}

pub record Env : Type 0 where
  -- `time.Now().UTC()`
  pub now : ℕ
  -- the UUID that `uuid.NewRandom()` draws for the queue entry of an instance
  pub random_uuid : ℕ → ℕ
  -- `validate.IsAPIName(name, false)` returns no error
  pub is_api_name : String → Bool
  -- `validate.IsHostname(name)` returns no error
  pub is_hostname : String → Bool
  -- `CompileIncludeExpression` returns no error
  pub compiles : String → Bool
  -- `MatchesCriteria`; `none` is an error of the expression language
  pub matches : Instance → String → Option Bool
  -- `json.Unmarshal` into the source's or the target's properties: the import limit
  pub source_import_limit : String → Option ℤ
  pub target_import_limit : String → Option ℤ
  -- `json.Unmarshal` into the properties of a vCenter network: the VLAN ranges and the VLAN id
  pub vcenter_vlans : String → Option (List String × ℤ)
  -- `os.Getenv` finds the testing mode
  pub testing_mode : Bool
  -- `scriptlet.BatchPlacementValidate` returns no error
  pub is_scriptlet : String → String → Bool
  -- `scriptlet.BatchPlacementSet` returns no error
  pub loads_scriptlet : String → String → Bool
  -- `scriptlet.BatchPlacementSet` and `BatchPlacementRun`; `none` is an error of either
  pub run_scriptlet : String → Instance → Batch → List Window → List ApiNetwork → Option Placement
  -- `osinfo.Windows`, `Linux`, `FreeBSD`, `MacOS`, `OtherDistro`, `UbuntuLinux`
  pub windows : String
  pub linux : String
  pub freebsd : String
  pub macos : String
  pub other_distro : String
  pub ubuntu : String
  -- `osinfo.DetermineLinuxDistro`, and whether a distribution is one of osinfo's for Linux
  pub determine_linux_distro : String → String
  pub is_linux_distro : String → Bool
  -- `osinfo.ToWindowsVersion`, and `osinfo.ValidateWindowsVersion` returns no error
  pub to_windows_version : String → Option String
  pub is_windows_version : String → Bool
  -- the first group of the version's regular expression, the one for Ubuntu or the other
  pub find_version : Bool → String → Option String
  -- `osarch.ArchitectureDefault`
  pub architecture_default : String
