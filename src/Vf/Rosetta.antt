-- ===== src/Vf/Rosetta.antt =====
-- Rosetta shares: pkg/vf/rosetta_arm64.go and, for other architectures, pkg/vf/rosetta_amd64.go.
use vfkit.Base.{
  wrapped, Bool, not, [], if◌then◌else◌, errorf, wrapf, Result, ok, err, ◌>>=◌, ◌>>◌, fail_if,
}
use vfkit.Text.{Text, is_empty}
use vfkit.Config.Device.Share.{RosettaShare}

-- `vz.LinuxRosettaAvailability`
pub data Availability : Type 0 where
  not_supported : Availability
  not_installed : Availability
  installed : Availability

-- The framework; `with_share` sets the share in the configuration of a file system.
pub record RosettaMaker (Native : Type 0) : Type 0 where
  pub is_arm64 : Bool
  pub availability : Availability
  pub install : Result (Unit {0})
  pub directory_share : Result Native
  pub file_system : Text → Result Native
  pub with_share : Native → Native → Native

-- What follows the installation.
abbrev pub install_result : Bool → Result (Unit {0}) → Result (Unit {0})
install_result ignore_if_missing (ok _) = ok tt
install_result ignore_if_missing (err e) =
    if ignore_if_missing then ok tt else err (wrapf "failed to install rosetta: %w" e)

module _ {Native : Type 0} (maker : RosettaMaker Native) where
  unfoldable pub check_rosetta_availability : RosettaShare → Result (Unit {0})
  check_rosetta_availability dev = elim maker.availability [
    | not_supported ↦ err (errorf "rosetta is not supported" [])
    | not_installed ↦
        if not dev.install_rosetta
        then err (errorf "rosetta is not installed" [])
        else install_result dev.ignore_if_missing maker.install
    | installed ↦ ok tt
  ]

  unfoldable pub rosetta_to_vz : RosettaShare → Result Native
  unfolding check_rosetta_availability
  rosetta_to_vz dev = do
    fail_if (is_empty dev.mount_tag)
        (errorf "missing mandatory 'mountTage' option for rosetta share" [])
    check_rosetta_availability dev
    share ← wrapped "failed to create a new rosetta directory share: %w" maker.directory_share
    config ←
        wrapped "failed to create a new virtio file system configuration for rosetta: %w"
          (maker.file_system dev.mount_tag)
    ok (maker.with_share config share)

  -- The share of `AddToVirtualMachineConfig`
  unfoldable pub rosetta_share : RosettaShare → Result Native
  unfolding rosetta_to_vz
  rosetta_share dev =
      if maker.is_arm64
      then rosetta_to_vz dev
      else err (errorf "rosetta is unsupported on non-arm64 platforms" [])
