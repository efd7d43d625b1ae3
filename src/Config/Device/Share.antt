-- ===== src/Config/Device/Share.antt =====
-- The devices that share a directory or have no configuration: `VirtioFs`, `RosettaShare`,
-- `VirtioRng` and `VirtioBalloon` of pkg/config/virtio.go.
use vfkit.Base.{
  Bool, true, false, List, [], ◌∷◌, ◌++◌, if◌then◌else◌, String, errorf, Result, ok, err, for_each,
}
use vfkit.Text.{Text, codes, is, is_empty}
use vfkit.Config.Options.{CmdOption, show_options}

pub record VirtioFs : Type 0 where
  pub mount_tag : Text
  pub shared_dir : Text

-- `VirtioFsNew`
abbrev pub fs_new : Text → Text → VirtioFs
fs_new shared_dir mount_tag = record { mount_tag = mount_tag; shared_dir = shared_dir }

unfoldable pub fs_to_cmd_line : VirtioFs → Result (List Text)
fs_to_cmd_line dev =
    if is_empty dev.shared_dir
    then err (errorf "virtio-fs needs the path to the directory to share" [])
    else if is_empty dev.mount_tag
    then ok (codes "--device" ∷ (codes "virtio-fs,sharedDir=" ++ dev.shared_dir) ∷ [])
    else ok (
        codes "--device"
        ∷ (codes "virtio-fs,sharedDir="
            ++ (dev.shared_dir ++ (codes ",mountTag=" ++ dev.mount_tag)))
        ∷ [])

unfoldable pub fs_set_option : VirtioFs → CmdOption → Result VirtioFs
unfolding is
fs_set_option dev option =
    if is option.key "sharedDir"
    then ok (record dev { shared_dir = option.value })
    else if is option.key "mountTag"
    then ok (record dev { mount_tag = option.value })
    else err (errorf "unknown option for virtio-fs devices: %s" (option.key ∷ []))

unfoldable pub fs_from_options : VirtioFs → List CmdOption → Result VirtioFs
unfolding for_each fs_set_option
fs_from_options dev options = for_each fs_set_option dev options

pub record RosettaShare : Type 0 where
  pub mount_tag : Text
  pub install_rosetta : Bool
  pub ignore_if_missing : Bool

-- `RosettaShareNew`
abbrev pub rosetta_new : Text → RosettaShare
rosetta_new mount_tag = record {
  mount_tag = mount_tag;
  install_rosetta = false;
  ignore_if_missing = false;
}

unfoldable pub rosetta_to_cmd_line : RosettaShare → Result (List Text)
rosetta_to_cmd_line dev =
    if is_empty dev.mount_tag
    then err (errorf "rosetta shares require a mount tag to be specified" [])
    else ok (
        codes "--device"
        ∷ (codes "rosetta,mountTag="
            ++ (dev.mount_tag
                ++ ((if dev.install_rosetta then codes ",install" else [])
                    ++ (if dev.ignore_if_missing then codes ",ignore-if-missing" else []))))
        ∷ [])

unfoldable pub rosetta_set_option : RosettaShare → CmdOption → Result RosettaShare
unfolding is
rosetta_set_option dev option =
    if is option.key "mountTag"
    then ok (record dev { mount_tag = option.value })
    else if is option.key "install"
    then ok (record dev { install_rosetta = true })
    else if is option.key "ignore-if-missing"
    then ok (record dev { ignore_if_missing = true })
    else err (errorf "unknown option for rosetta share: %s" (option.key ∷ []))

unfoldable pub rosetta_from_options : RosettaShare → List CmdOption → Result RosettaShare
unfolding for_each rosetta_set_option
rosetta_from_options dev options = for_each rosetta_set_option dev options

-- `VirtioRng` and `VirtioBalloon` take no options; `name` is the one in the message.
unfoldable pub no_options : String → List CmdOption → Result (Unit {0})
no_options message [] = ok tt
no_options message (o ∷ os) = err (errorf message (show_options (o ∷ os) ∷ []))
