-- ===== src/Config/Device/RoundTrip/Share.antt =====
-- Directory shares, and the devices without configuration.
use vfkit.Base.{Bool, true, false, [], ◌∷◌, ◌++◌, ◌≢◌, refl, arith, append-nil}
use vfkit.Text.{Text, codes, join}
use vfkit.Config.Options.{strv_to_options}
use vfkit.Config.Device.{
  virtio_fs, rosetta, virtio_rng, virtio_balloon, to_cmd_line, from_options, new_device,
}
use vfkit.Config.Device.Disk.{FileHeader}
use vfkit.Config.Device.Share.{
  VirtioFs, fs_to_cmd_line, fs_from_options, RosettaShare, rosetta_to_cmd_line,
  rosetta_from_options, no_options,
}
use vfkit.Config.Device.RoundTrip.Parts.{IsPart, ReadsAs, ReadsAs-parts}

pub record IsFs (d : VirtioFs) : Type 0 where
  pub dir_part : IsPart d.shared_dir
  pub dir_set : d.shared_dir ≢ []
  pub tag_part : IsPart d.mount_tag

pub record IsRosetta (d : RosettaShare) : Type 0 where
  pub tag_part : IsPart d.mount_tag
  pub tag_set : d.mount_tag ≢ []

module _ (file : Text → FileHeader) where
  fs_fields :
      (dir tag : Text)
      → IsPart dir
      → dir ≢ []
      → IsPart tag
      → let d : VirtioFs = record { mount_tag = tag; shared_dir = dir } in
        ReadsAs file (virtio_fs d) (virtio_fs d)
  unfolding codes join to_cmd_line fs_to_cmd_line new_device from_options fs_from_options
      strv_to_options
  fs_fields [] tag h ne t = absurd (ne refl)
  fs_fields (c ∷ dir) [] h ne t =
      ReadsAs-parts file _ _ (codes "virtio-fs") ((codes "sharedDir=" ++ c ∷ dir) ∷ [])
        (ground arith) refl refl
  fs_fields (c ∷ dir) (b ∷ tag) h ne t =
      ReadsAs-parts file _ _ (codes "virtio-fs")
        ((codes "sharedDir=" ++ c ∷ dir) ∷ (codes "mountTag=" ++ b ∷ tag) ∷ []) (ground arith) refl
        refl

  pub fs-ReadsAs : (d : VirtioFs) → IsFs d → ReadsAs file (virtio_fs d) (virtio_fs d)
  fs-ReadsAs d v = fs_fields d.shared_dir d.mount_tag v.dir_part v.dir_set v.tag_part

  rosetta_fields :
      (tag : Text) (install ignore : Bool)
      → IsPart tag
      → tag ≢ []
      → let d : RosettaShare = record {
        mount_tag = tag;
        install_rosetta = install;
        ignore_if_missing = ignore;
      } in
        ReadsAs file (rosetta d) (rosetta d)
  unfolding codes join to_cmd_line rosetta_to_cmd_line new_device from_options rosetta_from_options
      strv_to_options
  rosetta_fields [] _ _ t ne = absurd (ne refl)
  rosetta_fields (c ∷ tag) true true t ne =
      ReadsAs-parts file _ _ (codes "rosetta")
        ((codes "mountTag=" ++ c ∷ tag) ∷ codes "install" ∷ codes "ignore-if-missing" ∷ [])
        (ground arith) refl refl
  rosetta_fields (c ∷ tag) true false t ne =
      ReadsAs-parts file _ _ (codes "rosetta")
        ((codes "mountTag=" ++ c ∷ tag) ∷ codes "install" ∷ []) (ground arith) refl refl
  rosetta_fields (c ∷ tag) false true t ne =
      ReadsAs-parts file _ _ (codes "rosetta")
        ((codes "mountTag=" ++ c ∷ tag) ∷ codes "ignore-if-missing" ∷ []) (ground arith) refl refl
  rosetta_fields (c ∷ tag) false false t ne =
      ReadsAs-parts file _ _ (codes "rosetta") ((codes "mountTag=" ++ c ∷ tag) ∷ []) (ground arith)
        (rw append-nil) refl

  pub rosetta-ReadsAs : (d : RosettaShare) → IsRosetta d → ReadsAs file (rosetta d) (rosetta d)
  rosetta-ReadsAs d v =
      rosetta_fields d.mount_tag d.install_rosetta d.ignore_if_missing v.tag_part v.tag_set

  pub rng-ReadsAs : ReadsAs file virtio_rng virtio_rng
  unfolding codes join to_cmd_line new_device from_options no_options strv_to_options
  rng-ReadsAs = ReadsAs-parts file _ _ (codes "virtio-rng") [] (ground arith) refl refl

  pub balloon-ReadsAs : ReadsAs file virtio_balloon virtio_balloon
  unfolding codes join to_cmd_line new_device from_options no_options strv_to_options
  balloon-ReadsAs = ReadsAs-parts file _ _ (codes "virtio-balloon") [] (ground arith) refl refl
