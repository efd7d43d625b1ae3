-- ===== src/Config/Device/Accepted/Disk.antt =====
-- Disks that are accepted.
use vfkit.Base.{
  subst, true, List, [], ◌∷◌, ◌≡◌, ◌≢◌, inl, inr, refl, arith, ok, for_each_inv, >>=-eq-ok,
  checked-eq-ok, Bool-cases, Bool-cases,
}
use vfkit.Text.{Text, is, text_eq_iff}
use vfkit.Config.Options.{CmdOption}
use vfkit.Config.Device.Disk.{
  DiskStorageConfig, VirtioBlk, FileHeader, header, cannot_open, cannot_read, qcow2_header,
  is_valid_type, check_header,
}
use vfkit.Config.Device.Disk

disk_step :
    (d : DiskStorageConfig) (o : CmdOption) (r : DiskStorageConfig)
    → is_valid_type d.type ≡ true
    → Disk.set_option d o ≡ ok r
    → is_valid_type r.type ≡ true
unfolding Disk.set_option
disk_step d o r h e = ground arith

pub disk_accepted :
    (d : DiskStorageConfig) (os : List CmdOption) (r : DiskStorageConfig)
    → is_valid_type d.type ≡ true
    → Disk.from_options d os ≡ ok r
    → is_valid_type r.type ≡ true
unfolding Disk.from_options
disk_accepted d os r h e =
    for_each_inv (λ (v : DiskStorageConfig). is_valid_type v.type ≡ true) Disk.set_option disk_step
      d os r h e

-- The image could be read, and is no qcow2 image.
abbrev pub IsRaw : FileHeader → Type 0
IsRaw (header bytes) = bytes ≢ qcow2_header
IsRaw _ = ⊥

check_header-IsRaw : (path : Text) (f : FileHeader) → check_header path f ≡ ok tt → IsRaw f
unfolding check_header
check_header-IsRaw path (header bytes) e =
    let same = text_eq_iff bytes qcow2_header in λ p. cc (same.1 p)
check_header-IsRaw path (cannot_open why) e = cc
check_header-IsRaw path (cannot_read why) e = cc

blk_set_options-type :
    (d : VirtioBlk) (u os : List CmdOption) → (Disk.blk_set_options d u os).0.disk ≡ d.disk
unfolding Disk.blk_set_options
blk_set_options-type d u [] = refl
blk_set_options-type d u (o ∷ os) = elim (Bool-cases (is o.key "deviceId")) [
  | inl e ↦ rw (e, Disk.blk_set_options) (blk_set_options-type _ u os)
  | inr e ↦ rw (e, Disk.blk_set_options) (blk_set_options-type d _ os)
]

module _ (file : Text → FileHeader) where
  pub blk_accepted :
      (d : VirtioBlk) (os : List CmdOption) (r : VirtioBlk)
      → is_valid_type d.disk.type ≡ true
      → Disk.blk_from_options file d os ≡ ok r
      → (is_valid_type r.disk.type ≡ true) × IsRaw (file r.disk.image_path)
  unfolding Disk.blk_from_options Disk.blk_validate
  blk_accepted d os r h e =
      let p = Disk.blk_set_options d [] os in
      let (disk, made, rest) = >>=-eq-ok (Disk.from_options p.0.disk p.1) _ e in
      let (same, passed) =
        checked-eq-ok (ok (record p.0 { disk = disk })) (Disk.blk_validate file) rest in
      let typed = disk_accepted p.0.disk p.1 disk (rw (blk_set_options-type d [] os) h) made in
      let disk_is : disk ≡ r.disk = cc in
      (
        subst (λ (v : DiskStorageConfig). is_valid_type v.type ≡ true) disk_is typed,
        check_header-IsRaw r.disk.image_path (file r.disk.image_path) passed,
      )
