-- ===== src/Start/Iso.antt =====
-- `createCloudInitISO` of cmd/vfkit/main.go and `CreateCloudInitISOFile` of pkg/util/credtemp.go. The
-- library for ISO images and the directory for temporary files are a parameter.
use vfkit.Base.{wrapped, Option, List, [], ◌∷◌, wrapf, Result, ok, err, ◌>>◌}
use vfkit.Text.{Text, codes}
use vfkit.Start.CloudInit.{ConfigFiles}

-- A file of an image: its name, and the file that it is copied from, or none for an empty one.
abbrev pub IsoFile : Type 0
IsoFile = Text × Option Text

-- `order` is that of the loop over the map. The errors keep their formats and their cause.
pub record IsoWriter : Type 0 where
  pub new_writer : Result (Unit {0})
  pub order : List IsoFile → List IsoFile
  pub add : IsoFile → Result (Unit {0})
  pub mkdir_all : Result (Unit {0})
  pub create_temp : Result Text
  pub write_to : Text → List IsoFile → Result (Unit {0})

abbrev pub iso_files : ConfigFiles → List IsoFile
iso_files f =
    (codes "user-data", f.user_data)
    ∷ (codes "meta-data", f.meta_data)
    ∷ (codes "network-config", f.network_config)
    ∷ []

module _ (host : IsoWriter) where
  unfoldable pub add_files : List IsoFile → Result (Unit {0})
  add_files [] = ok tt
  add_files (f ∷ fs) = do wrapped "failed to add %s file: %w" (host.add f); add_files fs

  unfoldable pub create_cloud_init_iso_file : Result Text
  create_cloud_init_iso_file = do
    wrapped "unable to create directory %s: %w" host.mkdir_all
    wrapped "unable to create cloud-init ISO temporary file: %w" host.create_temp

  -- The files that are removed when the program exits, and the name of the image.
  abbrev pub Outcome : Type 0
  Outcome = List Text × Result Text

  abbrev pub named : Text → Result (Unit {0}) → Outcome
  named name (err e) = (name ∷ [], err (wrapf "failed to write cloud-init ISO image: %w" e))
  named name (ok _) = (name ∷ [], ok name)

  abbrev pub write_image : List IsoFile → Result Text → Outcome
  write_image files (err e) = ([], err e)
  write_image files (ok name) = named name (host.write_to name files)

  unfoldable pub create_cloud_init_iso : ConfigFiles → Outcome
  unfolding add_files create_cloud_init_iso_file codes
  create_cloud_init_iso files = write_image (host.order (iso_files files)) (do
    wrapped "failed to create writer: %w" host.new_writer
    add_files (host.order (iso_files files))
    create_cloud_init_iso_file)

  -- The name alone; the rest is for the exit handlers.
  abbrev pub iso_name : ConfigFiles → Result Text
  iso_name files = (create_cloud_init_iso files).1
