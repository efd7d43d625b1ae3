-- ===== src/Start/CloudInit.antt =====
-- `generateCloudInitImage` of cmd/vfkit/main.go. The host's files and the writer of ISO images are
-- parameters.
use vfkit.Base.{
  Bool, true, false, not, Option, some, none, List, [], ◌∷◌, if◌then◌else◌, errorf, Result, ok,
  ◌>>=◌, ◌>>◌, fail_if,
}
use vfkit.Text.Path.{base}
use vfkit.Text.{Text, is}

-- The files by their names, `configFiles`; none is an empty file.
pub record ConfigFiles : Type 0 where
  pub user_data : Option Text
  pub meta_data : Option Text
  pub network_config : Option Text

abbrev pub no_config_files : ConfigFiles
no_config_files = record { user_data = none; meta_data = none; network_config = none }

-- The files found so far, and whether one of them is user-data or meta-data.
pub record Found : Type 0 where
  pub files : ConfigFiles
  pub has_config_file : Bool

unfoldable pub add_file : Found → Text → Text → Found
unfolding is
add_file f filename path =
    if is filename "user-data"
    then record { files = record f.files { user_data = some path }; has_config_file = true }
    else if is filename "meta-data"
    then record { files = record f.files { meta_data = some path }; has_config_file = true }
    else if is filename "network-config"
    then record f { files = record f.files { network_config = some path } }
    else f

module _ (open_file : Text → Result (Unit {0})) (create_iso : ConfigFiles → Result Text) where
  -- The loop over the paths.
  unfoldable pub find_files : Found → List Text → Result Found
  unfolding add_file base
  find_files f [] = ok f
  find_files f ([] ∷ paths) = find_files f paths
  find_files f ((c ∷ path) ∷ paths) = do
    open_file (c ∷ path)
    find_files (add_file f (base (c ∷ path)) (c ∷ path)) paths

  unfoldable pub generate_cloud_init_image : List Text → Result Text
  unfolding find_files
  generate_cloud_init_image [] = ok []
  generate_cloud_init_image (path ∷ paths) = do
    f ← find_files (record { files = no_config_files; has_config_file = false }) (path ∷ paths)
    fail_if (not f.has_config_file)
        (errorf "cloud-init needs user-data and meta-data files to work" [])
    create_iso f.files
