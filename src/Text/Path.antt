-- ===== src/Text/Path.antt =====
-- `filepath.Base` of Go.
use vfkit.Base.{[], ◌∷◌, ◌++◌, ◌&&◌, ◌==◌, if◌then◌else◌}
use vfkit.Text.{Text, codes, is_empty}

-- The part of a path behind its last slash, where the path does not end in one.
unfoldable pub behind_slash : Text → Text → Text
behind_slash name [] = name
behind_slash name (c ∷ s) = behind_slash (if c == b'/' then [] else name ++ c ∷ []) s

unfoldable pub trim_slashes : Text → Text
trim_slashes [] = []
trim_slashes (c ∷ s) =
    let rest = trim_slashes s in if is_empty rest && c == b'/' then [] else c ∷ rest

-- `filepath.Base`
unfoldable pub base : Text → Text
unfolding behind_slash trim_slashes
base path =
    if is_empty path
    then codes "."
    else if is_empty (trim_slashes path)
    then codes "/"
    else behind_slash [] (trim_slashes path)
