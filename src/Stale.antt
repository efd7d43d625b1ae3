-- ===== src/Stale.antt =====
-- `CleanupStaleCloudInitISO` of pkg/util/credtemp.go, and the log level of cmd/vfkit/root.go. What
-- the scanner of package fmt reads of a file name, and whether a process exists, are parameters.
use vfkit.Base.{
  Bool-cases, arith, ℕ, Bool, true, false, List, [], ◌∷◌, ◌++◌, ◌≡◌, ◌≢◌, subst, ◌⊎◌, inl, inr,
  refl, ap, if◌then◌else◌, Option, none, some, Result, ok, err, Error, errorf, wrapf, not_exist,
  All,
}
use vfkit.Text.{Text, is}

pub record Entry : Type 0 where
  pub name : Text
  pub is_dir : Bool

-- The host: `scan_pid` is the pid in a file name, if it is not negative, since `PidExists` refuses one
-- that is; `remove` is the removal of a file.
pub record Cleaner : Type 0 where
  pub scan_pid : Text → Option ℕ
  pub pid_exists : ℕ → Result Bool
  pub remove : Text → Result (Unit {0})

some-eq : {a b : ℕ} → some a ≡ some b → a ≡ b
some-eq e = cc

module _ (c : Cleaner) where
  -- Whether the process of a file name is known to be gone.
  abbrev gone : Result Bool → Bool
  gone (err e) = false
  gone (ok true) = false
  gone (ok false) = true

  abbrev pid_gone : Option ℕ → Bool
  pid_gone none = false
  pid_gone (some pid) = gone (c.pid_exists pid)

  unfoldable pub is_stale : Entry → Bool
  is_stale entry = if entry.is_dir then false else pid_gone (c.scan_pid entry.name)

  -- The files that were removed, and the error that ended the loop.
  abbrev Cleaned : Type 0
  Cleaned = List Text × Result (Unit {0})

  abbrev removed : Text → Result (Unit {0}) → Cleaned → Cleaned
  removed name (err e) rest = ([], err (wrapf "unable to remove file %s: %w" e))
  removed name (ok _) rest = (name ∷ rest.0, rest.1)

  unfoldable pub clean_entries : List Entry → Cleaned
  unfolding is_stale
  clean_entries [] = ([], ok tt)
  clean_entries (entry ∷ entries) =
      let rest = clean_entries entries in
      if is_stale entry then removed entry.name (c.remove entry.name) rest else rest

  -- With the result of `os.ReadDir`
  unfoldable pub cleanup_stale_cloud_init_iso : Result (List Entry) → Cleaned
  unfolding clean_entries
  cleanup_stale_cloud_init_iso (ok entries) = clean_entries entries
  cleanup_stale_cloud_init_iso (err not_exist) = ([], ok tt)
  cleanup_stale_cloud_init_iso (err e) = ([], err (wrapf "unable to read directory %s: %w" e))

  -- A stale file has the number of a process in its name, and that process does not exist.
  abbrev pub IsStale : Entry → Type 0
  IsStale entry =
      (entry.is_dir ≡ false)
      × (pid : ℕ) × (c.scan_pid entry.name ≡ some pid)
      × (c.pid_exists pid ≡ ok false)

  -- The names of the stale files, in their order
  pub data StaleNames : List Entry → List Text → Type 0 where
    no_entries : StaleNames [] []
    stale :
        {entries : List Entry} {names : List Text} (entry : Entry)
        → IsStale entry
        → StaleNames entries names
        → StaleNames (entry ∷ entries) (entry.name ∷ names)
    in_use :
        {entries : List Entry} {names : List Text} (entry : Entry)
        → ¬ IsStale entry
        → StaleNames entries names
        → StaleNames (entry ∷ entries) names

  gone-cases :
      (r : Result Bool) → ((gone r ≡ true) × (r ≡ ok false)) ⊎ ((gone r ≡ false) × (r ≢ ok false))
  gone-cases (err e) = inr (refl, λ h. cc)
  gone-cases (ok true) = inr (refl, λ h. cc)
  gone-cases (ok false) = inl (refl, refl)

  pid_gone-cases :
      (scanned : Option ℕ)
      → ((pid_gone scanned ≡ true)
          × (pid : ℕ) × (scanned ≡ some pid)
          × (c.pid_exists pid ≡ ok false))
        ⊎ ((pid_gone scanned ≡ false)
            × ((pid : ℕ) → scanned ≡ some pid → c.pid_exists pid ≢ ok false))
  pid_gone-cases none = inr (refl, λ pid h. cc)
  pid_gone-cases (some n) = elim (gone-cases (c.pid_exists n)) [
    | inl (e, k) ↦ inl (e, n, refl, k)
    | inr (e, k) ↦ inr (e, λ pid h. subst (λ m. c.pid_exists m ≢ ok false) (some-eq h) k)
  ]

  is_stale-cases :
      (entry : Entry)
      → ((is_stale entry ≡ true) × IsStale entry) ⊎ ((is_stale entry ≡ false) × ¬ IsStale entry)
  unfolding is_stale
  is_stale-cases entry = elim (Bool-cases entry.is_dir) [
    | inl dir ↦ inr (ground arith, λ (file, _, _, _). cc)
    | inr file ↦ elim (pid_gone-cases (c.scan_pid entry.name)) [
      | inl (e, pid, scanned, dead) ↦ inl (ground arith, (file, pid, scanned, dead))
      | inr (e, not_gone) ↦ inr (ground arith, λ (_, pid, scanned, dead). not_gone pid scanned dead)
    ]
  ]

  -- All names are removed, or those before the first one whose removal fails.
  abbrev pub Removes : List Text → Cleaned → Type 0
  Removes names cleaned =
      ((cleaned ≡ (names, ok tt)) × All (λ n. c.remove n ≡ ok tt) names)
      ⊎ ((e : Error) × (name : Text) × (rest : List Text) × (names ≡ cleaned.0 ++ name ∷ rest)
          × (c.remove name ≡ err e)
          × (cleaned.1 ≡ err (wrapf "unable to remove file %s: %w" e))
          × All (λ n. c.remove n ≡ ok tt) cleaned.0)

  removed-Removes :
      (name : Text) (r : Result (Unit {0})) (names : List Text) (cleaned : Cleaned)
      → c.remove name ≡ r
      → Removes names cleaned
      → Removes (name ∷ names) (removed name r cleaned)
  removed-Removes name (err e) names cleaned h k = inr (e, name, names, refl, h, refl, tt)
  removed-Removes name (ok _) names cleaned h (inl (same, all)) =
      inl (ap (λ (q : Cleaned). (name ∷ q.0, q.1)) same, (h, all))
  removed-Removes name (ok _) names cleaned h (inr (e, n, rest, split, failed, is_err, all)) =
      inr (e, n, rest, ap (λ l. name ∷ l) split, failed, is_err, (h, all))

  -- What is removed are the stale files, those whose name has the number of a process that does not
  -- exist: all of them if no removal fails, and otherwise those before the first one whose removal
  -- fails, with the error of that.
  pub clean_entries-Removes :
      (entries : List Entry)
      → (names : List Text) × StaleNames entries names × Removes names (clean_entries entries)
  unfolding clean_entries
  clean_entries-Removes [] = ([], no_entries, inl (refl, tt))
  clean_entries-Removes (entry ∷ entries) =
      let (names, are_stale, removes) = clean_entries-Removes entries in
      elim (is_stale-cases entry) [
        | inl (e, k) ↦ (
          entry.name ∷ names,
          stale entry k are_stale,
          rw e (
              removed-Removes entry.name (c.remove entry.name) names (clean_entries entries) refl
                removes),
        )
        | inr (e, k) ↦ (names, in_use entry k are_stale, rw e removes)
      ]

-- The levels of package logrus.
pub data Level : Type 0 where
  error_level info_level debug_level : Level

-- `getLogLevel`
unfoldable pub get_log_level : Text → Result Level
unfolding is
get_log_level log_level =
    if is log_level "error"
    then ok error_level
    else if is log_level "debug"
    then ok debug_level
    else if is log_level "info"
    then ok info_level
    else err (errorf "unknown log level: %s" (log_level ∷ []))
