-- ===== src/Tests/Process.antt =====
-- Pid files, signals and stale files on a small host.
use vfkit.Base.{
  ℕ, ◌==◌, true, false, some, List, [], ◌∷◌, ◌≡◌, ◌≢◌, ◌⊎◌, refl, ok, err, not_exist, errorf, wrapf,
  Error, arith, if◌then◌else◌, Result,
}
use vfkit.Base.Int.{pos}
use vfkit.Text.{Text, codes, text_eq}
use vfkit.Text.Space.{trim_space}
use vfkit.Decimal.{format_int, parse_signed}
use vfkit.Process.{
  Process, Files, Processes, Signal, terminated, killed, read_pid_file, write_pid_file, written,
  find_process, terminate, kill, exists,
}
use vfkit.Process.PidFile.{read_pid_file-write_pid_file}
use vfkit.Process.Signals.{signals-SendsToFound, IsFound}
use vfkit.Stale.{Entry, Cleaner, clean_entries, StaleNames, Removes, clean_entries-Removes}

abbrev vfkit_process : Process
vfkit_process = record {
  name = codes "vfkit";
  pid_file_path = codes "/vfkit.pid";
  executable_path = codes "/bin/vfkit";
}

abbrev no_files : Files
no_files = record { read_file = λ path. err not_exist; may_write = λ path. ok tt }

read_pid_file-write_pid_file_example :
    (read_pid_file (written no_files (codes "/vfkit.pid") (format_int (pos 4321))) vfkit_process
      ≡ ok (pos 4321))
    × ((path : Text)
        → path ≢ codes "/vfkit.pid"
        → (written no_files (codes "/vfkit.pid") (format_int (pos 4321))).read_file path
          ≡ err not_exist)
read_pid_file-write_pid_file_example =
    read_pid_file-write_pid_file no_files
      (written no_files (codes "/vfkit.pid") (format_int (pos 4321))) vfkit_process (pos 4321)
      (omega arith) (unfold write_pid_file in refl)

-- White space around the number is cut off.
spaces : trim_space (b' ' ∷ b'4' ∷ b'2' ∷ 0xc2 ∷ 0xa0 ∷ b'\n' ∷ []) ≡ b'4' ∷ b'2' ∷ []
unfolding trim_space
spaces = refl

-- A host whose process 4321 is vfkit.
abbrev host : Processes
host = record {
  new_process =
      λ pid. if pid == 4321 then ok (some 4321) else err (errorf "process does not exist" []);
  name = λ proc. ok (codes "vfkit");
  exe = λ proc. ok (codes "/bin/vfkit");
  terminate = λ proc. ok tt;
  kill = λ proc. ok tt;
}

abbrev pid_file : Text → Files
pid_file content = record no_files { read_file = λ path. ok content }

found : terminate (pid_file (codes "4321")) host vfkit_process ≡ (terminated 4321 ∷ [], ok tt)
unfolding terminate codes text_eq parse_signed
found = refl

no_process : exists (pid_file (codes "17")) host vfkit_process ≡ ok false
unfolding exists codes text_eq parse_signed
no_process = refl

no_pid_file : exists no_files host vfkit_process ≡ ok false
unfolding exists
no_pid_file = refl

abbrev SendsFound : (ℕ → Signal) → List Signal × Result (Unit {0}) → Type 0
SendsFound signal sending =
    ((proc : ℕ) × IsFound (pid_file (codes "4321")) host vfkit_process proc
      × (sending ≡ (signal proc ∷ [], ok tt)))
    ⊎ ((e : Error) × (find_process (pid_file (codes "4321")) host vfkit_process ≡ err e)
        × (sending ≡ ([], err (wrapf "cannot find process: %w" e))))

signals-SendsToFound_example :
    SendsFound terminated (terminate (pid_file (codes "4321")) host vfkit_process)
    × SendsFound killed (kill (pid_file (codes "4321")) host vfkit_process)
signals-SendsToFound_example = signals-SendsToFound (pid_file (codes "4321")) host vfkit_process

-- The process of the file `a` is gone, that of `b` is not.
abbrev cleaner : Cleaner
cleaner = record {
  scan_pid = λ name. if text_eq name (b'a' ∷ []) then some 1 else some 2;
  pid_exists = λ pid. ok (pid == 2);
  remove = λ name. ok tt;
}

abbrev entries : List Entry
entries =
    record { name = b'a' ∷ []; is_dir = true }
    ∷ record { name = b'a' ∷ []; is_dir = false }
    ∷ record { name = b'b' ∷ []; is_dir = false }
    ∷ []

clean_entries-Removes_example :
    (names : List Text) × StaleNames cleaner entries names
    × Removes cleaner names (clean_entries cleaner entries)
clean_entries-Removes_example = clean_entries-Removes cleaner entries

one_removed : clean_entries cleaner entries ≡ ((b'a' ∷ []) ∷ [], ok tt)
unfolding clean_entries text_eq
one_removed = refl
