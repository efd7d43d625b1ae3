-- ===== src/Process.antt =====
-- pkg/process/process.go: the process that a pid file names. Files and processes are those of the
-- host; a process is known by its number.
pub mod PidFile
pub mod Signals
use vfkit.Base.{
  wrapped, ℕ, ◌-◌, ◌^◌, String, Bool, true, false, not, ◌||◌, Option, none, some, List, [], ◌∷◌,
  ltb, if◌then◌else◌, Error, errorf, wrapf, panic, not_exist, Result, ok, err, ◌>>=◌, ◌>>◌, fail_if,
}
use vfkit.Base.Int.{ℤ, pos, negsuc, gtb_pos}
use vfkit.Text.{Text, codes, text_eq}
use vfkit.Text.Space.{trim_space}
use vfkit.Decimal.{format_int, parse_int, parse_signed}

pub record Process : Type 0 where
  pub name : Text
  pub pid_file_path : Text
  pub executable_path : Text

-- `os.ReadFile`, and whether `os.WriteFile` may write.
pub record Files : Type 0 where
  pub read_file : Text → Result Text
  pub may_write : Text → Result (Unit {0})

-- Package process of github.com/shirou/gopsutil. `new_process` may return nil.
pub record Processes : Type 0 where
  pub new_process : ℕ → Result (Option ℕ)
  pub name : ℕ → Result Text
  pub exe : ℕ → Result Text
  pub terminate : ℕ → Result (Unit {0})
  pub kill : ℕ → Result (Unit {0})

abbrev pub new : Text → Text → Text → Process
new name pid_file_path executable_path = record {
  name = name;
  pid_file_path = pid_file_path;
  executable_path = executable_path;
}

abbrev pub invalid_pid_file : Result ℤ → Result ℤ
invalid_pid_file (err e) = err (wrapf "invalid pid file: %w" e)
invalid_pid_file (ok pid) = ok pid

unfoldable pub read_pid_file : Files → Process → Result ℤ
unfolding trim_space parse_signed
read_pid_file files p = do
  content ← files.read_file p.pid_file_path
  invalid_pid_file (parse_int 32 (trim_space content))

-- `err.Error() == "process does not exist"`
unfoldable pub is_no_process : Error → Bool
unfolding text_eq codes
is_no_process (errorf format []) = text_eq (codes format) (codes "process does not exist")
is_no_process _ = false

-- What `NewProcess` returns, with its errors.
abbrev pub existing : Result (Option ℕ) → Result ℕ
existing (err e) = if is_no_process e then err not_exist else err e
existing (ok none) = err not_exist
existing (ok (some proc)) = ok proc

-- `pid < 0 || pid > math.MaxInt32`
abbrev pub checked_pid : ℤ → Result ℕ
checked_pid (negsuc n) = err (errorf "invalid pid: %d" (format_int (negsuc n) ∷ []))
checked_pid (pos n) =
    if ltb (2 ^ 31 - 1) n then err (errorf "invalid pid: %d" (format_int (pos n) ∷ [])) else ok n

-- The calls of gopsutil that send a signal.
pub data Signal : Type 0 where
  terminated : ℕ → Signal
  killed : ℕ → Signal

-- What a method sends, and what it returns.
abbrev pub Sending : Type 0
Sending = List Signal × Result (Unit {0})

-- `errors.Is(err, os.ErrNotExist)`, which looks behind `%w`
unfoldable pub is_not_exist : Error → Bool
is_not_exist not_exist = true
is_not_exist (wrapf format e) = is_not_exist e
is_not_exist _ = false

abbrev pub exists_of : Result ℕ → Result Bool
exists_of (err e) = if is_not_exist e then ok false else err e
exists_of (ok proc) = ok true

abbrev pub sent_to_found : Result ℕ → (ℕ → Sending) → Sending
sent_to_found (err e) send = ([], err (wrapf "cannot find process: %w" e))
sent_to_found (ok proc) send = send proc

-- The files with a new content for one of them
unfoldable pub written : Files → Text → Text → Files
unfolding text_eq
written files name content = record files {
  read_file = λ path. if text_eq path name then ok content else files.read_file path;
}

-- `os.WriteFile` replaces the content of the file.
unfoldable pub write_pid_file : Files → Process → ℤ → Result Files
unfolding written format_int
write_pid_file files p pid = do
  _ ← files.may_write p.pid_file_path
  ok (written files p.pid_file_path (format_int pid))

module _ (host : Processes) (p : Process) where
  -- The part of `findProcess` that looks at the process.
  unfoldable pub identify : ℕ → Result ℕ
  unfolding text_eq
  identify proc = do
    name ← wrapped "cannot find process name: %w" (host.name proc)
    fail_if (not (text_eq name p.name)) not_exist
    exe ← wrapped "cannot find process exe: %w" (host.exe proc)
    fail_if (not (text_eq exe p.executable_path)) not_exist
    ok proc

module _ (files : Files) (host : Processes) (p : Process) where
  unfoldable pub find_process : Result ℕ
  unfolding read_pid_file is_no_process identify
  find_process = do
    pid ← read_pid_file files p
    number ← checked_pid pid
    proc ← existing (host.new_process number)
    identify host p proc

  unfoldable pub terminate : Sending
  unfolding find_process
  terminate = sent_to_found find_process (λ proc. (terminated proc ∷ [], host.terminate proc))

  unfoldable pub kill : Sending
  unfolding find_process
  kill = sent_to_found find_process (λ proc. (killed proc ∷ [], host.kill proc))

  -- `Exists`; a process that is found is not nil.
  unfoldable pub exists : Result Bool
  unfolding find_process is_not_exist
  exists = exists_of find_process
