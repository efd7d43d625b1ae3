-- ===== src/Process/PidFile.antt =====
-- What `WritePidFile` writes, `ReadPidFile` reads.
use vfkit.Base.{
  true, if◌then◌else◌, ◌≡◌, ◌≢◌, refl, ap, ◌∙◌, ok, arith, ◌>>=◌, >>=-eq-ok, subst, Bool-cases, inl,
  inr,
}
use vfkit.Base.Int.{ℤ}
use vfkit.Text.{Text, text_eq, text_eq_iff}
use vfkit.Text.Space.{trim_space, trim_space-plain}
use vfkit.Decimal.{format_int, parse_int}
use vfkit.Decimal.Signed.{IsInt, parse_signed-format_int, format_int-IsPlain}
use vfkit.Process.{Process, Files, read_pid_file, write_pid_file, invalid_pid_file, written}

text_eq_refl : (s : Text) → text_eq s s ≡ true
text_eq_refl s = (text_eq_iff s s).1 refl

read-written :
    (files : Files) (name content : Text) → (written files name content).read_file name ≡ ok content
unfolding written
read-written files name content =
    ap (λ b. if b then ok content else files.read_file name) (text_eq_refl name)

read-other :
    (files : Files) (name content path : Text)
    → path ≢ name
    → (written files name content).read_file path ≡ files.read_file path
unfolding written
read-other files name content path h = elim (Bool-cases (text_eq path name)) [
  | inl e ↦ absurd (h ((text_eq_iff path name).0 e))
  | inr e ↦ ap (λ b. if b then ok content else files.read_file path) e
]

read_pid_file-written :
    (files : Files) (p : Process) (pid : ℤ)
    → IsInt 32 pid
    → read_pid_file (written files p.pid_file_path (format_int pid)) p ≡ ok pid
unfolding read_pid_file
read_pid_file-written files p pid h =
    ap (λ r. r >>= λ s. invalid_pid_file (parse_int 32 (trim_space s)))
      (read-written files p.pid_file_path (format_int pid))
    ∙ (ap (λ s. invalid_pid_file (parse_int 32 s))
          (trim_space-plain (format_int pid) (format_int-IsPlain pid))
        ∙ ap invalid_pid_file (parse_signed-format_int "ParseInt" 32 pid (omega arith) h))

-- If the pid file can be written and the pid fits 32 bits, the pid is read back, and every other
-- file is as before.
pub read_pid_file-write_pid_file :
    (files files' : Files) (p : Process) (pid : ℤ)
    → IsInt 32 pid
    → write_pid_file files p pid ≡ ok files'
    → (read_pid_file files' p ≡ ok pid)
      × ((path : Text) → path ≢ p.pid_file_path → files'.read_file path ≡ files.read_file path)
unfolding write_pid_file
read_pid_file-write_pid_file files files' p pid h e =
    let content = format_int pid in
    let (u, may, same) =
      >>=-eq-ok (files.may_write p.pid_file_path) (λ _. ok (written files p.pid_file_path content))
        e in
    let is_files : written files p.pid_file_path content ≡ files' = cc in
    subst
      (λ f.
        (read_pid_file f p ≡ ok pid)
        × ((path : Text) → path ≢ p.pid_file_path → f.read_file path ≡ files.read_file path))
      is_files
      (read_pid_file-written files p pid h, λ path. read-other files p.pid_file_path content path)
