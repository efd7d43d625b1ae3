-- ===== src/Process/Signals.antt =====
-- Who is sent a signal, and what `Exists` says.
use vfkit.Base.{
  wrapped, wrapped-eq-ok, ℕ, ◌^◌, ◌-◌, ◌≤◌, ◌≡◌, ◌≢◌, ◌⊎◌, inl, inr, refl, ap, ◌∙◌, sym, true, not,
  Option, some, none, [], ◌∷◌, ok, err, Result, Error, arith, ◌>>=◌, ◌>>◌, fail_if, >>=-eq-ok,
  Result-cases, ltb-eq-false, subst, ◌↔◌, wrapf, Bool-cases, not_exist,
}
use vfkit.Base.Int.{ℤ, pos, negsuc}
use vfkit.Text.{Text, text_eq, text_eq_iff}
use vfkit.Process.{
  Process, Files, Processes, Signal, terminated, killed, read_pid_file, find_process, checked_pid,
  existing, terminate, kill, exists, exists_of, sent_to_found, identify, Sending,
}

-- The process that the pid file names, with the name and the executable that are expected.
pub record IsFound (files : Files) (host : Processes) (p : Process) (proc : ℕ) : Type 0 where
  pub pid : ℕ
  pub pid_range : pid ≤ 2 ^ 31 - 1
  pub in_file : read_pid_file files p ≡ ok (pos pid)
  pub exists : host.new_process pid ≡ ok (some proc)
  pub name_is : host.name proc ≡ ok p.name
  pub exe_is : host.exe proc ≡ ok p.executable_path

err-ne-ok : {A : Type 0} {e : Error} {a : A} → err e ≢ ok a
err-ne-ok h = cc

checked_pid-eq-ok : (z : ℤ) (n : ℕ) → checked_pid z ≡ ok n → (z ≡ pos n) × (n ≤ 2 ^ 31 - 1)
checked_pid-eq-ok (pos m) n e = ground arith
checked_pid-eq-ok (negsuc m) n e = cc

checked_pid-small : (n : ℕ) → n ≤ 2 ^ 31 - 1 → checked_pid (pos n) ≡ ok n
checked_pid-small n h = rw (ltb-eq-false (2 ^ 31 - 1) n h)

exists_of-err : (e : Error) → exists_of (err e) ≢ ok true
exists_of-err e h = ground arith

existing-eq-ok : (r : Result (Option ℕ)) (proc : ℕ) → existing r ≡ ok proc → r ≡ ok (some proc)
existing-eq-ok (ok (some n)) proc e = cc
existing-eq-ok (ok none) proc e = cc
existing-eq-ok (err x) proc e = ground arith

-- A test for the expected text
checked-text :
    {A : Type 0} (s t : Text) (e : Error) (r : Result A) (a : A)
    → (fail_if (not (text_eq s t)) e >> r) ≡ ok a
    → (s ≡ t) × (r ≡ ok a)
checked-text s t e r a h = elim (Bool-cases (text_eq s t)) [
  | inl same ↦ ((text_eq_iff s t).0 same, rw same at h)
  | inr other ↦ absurd (err-ne-ok (rw other at h))
]

module _ (host : Processes) (p : Process) where
  identify-eq-ok :
      (q proc : ℕ)
      → identify host p q ≡ ok proc
      → (q ≡ proc) × (host.name q ≡ ok p.name) × (host.exe q ≡ ok p.executable_path)
  unfolding identify
  identify-eq-ok q proc e =
      let (name, named, e1) =
        >>=-eq-ok (wrapped "cannot find process name: %w" (host.name q)) _ e in
      let (name_is, e2) = checked-text name p.name not_exist _ proc e1 in
      let (exe, placed, e3) = >>=-eq-ok (wrapped "cannot find process exe: %w" (host.exe q)) _ e2 in
      let (exe_is, e4) = checked-text exe p.executable_path not_exist (ok q) proc e3 in
      (
        cc,
        wrapped-eq-ok _ (host.name q) name named ∙ ap ok name_is,
        wrapped-eq-ok _ (host.exe q) exe placed ∙ ap ok exe_is,
      )

module _ (files : Files) (host : Processes) (p : Process) where
  find_process-IsFound :
      (proc : ℕ) → find_process files host p ≡ ok proc → IsFound files host p proc
  unfolding find_process
  find_process-IsFound proc e =
      let (z, read, e1) = >>=-eq-ok (read_pid_file files p) _ e in
      let (n, checked, e2) = >>=-eq-ok (checked_pid z) _ e1 in
      let (q, there, e3) = >>=-eq-ok (existing (host.new_process n)) (identify host p) e2 in
      let (same, name_is, exe_is) = identify-eq-ok host p q proc e3 in
      let (z_is, range) = checked_pid-eq-ok z n checked in
      record {
        pid = n;
        pid_range = range;
        in_file = read ∙ ap ok z_is;
        exists = existing-eq-ok (host.new_process n) q there ∙ ap (λ m. ok (some m)) same;
        name_is = subst (λ m. host.name m ≡ ok p.name) same name_is;
        exe_is = subst (λ m. host.exe m ≡ ok p.executable_path) same exe_is;
      }

  identify-IsFound : (proc : ℕ) → IsFound files host p proc → identify host p proc ≡ ok proc
  unfolding identify
  identify-IsFound proc h = rw (
    h.name_is,
    h.exe_is,
    (text_eq_iff p.name p.name).1 refl,
    (text_eq_iff p.executable_path p.executable_path).1 refl,
  )

  IsFound-find_process :
      (proc : ℕ) → IsFound files host p proc → find_process files host p ≡ ok proc
  unfolding find_process
  IsFound-find_process proc h =
      ap
        (λ r.
          r >>= λ pid. checked_pid pid >>= λ n. existing (host.new_process n) >>= identify host p)
        h.in_file
      ∙ (ap (λ r. r >>= λ n. existing (host.new_process n) >>= identify host p)
            (checked_pid-small h.pid h.pid_range)
          ∙ (ap (λ r. existing r >>= identify host p) h.exists ∙ identify-IsFound proc h))

  -- A process exists exactly if the process that the pid file names has the name and the executable
  -- that are expected.
  pub exists_iff : (exists files host p ≡ ok true) ↔ ((proc : ℕ) × IsFound files host p proc)
  unfolding exists
  exists_iff = (
    λ e. elim (Result-cases (find_process files host p)) [
      | inl (proc, found) ↦ (proc, find_process-IsFound proc found)
      | inr (failure, e') ↦ absurd (exists_of-err failure (sym (ap exists_of e') ∙ e))
    ],
    λ (proc, h). ap exists_of (IsFound-find_process proc h),
  )

  -- A method that sends a signal: either the process that the pid file names is the expected one,
  -- and it alone is sent one signal, or nothing is sent and the error of the search is returned.
  abbrev pub SendsToFound : (ℕ → Signal) → (ℕ → Result (Unit {0})) → Sending → Type 0
  SendsToFound signal send sending =
      ((proc : ℕ) × IsFound files host p proc × (sending ≡ (signal proc ∷ [], send proc)))
      ⊎ ((e : Error) × (find_process files host p ≡ err e)
          × (sending ≡ ([], err (wrapf "cannot find process: %w" e))))

  SendsToFound-cases :
      (signal : ℕ → Signal) (send : ℕ → Result (Unit {0}))
      → SendsToFound signal send
          (sent_to_found (find_process files host p) (λ proc. (signal proc ∷ [], send proc)))
  SendsToFound-cases signal send = elim (Result-cases (find_process files host p)) [
    | inl (proc, found) ↦ inl (
      proc,
      find_process-IsFound proc found,
      ap (λ r. sent_to_found r (λ proc. (signal proc ∷ [], send proc))) found,
    )
    | inr (e, missing) ↦
        inr (e, missing, ap (λ r. sent_to_found r (λ proc. (signal proc ∷ [], send proc))) missing)
  ]

  -- `Terminate` and `Kill` send their signal to the process that the pid file names, if it has the
  -- name and the executable that are expected, and to nothing else; otherwise they send nothing and
  -- return the error of the search.
  pub signals-SendsToFound :
      SendsToFound terminated host.terminate (terminate files host p)
      × SendsToFound killed host.kill (kill files host p)
  unfolding terminate kill
  signals-SendsToFound =
      (SendsToFound-cases terminated host.terminate, SendsToFound-cases killed host.kill)
