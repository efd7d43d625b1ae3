-- ===== src/Vf/Sockets.antt =====
-- What one device adds to the native storage devices and sockets.
use vfkit.Base.{
  Bool-cases, inl, inr, suc, ◌≤◌, ℕ, Bool, true, false, not, List, [], ◌∷◌, ◌≡◌, refl, Result, ok,
  ◌>>=◌, if◌then◌else◌, length, length-append, arith,
}
use vfkit.Base.{Gives, Gives-ok, Gives-bind, Gives-step, Gives-if, Gives-check}
use vfkit.Cmdline.{is_nil}
use vfkit.Config.Device.{
  VirtioDevice, rosetta, nvme, virtio_blk, virtio_fs, virtio_net, virtio_rng, virtio_serial,
  virtio_vsock, usb_mass_storage, virtio_input, virtio_gpu, virtio_balloon, nbd,
}
use vfkit.Text.{Text, is_empty}
use vfkit.Config.Device.Net.{VirtioNet}
use vfkit.Config.Device.Serial.{VirtioSerial}
use vfkit.Config.Device.Share.{VirtioFs}
use vfkit.Vf.{
  Framework, VmConfiguration, add_to_virtual_machine_config, add_vsock, unchanged, add_fs,
  add_serial, add_net, add_input, add_storage,
}

abbrev pub is_storage : VirtioDevice → Bool
is_storage (usb_mass_storage _) = true
is_storage (virtio_blk _) = true
is_storage (nvme _) = true
is_storage (nbd _) = true
is_storage _ = false

abbrev pub is_vsock : VirtioDevice → Bool
is_vsock (virtio_vsock _) = true
is_vsock _ = false

abbrev Sized {κ} : {Native : Type κ} → ℕ → ℕ → List Native → List Native → Type 0
Sized st so storage sockets = (length storage ≡ st) × (length sockets ≡ so)

abbrev pub one_more : Bool → ℕ → ℕ
one_more b n = if b then suc n else n

abbrev pub at_least_one : Bool → ℕ → ℕ
at_least_one b n = if b then 1 else n

is_nil-length : {A : Type 0} (xs : List A) → is_nil xs ≡ true → length xs ≡ 0
is_nil-length [] e = refl
is_nil-length (x ∷ xs) e = cc

not_nil-length : {A : Type 0} (xs : List A) → is_nil xs ≡ false → 1 ≤ length xs
not_nil-length [] e = cc
not_nil-length (x ∷ xs) e = omega arith

module _ {Native : Type 0} (fw : Framework Native) where
  abbrev pub SizedConfig : ℕ → ℕ → VmConfiguration Native → Type 0
  SizedConfig st so c = Sized st so c.storage c.sockets

  unchanged-Gives :
      (P : VmConfiguration Native → Type 0) (dev : VirtioDevice)
      (r : Result (VmConfiguration Native))
      → Gives P r
      → Gives (λ (q : VmConfiguration Native × VirtioDevice). P q.0) (unchanged fw dev r)
  unchanged-Gives P dev r h =
      Gives-step P (λ q. P q.0) r (λ c. ok (c, dev)) h (λ c p. Gives-ok (λ q. P q.0) (c, dev) p)

  pub add_vsock_sized :
      (c : VmConfiguration Native) (st so : ℕ)
      → SizedConfig st so c
      → so ≤ 1
      → Gives (SizedConfig st 1) (add_vsock fw c)
  unfolding add_vsock
  add_vsock_sized c st so (h, k) le = elim (Bool-cases (is_nil c.sockets)) [
    | inl e ↦
        let empty = is_nil-length c.sockets e in
        rw e (
          Gives-bind (SizedConfig st 1) _ _ (λ n.
            Gives-ok (SizedConfig st 1) _ (h, omega (arith, length-append c.sockets (n ∷ [])))))
    | inr e ↦
        let some_socket = not_nil-length c.sockets e in
        rw e (Gives-ok (SizedConfig st 1) c (h, omega arith))
  ]

  storage_sized :
      (dev : VirtioDevice) (c : VmConfiguration Native) (st so : ℕ)
      → SizedConfig st so c
      → (r : Result Native)
      → Gives
          (λ (q : VmConfiguration Native × VirtioDevice). SizedConfig (suc st) so q.0)
          (unchanged fw dev (add_storage fw r c))
  storage_sized dev c st so (h, k) r = unchanged-Gives (SizedConfig (suc st) so) _ _ (
      Gives-bind _ _ _ (λ n.
        Gives-ok (SizedConfig (suc st) so) _ (omega (arith, length-append c.storage (n ∷ [])), k)))

  -- A device that is made by one call, and is neither storage nor a socket.
  other_sized :
      (dev : VirtioDevice) (st so : ℕ) (r : Result Native) (f : Native → VmConfiguration Native)
      → ((n : Native) → SizedConfig st so (f n))
      → Gives
          (λ (q : VmConfiguration Native × VirtioDevice). SizedConfig st so q.0)
          (unchanged fw dev (r >>= λ n. ok (f n)))
  other_sized dev st so r f h =
      unchanged-Gives (SizedConfig st so) _ _
        (Gives-bind _ _ _ (λ n. Gives-ok (SizedConfig st so) (f n) (h n)))

  fs_sized :
      (d : VirtioFs) (c : VmConfiguration Native) (st so : ℕ)
      → SizedConfig st so c
      → Gives (SizedConfig st so) (add_fs fw d c)
  unfolding add_fs
  fs_sized d c st so h = Gives-check (SizedConfig st so) (is_empty d.shared_dir) _ _ (
      Gives-bind (SizedConfig st so) (fw.shared_directory _ _) _
        (λ n. Gives-ok (SizedConfig st so) _ h))

  input_sized :
      (t : Text) (c : VmConfiguration Native) (st so : ℕ)
      → SizedConfig st so c
      → Gives (SizedConfig st so) (add_input fw t c)
  unfolding add_input
  input_sized t c st so h =
      Gives-if (SizedConfig st so) _ (Gives-bind _ _ _ (λ n. Gives-ok (SizedConfig st so) _ h))
        (Gives-bind _ _ _ (λ n. Gives-ok (SizedConfig st so) _ h))

  serial_sized :
      (d : VirtioSerial) (c : VmConfiguration Native) (st so : ℕ)
      → SizedConfig st so c
      → Gives
          (λ (q : VmConfiguration Native × VirtioSerial). SizedConfig st so q.0)
          (add_serial fw d c)
  unfolding add_serial
  serial_sized d c st so h =
      let P : VmConfiguration Native × VirtioSerial → Type 0 = λ q. SizedConfig st so q.0 in
      Gives-check P (not (is_empty d.pty_name)) _ _ (
        Gives-if P d.uses_pty (Gives-bind P fw.pty_port _ (λ n. Gives-ok P _ h)) (
          Gives-bind P (if d.uses_stdio then fw.stdio_port else fw.file_port d.log_file) _
            (λ n. Gives-ok P _ h)))

  net_sized :
      (d : VirtioNet) (c : VmConfiguration Native) (st so : ℕ)
      → SizedConfig st so c
      → Gives (λ (q : VmConfiguration Native × VirtioNet). SizedConfig st so q.0) (add_net fw d c)
  unfolding add_net
  net_sized d c st so h =
      let P : VmConfiguration Native × VirtioNet → Type 0 = λ q. SizedConfig st so q.0 in
      Gives-bind P (if is_empty d.unix_socket_path then ok d else fw.connect d) _
        (λ d'. Gives-bind P (fw.network d') _ (λ n. Gives-ok P _ h))

  pub add_sized :
      (dev : VirtioDevice) (c : VmConfiguration Native) (st so : ℕ)
      → SizedConfig st so c
      → so ≤ 1
      → Gives
          (λ (q : VmConfiguration Native × VirtioDevice).
            SizedConfig (one_more (is_storage dev) st) (at_least_one (is_vsock dev) so) q.0)
          (add_to_virtual_machine_config fw dev c)
  unfolding add_to_virtual_machine_config
  add_sized (usb_mass_storage d) c st so h le = storage_sized _ c st so h _
  add_sized (virtio_blk d) c st so h le = storage_sized _ c st so h _
  add_sized (nvme d) c st so h le = storage_sized _ c st so h _
  add_sized (nbd d) c st so h le = storage_sized _ c st so h _
  add_sized (rosetta d) c st so h le = other_sized _ st so _ _ (λ n. h)
  add_sized virtio_rng c st so h le = other_sized _ st so _ _ (λ n. h)
  add_sized virtio_balloon c st so h le = other_sized _ st so _ _ (λ n. h)
  add_sized (virtio_gpu d) c st so h le = other_sized _ st so _ _ (λ n. h)
  add_sized (virtio_fs d) c st so h le =
      unchanged-Gives (SizedConfig st so) _ _ (fs_sized d c st so h)
  add_sized (virtio_input d) c st so h le =
      unchanged-Gives (SizedConfig st so) _ _ (input_sized d.input_type c st so h)
  add_sized (virtio_vsock d) c st so h le =
      unchanged-Gives (SizedConfig st 1) _ _ (add_vsock_sized c st so h le)
  add_sized (virtio_serial d) c st so h le =
      Gives-step _ _ _ _ (serial_sized d c st so h) (λ r p. Gives-ok _ _ p)
  add_sized (virtio_net d) c st so h le =
      Gives-step _ _ _ _ (net_sized d c st so h) (λ r p. Gives-ok _ _ p)
