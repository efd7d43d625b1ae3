-- ===== src/Vf/Counts.antt =====
-- How many native devices there are behind `toVz`.
use vfkit.Base.{
  Bool-cases, inl, inr, ◌≤◌, ℕ, ◌+◌, Bool, true, false, ◌||◌, not, ◌==◌, List, [], ◌∷◌, ◌≡◌, refl,
  ◌∙◌, ok, if◌then◌else◌, length, arith,
}
use vfkit.Config.Device.{VirtioDevice}
use vfkit.Config.Machine.{VirtualMachine}
use vfkit.Vf.{
  Framework, VmConfiguration, empty_configuration, add_to_virtual_machine_config, add_all,
  add_vsock_for, timesync_port, ignition_port, to_vz,
}
use vfkit.Vf.Sockets.{
  one_more, at_least_one, SizedConfig, is_storage, is_vsock, add_vsock_sized, add_sized,
}
use vfkit.Base.{Gives, Gives-ok, Gives-step}

abbrev pub storage_count : List VirtioDevice → ℕ
storage_count [] = 0
storage_count (d ∷ devs) = one_more (is_storage d) (storage_count devs)

abbrev pub any_vsock : List VirtioDevice → Bool
any_vsock [] = false
any_vsock (d ∷ devs) = is_vsock d || any_vsock devs

-- A vsock device among the devices, or a port for time synchronisation or for ignition.
abbrev pub needs_vsock : VirtualMachine → Bool
needs_vsock vm =
    any_vsock vm.devices
    || (not (timesync_port vm.timesync == 0) || not (ignition_port vm.ignition == 0))

one_more_sum : (b : Bool) (m n : ℕ) → one_more b m + n ≡ m + one_more b n
one_more_sum true m n = omega arith
one_more_sum false m n = refl

at_least_one-twice :
    (b c : Bool) (n : ℕ) → at_least_one c (at_least_one b n) ≡ at_least_one (b || c) n
at_least_one-twice true true n = refl
at_least_one-twice true false n = refl
at_least_one-twice false c n = refl

at_least_one-le : (b : Bool) (n : ℕ) → n ≤ 1 → at_least_one b n ≤ 1
at_least_one-le true n h = omega arith
at_least_one-le false n h = h

module _ {Native : Type 0} (fw : Framework Native) where
  all_sized :
      (devs : List VirtioDevice) (c : VmConfiguration Native) (st so : ℕ)
      → SizedConfig fw st so c
      → so ≤ 1
      → Gives
          (λ (q : VmConfiguration Native × List VirtioDevice).
            SizedConfig fw (st + storage_count devs) (at_least_one (any_vsock devs) so) q.0)
          (add_all fw devs c)
  unfolding add_all
  all_sized [] c st so (h, k) le = Gives-ok _ _ (omega arith, k)
  all_sized (d ∷ devs) c st so h le =
      let P : VmConfiguration Native × List VirtioDevice → Type 0 = λ q.
        SizedConfig fw (st + storage_count (d ∷ devs)) (at_least_one (any_vsock (d ∷ devs)) so)
          q.0 in
      Gives-step _ P (add_to_virtual_machine_config fw d c) _ (add_sized fw d c st so h le) (λ r p.
        Gives-step _ P (add_all fw devs r.0) _
          (all_sized devs r.0 (one_more (is_storage d) st) (at_least_one (is_vsock d) so) p
            (at_least_one-le (is_vsock d) so le))
          (λ rs (p', q'). Gives-ok P _ (
            p' ∙ one_more_sum (is_storage d) st (storage_count devs),
            q' ∙ at_least_one-twice (is_vsock d) (any_vsock devs) so,
          )))

  vsock_for_sized :
      (port : ℕ) (c : VmConfiguration Native) (st so : ℕ)
      → SizedConfig fw st so c
      → so ≤ 1
      → Gives (SizedConfig fw st (at_least_one (not (port == 0)) so)) (add_vsock_for fw port c)
  vsock_for_sized port c st so h le = elim (Bool-cases (port == 0)) [
    | inl e ↦ rw e (Gives-ok (SizedConfig fw st so) c h)
    | inr e ↦ rw e (add_vsock_sized fw c st so h le)
  ]

  -- A configuration that is made has a native storage device for each disk and each network block
  -- device, and one vsock device if the machine has any, or a port for time synchronisation or
  -- ignition, and else none: never two.
  pub to_vz-Counts :
      (vm : VirtualMachine) (r : VmConfiguration Native × VirtualMachine)
      → to_vz fw vm ≡ ok r
      → (length r.0.storage ≡ storage_count vm.devices)
        × (length r.0.sockets ≡ (if needs_vsock vm then 1 else 0))
  unfolding to_vz
  to_vz-Counts vm r e =
      let b0 = any_vsock vm.devices in
      let b1 = not (timesync_port vm.timesync == 0) in
      let b2 = not (ignition_port vm.ignition == 0) in
      let st = 0 + storage_count vm.devices in
      let P : VmConfiguration Native × VirtualMachine → Type 0 =
        λ q. SizedConfig fw st (at_least_one b2 (at_least_one b1 (at_least_one b0 0))) q.0 in
      let le0 = at_least_one-le b0 0 (omega arith) in
      let (storage_is, sockets_are) =
        Gives-step _ P (add_all fw vm.devices empty_configuration) _
          (all_sized vm.devices empty_configuration 0 0 (refl, refl) (omega arith))
          (λ q h.
            Gives-step _ P (add_vsock_for fw (timesync_port vm.timesync) q.0) _
              (vsock_for_sized (timesync_port vm.timesync) q.0 st (at_least_one b0 0) h le0)
              (λ c h1.
                Gives-step _ P (add_vsock_for fw (ignition_port vm.ignition) c) _
                  (vsock_for_sized (ignition_port vm.ignition) c st _ h1 (at_least_one-le b1 _ le0))
                  (λ c2 h2. Gives-ok P _ h2)))
          r e in
      (
        storage_is ∙ omega arith,
        sockets_are ∙ at_least_one-twice b1 b2 _ ∙ at_least_one-twice b0 (b1 || b2) 0,
      )
