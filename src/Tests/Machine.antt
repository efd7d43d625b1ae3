-- ===== src/Tests/Machine.antt =====
-- Whole machines.
use vfkit.Base.{
  All, ◌+◌, ◌-◌, ◌*◌, ◌/◌, ◌%◌, ◌^◌, ◌<◌, ◌≤◌, true, none, some, List, [], ◌∷◌, ◌++◌, ◌≡◌, ◌⊎◌,
  refl, arith, ok, errorf, ◌>>=◌,
}
use mathlib.Core.List.{map}
use vfkit.Text.{Text, codes, split, text_eq}
use vfkit.Config.Options.{strv_to_options}
use vfkit.Config.Device.Share.{no_options}
use vfkit.Text.Utf8.{ascii-IsUtf8}
use vfkit.Cmdline.{parse_string}
use vfkit.Config.Bootloader.{
  EfiBootloader, efi, to_cmd_line, efi_to_cmd_line, bootloader_from_cmd_line,
}
use vfkit.Config.Bootloader.RoundTrip.{efi_round_trip}
use vfkit.Config.Device.{VirtioDevice, virtio_rng, virtio_fs, nbd, device_from_cmd_line}
use vfkit.Config.Device.Disk.{FileHeader, cannot_open}
use vfkit.Config.Device.Nbd.{new_empty}
use vfkit.Config.Device.RoundTrip.{canonical}
use vfkit.Config.Machine.{
  VirtualMachine, Units, IsUnits, round_to_mib, add_devices, add_devices_from_cmd_line, cpus_args,
  memory_args, ignition_args, nested_args, extra_files, filter_devices, as_net, as_nbd,
  network_block_device,
}
use vfkit.Config.Machine
use vfkit.Config.Device.Accepted.{IsAccepted}
use vfkit.Config.Machine.Accepted.{add_devices_from_cmd_line-AllAccepted}
use vfkit.Config.Machine.CmdLine.{machine_round_trip}
use vfkit.Config.Machine.Devices.{ReadAll, StopsAt, device_flags, add_devices_from_cmd_line-cases}
use vfkit.Config.Machine.Find.{IsFirst, network_block_device-Found}
use vfkit.Config.Machine.Memory.{round_to_mib_bounds, round_to_mib_wraps}
use vfkit.Config.TimeSync.{TimeSync, timesync_from_cmd_line}
use vfkit.Config.TimeSync
use vfkit.Config.TimeSync.Laws.{timesync_round_trip}

abbrev no_files : Text → FileHeader
no_files path = cannot_open (codes "no such file or directory")

abbrev units : Units
units = record { mib_to_bytes = λ n. (n * 2 ^ 20) % 2 ^ 64; to_mib = λ b. b / 2 ^ 20 }

units-IsUnits : IsUnits units
units-IsUnits = record { mib_to_bytes_is = λ n. refl; to_mib_is = λ b. refl }

abbrev boot : EfiBootloader
boot = record { efi_variable_store_path = codes "/efi"; create_variable_store = true }

abbrev machine : VirtualMachine
machine = record {
  vcpus = 2;
  memory = 2 ^ 30;
  bootloader = some (efi boot);
  devices =
      virtio_rng ∷ virtio_fs (record { mount_tag = codes "home"; shared_dir = codes "/home" }) ∷ [];
  timesync = some (record { vsock_port = 1234 });
  ignition = none;
  nested = true;
}

machine_round_trip_example :
    (values : List Text) × (Machine.to_cmd_line units machine
      ≡ ok (
          cpus_args 2
          ++ (memory_args units (2 ^ 30)
              ++ ((codes "--bootloader" ∷ codes "efi,variable-store=/efi,create" ∷ [])
                  ++ (device_flags values ++ (ignition_args none ++ nested_args true))))))
    × (add_devices_from_cmd_line no_files machine values
        ≡ (add_devices machine (map canonical machine.devices), none))
unfolding codes to_cmd_line efi_to_cmd_line
machine_round_trip_example =
    machine_round_trip units no_files machine machine
      (codes "--bootloader" ∷ codes "efi,variable-store=/efi,create" ∷ []) refl
      (tt, (record { dir_part = omega arith; dir_set = cc; tag_part = omega arith }, tt))

add_devices_from_cmd_line-cases_example :
    ((devs : List VirtioDevice) × ReadAll no_files (codes "virtio-rng" ∷ codes "tape" ∷ []) devs
      × (add_devices_from_cmd_line no_files machine (codes "virtio-rng" ∷ codes "tape" ∷ [])
          ≡ (add_devices machine devs, none)))
    ⊎ ((f : StopsAt no_files (codes "virtio-rng" ∷ codes "tape" ∷ [])) × (add_devices_from_cmd_line
            no_files machine
            (codes "virtio-rng" ∷ codes "tape" ∷ [])
          ≡ (add_devices machine f.devs, some f.error)))
add_devices_from_cmd_line-cases_example =
    add_devices_from_cmd_line-cases no_files machine (codes "virtio-rng" ∷ codes "tape" ∷ [])

-- The device before a bad argument stays.
partly_added :
    add_devices_from_cmd_line no_files
      (record machine { devices = [] })
      (codes "virtio-rng" ∷ codes "tape" ∷ codes "virtio-balloon" ∷ [])
    ≡ (
      record machine { devices = virtio_rng ∷ [] },
      some (errorf "unknown device type: %s" (codes "tape" ∷ [])),
    )
unfolding codes add_devices_from_cmd_line device_from_cmd_line split no_options strv_to_options
partly_added = refl

network_block_device-Found_example :
    IsFirst
      (codes "b")
      (record new_empty { device_identifier = codes "b" })
      (new_empty ∷ record new_empty { device_identifier = codes "b" } ∷ [])
unfolding codes network_block_device filter_devices text_eq
network_block_device-Found_example =
    network_block_device-Found (codes "b")
      (nbd new_empty ∷ nbd (record new_empty { device_identifier = codes "b" }) ∷ [])

round_to_mib_bounds_example :
    (2 ^ 20 + 1 ≤ round_to_mib units (2 ^ 20 + 1) * 2 ^ 20)
    × (round_to_mib units (2 ^ 20 + 1) * 2 ^ 20 < 2 ^ 20 + 1 + 2 ^ 20)
round_to_mib_bounds_example = round_to_mib_bounds units units-IsUnits (2 ^ 20 + 1) (omega arith)

round_to_mib_wraps_example : round_to_mib units (2 ^ 64 - 1) ≡ 0
round_to_mib_wraps_example =
    round_to_mib_wraps units units-IsUnits (2 ^ 64 - 1) (omega arith) (omega arith)

efi_round_trip_example :
    (s : Text) × (to_cmd_line (efi boot) ≡ ok (codes "--bootloader" ∷ s ∷ []))
    × ((parse_string s >>= bootloader_from_cmd_line) ≡ ok (efi boot))
unfolding codes
efi_round_trip_example =
    efi_round_trip boot (cc) (omega arith) (omega arith)
      (ascii-IsUtf8 boot.efi_variable_store_path (omega arith))

timesync_round_trip_example :
    (s : Text) × (TimeSync.to_cmd_line (record { vsock_port = 1234 })
      ≡ ok (codes "--timesync" ∷ s ∷ []))
    × (timesync_from_cmd_line s ≡ ok (record { vsock_port = 1234 }))
timesync_round_trip_example =
    timesync_round_trip (record { vsock_port = 1234 }) (omega arith) (omega arith)

abbrev net_and_tape : List Text
net_and_tape = codes "virtio-net,nat" ∷ codes "tape" ∷ []

add_devices_from_cmd_line-AllAccepted_example :
    All (IsAccepted no_files) (add_devices_from_cmd_line no_files machine net_and_tape).0.devices
add_devices_from_cmd_line-AllAccepted_example =
    add_devices_from_cmd_line-AllAccepted no_files machine net_and_tape (tt, (tt, tt))
