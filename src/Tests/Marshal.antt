-- ===== src/Tests/Marshal.antt =====
-- Machines and devices as JSON.
use mathlib.Core.List.{Permᴰ}
use mathlib.Core.List.Permᴰ
use vfkit.Base.{
  ◌^◌, ◌++◌, true, false, some, none, List, [], ◌∷◌, ◌≡◌, ◌↔◌, refl, ok, err, panic, errorf, inr,
  inl, arith,
}
use vfkit.Text.{Text, codes}
use vfkit.Decimal.{parse_digits}
use vfkit.Config.Bootloader.{Bootloader, linux, macos}
use vfkit.Config.Device.{virtio_net, virtio_rng}
use vfkit.Config.Device.Net.{VirtioNet}
use vfkit.Config.Machine.{VirtualMachine}
use vfkit.Json.{Json, null, boolean, number, string, array, object, Member, to_fields, to_elements}
use vfkit.Json.Fold.{fold_name}
use vfkit.Text.Utf8.{to_valid_utf8}
use vfkit.Json.Struct.{unmarshal, type_error}
use vfkit.Marshal.Devices.{marshal_device}
use vfkit.Marshal.Fields.{kind_fields, vsock_fields}
use vfkit.Marshal.ReadDevices.{unmarshal_device, unmarshal_devices, unknown_kind}
use vfkit.Marshal.Bootloaders.{marshal_bootloader, unmarshal_bootloader}
use vfkit.Marshal.Machine.{marshal_devices, marshal_machine, unmarshal_machine}
use vfkit.Marshal.Machine.Order.{unmarshal_machine-order}
use vfkit.Marshal.RoundTrip.{device-ReadsBack}
use vfkit.Marshal.RoundTrip.Bootloaders.{bootloader-ReadsBack}
use vfkit.Marshal.RoundTrip.Machine.{no_machine, json_machine, unmarshal_machine-marshal_machine}
use vfkit.Marshal.Kinds.{unmarshal_device-kind, unmarshal_machine-nested, unmarshal_devices-null}

abbrev mac : Text
mac = 0x52 ∷ 0x54 ∷ 0x00 ∷ 0x70 ∷ 0x2b ∷ 0x79 ∷ []

-- The magic flag is off, although there is a socket.
abbrev net : VirtioNet
net = record {
  nat = false;
  mac_address = mac;
  socket = none;
  unix_socket_path = codes "/net.sock";
  vfkit_magic = false;
}

abbrev magic_net : VirtioNet
magic_net = record net { vfkit_magic = true }

device-ReadsBack_example :
    unmarshal_device (marshal_device (virtio_net net)) ≡ ok (virtio_net magic_net)
unfolding codes
device-ReadsBack_example = device-ReadsBack (virtio_net net) (record {
  address = inr ((omega arith), inl refl);
  path_text = unfold to_valid_utf8 codes in refl;
})

-- The flag is off if the JSON says so.
magic_off :
    unmarshal_device (
      object (
        to_fields (
          (codes "kind", string (codes "virtionet"))
          ∷ (codes "unixSocketPath", string (codes "/net.sock"))
          ∷ (codes "VFKITMAGIC", boolean false)
          ∷ [])))
    ≡ ok (virtio_net (record net { mac_address = [] }))
unfolding unmarshal_device to_fields codes
magic_off = refl

unknown : unmarshal_device (object (to_fields [])) ≡ err (unknown_kind [])
unfolding unmarshal_device to_fields
unknown = refl

-- A port of 33 bits is no `uint32`, and the names that follow it are still read.
port_error :
    unmarshal vsock_fields
      (object (
        to_fields (
          (codes "port", number (codes "4294967296"))
          ∷ (codes "socketurl", string (codes "/s"))
          ∷ [])))
      (record { port = 0; socket_url = []; listen = false })
    ≡ err (errorf "json: cannot unmarshal number %s" (codes "4294967296" ∷ []))
unfolding unmarshal to_fields codes type_error parse_digits
port_error = refl

invalid_utf8 : to_valid_utf8 (b'a' ∷ 0xff ∷ []) ≡ b'a' ∷ 0xef ∷ 0xbf ∷ 0xbd ∷ []
unfolding to_valid_utf8
invalid_utf8 = refl

kelvin : fold_name (0xe2 ∷ 0x84 ∷ 0xaa ∷ b'i' ∷ b'n' ∷ b'd' ∷ []) ≡ codes "KIND"
unfolding fold_name codes
kelvin = refl

abbrev vm : VirtualMachine
vm = record {
  vcpus = 2;
  memory = 2 ^ 30;
  bootloader = some (
      linux (record {
        vmlinuz_path = codes "/vmlinuz";
        kernel_cmd_line = codes "quiet";
        initrd_path = codes "/initrd";
      }));
  devices = virtio_net net ∷ virtio_rng ∷ [];
  timesync = some (record { vsock_port = 1234 });
  ignition =
      some (record { config_path = codes "/config.ign"; socket_path = []; vsock_port = 1024 });
  nested = true;
}

-- Another order: the second entry comes first.
abbrev swapped : List Member → List Member
swapped [] = []
swapped (m ∷ []) = m ∷ []
swapped (m ∷ m' ∷ ms) = m' ∷ m ∷ ms

swapped-perm : (l : List Member) → Permᴰ l (swapped l)
swapped-perm [] = Permᴰ.refl []
swapped-perm (m ∷ []) = Permᴰ.refl (m ∷ [])
swapped-perm (m ∷ m' ∷ ms) = Permᴰ.swap refl refl

unmarshal_machine-marshal_machine_example :
    unmarshal_machine swapped (marshal_machine vm) no_machine ≡ ok (json_machine vm)
unmarshal_machine-marshal_machine_example =
    unmarshal_machine-marshal_machine swapped vm swapped-perm (record {
      vcpus_range = omega arith;
      memory_range = omega arith;
      loadable = unfold to_valid_utf8 codes in (refl, (refl, refl));
      devices_writable = (
        record {
          address = inr ((omega arith), inl refl);
          path_text = unfold to_valid_utf8 codes in refl;
        },
        (tt, tt),
      );
      synced = omega arith;
      ignited = record {
        config_text = unfold to_valid_utf8 codes in refl;
        socket_text = unfold to_valid_utf8 in refl;
      };
    })

-- The machine lost its nested virtualization, and the ignition its port.
vm_lost : json_machine vm ≡ record vm {
  devices = virtio_net magic_net ∷ virtio_rng ∷ [];
  ignition = some (record { config_path = codes "/config.ign"; socket_path = []; vsock_port = 0 });
  nested = false;
}
unfolding codes
vm_lost = refl

abbrev raw : Json
raw = marshal_machine vm

unmarshal_machine-order_example :
    (unmarshal_machine (λ l. l) raw no_machine ≡ ok (json_machine vm))
    ↔ (unmarshal_machine swapped raw no_machine ≡ ok (json_machine vm))
unmarshal_machine-order_example =
    unmarshal_machine-order (λ l. l) swapped raw no_machine Permᴰ.refl swapped-perm
      (json_machine vm)

abbrev rng : Json
rng = object (to_fields ((codes "kind", string (codes "virtiorng")) ∷ []))

unmarshal_device-kind_example : unmarshal kind_fields rng [] ≡ ok (codes "virtiorng")
unmarshal_device-kind_example =
    unmarshal_device-kind rng virtio_rng (unfold unmarshal_device codes to_fields in refl)

abbrev nested_raw : Json
nested_raw = object (to_fields ((codes "nested", boolean true) ∷ []))

unmarshal_machine-nested_example : no_machine.nested ≡ false
unmarshal_machine-nested_example =
    unmarshal_machine-nested (λ l. l) nested_raw no_machine no_machine
      (unfold unmarshal_machine codes to_fields in refl)

unmarshal_devices-null_example :
    unmarshal_devices (array (to_elements (marshal_devices (virtio_rng ∷ []) ++ null ∷ [])))
    ≡ err (panic "invalid memory address or nil pointer dereference")
unmarshal_devices-null_example = unmarshal_devices-null (virtio_rng ∷ []) [] (tt, tt)

abbrev macos_bootloader : Bootloader
macos_bootloader = macos (record {
  machine_identifier_path = codes "/id";
  hardware_model_path = codes "/model";
  aux_image_path = codes "/aux";
})

bootloader-ReadsBack_example :
    unmarshal_bootloader (marshal_bootloader macos_bootloader) ≡ err (unknown_kind [])
bootloader-ReadsBack_example = bootloader-ReadsBack macos_bootloader tt
