-- ===== src/Marshal/Fields.antt =====
-- The fields of the configuration's structs, as encoding/json knows them by their tags.
use vfkit.Base.{ℕ, List, [], ◌∷◌, Option, none, some, ◌-◌, ◌^◌}
use vfkit.Text.{Text, codes}
use vfkit.Config.Device.Disk.{DiskStorageConfig, VirtioBlk}
use vfkit.Config.Device.Gpu.{VirtioGpu}
use vfkit.Config.Device.Input.{VirtioInput}
use vfkit.Config.Device.Nbd.{NetworkBlockDevice}
use vfkit.Config.Device.Net.{VirtioNet}
use vfkit.Config.Device.Serial.{VirtioSerial}
use vfkit.Config.Device.Share.{VirtioFs, RosettaShare}
use vfkit.Config.Device.Vsock.{VirtioVsock}
use vfkit.Config.Bootloader.{LinuxBootloader, EfiBootloader}
use vfkit.Config.TimeSync.{TimeSync, Ignition}
use vfkit.Json.{Json, null, object}
use vfkit.Json.Struct.{Field, plain, read_text, read_bool, read_uint, read_int}

-- `jsonKind`
abbrev pub kind_fields : List (Field Text)
kind_fields = plain "kind" read_text (λ k v. v) ∷ []

abbrev pub disk_fields : List (Field DiskStorageConfig)
disk_fields =
    plain "devName" read_text (λ d v. record d { dev_name = v })
    ∷ plain "readOnly" read_bool (λ d v. record d { read_only = v })
    ∷ plain "imagePath" read_text (λ d v. record d { image_path = v })
    ∷ plain "type" read_text (λ d v. record d { type = v })
    ∷ []

abbrev pub blk_fields : List (Field VirtioBlk)
blk_fields =
    plain "devName" read_text (λ d v. record d { disk = record d.disk { dev_name = v } })
    ∷ plain "readOnly" read_bool (λ d v. record d { disk = record d.disk { read_only = v } })
    ∷ plain "imagePath" read_text (λ d v. record d { disk = record d.disk { image_path = v } })
    ∷ plain "type" read_text (λ d v. record d { disk = record d.disk { type = v } })
    ∷ plain "deviceIdentifier" read_text (λ d v. record d { device_identifier = v })
    ∷ []

abbrev pub fs_fields : List (Field VirtioFs)
fs_fields =
    plain "mountTag" read_text (λ d v. record d { mount_tag = v })
    ∷ plain "sharedDir" read_text (λ d v. record d { shared_dir = v })
    ∷ []

abbrev pub rosetta_fields : List (Field RosettaShare)
rosetta_fields =
    plain "mountTag" read_text (λ d v. record d { mount_tag = v })
    ∷ plain "installRosetta" read_bool (λ d v. record d { install_rosetta = v })
    ∷ plain "ignoreIfMissing" read_bool (λ d v. record d { ignore_if_missing = v })
    ∷ []

-- `virtioNetForMarshalling`: its address is the text of that of the device.
pub record NetForMarshalling : Type 0 where
  pub net : VirtioNet
  pub mac_address : Text

-- The descriptor that stands for a file that is not open, such as one that is read from JSON.
abbrev pub no_descriptor : ℕ
no_descriptor = 2 ^ 64 - 1

abbrev put_socket : NetForMarshalling → Option ℕ → NetForMarshalling
put_socket d s = record d { net = record d.net { socket = s } }

-- `Socket` is a pointer: null makes it nil, and an object a new file, which is not open.
abbrev store_socket : Json → NetForMarshalling → Option NetForMarshalling
store_socket null d = some (put_socket d none)
store_socket (object l) d = some (put_socket d (some no_descriptor))
store_socket _ d = none

abbrev pub net_fields : List (Field NetForMarshalling)
net_fields =
    plain "nat" read_bool (λ d v. record d { net = record d.net { nat = v } })
    ∷ record { name = codes "socket"; store = store_socket }
    ∷ plain "unixSocketPath" read_text
        (λ d v. record d { net = record d.net { unix_socket_path = v } })
    ∷ plain "vfkitMagic" read_bool (λ d v. record d { net = record d.net { vfkit_magic = v } })
    ∷ plain "macAddress" read_text (λ d v. record d { mac_address = v })
    ∷ []

abbrev pub serial_fields : List (Field VirtioSerial)
serial_fields =
    plain "logFile" read_text (λ d v. record d { log_file = v })
    ∷ plain "usesStdio" read_bool (λ d v. record d { uses_stdio = v })
    ∷ plain "usesPty" read_bool (λ d v. record d { uses_pty = v })
    ∷ plain "ptyName" read_text (λ d v. record d { pty_name = v })
    ∷ []

abbrev pub vsock_fields : List (Field VirtioVsock)
vsock_fields =
    plain "port" (read_uint 32) (λ d v. record d { port = v })
    ∷ plain "socketURL" read_text (λ d v. record d { socket_url = v })
    ∷ plain "listen" read_bool (λ d v. record d { listen = v })
    ∷ []

abbrev pub input_fields : List (Field VirtioInput)
input_fields = plain "inputType" read_text (λ d v. record d { input_type = v }) ∷ []

abbrev pub gpu_fields : List (Field VirtioGpu)
gpu_fields =
    plain "usesGUI" read_bool (λ d v. record d { uses_gui = v })
    ∷ plain "width" (read_int 64) (λ d v. record d { width = v })
    ∷ plain "height" (read_int 64) (λ d v. record d { height = v })
    ∷ []

abbrev pub nbd_fields : List (Field NetworkBlockDevice)
nbd_fields =
    plain "devName" read_text (λ d v. record d { storage = record d.storage { dev_name = v } })
    ∷ plain "readOnly" read_bool (λ d v. record d { storage = record d.storage { read_only = v } })
    ∷ plain "uri" read_text (λ d v. record d { storage = record d.storage { uri = v } })
    ∷ plain "DeviceIdentifier" read_text (λ d v. record d { device_identifier = v })
    ∷ plain "Timeout" (read_int 64) (λ d v. record d { timeout = v })
    ∷ plain "SynchronizationMode" read_text (λ d v. record d { synchronization_mode = v })
    ∷ []

abbrev pub linux_fields : List (Field LinuxBootloader)
linux_fields =
    plain "vmlinuzPath" read_text (λ b v. record b { vmlinuz_path = v })
    ∷ plain "kernelCmdLine" read_text (λ b v. record b { kernel_cmd_line = v })
    ∷ plain "initrdPath" read_text (λ b v. record b { initrd_path = v })
    ∷ []

abbrev pub efi_fields : List (Field EfiBootloader)
efi_fields =
    plain "efiVariableStorePath" read_text (λ b v. record b { efi_variable_store_path = v })
    ∷ plain "createVariableStore" read_bool (λ b v. record b { create_variable_store = v })
    ∷ []

abbrev pub timesync_fields : List (Field TimeSync)
timesync_fields = plain "vsockPort" (read_uint 32) (λ t v. record t { vsock_port = v }) ∷ []

-- The port of an ignition is not in JSON.
abbrev pub ignition_fields : List (Field Ignition)
ignition_fields =
    plain "configPath" read_text (λ i v. record i { config_path = v })
    ∷ plain "socketPath" read_text (λ i v. record i { socket_path = v })
    ∷ []
