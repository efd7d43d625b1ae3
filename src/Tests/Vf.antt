-- ===== src/Tests/Vf.antt =====
-- A framework whose objects are numbers: it makes 1 for storage, 2 for a socket and 0 for the rest.
use vfkit.Base.{Result, ◌||◌, arith}
use vfkit.Base.{
  ◌^◌, ℕ, true, false, some, none, [], ◌∷◌, ◌≡◌, refl, ok, err, errorf, wrapf, if◌then◌else◌,
  length,
}
use vfkit.Text.{Text, codes, is}
use vfkit.Decimal.{format}
use vfkit.Config.Device.{VirtioDevice, nvme, virtio_vsock}
use vfkit.Config.Device.Vsock
use vfkit.Config.Machine.{VirtualMachine}
use vfkit.Vf.{Framework, VmConfiguration, empty_configuration, to_vz}
use vfkit.Vf.Counts.{storage_count, needs_vsock, to_vz-Counts}
use vfkit.Vf.Proxies.{
  ProxyUrl, Parses, unix_socket, vsock_port, listen_route, connect_route, listen_listen,
  listen_dial, connect_listen, connect_dial, proxy-ends,
}
use vfkit.Vf.Rosetta.{RosettaMaker, not_installed, rosetta_share}
use vfkit.Vf.Storage.{StorageMaker, validate_nbd_device_identifier}

abbrev maker : StorageMaker ℕ
maker = record {
  image = λ path read_only. ok 0;
  is_block_device = λ path. ok false;
  block_device = λ path read_only. ok 0;
  scheme = λ uri. ok (codes "nbd");
  server = λ uri timeout read_only full. ok 0;
  nvme_controller = λ attachment. ok 1;
  virtio_block = λ attachment. ok 1;
  usb_storage = λ attachment. ok 1;
  set_identifier = λ device id. ok device;
}

-- Rosetta is not installed, and its installation fails.
abbrev rosetta_maker : RosettaMaker ℕ
rosetta_maker = record {
  is_arm64 = true;
  availability = not_installed;
  install = err (errorf "no network" []);
  directory_share = err (errorf "rosetta is not installed" []);
  file_system = λ tag. ok 0;
  with_share = λ config share. config;
}

-- A share that ignores this is refused all the same, behind the check.
not_ignored :
    rosetta_share rosetta_maker
      (record { mount_tag = codes "tag"; install_rosetta = true; ignore_if_missing = true })
    ≡ err (
        wrapf "failed to create a new rosetta directory share: %w"
          (errorf "rosetta is not installed" []))
unfolding rosetta_share codes
not_ignored = refl

abbrev pub framework : Framework ℕ
framework = record {
  storage = maker;
  rosetta = rosetta_maker;
  shared_directory = λ tag dir. ok 0;
  platform_type = [];
  graphics = record {
    is_arm64 = true;
    virtio_graphics = ok 0;
    scanout = λ width height. ok 0;
    macos_graphics = ok 0;
    display = λ width height pixels. ok 0;
    with_output = λ device output. device;
  };
  pointing = ok 0;
  keyboard = ok 0;
  connect = λ d. ok d;
  network = λ d. ok 0;
  entropy = ok 0;
  balloon = ok 0;
  stdio_port = ok 0;
  file_port = λ path. ok 0;
  pty_port = ok (0, codes "/dev/ttys001");
  socket_device = ok 2;
}

abbrev disk : VirtioDevice
disk = nvme (record {
  dev_name = codes "nvme";
  read_only = false;
  image_path = codes "/disk.img";
  type = [];
})

abbrev machine : VirtualMachine
machine = record {
  vcpus = 1;
  memory = 2 ^ 30;
  bootloader = none;
  devices = disk ∷ virtio_vsock (record Vsock.empty { port = 5 }) ∷ virtio_vsock Vsock.empty ∷ [];
  timesync = some (record { vsock_port = 1234 });
  ignition = none;
  nested = false;
}

abbrev configuration : VmConfiguration ℕ
configuration = record empty_configuration { storage = 1 ∷ []; sockets = 2 ∷ [] }

-- One vsock device for three that are asked for.
converted : to_vz framework machine ≡ ok (configuration, machine)
unfolding codes to_vz
converted = refl

to_vz-Counts_example :
    (length configuration.storage ≡ storage_count machine.devices)
    × (length configuration.sockets ≡ (if needs_vsock machine then 1 else 0))
to_vz-Counts_example = to_vz-Counts framework machine (configuration, machine) converted

slash_refused :
    validate_nbd_device_identifier (codes "a/b")
    ≡ err (errorf "invalid 'deviceId': it cannot contain any forward slash" [])
unfolding validate_nbd_device_identifier codes
slash_refused = refl

-- The parts of the four addresses of the proxies of port 1234 and `/s`.
abbrev parse : Text → Result ProxyUrl
parse s =
    if is s "unix://:/s" || is s "unix:/s"
    then ok
        (record { scheme = codes "unix"; port = []; path = codes "/s"; escaped_path = codes "/s" })
    else ok (record { scheme = codes "vsock"; port = codes "1234"; path = []; escaped_path = [] })

abbrev unix_url : ProxyUrl
unix_url = record { scheme = codes "unix"; port = []; path = codes "/s"; escaped_path = codes "/s" }

abbrev vsock_url : ProxyUrl
vsock_url = record { scheme = codes "vsock"; port = codes "1234"; path = []; escaped_path = [] }

parses : Parses parse 1234 (codes "/s")
unfolding codes is format
parses = record {
  unix_listen = unix_url;
  unix_dial = unix_url;
  vsock_listen = vsock_url;
  vsock_dial = vsock_url;
  unix_listen_is = refl;
  unix_dial_is = refl;
  vsock_listen_is = refl;
  vsock_dial_is = refl;
  unix_schemes = (refl, refl);
  vsock_schemes = (refl, refl);
  port_is = refl;
  path_is = refl;
}

proxy-ends_example :
    (listen_listen parse configuration.sockets (listen_route 1234 (codes "/s")).listen_on
      ≡ ok (vsock_port 1234))
    × (listen_dial parse (listen_route 1234 (codes "/s")).dial_to ≡ ok (unix_socket (codes "/s")))
    × (connect_listen parse (connect_route 1234 (codes "/s")).listen_on
        ≡ ok (unix_socket parses.unix_listen.escaped_path))
    × (connect_dial parse configuration.sockets 1234 (connect_route 1234 (codes "/s")).dial_to
        ≡ ok (vsock_port 1234))
proxy-ends_example =
    proxy-ends framework parse machine (configuration, machine) 1234 (codes "/s") parses converted
      refl (omega arith)
