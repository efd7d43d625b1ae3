-- ===== src/Lib.antt =====
-- A verification library for vfkit, the command-line launcher of virtual machines on macOS.
--
-- The program reads a command line into a machine configuration, converts the configuration to
-- native objects, and starts the machine. A Go program can also build a configuration and ask for
-- the command line that starts it. This library models both directions:
--
-- - pkg/config/virtio.go: Config/Options (`strToOption`, `strvToOptions`) and Config/Device with one
--   child for each group of device types; a method `X.FromOptions` is a step for one option, by the
--   name `set_option`, run over the list by `for_each`, and the checks behind it. Config/Device
--   itself has the interface `VirtioDevice` and `deviceFromCmdLine`. Config/Device/RoundTrip and
--   Config/Device/Accepted are about both directions and about the checks.
-- - pkg/config/bootloader.go: Config/Bootloader.
-- - pkg/config/config.go: Config/TimeSync and Config/Machine, the machine with its devices.
-- - pkg/cmdline/string_slice.go: Cmdline, the flag for lists with quotes.
-- - pkg/util/strings.go: in Text.
-- - pkg/rest/rest.go and pkg/rest/vf: Rest, the endpoint of the service and the handler that changes
--   the state of the machine.
-- - cmd/vfkit/main.go: Start, which makes the machine of the options, Start/CloudInit and Start/Iso,
--   the files of a cloud-init image and the image, and Start/Wait, the wait for a state.
-- - pkg/vf/vm.go, pkg/vf/virtio.go and pkg/vf/virtionet.go: Vf, which turns the devices of a machine
--   into native ones, Vf/Storage, what each storage device needs, Vf/Graphics, Vf/Rosetta with
--   pkg/vf/rosetta_arm64.go, and Vf/Counts.
-- - pkg/vf/bootloader.go: Vf/Kernel, the test of a kernel, and Vf/Create, a native machine from its
--   bootloader to its devices, with Vf/Created, what has been checked of it.
-- - cmd/vfkit/main.go, once more: Start/Run, the run of the machine, Start/Finished, what it
--   promises, and Start/Shutdown, the shutdown next to it; the events of their waits are lists, and
--   a run has the list of what it has called. The goroutines for ignition and time are left out.
-- - pkg/config/json.go: Marshal, what is written and what is read, its order of a map and its
--   round trips. Json has what is used of encoding/json, on values that are read already.
-- - pkg/process/process.go: Process, with the pid file and who is sent a signal.
-- - pkg/vf/virtionet.go and pkg/util/exithandler.go: Network, on the sockets and descriptors of the
--   host, up to the exit handlers, and Network/Failed, what a failing connection leaves.
-- - pkg/vf/vsock.go: Vf/Proxies. cmd/vfkit/timesync.go: GuestTime. pkg/util/credtemp.go and the log
--   level of cmd/vfkit/root.go: Stale.
-- - Base, Text, Decimal and Mac hold what the parts share: results with errors, texts as lists of
--   bytes, and the functions of Go's standard library that the code calls: `strings.Split`,
--   `SplitN`, `Join`, `strconv.ParseUint`, `ParseInt`, `Atoi`, `FormatUint`, `net.ParseMAC` and
--   `HardwareAddr.String`.
--
-- A text is the list of its bytes. Numbers are natural numbers with the width of the source written
-- out where it matters: ports below 2 ^ 32, memory below 2 ^ 64, signed numbers as ℤ with the
-- range that their parser accepts. An error is its format with its arguments. A method that fails
-- in the middle returns the machine with the error, since the earlier changes stay. All loops are
-- recursions on the list that they run over; only the digits of a number are made on fuel, which is
-- one more than the number and so enough. Files of the host are a function
-- from paths to what is read of them, and a socket is its file descriptor. The units of package
-- strongunits are a parameter with the laws of a mebibyte.
--
-- Not modelled: the calls of the virtualization framework itself, the text of JSON, the web
-- framework, the proxy and the process library, logging and the delivery of signals, since they are
-- outside the repository or have no logic of their own.
pub mod Base
pub mod Text
pub mod Decimal
pub mod Mac
pub mod Json
pub mod Config
pub mod Cmdline
pub mod Marshal
pub mod Network
pub mod GuestTime
pub mod Stale
pub mod Process
pub mod Rest
pub mod Start
pub mod Vf
pub mod Tests
