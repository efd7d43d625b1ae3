-- ===== src/Network.antt =====
-- The network device of pkg/vf/virtionet.go, from its connection to its shutdown, and the exit
-- handlers of pkg/util/exithandler.go, which are the `Shutdown` of such devices here. The local
-- socket files and the open descriptors are the state of the host.
pub mod Shutdown
pub mod Failed
use vfkit.Base.{
  ℕ, Bool, true, false, ◌&&◌, ◌||◌, Option, none, some, List, [], ◌∷◌, ◌++◌, ◌==◌, leb, length,
  if◌then◌else◌, Error, errorf, Result, ok, err, ◌>>=◌, ◌>>◌, fail_if,
}
use vfkit.Text.{Text, codes, is_empty, text_eq}
use vfkit.Decimal.{format}
use vfkit.Config.Device.Net.{VirtioNet}

pub data Resource : Type 0 where
  socket_file : Text → Resource
  descriptor : ℕ → Resource

abbrev pub Resources : Type 0
Resources = List Resource

unfoldable pub same : Resource → Resource → Bool
unfolding text_eq
same (socket_file s) (socket_file t) = text_eq s t
same (descriptor a) (descriptor b) = a == b
same _ _ = false

unfoldable pub has : Resource → Resources → Bool
unfolding same
has r [] = false
has r (x ∷ xs) = same r x || has r xs

-- `os.Remove` of a socket, and `Close` of a descriptor
unfoldable pub drop : Resource → Resources → Resources
unfolding same
drop r [] = []
drop r (x ∷ xs) = let rest = drop r xs in if same r x then rest else x ∷ rest

-- `VirtioNet`
pub record NetDevice : Type 0 where
  pub config : VirtioNet
  pub local_addr : Option Text

-- What `net.DialUnix` does: it binds the local socket, which makes its file, and connects it.
pub data Dialed : Type 0 where
  not_bound : Error → Dialed
  refused : Error → Dialed
  connected : ℕ → Dialed

-- The system calls of a connection. `local_path` joins the directory of a path and a name made of
-- the process number and a random one.
pub record Calls : Type 0 where
  pub local_path : Text → Text
  pub open_file : Text → Result (Unit {0})
  pub dial : Text → Text → Dialed
  pub syscall_conn : Result (Unit {0})
  pub control : Result (Unit {0})
  pub write : Text → Result (Unit {0})
  pub file : Result ℕ
  pub close : Result (Unit {0})

-- `maxUnixgramPathLen`
abbrev pub max_unixgram_path_len : ℕ
max_unixgram_path_len = 104

module _ (calls : Calls) where
  -- The file that is made is removed again.
  unfoldable pub local_unix_socket_path : Text → Result Text
  local_unix_socket_path path = do
    calls.open_file (calls.local_path path)
    ok (calls.local_path path)

  unfoldable pub checked_path : Text → Result Text
  unfolding local_unix_socket_path
  checked_path path = do
    local ← local_unix_socket_path path
    fail_if (leb max_unixgram_path_len (length local)) (
        errorf "unixgram path '%s' is too long: %d >= %d bytes"
          (local ∷ format (length local) ∷ format max_unixgram_path_len ∷ []))
    ok local

  -- The use of the connection, up to its duplicate. The errors of the socket options are lost.
  unfoldable pub duplicate : Bool → Result ℕ
  unfolding codes
  duplicate vfkit_magic = do
    calls.syscall_conn
    calls.control
    if vfkit_magic then calls.write (codes "VFKT") else ok tt
    calls.file

  abbrev pub attached : NetDevice → Text → ℕ → NetDevice
  attached dev local fd = record {
    config = record dev.config { socket = some fd; unix_socket_path = [] };
    local_addr = some local;
  }

  -- The connection is closed on each way out.
  abbrev pub close_conn :
      NetDevice → Text → ℕ → Resources → Result (Unit {0}) → Resources × Result NetDevice
  close_conn dev local fd host (err e) = (host, err e)
  close_conn dev local fd host (ok _) = (host, ok (attached dev local fd))

  abbrev pub use_conn : NetDevice → Text → ℕ → Resources → Result ℕ → Resources × Result NetDevice
  use_conn dev local fd host (err e) = (drop (descriptor fd) host, err e)
  use_conn dev local fd host (ok dup) =
      close_conn dev local dup (drop (descriptor fd) (descriptor dup ∷ host)) calls.close

  abbrev pub use_dialed : NetDevice → Text → Resources → Dialed → Resources × Result NetDevice
  use_dialed dev local host (not_bound e) = (host, err e)
  use_dialed dev local host (refused e) = (socket_file local ∷ host, err e)
  use_dialed dev local host (connected fd) =
      use_conn dev local fd (descriptor fd ∷ socket_file local ∷ host)
        (duplicate dev.config.vfkit_magic)

  abbrev pub connect_from : NetDevice → Resources → Result Text → Resources × Result NetDevice
  connect_from dev host (err e) = (host, err e)
  connect_from dev host (ok local) =
      use_dialed dev local host (calls.dial local dev.config.unix_socket_path)

  unfoldable pub connect_unix_path : NetDevice → Resources → Resources × Result NetDevice
  unfolding checked_path duplicate drop
  connect_unix_path dev host = connect_from dev host (checked_path dev.config.unix_socket_path)

abbrev pub remove_local : Option Text → Resources → Resources
remove_local none host = host
remove_local (some local) host = drop (socket_file local) host

abbrev pub close_socket : Option ℕ → Resources → Resources
close_socket none host = host
close_socket (some fd) host = drop (descriptor fd) host

-- `Shutdown`; errors are only logged.
unfoldable pub shutdown : NetDevice → Resources → Resources
unfolding drop
shutdown dev host = close_socket dev.config.socket (remove_local dev.local_addr host)

-- The registered handlers, in their order.
abbrev pub register_exit_handler : List NetDevice → NetDevice → List NetDevice
register_exit_handler handlers handler = handlers ++ handler ∷ []

unfoldable pub execute_exit_handlers : List NetDevice → Resources → Resources
unfolding shutdown
execute_exit_handlers [] host = host
execute_exit_handlers (handler ∷ handlers) host =
    execute_exit_handlers handlers (shutdown handler host)

pub record NetState : Type 0 where
  pub host : Resources
  pub handlers : List NetDevice

-- `AddToVirtualMachineConfig`, up to the native device, which may fail behind the registration.
module _ (calls : Calls) (to_vz : NetDevice → Result (Unit {0})) where
  abbrev pub connected_or_not : NetDevice → Resources → Resources × Result NetDevice
  connected_or_not dev host =
      if is_empty dev.config.unix_socket_path
      then (host, ok dev)
      else connect_unix_path calls dev host

  abbrev pub register : List NetDevice → Resources × Result NetDevice → NetState × Result (Unit {0})
  register handlers (host, err e) = (record { host = host; handlers = handlers }, err e)
  register handlers (host, ok dev) =
      (record { host = host; handlers = register_exit_handler handlers dev }, to_vz dev)

  unfoldable pub add_net : NetDevice → NetState → NetState × Result (Unit {0})
  unfolding connect_unix_path
  add_net dev st = register st.handlers (connected_or_not dev st.host)

  abbrev next_net :
      NetState × Result (Unit {0})
      → (NetState → NetState × Result (Unit {0}))
      → NetState × Result (Unit {0})
  next_net (st, err e) continue = (st, err e)
  next_net (st, ok _) continue = continue st

  -- The network devices of a machine, up to the first error.
  unfoldable pub add_nets : List NetDevice → NetState → NetState × Result (Unit {0})
  unfolding add_net
  add_nets [] st = (st, ok tt)
  add_nets (dev ∷ devs) st = next_net (add_net dev st) (add_nets devs)
