-- ===== src/Tests/Network.antt =====
-- A network device with a unix socket, from its connection to the exit handlers, the proxies of a
-- vsock device, and the notifications of a host that wakes up.
use vfkit.Base.{true, false, none, List, [], ◌∷◌, ◌≡◌, refl, ok, err, errorf, Error, Result}
use vfkit.Text.{codes}
use vfkit.Network.{
  Resource, socket_file, descriptor, has, NetDevice, Calls, connected, refused, checked_path,
  execute_exit_handlers, add_net, add_nets, NetState, connect_unix_path,
}
use vfkit.Network.Shutdown.{add_nets-shutdown}
use vfkit.Network.Failed.{Failed, add_net-Failed}
use vfkit.Base.Int.{pos}
use vfkit.GuestTime.{
  Guest, Activity, other, awake, watch, first_awake, Expected, watch-Expected, sync_guest_time,
  good_response, command,
}

abbrev calls : Calls
calls = record {
  local_path = λ path. codes "/run/vfkit-1-2.sock";
  open_file = λ path. ok tt;
  dial = λ local remote. connected 7;
  syscall_conn = ok tt;
  control = ok tt;
  write = λ text. ok tt;
  file = ok 8;
  close = ok tt;
}

abbrev device : NetDevice
device = record {
  config = record {
    nat = false;
    mac_address = [];
    socket = none;
    unix_socket_path = codes "/run/net.sock";
    vfkit_magic = true;
  };
  local_addr = none;
}

abbrev added : (List Resource × List NetDevice) × Result (Unit {0})
added =
    let r = add_nets calls (λ d. ok tt) (device ∷ []) (record { host = []; handlers = [] }) in
    ((r.0.host, r.0.handlers), r.1)

-- The socket and its duplicate are there.
connection : added.0.0 ≡ descriptor 8 ∷ socket_file (codes "/run/vfkit-1-2.sock") ∷ []
unfolding add_nets codes
connection = refl

abbrev old : Resource
old = socket_file (codes "/run/other.sock")

add_nets-shutdown_example : has old (old ∷ []) ≡ true
add_nets-shutdown_example =
    add_nets-shutdown calls (λ d. ok tt) (device ∷ []) (old ∷ []) (unfold add_nets codes in refl)
      old (unfold add_nets codes has execute_exit_handlers in refl)

abbrev no_server : Error
no_server = errorf "connection refused" []

abbrev refusing : Calls
refusing = record calls { dial = λ local remote. refused no_server }

-- An earlier device stays registered, and the socket of the refused one stays on the host.
add_net-Failed_example :
    let st : NetState = record { host = old ∷ []; handlers = device ∷ [] } in
    let r = add_net refusing (λ d. ok tt) device st in
    (r.1 ≡ err no_server)
    × (r.0.handlers ≡ device ∷ [])
    × Failed refusing device (old ∷ []) r.0.host
add_net-Failed_example =
    add_net-Failed refusing (λ d. ok tt) device (record { host = old ∷ []; handlers = device ∷ [] })
      (socket_file (codes "/run/vfkit-1-2.sock") ∷ old ∷ []) no_server (unfold codes in refl)
      (unfold connect_unix_path checked_path codes in refl)

abbrev silent : Guest
silent = record { now = pos 1; write = λ text. err no_server; read_line = ok [] }

abbrev answering : Guest
answering = record { now = pos 2; write = λ text. ok tt; read_line = ok good_response }

abbrev activities : List Activity
activities = other ∷ awake (ok 5) silent ∷ other ∷ awake (ok 6) answering ∷ []

watch-Expected_example : Expected activities (first_awake activities) (watch none activities)
watch-Expected_example = watch-Expected activities

-- The message goes over the first connection, although the first write failed.
one_connection : (watch none activities).messages ≡ (5, command (pos 2)) ∷ []
unfolding watch
one_connection = refl

answered : (sync_guest_time answering).1 ≡ ok tt
unfolding sync_guest_time
answered = refl
