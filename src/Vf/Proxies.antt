-- ===== src/Vf/Proxies.antt =====
-- pkg/vf/vsock.go: the proxies between a host socket and a vsock port. The proxy library calls the
-- two functions of a proxy with the addresses of its route; `url.Parse` is a parameter.
use vfkit.Base.{
  ℕ, ◌<◌, ◌^◌, Bool, true, List, [], ◌∷◌, ◌++◌, ◌≡◌, refl, ap, ◌∙◌, if◌then◌else◌, length, Error,
  errorf, Result, ok, err, ◌>>=◌, arith,
}
use vfkit.Text.{Text, codes, is}
use vfkit.Decimal.{format, parse_uint, parse_digits}
use vfkit.Decimal.RoundTrip.{parse_digits-format}
use vfkit.Config.Device.Vsock.{VirtioVsock}
use vfkit.Config.Machine.{VirtualMachine}
use vfkit.Vf.{Framework, VmConfiguration, to_vz}
use vfkit.Vf.Counts.{to_vz-Counts, needs_vsock}

-- What the proxies read of a `url.URL`.
pub record ProxyUrl : Type 0 where
  pub scheme : Text
  pub port : Text
  pub path : Text
  pub escaped_path : Text

-- What the two functions of a proxy call: a listener on a unix socket or on a vsock port of the one
-- vsock device, or a connection to one of them.
pub data Endpoint : Type 0 where
  unix_socket : Text → Endpoint
  vsock_port : ℕ → Endpoint

pub record Route : Type 0 where
  pub listen_on : Text
  pub dial_to : Text

abbrev pub too_many : ℕ → Error
too_many n = errorf "VM has too many/not enough virtio-vsock devices (%d)" (format n ∷ [])

abbrev pub unexpected : Text → Error
unexpected scheme = errorf "unexpected scheme '%s'" (scheme ∷ [])

-- `ConnectVsockSync`, and `Listen` in `listenVsock`: only with exactly one vsock device.
unfoldable pub on_only_device : {Native : Type 0} → List Native → ℕ → Result Endpoint
on_only_device (device ∷ []) port = ok (vsock_port port)
on_only_device devices port = err (too_many (length devices))

-- The routes of `connectVsock` and `listenVsock`.
abbrev pub connect_route : ℕ → Text → Route
connect_route port path = record {
  listen_on = codes "unix://:" ++ path;
  dial_to = codes "vsock:" ++ format port;
}

abbrev pub listen_route : ℕ → Text → Route
listen_route port path = record {
  listen_on = codes "vsock://:" ++ format port;
  dial_to = codes "unix:" ++ path;
}

-- `ExposeVsock`
abbrev pub route : VirtioVsock → Route
route dev =
    if dev.listen
    then listen_route dev.port dev.socket_url
    else connect_route dev.port dev.socket_url

module _ (parse : Text → Result ProxyUrl) where
  -- `ListenFunc` and `DialContext` of `connectVsock`
  unfoldable pub connect_listen : Text → Result Endpoint
  unfolding is
  connect_listen laddr = do
    parsed ← parse laddr
    if is parsed.scheme "unix"
        then ok (unix_socket parsed.escaped_path)
        else err (unexpected parsed.scheme)

  unfoldable pub connect_dial : {Native : Type 0} → List Native → ℕ → Text → Result Endpoint
  unfolding is on_only_device
  connect_dial devices port addr = do
    parsed ← parse addr
    if is parsed.scheme "vsock" then on_only_device devices port else err (unexpected parsed.scheme)

  -- `ListenFunc` and `DialContext` of `listenVsock`
  unfoldable pub listen_listen : {Native : Type 0} → List Native → Text → Result Endpoint
  unfolding is on_only_device parse_digits
  listen_listen devices laddr = do
    parsed ← parse laddr
    if is parsed.scheme "vsock"
        then (do port ← parse_uint 32 parsed.port; on_only_device devices port)
        else err (unexpected parsed.scheme)

  unfoldable pub listen_dial : Text → Result Endpoint
  unfolding is
  listen_dial addr = do
    parsed ← parse addr
    if is parsed.scheme "unix" then ok (unix_socket parsed.path) else err (unexpected parsed.scheme)

-- What the parser makes of the routes of a device.
pub record Parses (parse : Text → Result ProxyUrl) (port : ℕ) (path : Text) : Type 0 where
  pub unix_listen : ProxyUrl
  pub unix_dial : ProxyUrl
  pub vsock_listen : ProxyUrl
  pub vsock_dial : ProxyUrl
  pub unix_listen_is : parse (codes "unix://:" ++ path) ≡ ok unix_listen
  pub unix_dial_is : parse (codes "unix:" ++ path) ≡ ok unix_dial
  pub vsock_listen_is : parse (codes "vsock://:" ++ format port) ≡ ok vsock_listen
  pub vsock_dial_is : parse (codes "vsock:" ++ format port) ≡ ok vsock_dial
  pub unix_schemes : (unix_listen.scheme ≡ codes "unix") × (unix_dial.scheme ≡ codes "unix")
  pub vsock_schemes : (vsock_listen.scheme ≡ codes "vsock") × (vsock_dial.scheme ≡ codes "vsock")
  pub port_is : vsock_listen.port ≡ format port
  pub path_is : unix_dial.path ≡ path

only_device :
    {Native : Type 0} (devices : List Native) (port : ℕ)
    → length devices ≡ 1
    → on_only_device devices port ≡ ok (vsock_port port)
unfolding on_only_device
only_device [] port e = ground arith
only_device (d ∷ []) port e = refl
only_device (d ∷ d' ∷ ds) port e = ground arith

-- In a machine that is made with a vsock device, a port and a path whose routes are parsed are
-- connected by both proxies: one goes from the port to the path, the other from the path, which is
-- escaped there, to the port.
pub proxy-ends :
    {Native : Type 0} (fw : Framework Native) (parse : Text → Result ProxyUrl) (vm : VirtualMachine)
    (made : VmConfiguration Native × VirtualMachine) (port : ℕ) (path : Text)
    (p : Parses parse port path)
    → to_vz fw vm ≡ ok made
    → needs_vsock vm ≡ true
    → port < 2 ^ 32
    → (listen_listen parse made.0.sockets (listen_route port path).listen_on ≡ ok (vsock_port port))
      × (listen_dial parse (listen_route port path).dial_to ≡ ok (unix_socket path))
      × (connect_listen parse (connect_route port path).listen_on
          ≡ ok (unix_socket p.unix_listen.escaped_path))
      × (connect_dial parse made.0.sockets port (connect_route port path).dial_to
          ≡ ok (vsock_port port))
unfolding listen_listen listen_dial connect_listen connect_dial is
proxy-ends fw parse vm made port path p h needs small =
    let one : length made.0.sockets ≡ 1 =
      (to_vz-Counts fw vm made h).1 ∙ ap (λ (b : Bool). if b then 1 else 0) needs in
    (
      rw
          (
            p.vsock_listen_is,
            p.vsock_schemes.0,
            p.port_is,
            parse_digits-format "ParseUint" (format port) 32 port small,
          )
          (only_device made.0.sockets port one),
      rw (p.unix_dial_is, p.unix_schemes.1, p.path_is),
      rw (p.unix_listen_is, p.unix_schemes.0),
      rw (p.vsock_dial_is, p.vsock_schemes.1) (only_device made.0.sockets port one),
    )
