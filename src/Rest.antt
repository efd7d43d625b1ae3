-- ===== src/Rest.antt =====
-- pkg/rest: the endpoint of the service from its URI, and the handlers of pkg/rest/vf. The parser
-- of URIs, `url.ParseRequestURI`, and the virtual machine of the framework are parameters.
pub mod Endpoints
pub mod States
use vfkit.Base.{
  ℕ, Bool, true, false, not, ◌&&◌, ◌||◌, Option, some, none, List, [], ◌∷◌, ◌++◌, if◌then◌else◌,
  ltb, Error, errorf, Result, ok, err, ◌>>=◌, ◌>>◌, fail_if, length,
}
use vfkit.Text.{Text, codes, is, is_empty}

-- What the code reads of a `url.URL`.
pub record Url : Type 0 where
  pub scheme : Text
  pub host : Text
  pub port : Text
  pub path : Text

-- `TCP`, `Unix`, `None` and `HTTP`
pub data ServiceScheme : Type 0 where
  tcp unix no_service http : ServiceScheme

pub record Endpoint : Type 0 where
  pub host : Text
  pub path : Text
  pub scheme : ServiceScheme

-- `maxSocketPathLen`: a socket address of macOS has 104 bytes for the path and its end.
abbrev pub max_socket_path_len : ℕ
max_socket_path_len = 103

unfoldable pub to_rest_scheme : Text → Result ServiceScheme
unfolding is
to_rest_scheme s =
    if is s "none"
    then ok no_service
    else if is s "unix"
    then ok unix
    else if is s "tcp" || is s "http"
    then ok tcp
    else err (errorf "invalid scheme %s" (s ∷ []))

abbrev is_tcp : ServiceScheme → Bool
is_tcp tcp = true
is_tcp _ = false

abbrev is_unix : ServiceScheme → Bool
is_unix unix = true
is_unix _ = false

-- The checks of `parseRestfulURI` behind the scheme.
unfoldable pub check_uri : ServiceScheme → Url → Result (Unit {0})
check_uri scheme uri = do
  fail_if (is_tcp scheme && is_empty uri.host) (errorf "invalid TCP uri: missing host" [])
  fail_if (is_tcp scheme && not (is_empty uri.path))
      (errorf "invalid TCP uri: path is forbidden" [])
  fail_if (is_tcp scheme && is_empty uri.port) (errorf "invalid TCP uri: missing port" [])
  fail_if (is_unix scheme && is_empty uri.path) (errorf "invalid unix uri: missing path" [])
  fail_if (is_unix scheme && not (is_empty uri.host))
      (errorf "invalid unix uri: host is forbidden" [])
  fail_if (is_unix scheme && ltb max_socket_path_len (length uri.path))
      (errorf "invalid unix uri: socket path length exceeds macOS limits" [])
  ok tt

module _ (parse_request_uri : Text → Result Url) where
  unfoldable pub parse_restful_uri : Text → Result Url
  unfolding to_rest_scheme check_uri
  parse_restful_uri input = do
    uri ← parse_request_uri input
    scheme ← to_rest_scheme uri.scheme
    check_uri scheme uri
    ok uri

  unfoldable pub new_endpoint : Text → Result Endpoint
  unfolding parse_restful_uri to_rest_scheme
  new_endpoint input = do
    uri ← parse_restful_uri input
    scheme ← to_rest_scheme uri.scheme
    ok (record { host = uri.host; path = uri.path; scheme = scheme })

unfoldable pub uri_of : Endpoint → ServiceScheme → Result (List Text)
uri_of ep unix = ok (codes "--restful-uri" ∷ (codes "unix://" ++ ep.path) ∷ [])
uri_of ep tcp = ok (codes "--restful-uri" ∷ (codes "tcp://" ++ (ep.host ++ ep.path)) ∷ [])
uri_of ep no_service = ok []
uri_of ep http = err (errorf "invalid endpoint scheme" [])

-- `ToCmdLine`
unfoldable pub to_cmd_line : Endpoint → Result (List Text)
unfolding uri_of
to_cmd_line ep = uri_of ep ep.scheme

-- What the handlers call of the virtual machine, with the state of the framework and of the guest.
pub record VzVirtualMachine {ℓ} (State : Type ℓ) : Type ℓ where
  pub pause : State → State × Option Error
  pub resume : State → State × Option Error
  pub request_stop : State → State × (Bool × Option Error)
  pub stop : State → State × Option Error

-- What `SetVMState` answers.
pub record Response : Type 0 where
  pub status : ℕ
  pub error : Option Error

abbrev pub accepted : Response
accepted = record { status = 202; error = none }

abbrev pub answer : Option Error → Response
answer none = accepted
answer (some e) = record { status = 500; error = some e }

-- `_, response = vm.RequestStop()`
abbrev pub without_flag {ℓ} :
    {State : Type ℓ} → State × (Bool × Option Error) → State × Option Error
without_flag (s, (_, e)) = (s, e)

module _ {ℓ} {State : Type ℓ} (vm : VzVirtualMachine State) where
  unfoldable pub change_state : Text → State → State × Option Error
  unfolding is
  change_state new_state s =
      if is new_state "Pause"
      then vm.pause s
      else if is new_state "Resume"
      then vm.resume s
      else if is new_state "Stop"
      then without_flag (vm.request_stop s)
      else if is new_state "HardStop"
      then vm.stop s
      else (s, some (errorf "invalid new VMState: %s" (new_state ∷ [])))

  -- `SetVMState`, where the body of the request is bound to a state, or fails to be.
  unfoldable pub set_vm_state : Result Text → State → State × Response
  unfolding change_state
  set_vm_state (err e) s = (s, record { status = 400; error = some e })
  set_vm_state (ok new_state) s = let (t, e) = change_state new_state s in (t, answer e)
