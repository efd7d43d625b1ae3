-- ===== src/Tests/Rest.antt =====
-- The service: a parser of URIs that reads what `unix://` and `tcp://` stand before, and a machine
-- that counts its operations and cannot pause.
use vfkit.Base.{
  suc, ℕ, ◌==◌, true, false, some, none, [], ◌∷◌, ◌++◌, ◌≡◌, refl, arith, ok, err, errorf, Result,
}
use vfkit.Text.{Text, codes}
use vfkit.Rest.{Url, tcp, unix, Endpoint, new_endpoint, to_cmd_line, VzVirtualMachine, set_vm_state}
use vfkit.Rest.Endpoints.{
  IsUsable, IsName, IsUriParser, new_endpoint-IsUsable, unix_round_trip, tcp_round_trip,
}
use vfkit.Rest.States.{Answers, set_vm_state-Answers}

abbrev behind_colon : Text → Text
behind_colon [] = []
behind_colon (c ∷ s) = elim (c == b':') [ true ↦ s | false ↦ behind_colon s ]

abbrev without_slash : Text → Text
without_slash [] = []
without_slash (_ ∷ s) = s

abbrev parser : Text → Result Url
parser (c ∷ _ ∷ _ ∷ _ ∷ _ ∷ _ ∷ s) = elim (c == b'u') [
  | true ↦ ok (record { scheme = codes "unix"; host = []; port = []; path = without_slash s })
  | false ↦ ok (record { scheme = codes "tcp"; host = s; port = behind_colon s; path = [] })
]
parser s = err (errorf "parse %q: invalid URI for request" (s ∷ []))

behind_colon-name : (name port : Text) → IsName name → behind_colon (name ++ b':' ∷ port) ≡ port
behind_colon-name [] port h = refl
behind_colon-name (c ∷ name) port (h, t) = let rest = behind_colon-name name port t in ground arith

parser-IsUriParser : IsUriParser parser
unfolding codes
parser-IsUriParser = record {
  reads_unix = λ path plain. refl;
  reads_tcp = λ name port is_name named is_port ported. rw (behind_colon-name name port is_name);
}

abbrev socket : Endpoint
socket = record { host = []; path = codes "/run/vfkit.sock"; scheme = unix }

socket_made : new_endpoint parser (codes "unix:///run/vfkit.sock") ≡ ok socket
unfolding codes new_endpoint
socket_made = refl

new_endpoint-IsUsable_example : IsUsable unix [] (codes "/run/vfkit.sock")
new_endpoint-IsUsable_example =
    new_endpoint-IsUsable parser (codes "unix:///run/vfkit.sock") socket socket_made

unix_round_trip_example :
    (uri : Text) × (to_cmd_line (record { host = []; path = b'/' ∷ b's' ∷ []; scheme = unix })
      ≡ ok (codes "--restful-uri" ∷ uri ∷ []))
    × (new_endpoint parser uri ≡ ok (record { host = []; path = b'/' ∷ b's' ∷ []; scheme = unix }))
unix_round_trip_example =
    unix_round_trip parser parser-IsUriParser (b's' ∷ []) (omega arith) (omega arith)

tcp_round_trip_example :
    (uri : Text) × (to_cmd_line (record { host = b'h' ∷ b':' ∷ b'8' ∷ []; path = []; scheme = tcp })
      ≡ ok (codes "--restful-uri" ∷ uri ∷ []))
    × (new_endpoint parser uri
        ≡ ok (record { host = b'h' ∷ b':' ∷ b'8' ∷ []; path = []; scheme = tcp }))
tcp_round_trip_example =
    tcp_round_trip parser parser-IsUriParser b'h' [] (b'8' ∷ []) (omega arith) (omega arith) (cc)

abbrev counter : VzVirtualMachine ℕ
counter = record {
  pause = λ n. (n, some (errorf "cannot pause" []));
  resume = λ n. (suc n, none);
  request_stop = λ n. (suc n, (true, none));
  stop = λ n. (suc n, none);
}

set_vm_state-Answers_example :
    Answers counter (ok (codes "Stop")) 4 (set_vm_state counter (ok (codes "Stop")) 4)
set_vm_state-Answers_example = set_vm_state-Answers counter (ok (codes "Stop")) 4

pause_fails :
    set_vm_state counter (ok (codes "Pause")) 4
    ≡ (4, record { status = 500; error = some (errorf "cannot pause" []) })
unfolding codes set_vm_state
pause_fails = refl
