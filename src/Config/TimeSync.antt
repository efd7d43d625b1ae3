-- ===== src/Config/TimeSync.antt =====
-- `TimeSync` and `Ignition` of pkg/config/config.go.
pub mod Laws
use vfkit.Base.{
  ℕ, ◌-◌, ◌^◌, Bool, true, false, not, Option, some, none, List, [], ◌∷◌, ◌++◌, ◌==◌, ltb,
  if◌then◌else◌, errorf, Result, ok, err, ◌>>=◌, ◌>>◌, fail_if, for_each,
}
use vfkit.Text.{Text, codes, comma, is, is_empty, split, join}
use vfkit.Decimal.{format, parse_uint}
use vfkit.Config.Options.{CmdOption, strv_to_options}

pub record TimeSync : Type 0 where
  pub vsock_port : ℕ

-- `TimeSyncNew`; `port` is a Go `uint` of 64 bits
unfoldable pub timesync_new : ℕ → Result TimeSync
timesync_new port =
    if ltb (2 ^ 32 - 1) port
    then err (errorf "invalid vsock port: %d" (format port ∷ []))
    else ok (record { vsock_port = port })

unfoldable pub to_cmd_line : TimeSync → Result (List Text)
to_cmd_line ts = ok (
    codes "--timesync"
    ∷ join (comma ∷ [])
        (if not (ts.vsock_port == 0) then (codes "vsockPort=" ++ format ts.vsock_port) ∷ [] else [])
    ∷ [])

unfoldable pub set_option : TimeSync → CmdOption → Result TimeSync
unfolding is
set_option ts option =
    if is option.key "vsockPort"
    then (do port ← parse_uint 32 option.value; ok (record { vsock_port = port }))
    else err (errorf "unknown option for timesync parameter: %s" (option.key ∷ []))

unfoldable pub from_options : TimeSync → List CmdOption → Result TimeSync
unfolding for_each set_option
from_options ts options = do
  ts' ← for_each set_option ts options
  fail_if (ts'.vsock_port == 0) (errorf "missing 'vsockPort' option for timesync parameter" [])
  ok ts'

unfoldable pub timesync_from_cmd_line : Text → Result TimeSync
unfolding from_options
timesync_from_cmd_line opts =
    from_options (record { vsock_port = 0 }) (strv_to_options (split comma opts))

pub record Ignition : Type 0 where
  pub config_path : Text
  pub socket_path : Text
  pub vsock_port : ℕ

-- `ignitionVsockPort`
abbrev pub ignition_vsock_port : ℕ
ignition_vsock_port = 1024

unfoldable pub ignition_new : Text → Result Ignition
ignition_new config_path =
    if is_empty config_path
    then err (errorf "config path cannot be empty" [])
    else ok
        (record { config_path = config_path; socket_path = []; vsock_port = ignition_vsock_port })

-- The part of `AddIgnitionFileFromCmdLine` behind its test for an empty argument.
unfoldable pub ignition_from_parts : List Text → Result Ignition
unfolding ignition_new
ignition_from_parts (path ∷ []) = ignition_new path
ignition_from_parts _ = err (errorf "ignition only accepts one option in command line argument" [])
