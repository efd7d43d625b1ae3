-- ===== src/Config/Device/Serial.antt =====
-- `VirtioSerial` of pkg/config/virtio.go.
use vfkit.Base.{
  Bool, true, false, not, ◌&&◌, List, [], ◌∷◌, ◌++◌, if◌then◌else◌, errorf, Result, ok, err, ◌>>=◌,
  ◌>>◌, fail_if, for_each,
}
use vfkit.Text.{Text, codes, is, is_empty}
use vfkit.Config.Options.{CmdOption}

pub record VirtioSerial : Type 0 where
  pub log_file : Text
  pub uses_stdio : Bool
  pub uses_pty : Bool
  pub pty_name : Text

abbrev pub empty : VirtioSerial
empty = record { log_file = []; uses_stdio = false; uses_pty = false; pty_name = [] }

-- `VirtioSerialNew`, `VirtioSerialNewStdio` and `VirtioSerialNewPty`
abbrev pub serial_new : Text → VirtioSerial
serial_new log_file_path = record empty { log_file = log_file_path }

abbrev pub serial_new_stdio : VirtioSerial
serial_new_stdio = record empty { uses_stdio = true }

abbrev pub serial_new_pty : VirtioSerial
serial_new_pty = record empty { uses_pty = true }

unfoldable pub validate : VirtioSerial → Result (Unit {0})
validate dev = do
  fail_if (not (is_empty dev.log_file) && dev.uses_stdio)
      (errorf "'logFilePath' and 'stdio' cannot be set at the same time" [])
  fail_if (not (is_empty dev.log_file) && dev.uses_pty)
      (errorf "'logFilePath' and 'pty' cannot be set at the same time" [])
  fail_if (dev.uses_stdio && dev.uses_pty)
      (errorf "'stdio' and 'pty' cannot be set at the same time" [])
  fail_if (is_empty dev.log_file && not dev.uses_stdio && not dev.uses_pty)
      (errorf "one of 'logFilePath', 'stdio' or 'pty' must be set" [])
  ok tt

unfoldable pub to_cmd_line : VirtioSerial → Result (List Text)
unfolding validate
to_cmd_line dev = do
  validate dev
  ok (
      if dev.uses_stdio
      then codes "--device" ∷ codes "virtio-serial,stdio" ∷ []
      else if dev.uses_pty
      then codes "--device" ∷ codes "virtio-serial,pty" ∷ []
      else codes "--device" ∷ (codes "virtio-serial,logFilePath=" ++ dev.log_file) ∷ [])

-- The body of the loop of `FromOptions`.
unfoldable pub set_option : VirtioSerial → CmdOption → Result VirtioSerial
unfolding is
set_option dev option =
    if is option.key "logFilePath"
    then ok (record dev { log_file = option.value })
    else if is option.key "stdio"
    then (if not (is_empty option.value)
        then err
            (errorf "unexpected value for virtio-serial 'stdio' option: %s" (option.value ∷ []))
        else ok (record dev { uses_stdio = true }))
    else if is option.key "pty"
    then ok (record dev { uses_pty = true })
    else err (errorf "unknown option for virtio-serial devices: %s" (option.key ∷ []))

unfoldable pub from_options : VirtioSerial → List CmdOption → Result VirtioSerial
unfolding for_each set_option validate
from_options dev options = do dev' ← for_each set_option dev options; validate dev'; ok dev'
