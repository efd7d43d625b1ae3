-- ===== src/Config/Device/Nbd.antt =====
-- `NetworkBlockDevice` of pkg/config/virtio.go, with the fields of `NetworkBlockStorageConfig`.
-- A `time.Duration` is its number of nanoseconds.
use vfkit.Base.{
  ℕ, suc, ◌-◌, ◌*◌, ◌/◌, Bool, true, false, not, ◌||◌, List, [], ◌∷◌, ◌++◌, ◌==◌, if◌then◌else◌,
  errorf, Result, ok, err, ◌>>=◌, for_each,
}
use vfkit.Base.Int.{ℤ, pos, negsuc, gtb_pos}
use vfkit.Text.{Text, codes, is, is_empty}
use vfkit.Decimal.{format_int, parse_int}
use vfkit.Config.Options.{CmdOption}

pub record NetworkBlockStorageConfig : Type 0 where
  pub dev_name : Text
  pub read_only : Bool
  pub uri : Text

unfoldable pub storage_to_cmd_line : NetworkBlockStorageConfig → Result (List Text)
storage_to_cmd_line config =
    if is_empty config.uri
    then err (errorf "%s devices need the uri to a remote block device" (config.dev_name ∷ []))
    else ok (
        codes "--device"
        ∷ (config.dev_name
            ++ (codes ",uri="
                ++ (config.uri ++ (if config.read_only then codes ",readonly" else []))))
        ∷ [])

unfoldable pub set_storage_option :
    NetworkBlockStorageConfig → CmdOption → Result NetworkBlockStorageConfig
unfolding is
set_storage_option config option =
    if is option.key "uri"
    then ok (record config { uri = option.value })
    else if is option.key "readonly"
    then (if not (is_empty option.value)
        then err
            (errorf "unexpected value for virtio-blk 'readonly' option: %s" (option.value ∷ []))
        else ok (record config { read_only = true }))
    else err (errorf "unknown option for %s devices: %s" (config.dev_name ∷ option.key ∷ []))

unfoldable pub storage_from_options :
    NetworkBlockStorageConfig → List CmdOption → Result NetworkBlockStorageConfig
unfolding for_each set_storage_option
storage_from_options config options = for_each set_storage_option config options

pub record NetworkBlockDevice : Type 0 where
  pub storage : NetworkBlockStorageConfig
  pub device_identifier : Text
  pub timeout : ℤ
  pub synchronization_mode : Text

-- `time.Duration(n) * time.Millisecond`; it stays below 2 ^ 63 for the numbers of 32 bits that the
-- code multiplies.
abbrev pub milliseconds : ℤ → ℤ
milliseconds (pos n) = pos (n * 1_000_000)
milliseconds (negsuc n) = negsuc (suc n * 1_000_000 - 1)

-- `Duration.Milliseconds`, a division that rounds towards zero
abbrev pub to_milliseconds : ℤ → ℤ
to_milliseconds (pos n) = pos (n / 1_000_000)
to_milliseconds (negsuc n) = let m = suc n / 1_000_000 in if m == 0 then pos 0 else negsuc (m - 1)

-- `networkBlockDeviceNewEmpty`
abbrev pub new_empty : NetworkBlockDevice
new_empty = record {
  storage = record { dev_name = codes "nbd"; read_only = false; uri = [] };
  device_identifier = [];
  timeout = pos (15000 * 1_000_000);
  synchronization_mode = codes "full";
}

-- `NetworkBlockDeviceNew`; the timeout is a uint32, in milliseconds
abbrev pub nbd_new : Text → ℕ → Text → NetworkBlockDevice
nbd_new uri timeout synchronization = record {
  storage = record { dev_name = codes "nbd"; read_only = false; uri = uri };
  device_identifier = [];
  timeout = milliseconds (pos timeout);
  synchronization_mode = synchronization;
}

-- The parts that `ToCmdLine` adds to the value of the storage.
unfoldable pub extra_parts : NetworkBlockDevice → Text
unfolding is
extra_parts nbd =
    (if is_empty nbd.device_identifier then [] else codes ",deviceId=" ++ nbd.device_identifier)
    ++ ((if gtb_pos (to_milliseconds nbd.timeout) 0
          then codes ",timeout=" ++ format_int (to_milliseconds nbd.timeout)
          else [])
        ++ (if is nbd.synchronization_mode "none" || is nbd.synchronization_mode "full"
            then codes ",sync=" ++ nbd.synchronization_mode
            else []))

unfoldable pub append_extra : Text → List Text → Result (List Text)
append_extra extra (flag ∷ value ∷ []) = ok (flag ∷ (value ++ extra) ∷ [])
append_extra extra _ = err (errorf "unexpected storage config commandline" [])

unfoldable pub to_cmd_line : NetworkBlockDevice → Result (List Text)
unfolding storage_to_cmd_line append_extra extra_parts
to_cmd_line nbd = do
  cmd_line ← storage_to_cmd_line nbd.storage
  append_extra (extra_parts nbd) cmd_line

-- The device, and the options that it leaves to its storage.
pub record NbdParse : Type 0 where
  pub nbd : NetworkBlockDevice
  pub unhandled : List CmdOption

unfoldable pub set_option : NbdParse → CmdOption → Result NbdParse
unfolding is
set_option p option =
    if is option.key "deviceId"
    then ok (record p { nbd = record p.nbd { device_identifier = option.value } })
    else if is option.key "timeout"
    then (do
      ms ← parse_int 32 option.value
      ok (record p { nbd = record p.nbd { timeout = milliseconds ms } }))
    else if is option.key "sync"
    then (if is option.value "full"
        then ok (record p { nbd = record p.nbd { synchronization_mode = codes "full" } })
        else if is option.value "none"
        then ok (record p { nbd = record p.nbd { synchronization_mode = codes "none" } })
        else err (errorf "invalid sync mode: %s, must be 'full' or 'none'" (option.value ∷ [])))
    else ok (record p { unhandled = p.unhandled ++ option ∷ [] })

unfoldable pub from_options : NetworkBlockDevice → List CmdOption → Result NetworkBlockDevice
unfolding for_each set_option storage_from_options
from_options nbd options = do
  p ← for_each set_option (record { nbd = nbd; unhandled = [] }) options
  storage ← storage_from_options p.nbd.storage p.unhandled
  ok (record p.nbd { storage = storage })
