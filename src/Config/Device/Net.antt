-- ===== src/Config/Device/Net.antt =====
-- `VirtioNet` of pkg/config/virtio.go. The socket is known by its file descriptor, and a MAC
-- address that is nil is the empty one.
use vfkit.Base.{
  ℕ, ◌-◌, ◌^◌, Bool, true, false, not, ◌&&◌, ◌||◌, Option, none, some, List, [], ◌∷◌, ◌++◌,
  if◌then◌else◌, errorf, Result, ok, err, ◌>>=◌, ◌>>◌, fail_if, for_each,
}
use vfkit.Base.Int.{ℤ, pos, negsuc, gtb_pos}
use vfkit.Text.{Text, codes, is, is_empty}
use vfkit.Decimal.{format, format_int, atoi}
use vfkit.Mac.{parse_mac, mac_string}
use vfkit.Config.Options.{CmdOption}

pub record VirtioNet : Type 0 where
  pub nat : Bool
  pub mac_address : Text
  pub socket : Option ℕ
  pub unix_socket_path : Text
  pub vfkit_magic : Bool

abbrev pub empty : VirtioNet
empty = record {
  nat = false;
  mac_address = [];
  socket = none;
  unix_socket_path = [];
  vfkit_magic = false;
}

abbrev pub is_set : Option ℕ → Bool
is_set none = false
is_set (some _) = true

-- `VirtioNetNew`
unfoldable pub net_new : Text → Result VirtioNet
net_new mac = do
  a ← if is_empty mac then ok [] else parse_mac mac
  ok (record empty { nat = true; mac_address = a })

unfoldable pub set_socket : VirtioNet → ℕ → VirtioNet
set_socket dev file = record dev { socket = some file; nat = false }

unfoldable pub set_unix_socket_path : VirtioNet → Text → VirtioNet
set_unix_socket_path dev path = record dev {
  unix_socket_path = path;
  nat = false;
  vfkit_magic = true;
}

unfoldable pub validate : VirtioNet → Result (Unit {0})
validate dev = do
  fail_if (dev.nat && is_set dev.socket) (errorf "'nat' and 'fd' cannot be set at the same time" [])
  fail_if (dev.nat && not (is_empty dev.unix_socket_path))
      (errorf "'nat' and 'unixSocketPath' cannot be set at the same time" [])
  fail_if (is_set dev.socket && not (is_empty dev.unix_socket_path))
      (errorf "'fd' and 'unixSocketPath' cannot be set at the same time" [])
  fail_if (not dev.nat && not (is_set dev.socket) && is_empty dev.unix_socket_path)
      (errorf "one of 'nat' or 'fd' or 'unixSocketPath' must be set" [])
  ok tt

-- `dev.Socket.Fd()`, which is that of an invalid file for a nil socket
abbrev fd_text : Option ℕ → Text
fd_text none = format (2 ^ 64 - 1)
fd_text (some fd) = format fd

-- The attachment in the text of `ToCmdLine`.
unfoldable pub attachment : VirtioNet → Text
attachment dev =
    if dev.nat
    then codes ",nat"
    else if not (is_empty dev.unix_socket_path)
    then (if dev.vfkit_magic
        then codes ",unixSocketPath=" ++ dev.unix_socket_path
        else codes ",type=unixgram,path=" ++ (dev.unix_socket_path ++ codes ",vfkitMagic=off"))
    else codes ",fd=" ++ fd_text dev.socket

abbrev mac_part : Text → Text
mac_part [] = []
mac_part (b ∷ bs) = codes ",mac=" ++ mac_string (b ∷ bs)

unfoldable pub to_cmd_line : VirtioNet → Result (List Text)
unfolding validate attachment
to_cmd_line dev = do
  validate dev
  ok (codes "--device" ∷ (codes "virtio-net" ++ (attachment dev ++ mac_part dev.mac_address)) ∷ [])

-- `slices.ContainsFunc(options, …)` for `path` and `unixSocketPath`
unfoldable pub has_path : List CmdOption → Bool
unfolding is
has_path [] = false
has_path (o ∷ os) = (is o.key "path" || is o.key "unixSocketPath") || has_path os

-- `FromOptions` and its local variables; `type_only_options` are the keys that need `type`.
pub record NetParse : Type 0 where
  pub dev : VirtioNet
  pub has_type : Bool
  pub type_only_options : List Text

-- The checks on a file descriptor.
unfoldable pub checked_fd : ℤ → Result ℕ
checked_fd (negsuc n) = err (errorf "invalid file descriptor: %d" (format_int (negsuc n) ∷ []))
checked_fd (pos n) =
    if gtb_pos (pos n) (2 ^ 31 - 1)
    then err (errorf "invalid file descriptor: %d" (format_int (pos n) ∷ []))
    else ok n

unfoldable pub set_option : NetParse → CmdOption → Result NetParse
unfolding is checked_fd
set_option p option =
    if is option.key "nat"
    then (if not (is_empty option.value)
        then err (errorf "unexpected value for virtio-net 'nat' option: %s" (option.value ∷ []))
        else ok (record p { dev = record p.dev { nat = true } }))
    else if is option.key "mac"
    then (do a ← parse_mac option.value; ok (record p { dev = record p.dev { mac_address = a } }))
    else if is option.key "fd"
    then (do
      fd ← atoi option.value
      n ← checked_fd fd
      ok (record p { dev = record p.dev { socket = some n } }))
    else if is option.key "unixSocketPath"
    then ok (record p { dev = record p.dev { unix_socket_path = option.value } })
    else if is option.key "type"
    then (if not (is option.value "unixgram")
        then err (
            errorf "unsupported virtio-net type: %s (only 'unixgram' is supported)"
              (option.value ∷ []))
        else ok (record p { has_type = true }))
    else if is option.key "path"
    then ok (record p {
      dev = record p.dev { unix_socket_path = option.value };
      type_only_options = p.type_only_options ++ option.key ∷ [];
    })
    else if is option.key "vfkitMagic"
    then (if not (is option.value "on") && not (is option.value "off")
        then err (errorf "invalid value for vfkitMagic: %s (expected on/off)" (option.value ∷ []))
        else ok (record p { dev = record p.dev { vfkit_magic = is option.value "on" } }))
    else if is option.key "offloading"
    then (if not (is option.value "off")
        then err (
            errorf "invalid value for offloading: %s (only 'off' is supported)" (option.value ∷ []))
        else ok (record p { type_only_options = p.type_only_options ++ option.key ∷ [] }))
    else err (errorf "unknown option for virtio-net devices: %s" (option.key ∷ []))

-- The checks between `type` and the options that need it.
unfoldable pub check_type : NetParse → List Text → Result (Unit {0})
check_type p [] =
    fail_if (p.has_type && is_empty p.dev.unix_socket_path)
      (errorf "'type' option requires 'path' to be specified" [])
check_type p (key ∷ _) = do
  fail_if (p.has_type && is_empty p.dev.unix_socket_path)
      (errorf "'type' option requires 'path' to be specified" [])
  fail_if (not p.has_type) (errorf "'%s' option requires 'type' to be specified" (key ∷ []))

unfoldable pub from_options : VirtioNet → List CmdOption → Result VirtioNet
unfolding for_each set_option check_type validate has_path
from_options dev options = do
  p ←
      for_each set_option
        (record {
          dev = if has_path options then record dev { vfkit_magic = true } else dev;
          has_type = false;
          type_only_options = [];
        })
        options
  check_type p p.type_only_options
  validate p.dev
  ok p.dev
