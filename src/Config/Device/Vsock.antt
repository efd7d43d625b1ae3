-- ===== src/Config/Device/Vsock.antt =====
-- `VirtioVsock` of pkg/config/virtio.go. A port is a uint32.
use vfkit.Base.{
  ℕ, ◌-◌, ◌^◌, Bool, true, false, ◌||◌, List, [], ◌∷◌, ◌++◌, ◌==◌, ltb, if◌then◌else◌, errorf,
  Result, ok, err, ◌>>=◌, for_each,
}
use vfkit.Text.{Text, codes, is, is_empty}
use vfkit.Decimal.{format, parse_uint}
use vfkit.Config.Options.{CmdOption}

pub record VirtioVsock : Type 0 where
  pub port : ℕ
  pub socket_url : Text
  pub listen : Bool

abbrev pub empty : VirtioVsock
empty = record { port = 0; socket_url = []; listen = false }

-- `VirtioVsockNew`; `port` is a Go `uint` of 64 bits
unfoldable pub vsock_new : ℕ → Text → Bool → Result VirtioVsock
vsock_new port socket_url listen =
    if ltb (2 ^ 32 - 1) port
    then err (errorf "invalid vsock port: %d" (format port ∷ []))
    else ok (record { port = port; socket_url = socket_url; listen = listen })

unfoldable pub to_cmd_line : VirtioVsock → Result (List Text)
to_cmd_line dev =
    if dev.port == 0 || is_empty dev.socket_url
    then err (errorf "virtio-vsock needs both a port and a socket URL" [])
    else ok (
        codes "--device"
        ∷ (codes "virtio-vsock,port="
            ++ (format dev.port
                ++ (codes ",socketURL="
                    ++ (dev.socket_url
                        ++ (if dev.listen then codes ",listen" else codes ",connect")))))
        ∷ [])

unfoldable pub set_option : VirtioVsock → CmdOption → Result VirtioVsock
unfolding is
set_option dev option =
    if is option.key "socketURL"
    then ok (record dev { socket_url = option.value })
    else if is option.key "port"
    then (do port ← parse_uint 32 option.value; ok (record dev { port = port }))
    else if is option.key "listen"
    then ok (record dev { listen = true })
    else if is option.key "connect"
    then ok (record dev { listen = false })
    else err (errorf "unknown option for virtio-vsock devices: %s" (option.key ∷ []))

unfoldable pub from_options : VirtioVsock → List CmdOption → Result VirtioVsock
unfolding for_each set_option
from_options dev options = for_each set_option (record dev { listen = true }) options
