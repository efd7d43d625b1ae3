-- ===== src/Config/TimeSync/Laws.antt =====
-- Time synchronisation on the command line.
use vfkit.Base.{ℕ, ◌<◌, ◌^◌, [], ◌∷◌, ◌++◌, ◌≡◌, arith, ok, ==_eq-false}
use vfkit.Text.{Text, codes, comma, join}
use vfkit.Text.Split.{Lacks, split-Lacks}
use vfkit.Decimal.{format}
use vfkit.Decimal.RoundTrip.{format-Lacks, parse_digits-format}
use vfkit.Config.Options.{strv_to_options}
use vfkit.Config.TimeSync.{TimeSync, to_cmd_line, from_options, timesync_from_cmd_line}

timesync-read :
    (port : ℕ)
    → 0 < port
    → port < 2 ^ 32
    → from_options
        (record { vsock_port = 0 })
        (strv_to_options ((codes "vsockPort=" ++ format port) ∷ []))
      ≡ ok (record { vsock_port = port })
unfolding from_options strv_to_options codes
timesync-read port h k =
    rw (parse_digits-format "ParseUint" (format port) 32 port k, ==_eq-false port 0 (omega arith))

value_part : (port : ℕ) → Lacks comma (codes "vsockPort=" ++ format port)
unfolding codes
value_part port = ground (arith, format-Lacks comma port (omega arith))

-- A port from 1 to 2 ^ 32 - 1 is written as `--timesync` and one value, which is read back.
pub timesync_round_trip :
    (ts : TimeSync)
    → 0 < ts.vsock_port
    → ts.vsock_port < 2 ^ 32
    → (s : Text) × (to_cmd_line ts ≡ ok (codes "--timesync" ∷ s ∷ []))
      × (timesync_from_cmd_line s ≡ ok ts)
timesync_round_trip ts h k = (
  codes "vsockPort=" ++ format ts.vsock_port,
  unfold to_cmd_line join in rw (==_eq-false ts.vsock_port 0 (omega arith)),
  unfold timesync_from_cmd_line in
      rw (split-Lacks comma (codes "vsockPort=" ++ format ts.vsock_port) (value_part ts.vsock_port))
        (timesync-read ts.vsock_port h k),
)
