-- ===== src/Config/Device/RoundTrip/Vsock.antt =====
-- `VirtioVsock`.
use vfkit.Base.{
  ℕ, ◌<◌, ◌^◌, Bool, true, false, [], ◌∷◌, ◌++◌, ◌≡◌, ◌≢◌, refl, arith, ok, List, ==_eq-false, All,
}
use vfkit.Text.{Text, codes, join, comma}
use vfkit.Decimal.{format}
use vfkit.Decimal.RoundTrip.{format-Lacks, parse_digits-format}
use vfkit.Config.Options.{strv_to_options}
use vfkit.Config.Device.{virtio_vsock, to_cmd_line, from_options, new_device}
use vfkit.Config.Device.Disk.{FileHeader}
use vfkit.Config.Device.Vsock.{VirtioVsock}
use vfkit.Config.Device.Vsock
use vfkit.Config.Device.RoundTrip.Parts.{IsPart, ReadsAs, ReadsAs-parts}

pub record IsVsock (d : VirtioVsock) : Type 0 where
  pub port_set : 0 < d.port
  pub port_fits : d.port < 2 ^ 32
  pub url_part : IsPart d.socket_url
  pub url_set : d.socket_url ≢ []

abbrev direction : Bool → Text
direction true = codes "listen"
direction false = codes "connect"

abbrev vsock_opts : ℕ → Text → Bool → List Text
vsock_opts port url listen =
    (codes "port=" ++ format port) ∷ (codes "socketURL=" ++ url) ∷ direction listen ∷ []

vsock-written :
    (port : ℕ) (url : Text) (listen : Bool)
    → 0 < port
    → url ≢ []
    → Vsock.to_cmd_line (record { port = port; socket_url = url; listen = listen })
      ≡ ok (
          codes "--device"
          ∷ join (comma ∷ []) (codes "virtio-vsock" ∷ vsock_opts port url listen)
          ∷ [])
unfolding Vsock.to_cmd_line codes join
vsock-written port [] listen h ne = absurd (ne refl)
vsock-written port (c ∷ url) true h ne = rw (==_eq-false port 0 (omega arith))
vsock-written port (c ∷ url) false h ne = rw (==_eq-false port 0 (omega arith))

vsock-read :
    (port : ℕ) (url : Text) (listen : Bool)
    → port < 2 ^ 32
    → Vsock.from_options Vsock.empty (strv_to_options (vsock_opts port url listen))
      ≡ ok (record { port = port; socket_url = url; listen = listen })
unfolding Vsock.from_options codes strv_to_options
vsock-read port url true h = rw (parse_digits-format "ParseUint" (format port) 32 port h)
vsock-read port url false h = rw (parse_digits-format "ParseUint" (format port) 32 port h)

vsock_opts-IsPart :
    (port : ℕ) (url : Text) (listen : Bool) → IsPart url → All IsPart (vsock_opts port url listen)
unfolding codes
vsock_opts-IsPart port url true h = ground (arith, format-Lacks comma port (omega arith))
vsock_opts-IsPart port url false h = ground (arith, format-Lacks comma port (omega arith))

module _ (file : Text → FileHeader) where
  pub vsock-ReadsAs : (d : VirtioVsock) → IsVsock d → ReadsAs file (virtio_vsock d) (virtio_vsock d)
  unfolding to_cmd_line new_device from_options
  vsock-ReadsAs d v =
      ReadsAs-parts file (virtio_vsock d) (virtio_vsock d) (codes "virtio-vsock")
        (vsock_opts d.port d.socket_url d.listen)
        (unfold codes in omega arith, vsock_opts-IsPart d.port d.socket_url d.listen v.url_part)
        (vsock-written d.port d.socket_url d.listen v.port_set v.url_set)
        (rw (vsock-read d.port d.socket_url d.listen v.port_fits))
