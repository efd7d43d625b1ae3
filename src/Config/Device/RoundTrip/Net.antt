-- ===== src/Config/Device/RoundTrip/Net.antt =====
-- `VirtioNet`.
use vfkit.Base.{
  ℕ, ◌<◌, ◌^◌, Bool, true, false, not, ◌&&◌, Option, some, none, List, [], ◌∷◌, ◌++◌, ◌≡◌, ◌⊎◌, inl,
  inr, refl, arith, ok, All, All-append, append-nil, append_assoc, ltb, ◌-◌,
}
use vfkit.Text.{Text, codes, join, comma, is_empty}
use vfkit.Decimal.{format}
use vfkit.Decimal.RoundTrip.{format-Lacks, parse_signed-format}
use vfkit.Mac.{mac_string}
use vfkit.Mac.RoundTrip.{IsMac, parse_mac-mac_string, mac_string-Lacks}
use vfkit.Config.Options.{strv_to_options}
use vfkit.Config.Device.{virtio_net, to_cmd_line, from_options, new_device}
use vfkit.Config.Device.Disk.{FileHeader}
use vfkit.Config.Device.Net.{VirtioNet, validate, attachment}
use vfkit.Config.Device.Net
use vfkit.Config.Device.RoundTrip.Parts.{IsPart, ReadsAs, ReadsAs-parts}

abbrev FdFits : Option ℕ → Type 0
FdFits none = Unit
FdFits (some fd) = fd < 2 ^ 31

pub record IsNet (d : VirtioNet) : Type 0 where
  pub valid : Net.validate d ≡ ok tt
  pub path_part : IsPart d.unix_socket_path
  pub mac_is : (d.mac_address ≡ []) ⊎ IsMac d.mac_address
  pub fd_fits : FdFits d.socket

-- The magic packet is only an attribute of a unix socket.
abbrev pub net_canonical : VirtioNet → VirtioNet
net_canonical d = record d { vfkit_magic = d.vfkit_magic && not (is_empty d.unix_socket_path) }

abbrev mac_opts : Text → List Text
mac_opts [] = []
mac_opts (b ∷ bs) = (codes "mac=" ++ mac_string (b ∷ bs)) ∷ []

abbrev magic_opts : Bool → Text → List Text
magic_opts true path = (codes "unixSocketPath=" ++ path) ∷ []
magic_opts false path =
    codes "type=unixgram" ∷ (codes "path=" ++ path) ∷ codes "vfkitMagic=off" ∷ []

abbrev attachment_opts : Bool → Option ℕ → Text → Bool → List Text
attachment_opts true socket path magic = codes "nat" ∷ []
attachment_opts false (some fd) path magic = (codes "fd=" ++ format fd) ∷ []
attachment_opts false none path magic = magic_opts magic path

abbrev net_opts : VirtioNet → List Text
net_opts d =
    attachment_opts d.nat d.socket d.unix_socket_path d.vfkit_magic ++ mac_opts d.mac_address

-- The four forms of a valid device: by its fields but the MAC address.
data Shape : Bool → Option ℕ → Text → Type 0 where
  by_nat : Shape true none []
  by_fd : (fd : ℕ) → Shape false (some fd) []
  by_path : (c : ℕ) (path : Text) → Shape false none (c ∷ path)

shape :
    (nat : Bool) (mac : Text) (socket : Option ℕ) (path : Text) (magic : Bool)
    → let d : VirtioNet = record {
      nat = nat;
      mac_address = mac;
      socket = socket;
      unix_socket_path = path;
      vfkit_magic = magic;
    } in
      Net.validate d ≡ ok tt → Shape nat socket path
unfolding Net.validate
shape true mac none [] magic v = by_nat
shape true mac none (c ∷ p) magic v = cc
shape true mac (some fd) path magic v = cc
shape false mac none [] magic v = cc
shape false mac none (c ∷ p) magic v = by_path c p
shape false mac (some fd) [] magic v = by_fd fd
shape false mac (some fd) (c ∷ p) magic v = cc

net-written :
    (nat : Bool) (mac : Text) (socket : Option ℕ) (path : Text) (magic : Bool)
    → Shape nat socket path
    → let d : VirtioNet = record {
      nat = nat;
      mac_address = mac;
      socket = socket;
      unix_socket_path = path;
      vfkit_magic = magic;
    } in
      Net.to_cmd_line d
      ≡ ok (codes "--device" ∷ join (comma ∷ []) (codes "virtio-net" ∷ net_opts d) ∷ [])
unfolding Net.to_cmd_line codes join
net-written _ [] _ _ magic by_nat = refl
net-written _ [] _ _ magic (by_fd fd) = simp append-nil
net-written _ [] _ _ true (by_path c path) = simp append-nil
net-written _ [] _ _ false (by_path c path) = simp append-nil
net-written _ (b ∷ bs) _ _ magic by_nat = refl
net-written _ (b ∷ bs) _ _ magic (by_fd fd) = refl
net-written _ (b ∷ bs) _ _ true (by_path c path) = refl
net-written _ (b ∷ bs) _ _ false (by_path c path) = simp append_assoc

in_range : (fd : ℕ) → fd < 2 ^ 31 → ltb (2 ^ 31 - 1) fd ≡ false
in_range fd h = ground arith

net-read :
    (nat : Bool) (mac : Text) (socket : Option ℕ) (path : Text) (magic : Bool)
    → Shape nat socket path
    → (mac ≡ []) ⊎ IsMac mac
    → FdFits socket
    → let d : VirtioNet = record {
      nat = nat;
      mac_address = mac;
      socket = socket;
      unix_socket_path = path;
      vfkit_magic = magic;
    } in
      Net.from_options Net.empty (strv_to_options (net_opts d)) ≡ ok (net_canonical d)
unfolding Net.from_options codes strv_to_options
net-read _ [] _ _ true by_nat m f = refl
net-read _ [] _ _ false by_nat m f = refl
net-read _ [] _ _ true (by_fd fd) m f =
    rw (parse_signed-format "Atoi" 64 fd (omega arith) (omega arith), in_range fd f)
net-read _ [] _ _ false (by_fd fd) m f =
    rw (parse_signed-format "Atoi" 64 fd (omega arith) (omega arith), in_range fd f)
net-read _ [] _ _ true (by_path c path) m f = refl
net-read _ [] _ _ false (by_path c path) m f = refl
net-read _ (b ∷ bs) _ _ magic by_nat (inl e) f = cc
net-read _ (b ∷ bs) _ _ magic (by_fd fd) (inl e) f = cc
net-read _ (b ∷ bs) _ _ magic (by_path c path) (inl e) f = cc
net-read _ (b ∷ bs) _ _ true by_nat (inr m) f = rw (parse_mac-mac_string (b ∷ bs) m)
net-read _ (b ∷ bs) _ _ false by_nat (inr m) f = rw (parse_mac-mac_string (b ∷ bs) m)
net-read _ (b ∷ bs) _ _ true (by_fd fd) (inr m) f = rw (
  parse_signed-format "Atoi" 64 fd (omega arith) (omega arith),
  in_range fd f,
  parse_mac-mac_string (b ∷ bs) m,
)
net-read _ (b ∷ bs) _ _ false (by_fd fd) (inr m) f = rw (
  parse_signed-format "Atoi" 64 fd (omega arith) (omega arith),
  in_range fd f,
  parse_mac-mac_string (b ∷ bs) m,
)
net-read _ (b ∷ bs) _ _ true (by_path c path) (inr m) f = rw (parse_mac-mac_string (b ∷ bs) m)
net-read _ (b ∷ bs) _ _ false (by_path c path) (inr m) f = rw (parse_mac-mac_string (b ∷ bs) m)

mac_opts-IsPart : (mac : Text) → (mac ≡ []) ⊎ IsMac mac → All IsPart (mac_opts mac)
unfolding codes
mac_opts-IsPart [] m = tt
mac_opts-IsPart (b ∷ bs) (inl e) = cc
mac_opts-IsPart (b ∷ bs) (inr m) = ground (arith, mac_string-Lacks (b ∷ bs) m.0)

attachment_opts-IsPart :
    (nat : Bool) (socket : Option ℕ) (path : Text) (magic : Bool)
    → IsPart path
    → All IsPart (attachment_opts nat socket path magic)
unfolding codes
attachment_opts-IsPart true socket path magic h = ground arith
attachment_opts-IsPart false (some fd) path magic h =
    ground (arith, format-Lacks comma fd (omega arith))
attachment_opts-IsPart false none path true h = ground arith
attachment_opts-IsPart false none path false h = ground arith

module _ (file : Text → FileHeader) where
  pub net-ReadsAs :
      (d : VirtioNet) → IsNet d → ReadsAs file (virtio_net d) (virtio_net (net_canonical d))
  unfolding to_cmd_line new_device from_options
  net-ReadsAs d v =
      let s = shape d.nat d.mac_address d.socket d.unix_socket_path d.vfkit_magic v.valid in
      ReadsAs-parts file (virtio_net d) (virtio_net (net_canonical d)) (codes "virtio-net")
        (net_opts d)
        (
          unfold codes in omega arith,
          All-append IsPart _ (mac_opts d.mac_address)
              (attachment_opts-IsPart d.nat d.socket d.unix_socket_path d.vfkit_magic v.path_part)
              (mac_opts-IsPart d.mac_address v.mac_is),
        )
        (net-written d.nat d.mac_address d.socket d.unix_socket_path d.vfkit_magic s)
        (rw (
          net-read d.nat d.mac_address d.socket d.unix_socket_path d.vfkit_magic s v.mac_is
            v.fd_fits))
