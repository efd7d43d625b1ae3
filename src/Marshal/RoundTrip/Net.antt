-- ===== src/Marshal/RoundTrip/Net.antt =====
-- `VirtioNet`.
use vfkit.Base.{
  ℕ, ◌<◌, ◌≡◌, ◌≢◌, ◌⊎◌, inl, inr, refl, ap, ◌∙◌, [], ◌∷◌, ◌++◌, ok, some, none, ◌>>=◌, Bool, not,
  true, false, List, Option, All, arith, if◌then◌else◌,
}
use vfkit.Text.{Text, codes, is_empty}
use vfkit.Mac.{hex_digit, mac_string}
use vfkit.Mac.RoundTrip.{IsMac, IsByte, parse_mac-mac_string}
use vfkit.Config.Device.{virtio_net}
use vfkit.Config.Device.Net.{VirtioNet, is_set}
use vfkit.Json.{Member, boolean, object, no_field}
use vfkit.Text.Utf8.{IsUtf8, to_valid_utf8, ascii-IsUtf8}
use vfkit.Json.Members.{member, unless, text_unless_empty, flag_if_set}
use vfkit.Json.Struct.{find_field, store_member, store_members}
use vfkit.Json.ReadBack.{
  read-member, read-text_unless_empty, read-flag_if_set, read-last, last-IsForeign,
  unless-IsForeign, IsForeign,
}
use vfkit.Marshal.Devices.{marshal_net, marshal_device}
use vfkit.Marshal.Fields.{kind_fields, net_fields, NetForMarshalling, no_descriptor}
use vfkit.Marshal.ReadDevices.{unmarshal_as, unmarshal_net, unmarshal_mac, clear_magic, net_start}
use vfkit.Marshal.RoundTrip.Kind.{unmarshal-with_kind, unmarshal_device-with_kind, ReadsBack}

-- The address is nil or one that `ParseMAC` returns.
pub record IsNet (d : VirtioNet) : Type 0 where
  pub address : (d.mac_address ≡ []) ⊎ IsMac d.mac_address
  pub path_text : IsUtf8 d.unix_socket_path

abbrev read_socket : Option ℕ → Option ℕ
read_socket none = none
read_socket (some fd) = some no_descriptor

-- The magic flag is on with every unix socket, and a file has no descriptor.
abbrev pub net_canonical : VirtioNet → VirtioNet
net_canonical d = record d {
  socket = read_socket d.socket;
  vfkit_magic = not (is_empty d.unix_socket_path);
}

mac_string-ascii : (a : Text) → All IsByte a → All (λ c. c < 0x80) (mac_string a)
unfolding mac_string hex_digit
mac_string-ascii [] h = tt
mac_string-ascii (b ∷ []) (h, _) = ground arith
mac_string-ascii (b ∷ c ∷ a) (h, t) = ground (arith, mac_string-ascii (c ∷ a) t)

mac_string-ne-nil : (a : Text) → a ≢ [] → is_empty (mac_string a) ≡ false
unfolding mac_string
mac_string-ne-nil [] h = absurd (h refl)
mac_string-ne-nil (b ∷ []) h = refl
mac_string-ne-nil (b ∷ c ∷ a) h = refl

abbrev net_members : VirtioNet → List Member
net_members dev =
    member "nat" (boolean dev.nat)
      ∷ unless (not (is_set dev.socket)) (member "socket" (object no_field))
    ++ (text_unless_empty "unixSocketPath" dev.unix_socket_path
        ++ (flag_if_set "vfkitMagic" dev.vfkit_magic
            ++ text_unless_empty "macAddress" (mac_string dev.mac_address)))

abbrev at_net : Bool → Option ℕ → Text → NetForMarshalling
at_net nat socket path = record net_start {
  net = record net_start.net { nat = nat; socket = socket; unix_socket_path = path };
}

read-socket_member :
    (nat : Bool) (socket : Option ℕ) (ms : List Member)
    → store_members net_fields
        (unless (not (is_set socket)) (member "socket" (object no_field)) ++ ms)
        (at_net nat none [])
        none
      ≡ store_members net_fields ms (at_net nat (read_socket socket) []) none
unfolding unless store_member codes
read-socket_member nat none ms = refl
read-socket_member nat (some fd) ms =
    read-member net_fields (member "socket" (object no_field)) ms (at_net nat none [])
      (at_net nat (some no_descriptor) []) refl

read-net_members :
    (d : VirtioNet)
    → IsUtf8 d.unix_socket_path
    → IsUtf8 (mac_string d.mac_address)
    → store_members net_fields (net_members d) net_start none
      ≡ ok (record (at_net d.nat (read_socket d.socket) d.unix_socket_path) {
        mac_address = mac_string d.mac_address;
      })
unfolding store_member codes
read-net_members d path mac =
    let socket = read_socket d.socket in
    let start = at_net d.nat socket d.unix_socket_path in
    read-member net_fields (member "nat" (boolean d.nat)) _ net_start (at_net d.nat none []) refl
    ∙ (read-socket_member d.nat d.socket _
        ∙ (read-text_unless_empty net_fields "unixSocketPath" _ (at_net d.nat socket)
              d.unix_socket_path path (λ w. refl)
            ∙ (read-flag_if_set net_fields "vfkitMagic" _ (λ _. start) d.vfkit_magic refl
                ∙ read-last net_fields (text_unless_empty "macAddress" (mac_string d.mac_address))
                    start _
                    (read-text_unless_empty net_fields "macAddress" []
                      (λ w. record start { mac_address = w }) (mac_string d.mac_address) mac
                      (λ w. refl)))))

net_members-IsForeign : (d : VirtioNet) → IsForeign kind_fields (net_members d)
unfolding codes find_field
net_members-IsForeign d = (
  refl,
  unless-IsForeign kind_fields (not (is_set d.socket)) _ _ refl (
      unless-IsForeign kind_fields (is_empty d.unix_socket_path) _ _ refl (
        unless-IsForeign kind_fields (not d.vfkit_magic) _ _ refl
          (last-IsForeign kind_fields (is_empty (mac_string d.mac_address)) _ refl))),
)

abbrev without_mac : VirtioNet → VirtioNet
without_mac d = record d { mac_address = [] }

unmarshal_mac-mac_string :
    (net : VirtioNet) (a : Text)
    → (a ≡ []) ⊎ IsMac a
    → unmarshal_mac (without_mac net) (mac_string a) ≡ ok (record net { mac_address = a })
unfolding unmarshal_mac
unmarshal_mac-mac_string net [] h = unfold mac_string in refl
unmarshal_mac-mac_string net (b ∷ a) (inl e) = cc
unmarshal_mac-mac_string net (b ∷ a) (inr h) =
    rw (mac_string-ne-nil (b ∷ a) (λ e. cc), parse_mac-mac_string (b ∷ a) h)

IsUtf8-mac_string : (a : Text) → (a ≡ []) ⊎ IsMac a → IsUtf8 (mac_string a)
IsUtf8-mac_string [] h = ascii-IsUtf8 (mac_string []) (mac_string-ascii [] tt)
IsUtf8-mac_string (b ∷ a) (inl e) = cc
IsUtf8-mac_string (b ∷ a) (inr h) = ascii-IsUtf8 (mac_string (b ∷ a)) (mac_string-ascii (b ∷ a) h.0)

if-false-true : {A : Type 0} (b : Bool) (f : Bool → A) → (if b then f false else f true) ≡ f (not b)
if-false-true true f = refl
if-false-true false f = refl

clear_magic-on :
    (d : VirtioNet)
    → clear_magic (record d { vfkit_magic = true })
      ≡ record d { vfkit_magic = not (is_empty d.unix_socket_path) }
unfolding clear_magic
clear_magic-on d = if-false-true (is_empty d.unix_socket_path) (λ b. record d { vfkit_magic = b })

unmarshal_net-marshal_net :
    (d : VirtioNet) → IsNet d → unmarshal_net (marshal_net d) ≡ ok (net_canonical d)
unfolding unmarshal_net marshal_net
unmarshal_net-marshal_net d h =
    let start = at_net d.nat (read_socket d.socket) d.unix_socket_path in
    ap (λ r. r >>= λ dev. unmarshal_mac dev.net dev.mac_address >>= λ net. ok (clear_magic net))
      (unmarshal-with_kind net_fields "virtionet" (net_members d) net_start
        (record start { mac_address = mac_string d.mac_address })
        (unfold store_member codes in refl)
        (read-net_members d h.path_text (IsUtf8-mac_string d.mac_address h.address)))
    ∙ (ap (λ r. r >>= λ net. ok (clear_magic net))
          (unmarshal_mac-mac_string start.net d.mac_address h.address)
        ∙ ap (λ net. ok net) (clear_magic-on (record start.net { mac_address = d.mac_address })))

pub net-ReadsBack :
    (d : VirtioNet) → IsNet d → ReadsBack (virtio_net d) (virtio_net (net_canonical d))
unfolding marshal_device marshal_net to_valid_utf8 codes
net-ReadsBack d h =
    unmarshal_device-with_kind "virtionet" (net_members d) refl (net_members-IsForeign d)
    ∙ unfold unmarshal_as in ap (λ r. r >>= λ d. ok (virtio_net d)) (unmarshal_net-marshal_net d h)
