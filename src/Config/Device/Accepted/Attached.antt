-- ===== src/Config/Device/Accepted/Attached.antt =====
-- Network, vsock and network block devices that are accepted.
use vfkit.Base.{
  subst, ℕ, ◌<◌, ◌^◌, Bool, true, false, Option, none, some, List, [], ◌∷◌, ◌≡◌, ◌≢◌, ◌⊎◌, inl, inr,
  refl, arith, ok, for_each, for_each_inv, >>=-eq-ok, checked-eq-ok, Result-cases,
}
use vfkit.Text.{Text, codes}
use vfkit.Config.Options.{CmdOption}
use vfkit.Config.Device.Net.{VirtioNet}
use vfkit.Config.Device.Net
use vfkit.Config.Device.Vsock.{VirtioVsock}
use vfkit.Config.Device.Vsock
use vfkit.Config.Device.Nbd.{NetworkBlockDevice, NbdParse}
use vfkit.Config.Device.Nbd
use vfkit.Decimal.{parse_digits}
use vfkit.Decimal.Range.{parse_digits-bound}

-- Exactly one of NAT, a socket and the path of a unix socket.
abbrev pub OneNetwork : Bool → Option ℕ → Text → Type 0
OneNetwork nat socket path =
    ((nat ≡ true) × (socket ≡ none) × (path ≡ []))
    ⊎ (((nat ≡ false) × (fd : ℕ) × (socket ≡ some fd) × (path ≡ []))
        ⊎ ((nat ≡ false) × (socket ≡ none) × (path ≢ [])))

one_network :
    (nat : Bool) (mac : Text) (socket : Option ℕ) (path : Text) (magic : Bool)
    → Net.validate (record {
      nat = nat;
      mac_address = mac;
      socket = socket;
      unix_socket_path = path;
      vfkit_magic = magic;
    })
      ≡ ok tt
    → OneNetwork nat socket path
unfolding Net.validate
one_network true mac none [] magic h = inl (refl, refl, refl)
one_network true mac (some fd) path magic h = cc
one_network true mac none (c ∷ s) magic h = cc
one_network false mac none [] magic h = cc
one_network false mac none (c ∷ s) magic h = inr (inr (refl, refl, cc))
one_network false mac (some fd) [] magic h = inr (inl (refl, fd, refl, refl))
one_network false mac (some fd) (c ∷ s) magic h = cc

pub net_accepted :
    (d : VirtioNet) (os : List CmdOption) (r : VirtioNet)
    → Net.from_options d os ≡ ok r
    → OneNetwork r.nat r.socket r.unix_socket_path
unfolding Net.from_options
net_accepted d os r e =
    let (p, made, rest) = >>=-eq-ok (for_each Net.set_option _ os) _ e in
    let (u, typed, rest') = >>=-eq-ok (Net.check_type p p.type_only_options) _ rest in
    one_network r.nat r.mac_address r.socket r.unix_socket_path r.vfkit_magic
      (checked-eq-ok (ok p.dev) Net.validate rest').1

vsock_step :
    (d : VirtioVsock) (o : CmdOption) (r : VirtioVsock)
    → d.port < 2 ^ 32
    → Vsock.set_option d o ≡ ok r
    → r.port < 2 ^ 32
unfolding Vsock.set_option
vsock_step d o r h e = elim (Result-cases (parse_digits "ParseUint" o.value 32 o.value)) [
  | inl (n, q) ↦ let bound = parse_digits-bound "ParseUint" o.value 32 o.value n q in ground arith
  | inr (x, q) ↦ ground arith
]

pub vsock_accepted :
    (d : VirtioVsock) (os : List CmdOption) (r : VirtioVsock)
    → d.port < 2 ^ 32
    → Vsock.from_options d os ≡ ok r
    → r.port < 2 ^ 32
unfolding Vsock.from_options
vsock_accepted d os r h e =
    for_each_inv (λ (v : VirtioVsock). v.port < 2 ^ 32) Vsock.set_option vsock_step
      (record d { listen = true }) os r h e

-- `full` or `none`
abbrev pub IsSyncMode : Text → Type 0
IsSyncMode m = (m ≡ codes "full") ⊎ (m ≡ codes "none")

nbd_step :
    (p : NbdParse) (o : CmdOption) (q : NbdParse)
    → IsSyncMode p.nbd.synchronization_mode
    → Nbd.set_option p o ≡ ok q
    → IsSyncMode q.nbd.synchronization_mode
unfolding Nbd.set_option
nbd_step p o q h e = ground arith

pub nbd_accepted :
    (d : NetworkBlockDevice) (os : List CmdOption) (r : NetworkBlockDevice)
    → IsSyncMode d.synchronization_mode
    → Nbd.from_options d os ≡ ok r
    → IsSyncMode r.synchronization_mode
unfolding Nbd.from_options
nbd_accepted d os r h e =
    let (p, made, rest) =
      >>=-eq-ok (for_each Nbd.set_option (record { nbd = d; unhandled = [] }) os) _ e in
    let (storage, _, same) =
      >>=-eq-ok (Nbd.storage_from_options p.nbd.storage p.unhandled) _ rest in
    let keeps =
      for_each_inv (λ (v : NbdParse). IsSyncMode v.nbd.synchronization_mode) Nbd.set_option nbd_step
        (record { nbd = d; unhandled = [] }) os p h made in
    let mode_is : p.nbd.synchronization_mode ≡ r.synchronization_mode = cc in
    subst IsSyncMode mode_is keeps
