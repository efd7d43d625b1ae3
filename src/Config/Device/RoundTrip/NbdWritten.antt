-- ===== src/Config/Device/RoundTrip/NbdWritten.antt =====
-- What `ToCmdLine` writes for a network block device.
use vfkit.Base.{
  zero, suc, Bool, true, false, ◌||◌, List, [], ◌∷◌, ◌++◌, ◌≡◌, ◌≢◌, refl, arith, ok, append-nil,
  ltb-eq-true, if◌then◌else◌,
}
use vfkit.Base.Int.{ℤ, pos, negsuc, gtb_pos}
use vfkit.Text.{Text, codes, join, comma, is, is_empty}
use vfkit.Text.Join.{behind, join-behind, behind-append}
use vfkit.Decimal.{format, format_int}
use vfkit.Config.Device.Nbd.{
  NetworkBlockDevice, NetworkBlockStorageConfig, NbdParse, to_milliseconds, milliseconds,
  extra_parts, set_option, storage_from_options, new_empty,
}
use vfkit.Config.Device.Nbd

abbrev pub sep : Text
sep = comma ∷ []

abbrev pub uri_opts : Text → Bool → List Text
uri_opts uri true = (codes "uri=" ++ uri) ∷ codes "readonly" ∷ []
uri_opts uri false = (codes "uri=" ++ uri) ∷ []

abbrev pub id_opts : Text → List Text
id_opts [] = []
id_opts (c ∷ id) = (codes "deviceId=" ++ c ∷ id) ∷ []

-- by the number of milliseconds
abbrev pub timeout_opts : ℤ → List Text
timeout_opts (pos (suc k)) = (codes "timeout=" ++ format (suc k)) ∷ []
timeout_opts _ = []

abbrev pub sync_opts : Bool → Text → List Text
sync_opts true mode = (codes "sync=" ++ mode) ∷ []
sync_opts false mode = []

abbrev pub is_mode : Text → Bool
is_mode mode = is mode "none" || is mode "full"

abbrev pub nbd_opts : NetworkBlockDevice → List Text
nbd_opts d =
    uri_opts d.storage.uri d.storage.read_only
    ++ (id_opts d.device_identifier
        ++ (timeout_opts (to_milliseconds d.timeout)
            ++ sync_opts (is_mode d.synchronization_mode) d.synchronization_mode))

pub uri-written :
    (uri : Text) (ro : Bool)
    → uri ≢ []
    → Nbd.storage_to_cmd_line (record { dev_name = codes "nbd"; read_only = ro; uri = uri })
      ≡ ok (codes "--device" ∷ (codes "nbd" ++ behind sep (uri_opts uri ro)) ∷ [])
unfolding Nbd.storage_to_cmd_line codes behind
uri-written [] ro ne = absurd (ne refl)
uri-written (c ∷ uri) true ne = refl
uri-written (c ∷ uri) false ne = refl

pub id-written :
    (id : Text) → (if is_empty id then [] else codes ",deviceId=" ++ id) ≡ behind sep (id_opts id)
unfolding codes behind
id-written [] = refl
id-written (c ∷ id) = rw append-nil

pub timeout-written :
    (ms : ℤ)
    → (if gtb_pos ms 0 then codes ",timeout=" ++ format_int ms else [])
      ≡ behind sep (timeout_opts ms)
unfolding codes behind format_int
timeout-written (pos zero) = refl
timeout-written (pos (suc k)) = rw (ltb-eq-true 0 (suc k) (omega arith), append-nil)
timeout-written (negsuc k) = refl

pub sync-written :
    (b : Bool) (mode : Text)
    → (if b then codes ",sync=" ++ mode else []) ≡ behind sep (sync_opts b mode)
unfolding codes behind
sync-written true mode = rw append-nil
sync-written false mode = refl

pub extra-written :
    (d : NetworkBlockDevice)
    → extra_parts d
      ≡ behind sep (
          id_opts d.device_identifier
          ++ (timeout_opts (to_milliseconds d.timeout)
              ++ sync_opts (is_mode d.synchronization_mode) d.synchronization_mode))
unfolding extra_parts
extra-written d = rw (
  id-written d.device_identifier,
  timeout-written (to_milliseconds d.timeout),
  sync-written (is_mode d.synchronization_mode) d.synchronization_mode,
  behind-append,
  behind-append,
)

abbrev pub device : Text → Bool → Text → ℤ → Text → NetworkBlockDevice
device uri ro id timeout mode = record {
  storage = record { dev_name = codes "nbd"; read_only = ro; uri = uri };
  device_identifier = id;
  timeout = timeout;
  synchronization_mode = mode;
}

pub nbd-written :
    (uri : Text) (ro : Bool) (id : Text) (timeout : ℤ) (mode : Text)
    → uri ≢ []
    → let d = device uri ro id timeout mode in
      Nbd.to_cmd_line d ≡ ok (codes "--device" ∷ join sep (codes "nbd" ∷ nbd_opts d) ∷ [])
unfolding Nbd.to_cmd_line
nbd-written uri ro id timeout mode ne = rw (
  uri-written uri ro ne,
  extra-written (device uri ro id timeout mode),
  join-behind sep (codes "nbd") (nbd_opts (device uri ro id timeout mode)),
  behind-append sep (uri_opts uri ro) _,
)
