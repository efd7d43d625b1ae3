-- ===== src/Marshal/RoundTrip/Devices.antt =====
-- The list of devices.
use vfkit.Base.{
  ◌≡◌, refl, sym, ap, ◌∙◌, List, [], ◌∷◌, ◌++◌, ok, ◌>>=◌, All, append_assoc, append-nil,
}
use vfkit.Config.Device.{VirtioDevice, rosetta}
use vfkit.Json.{Json, Fields, array, object, to_elements, elements-to_elements}
use vfkit.Marshal.Devices.{
  with_kind, marshal_device, marshal_blk, marshal_fs, marshal_rosetta, marshal_net, marshal_serial,
  marshal_vsock, marshal_input, marshal_gpu, marshal_nbd,
}
use vfkit.Marshal.ReadDevices.{unmarshal_device, unmarshal_devices, unmarshal_each}
use vfkit.Marshal.Machine.{marshal_devices}
use vfkit.Marshal.RoundTrip.{IsWritable, json_canonical, device-ReadsBack}

abbrev pub json_devices : List VirtioDevice → List VirtioDevice
json_devices [] = []
json_devices (d ∷ ds) = json_canonical d ∷ json_devices ds

marshal_device-object : (d : VirtioDevice) → (fs : Fields) × (marshal_device d ≡ object fs)
unfolding marshal_device marshal_blk marshal_fs marshal_rosetta marshal_net marshal_serial
    marshal_vsock marshal_input marshal_gpu marshal_nbd with_kind
marshal_device-object (rosetta d) = (_, refl)
marshal_device-object _ = (_, refl)

unmarshal_each-object :
    (acc : List VirtioDevice) (raw : Json) (fs : Fields) (rest : List Json)
    → raw ≡ object fs
    → unmarshal_each acc (raw ∷ rest)
      ≡ (unmarshal_device raw >>= λ d. unmarshal_each (acc ++ d ∷ []) rest)
unfolding unmarshal_each
unmarshal_each-object acc (object l) fs rest e = refl
unmarshal_each-object acc _ fs rest e = cc

-- The readable part of a list of messages.
pub unmarshal_each-readable :
    (acc ds : List VirtioDevice) (rest : List Json)
    → All IsWritable ds
    → unmarshal_each acc (marshal_devices ds ++ rest) ≡ unmarshal_each (acc ++ json_devices ds) rest
unfolding marshal_devices
unmarshal_each-readable acc [] rest h = ap (λ l. unmarshal_each l rest) (sym (append-nil acc))
unmarshal_each-readable acc (d ∷ ds) rest (h, t) =
    let (fs, is_object) = marshal_device-object d in
    unmarshal_each-object acc (marshal_device d) fs (marshal_devices ds ++ rest) is_object
    ∙ (ap (λ r. r >>= λ v. unmarshal_each (acc ++ v ∷ []) (marshal_devices ds ++ rest))
          (device-ReadsBack d h)
        ∙ (unmarshal_each-readable (acc ++ json_canonical d ∷ []) ds rest t
            ∙ ap (λ l. unmarshal_each l rest)
                (append_assoc acc (json_canonical d ∷ []) (json_devices ds))))

pub unmarshal_devices-marshal_devices :
    (ds : List VirtioDevice)
    → All IsWritable ds
    → unmarshal_devices (array (to_elements (marshal_devices ds))) ≡ ok (json_devices ds)
unfolding unmarshal_devices
unmarshal_devices-marshal_devices ds h =
    ap (unmarshal_each []) (elements-to_elements (marshal_devices ds))
    ∙ (ap (unmarshal_each []) (sym (append-nil (marshal_devices ds)))
        ∙ (unmarshal_each-readable [] ds [] h ∙ unfold unmarshal_each in refl))
