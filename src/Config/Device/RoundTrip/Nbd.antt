-- ===== src/Config/Device/RoundTrip/Nbd.antt =====
-- `NetworkBlockDevice`: each group of its options is written and read by itself.
use vfkit.Config.Device.RoundTrip.NbdWritten.{
  uri_opts, id_opts, timeout_opts, sync_opts, is_mode, nbd_opts, device, nbd-written,
}
use vfkit.Base.{
  zero, suc, ◌<◌, ◌^◌, Bool, true, false, List, [], ◌∷◌, ◌≡◌, ◌≢◌, refl, arith, ok, All, All-append,
  if◌then◌else◌, sym, subst, Bool-cases, inl, inr, for_each, for_each-append,
}
use vfkit.Base.Int.{ℤ, pos, negsuc}
use vfkit.Text.{Text, codes, comma, is, text_eq_iff}
use vfkit.Decimal.RoundTrip.{format-Lacks, parse_signed-format}
use vfkit.Config.Options.{strv_to_options, CmdOption}
use vfkit.Config.Options.Laws.{strv_to_options-append}
use vfkit.Config.Device.{nbd, to_cmd_line, from_options, new_device}
use vfkit.Config.Device.Disk.{FileHeader}
use vfkit.Config.Device.Nbd.{
  NetworkBlockDevice, NetworkBlockStorageConfig, NbdParse, to_milliseconds, milliseconds,
  extra_parts, set_option, storage_from_options, new_empty,
}
use vfkit.Config.Device.Nbd
use vfkit.Config.Device.RoundTrip.Parts.{IsPart, ReadsAs, ReadsAs-parts}

-- The timeout that is read where `ms` milliseconds are written, if any.
abbrev pub read_timeout : ℤ → ℤ
read_timeout (pos (suc k)) = milliseconds (pos (suc k))
read_timeout _ = new_empty.timeout

abbrev pub read_mode : Text → Text
read_mode mode = if is_mode mode then mode else codes "full"

abbrev parsed : Text → ℤ → Text → List CmdOption → NbdParse
parsed id timeout mode unhandled = record {
  nbd = record new_empty { device_identifier = id; timeout = timeout; synchronization_mode = mode };
  unhandled = unhandled;
}

uri-read :
    (uri : Text) (ro : Bool)
    → for_each set_option
        (parsed [] new_empty.timeout (codes "full") [])
        (strv_to_options (uri_opts uri ro))
      ≡ ok (parsed [] new_empty.timeout (codes "full") (strv_to_options (uri_opts uri ro)))
unfolding for_each set_option strv_to_options codes
uri-read uri true = refl
uri-read uri false = refl

id-read :
    (id : Text) (u : List CmdOption)
    → for_each set_option
        (parsed [] new_empty.timeout (codes "full") u)
        (strv_to_options (id_opts id))
      ≡ ok (parsed id new_empty.timeout (codes "full") u)
unfolding for_each set_option strv_to_options codes
id-read [] u = refl
id-read (c ∷ id) u = refl

abbrev TimeoutFits : ℤ → Type 0
TimeoutFits (pos n) = n < 2 ^ 31
TimeoutFits (negsuc n) = Unit

timeout-read :
    (id : Text) (ms : ℤ) (u : List CmdOption)
    → TimeoutFits ms
    → for_each set_option
        (parsed id new_empty.timeout (codes "full") u)
        (strv_to_options (timeout_opts ms))
      ≡ ok (parsed id (read_timeout ms) (codes "full") u)
unfolding for_each set_option strv_to_options codes
timeout-read id (pos zero) u h = refl
timeout-read id (pos (suc k)) u h = rw (parse_signed-format "ParseInt" 32 (suc k) h (omega arith))
timeout-read id (negsuc k) u h = refl

is-text : (mode : Text) → is mode "full" ≡ true → mode ≡ codes "full"
unfolding is
is-text mode h = (text_eq_iff mode (codes "full")).0 h

is-text_none : (mode : Text) → is mode "none" ≡ true → mode ≡ codes "none"
unfolding is
is-text_none mode h = (text_eq_iff mode (codes "none")).0 h

sync-read :
    (id : Text) (t : ℤ) (mode : Text) (u : List CmdOption)
    → for_each set_option
        (parsed id t (codes "full") u)
        (strv_to_options (sync_opts (is_mode mode) mode))
      ≡ ok (parsed id t (read_mode mode) u)
sync-read id t mode u = elim (Bool-cases (is mode "none")) [
  | inl h ↦
      subst
        (λ m.
          for_each set_option (parsed id t (codes "full") u)
            (strv_to_options (sync_opts (is_mode m) m))
          ≡ ok (parsed id t (read_mode m) u))
        (sym (is-text_none mode h)) (unfold for_each set_option strv_to_options codes in refl)
  | inr h ↦ elim (Bool-cases (is mode "full")) [
    | inl k ↦
        subst
          (λ m.
            for_each set_option (parsed id t (codes "full") u)
              (strv_to_options (sync_opts (is_mode m) m))
            ≡ ok (parsed id t (read_mode m) u))
          (sym (is-text mode k)) (unfold for_each set_option strv_to_options codes in refl)
    | inr k ↦ rw (h, k) (unfold for_each strv_to_options in refl)
  ]
]

storage-read :
    (uri : Text) (ro : Bool)
    → storage_from_options new_empty.storage (strv_to_options (uri_opts uri ro))
      ≡ ok (record { dev_name = codes "nbd"; read_only = ro; uri = uri })
unfolding storage_from_options strv_to_options codes
storage-read uri true = refl
storage-read uri false = refl

nbd-read :
    (uri : Text) (ro : Bool) (id : Text) (timeout : ℤ) (mode : Text)
    → TimeoutFits (to_milliseconds timeout)
    → Nbd.from_options new_empty (strv_to_options (nbd_opts (device uri ro id timeout mode)))
      ≡ ok (device uri ro id (read_timeout (to_milliseconds timeout)) (read_mode mode))
unfolding Nbd.from_options codes is
nbd-read uri ro id timeout mode h = simp (
  strv_to_options-append,
  Nbd.from_options,
  for_each-append,
  uri-read uri ro,
  id-read id,
  timeout-read id (to_milliseconds timeout) _ h,
  sync-read id,
  storage-read uri ro,
)

pub record IsNbd (d : NetworkBlockDevice) : Type 0 where
  pub name_is : d.storage.dev_name ≡ codes "nbd"
  pub uri_part : IsPart d.storage.uri
  pub uri_set : d.storage.uri ≢ []
  pub id_part : IsPart d.device_identifier
  pub timeout_fits : TimeoutFits (to_milliseconds d.timeout)

-- A timeout is written in whole milliseconds, and one below a millisecond is not written. A mode
-- other than `none` and `full` is not written. What is not written is read as the default.
abbrev pub nbd_canonical : NetworkBlockDevice → NetworkBlockDevice
nbd_canonical d = record d {
  timeout = read_timeout (to_milliseconds d.timeout);
  synchronization_mode = read_mode d.synchronization_mode;
}

uri_opts-IsPart : (uri : Text) (ro : Bool) → IsPart uri → All IsPart (uri_opts uri ro)
unfolding codes
uri_opts-IsPart uri true h = ground arith
uri_opts-IsPart uri false h = ground arith

id_opts-IsPart : (id : Text) → IsPart id → All IsPart (id_opts id)
unfolding codes
id_opts-IsPart [] h = tt
id_opts-IsPart (c ∷ id) h = ground arith

timeout_opts-IsPart : (ms : ℤ) → All IsPart (timeout_opts ms)
unfolding codes
timeout_opts-IsPart (pos zero) = tt
timeout_opts-IsPart (pos (suc k)) = ground (arith, format-Lacks comma (suc k) (omega arith))
timeout_opts-IsPart (negsuc k) = tt

sync_opts-IsPart : (mode : Text) → All IsPart (sync_opts (is_mode mode) mode)
sync_opts-IsPart mode = elim (Bool-cases (is mode "none")) [
  | inl h ↦
      subst (λ m. All IsPart (sync_opts (is_mode m) m)) (sym (is-text_none mode h))
        (unfold codes is in omega arith)
  | inr h ↦ elim (Bool-cases (is mode "full")) [
    | inl k ↦
        subst (λ m. All IsPart (sync_opts (is_mode m) m)) (sym (is-text mode k))
          (unfold codes is in omega arith)
    | inr k ↦ rw (h, k) tt
  ]
]

module _ (file : Text → FileHeader) where
  nbd_fields :
      (uri : Text) (ro : Bool) (id : Text) (timeout : ℤ) (mode : Text)
      → let d = device uri ro id timeout mode in
        IsNbd d → ReadsAs file (nbd d) (nbd (nbd_canonical d))
  unfolding to_cmd_line new_device from_options
  nbd_fields uri ro id timeout mode v =
      let d = device uri ro id timeout mode in
      ReadsAs-parts file (nbd d) (nbd (nbd_canonical d)) (codes "nbd") (nbd_opts d)
        (
          unfold codes in omega arith,
          All-append IsPart (uri_opts uri ro) _ (uri_opts-IsPart uri ro v.uri_part) (
              All-append IsPart (id_opts id) _ (id_opts-IsPart id v.id_part) (
                All-append IsPart (timeout_opts (to_milliseconds timeout)) _
                  (timeout_opts-IsPart (to_milliseconds timeout)) (sync_opts-IsPart mode))),
        )
        (nbd-written uri ro id timeout mode v.uri_set)
        (rw (nbd-read uri ro id timeout mode v.timeout_fits))

  pub nbd-ReadsAs :
      (d : NetworkBlockDevice) → IsNbd d → ReadsAs file (nbd d) (nbd (nbd_canonical d))
  nbd-ReadsAs d v =
      let named : Text → NetworkBlockDevice =
        λ n. record d { storage = record d.storage { dev_name = n } } in
      subst (λ n. IsNbd (named n) → ReadsAs file (nbd (named n)) (nbd (nbd_canonical (named n))))
        (sym v.name_is)
        (nbd_fields d.storage.uri d.storage.read_only d.device_identifier d.timeout
          d.synchronization_mode)
        v
