-- ===== src/Vf/Graphics.antt =====
-- GPUs: `toVz` of pkg/vf/virtio.go, with the macOS device of pkg/vf/vm_arm64.go and vm_amd64.go.
use vfkit.Base.{wrapped, Bool, [], if◌then◌else◌, errorf, Result, ok, err, ◌>>=◌}
use vfkit.Base.Int.{ℤ, pos}
use vfkit.Text.{Text, is}
use vfkit.Config.Device.Gpu.{VirtioGpu}

-- The devices, what they show on, by its size, and for macOS by its pixels per inch, and the device
-- in which that is set.
pub record GraphicsMaker (Native : Type 0) : Type 0 where
  pub is_arm64 : Bool
  pub virtio_graphics : Result Native
  pub scanout : ℤ → ℤ → Result Native
  pub macos_graphics : Result Native
  pub display : ℤ → ℤ → ℤ → Result Native
  pub with_output : Native → Native → Native

module _ {Native : Type 0} (maker : GraphicsMaker Native) where
  unfoldable pub new_virtio_graphics : VirtioGpu → Result Native
  new_virtio_graphics dev = do
    device ← wrapped "failed to initialize virtio graphics device: %w" maker.virtio_graphics
    output ← wrapped "failed to create graphics scanout: %w" (maker.scanout dev.width dev.height)
    ok (maker.with_output device output)

  unfoldable pub new_mac_graphics : VirtioGpu → Result Native
  new_mac_graphics dev =
      if maker.is_arm64
      then (do
        device ← wrapped "failed to initialize macOS graphics device: %w" maker.macos_graphics
        output ←
            wrapped "failed to create macOS graphics configuration: %w"
              (maker.display dev.width dev.height (pos 80))
        ok (maker.with_output device output))
      else err (errorf "running macOS guests is only supported on ARM devices" [])

  -- The argument is `PlatformType`.
  unfoldable pub gpu_to_vz : Text → VirtioGpu → Result Native
  unfolding is new_virtio_graphics new_mac_graphics
  gpu_to_vz platform_type dev =
      if is platform_type "macos" then new_mac_graphics dev else new_virtio_graphics dev
