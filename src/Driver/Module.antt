-- ===== src/Driver/Module.antt =====
-- ubq_driver_init and ubq_driver_exit of driver.c.
use usbq_core.Action.{Act, ret, ◌▷◌}
use usbq_core.Driver.Dispatch.{ubq_disable_device, ubq_enable_device}
use usbq_core.Driver.State.{DriverState}
use usbq_core.Endpoint.{Kernel}
use usbq_core.Part.{call, on_heap}
use usbq_core.Prelude.{Bool, [], enomem, false, if◌then◌else◌, is_nonzero, pos, true, ℤ}

module _ {W : Type 0} (k : Kernel W) where
  unfoldable pub open_driver : Bool → Act (DriverState W) ℤ
  open_driver false = ret enomem
  open_driver true = ubq_enable_device k ▷ λ err.
      if is_nonzero err
      then on_heap (λ h. (tt {0}, record h { world = k.com_close h.world })) ▷ (λ _. ret err)
      else ret (pos 0)

  unfoldable pub ubq_driver_init : Act (DriverState W) ℤ
  ubq_driver_init s =
      (call k.com_init ▷ open_driver) (record s { own = record { init = 0 }; eplist = [] })

  unfoldable pub ubq_driver_exit : Act (DriverState W) ℤ
  ubq_driver_exit = ubq_disable_device k ▷ λ _.
      on_heap (λ h. (tt {0}, record h { world = k.com_close h.world })) ▷ λ _. ret (pos 0)
