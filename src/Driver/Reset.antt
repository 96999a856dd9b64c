-- ===== src/Driver/Reset.antt =====
-- The RESET message of userland in driver.c.
use usbq_core.Action.{Ok, ret, ▷-Ok}
use usbq_core.Driver.Dispatch.{
  driver_recv_userland, driver_recv_userland_management, ubq_disable_device,
}
use usbq_core.Driver.Dispatching.{ubq_disable_device-empty}
use usbq_core.Driver.State.{DriverState}
use usbq_core.Endpoint.{Kernel}
use usbq_core.Msg.{Msg, is_management_msg, is_reset_mng_msg, is_usb_msg}
use usbq_core.Part.Accounts.{Gives}
use usbq_core.Part.Cleanup.{objects}
use usbq_core.Prelude.{[], arith, error_or_zero, false, pos, refl, true, ℕ, ℤ, ◌+◌, ◌≡◌}

module _ {W : Type 0} (k : Kernel W) (gives : Gives k) (n : ℕ) where
  abbrev pub Stopped : ℤ → DriverState W → Type 0
  Stopped err s = (err ≡ pos 0) × (s.eplist ≡ []) × (s.heap.live ≡ n)

  managed :
      (msg : Msg) (s : DriverState W)
      → is_reset_mng_msg msg ≡ true
      → s.heap.live ≡ objects s.eplist + n
      → Ok Stopped (driver_recv_userland_management k msg s)
  unfolding driver_recv_userland_management
  managed msg s r e =
      rw (r, driver_recv_userland_management)
        (▷-Ok Stopped _ (ubq_disable_device k) (λ _. ret (pos 0)) s refl
          (ubq_disable_device-empty k gives n s e) (λ _ s' (nil, live). (refl, nil, live)))

  -- If kmalloc gives as many bytes as it is asked for and `n` objects are allocated besides those
  -- of endpoints and requests, a RESET message from userland, after which usb_deregister
  -- disconnects the interfaces that the driver has, is answered with 0, leaves no endpoint and `n`
  -- objects allocated, and never leaves the memory.
  pub driver_recv_userland-Stopped :
      (msg : Msg) (s : DriverState W)
      → is_reset_mng_msg msg ≡ true
      → s.heap.live ≡ objects s.eplist + n
      → Ok Stopped (driver_recv_userland k msg s)
  unfolding driver_recv_userland
  driver_recv_userland-Stopped msg s r e =
      let management : is_management_msg msg ≡ true = ground (arith, r) in
      let usb : is_usb_msg msg ≡ false = ground (arith, management) in
      rw (usb, management, driver_recv_userland)
        (▷-Ok Stopped _ (driver_recv_userland_management k msg) (λ err. ret (error_or_zero err)) s
          refl (managed msg s r e) (λ err s' (ok, nil, live). (rw ok, nil, live)))
