-- ===== src/Driver/Interfaces.antt =====
-- driver.c: the interfaces of the device, whose endpoints come and go.
use usbq_core.Action.{Act, crash, ret, ◌▷◌}
use usbq_core.Driver.Callbacks.{ep_driver_send_usb}
use usbq_core.Driver.State.{
  DriverState, add_driver_endpoint, find_driver_endpoint, free_driver_endpoint,
}
use usbq_core.Endpoint.{Kernel, UsbInterface}
use usbq_core.Identity.{HostInterface, b_num_endpoints, b_num_interfaces}
use usbq_core.Part.{call}
use usbq_core.Types.{epid_of_desc, is_ctrl, is_in}
use usbq_core.Prelude.{
  Bytes, List, Option, [], enomem, if◌then◌else◌, is_neg, is_nonzero, none, not, pos, some, take, ℕ,
  ℤ, ◌&&◌, ◌∷◌,
}

module _ {W : Type 0} (k : Kernel W) where
  -- The body of the loop of disable_driver_interface.
  unfoldable pub disable_endpoint : Bytes → Act (DriverState W) (Unit {0})
  disable_endpoint desc =
      find_driver_endpoint k (epid_of_desc desc)
      ▷ elim [ none ↦ ret tt | some ep ↦ free_driver_endpoint k ep ]

  unfoldable pub disable_endpoints : List Bytes → Act (DriverState W) ℤ
  disable_endpoints [] = ret (pos 0)
  disable_endpoints (desc ∷ rest) = disable_endpoint desc ▷ λ _. disable_endpoints rest

  unfoldable pub disable_driver_interface : HostInterface → Act (DriverState W) ℤ
  disable_driver_interface interface =
      disable_endpoints (take (b_num_endpoints interface.desc) interface.endpoint)

  -- The body of the loop of enable_driver_interface: a negative result leaves it.
  unfoldable pub enable_endpoint : Bytes → Act (DriverState W) ℤ
  enable_endpoint epdesc = add_driver_endpoint k epdesc ▷ elim [
    | none ↦ ret enomem
    | some epnew ↦
        if is_in epnew.epid && not (is_ctrl epnew.epid)
        then ep_driver_send_usb k epnew none
        else ret (pos 0)
  ]

  unfoldable pub enable_endpoints : List Bytes → Act (DriverState W) ℤ
  enable_endpoints [] = ret (pos 0)
  enable_endpoints (epdesc ∷ rest) =
      enable_endpoint epdesc ▷ λ err. if is_neg err then ret err else enable_endpoints rest

  unfoldable pub enable_driver_interface : HostInterface → Act (DriverState W) ℤ
  enable_driver_interface interface =
      enable_endpoints (take (b_num_endpoints interface.desc) interface.endpoint)

  -- The two loops of disable_active_driver_interface.
  unfoldable pub disable_altsettings : List HostInterface → Act (DriverState W) ℤ
  disable_altsettings [] = ret (pos 0)
  disable_altsettings (intf ∷ rest) = disable_driver_interface intf ▷ λ err.
      if is_neg err then ret err else disable_altsettings rest

  unfoldable pub disable_interfaces : List UsbInterface → Act (DriverState W) ℤ
  disable_interfaces [] = ret (pos 0)
  disable_interfaces (iface ∷ rest) = disable_altsettings iface.altsetting ▷ λ err.
      if is_neg err then ret err else disable_interfaces rest

  -- The interfaces that the loops over driver_state.dev->actconfig visit.
  abbrev pub active_interfaces : DriverState W → List UsbInterface
  active_interfaces s =
      let config = k.actconfig s.heap.world in take (b_num_interfaces config.desc) config.interface

  unfoldable pub disable_active_driver_interface : Act (DriverState W) ℤ
  disable_active_driver_interface s = disable_interfaces (active_interfaces s) s

  unfoldable pub enable_interfaces : List UsbInterface → Act (DriverState W) ℤ
  enable_interfaces [] = ret (pos 0)
  enable_interfaces (iface ∷ rest) = enable_driver_interface iface.cur_altsetting ▷ λ err.
      if is_neg err then ret err else enable_interfaces rest

  unfoldable pub enable_default_driver_interface : Act (DriverState W) ℤ
  enable_default_driver_interface s = enable_interfaces (active_interfaces s) s

  -- set_driver_interface from usb_set_interface on. A NULL `new` is read by the loop that enables.
  unfoldable pub change_interface :
      ℕ → ℕ → HostInterface → Option HostInterface → Act (DriverState W) ℤ
  change_interface ifnumber alternative old new =
      call (k.usb_set_interface ifnumber alternative) ▷ λ err.
      if is_neg err
      then ret err
      else disable_driver_interface old ▷ λ err.
          if is_nonzero err
          then ret err
          else elim new [ none ↦ crash | some interface ↦ enable_driver_interface interface ]

  unfoldable pub set_driver_interface : ℕ → ℕ → Act (DriverState W) ℤ
  set_driver_interface ifnumber alternative s = elim (k.usb_ifnum_to_if ifnumber s.heap.world) [
    | none ↦ none
    | some interface ↦
        change_interface ifnumber alternative interface.cur_altsetting
          (k.usb_altnum_to_altsetting interface alternative) s
  ]
