-- ===== src/Gadget/Dispatch.antt =====
-- gadget.c: binding, a new device, a reset, the messages of userland, and ubq_gadget_init and
-- ubq_gadget_exit.
use usbq_core.Action.{Act, ret, ◌▷◌}
use usbq_core.Endpoint.{Kernel}
use usbq_core.Gadget.{GadgetState, Udc}
use usbq_core.Gadget.Callbacks.{gadget_recv_userland_usb}
use usbq_core.Gadget.State.{add_gadget_ep0_endpoint, clean_gadget_endpoints, run}
use usbq_core.Identity.Parse.{parse_init_pkt}
use usbq_core.Msg.{Msg, is_management_msg, is_new_device_mng_msg, is_reset_mng_msg, is_usb_msg}
use usbq_core.Part.{call}
use usbq_core.Types.{dir_in, dir_out}
use usbq_core.Prelude.{
  [], einval, enomem, error_or_zero, if◌then◌else◌, is_neg, is_nonzero, none, pos, some, ℕ, ℤ, ◌==◌,
}

module _ {W : Type 0} (k : Kernel W) (g : Udc W) where
  -- ubq_bind: a failure returns a variable that has no value.
  unfoldable pub ubq_bind : Act (GadgetState W) ℤ
  ubq_bind = run g.usb_ep_autoconfig_reset ▷ λ _. add_gadget_ep0_endpoint k g dir_in ▷ elim [
    | none ↦ call (λ w. (g.uninitialised w, w))
    | some epin ↦
        add_gadget_ep0_endpoint k g dir_out
        ▷ elim [ none ↦ call (λ w. (g.uninitialised w, w)) | some epout ↦ ret (pos 0) ]
  ]

  -- ubq_register: usb_gadget_probe_driver, which calls ubq_bind and takes any result but 0 for a
  -- failure; ubq_unregister.
  unfoldable pub ubq_register : Act (GadgetState W) ℤ
  ubq_register = call g.probe_driver ▷ elim [
    | some err ↦ ret err
    | none ↦ ubq_bind ▷ λ err. if is_nonzero err then ret err else call g.udc_start
  ]

  unfoldable pub ubq_unregister : Act (GadgetState W) (Unit {0})
  ubq_unregister = run g.unregister_driver

  abbrev pub set_registered : ℕ → Act (GadgetState W) (Unit {0})
  set_registered n s = some (tt, record s { own = record s.own { registered = n } })

  -- The device that is there goes, if there is one; its flag stays.
  unfoldable pub drop_device : Act (GadgetState W) (Unit {0})
  drop_device s =
      if s.own.registered == 0
      then some (tt, s)
      else (ubq_unregister ▷ λ _. clean_gadget_endpoints k g) s

  -- parse_init_pkt(&gadget_state.identity, msg)
  unfoldable pub read_identity : Msg → Act (GadgetState W) ℤ
  read_identity msg s = elim (parse_init_pkt s.own.identity msg) [
    | none ↦ none
    | some (identity, err) ↦ some (err, record s { own = record s.own { identity = identity } })
  ]

  unfoldable pub register_device : Act (GadgetState W) ℤ
  register_device =
      ubq_register ▷ λ err. if is_neg err then ret err else set_registered 1 ▷ λ _. ret (pos 0)

  unfoldable pub callback_new_device : Msg → Act (GadgetState W) ℤ
  callback_new_device msg =
      drop_device ▷ λ _. read_identity msg ▷ λ err. if is_neg err then ret err else register_device

  unfoldable pub callback_reset : Act (GadgetState W) ℤ
  callback_reset =
      set_registered 0 ▷ λ _. ubq_unregister ▷ λ _. clean_gadget_endpoints k g ▷ λ _. ret (pos 0)

  unfoldable pub gadget_recv_userland_management : Msg → Act (GadgetState W) ℤ
  gadget_recv_userland_management msg =
      if is_reset_mng_msg msg
      then callback_reset ▷ (λ err. ret (error_or_zero err))
      else if is_new_device_mng_msg msg
      then callback_new_device msg ▷ (λ err. ret (error_or_zero err))
      else ret einval

  unfoldable pub gadget_recv_userland : Msg → Act (GadgetState W) ℤ
  gadget_recv_userland msg =
      if is_usb_msg msg
      then gadget_recv_userland_usb k g msg ▷ (λ err. ret (error_or_zero err))
      else if is_management_msg msg
      then gadget_recv_userland_management msg ▷ (λ err. ret (error_or_zero err))
      else ret einval

  unfoldable pub ubq_gadget_init : Act (GadgetState W) ℤ
  ubq_gadget_init s =
      (call g.com_init ▷ λ made. ret (if made then pos 0 else enomem))
        (record s { own = record s.own { registered = 0 }; eplist = [] })

  unfoldable pub ubq_gadget_exit : Act (GadgetState W) (Unit {0})
  ubq_gadget_exit = (λ s. if s.own.registered == 0 then some (tt, s) else ubq_unregister s) ▷ λ _.
      clean_gadget_endpoints k g ▷ λ _. run g.com_close
