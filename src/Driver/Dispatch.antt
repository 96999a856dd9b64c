-- ===== src/Driver/Dispatch.antt =====
-- driver.c: control requests, completions, messages of userland, registration and disconnection.
use usbq_core.Action.{Act, crash, lift, ret, ◌▷◌}
use usbq_core.Driver.Callbacks.{
  ep_clear_halt, ep_driver_recv_usb, ep_driver_recv_usb_isoc, ep_driver_recv_userland,
  ep_driver_send_usb, ep_driver_send_userland,
}
use usbq_core.Driver.Interfaces.{
  disable_active_driver_interface, enable_default_driver_interface, set_driver_interface,
}
use usbq_core.Driver.Probe.{driver_probe}
use usbq_core.Driver.Request.{ctrlrequest, ep_free_driver_request}
use usbq_core.Driver.State.{
  DriverEndpoint, DriverRequest, DriverState, clean_endpoints, find_driver_endpoint, set_init,
}
use usbq_core.Endpoint.{Kernel, send_userland}
use usbq_core.Identity.{Device}
use usbq_core.Msg.{
  Msg, alloc_msg_management, get_data, get_epid, is_management_msg, is_reload_mng_msg,
  is_reset_mng_msg, is_usb_msg, management_type, msg_diff_size, msg_get_data_size,
  msg_set_data_size, reset, set_management_type,
}
use usbq_core.Part.{call, free_msg, new_ack, on_heap, with_msg}
use usbq_core.Types.{
  dir_in, is_bulk, is_ctrl, is_in, is_interrupt, is_isochronous, is_set_configuration,
  is_set_interface, w_index, w_value,
}
use usbq_core.Prelude.{
  Bool, Bytes, List, Option, [], add32, einval, enomem, epipe, error_or_zero, false, if◌then◌else◌,
  is_neg, is_nonzero, negsuc, none, not, pos, some, suc, true, zero, ℕ, ℤ, ◌==◌, ◌||◌, ◌∷◌,
}

module _ {W : Type 0} (k : Kernel W) where
  -- The IS_SET_INTERFACE branch of ep_driver_recv_userland_ctrl from the acknowledgement on.
  unfoldable pub acknowledge_interface : Bytes → Option Msg → Act (DriverState W) ℤ
  acknowledge_interface c none = ret enomem
  acknowledge_interface c (some m) = set_driver_interface k (w_index c) (w_value c) ▷ λ err.
      if is_neg err
      then free_msg k ▷ (λ _. ret err)
      else ep_driver_send_userland k m ▷ λ err. free_msg k ▷ λ _. ret (error_or_zero err)

  unfoldable pub ep_driver_recv_userland_ctrl : DriverEndpoint → Msg → Act (DriverState W) ℤ
  ep_driver_recv_userland_ctrl ep msg = lift (ctrlrequest msg) ▷ λ c.
      if is_set_interface c
      then new_ack k ep.epid (pos 0) (some (get_data msg)) (msg_get_data_size msg)
        ▷ acknowledge_interface c
      else ep_driver_send_usb k ep (some msg) ▷ λ err. ret (error_or_zero err)

  -- The message of a control request once its data is there.
  abbrev pub received : DriverEndpoint → DriverRequest → Msg
  received ep req =
      if is_in ep.epid
      then msg_set_data_size req.msg (add32 req.transfer.actual_length (msg_get_data_size req.msg))
      else req.msg

  -- The branch of a request that set the configuration.
  unfoldable pub configure : Act (DriverState W) ℤ
  configure = disable_active_driver_interface k ▷ λ err.
      if is_neg err
      then ret err
      else enable_default_driver_interface k ▷ λ err. ret (error_or_zero err)

  unfoldable pub ep_driver_recv_usb_ctrl : DriverEndpoint → DriverRequest → Act (DriverState W) ℤ
  ep_driver_recv_usb_ctrl ep req =
      if ep.epid.dir == dir_in
      then ep_driver_send_userland k (received ep req)
      else if ep.epid.num == 0
      then (lift (ctrlrequest req.msg) ▷ λ c.
          if is_set_configuration c then configure else ret (pos 0))
      else ret (pos 0)

  -- ep->ops->recv_usb and ep->ops->recv_userland, by driver_cb_conf.
  unfoldable pub recv_usb : DriverEndpoint → DriverRequest → Act (DriverState W) ℤ
  recv_usb ep req =
      if is_ctrl ep.epid
      then ep_driver_recv_usb_ctrl ep req
      else if is_isochronous ep.epid
      then ep_driver_recv_usb_isoc k ep req
      else if is_bulk ep.epid || is_interrupt ep.epid
      then ep_driver_recv_usb k ep req
      else crash

  unfoldable pub recv_userland : DriverEndpoint → Msg → Act (DriverState W) ℤ
  recv_userland ep msg =
      if is_ctrl ep.epid
      then ep_driver_recv_userland_ctrl ep msg
      else if is_isochronous ep.epid || is_bulk ep.epid || is_interrupt ep.epid
      then ep_driver_recv_userland k ep msg
      else crash

  -- The stalled control endpoint: whether `recv` goes on to free the request.
  unfoldable pub report_stall : DriverEndpoint → Option Msg → Act (DriverState W) Bool
  report_stall ep none = ret false
  report_stall ep (some m) =
      ep_driver_send_userland k m ▷ λ err. free_msg k ▷ λ _. ret (not (is_neg err))

  -- The -EPIPE case of `recv`.
  unfoldable pub recv_stalled : DriverEndpoint → Act (DriverState W) Bool
  recv_stalled ep =
      if is_in ep.epid
      then (if not (is_ctrl ep.epid)
          then (ep_clear_halt k ep ▷ λ _. ep_driver_send_usb k ep none ▷ λ _. ret true)
          else new_ack k ep.epid epipe none 0 ▷ report_stall ep)
      else ret true

  -- The switch of `recv` on urb->status.
  unfoldable pub recv_status : DriverEndpoint → DriverRequest → ℤ → Act (DriverState W) Bool
  recv_status ep req (pos zero) = recv_usb ep req ▷ λ _. ret true
  recv_status ep req (pos (suc n)) = ret true
  recv_status ep req (negsuc n) = if n == 31 then recv_stalled ep else ret true

  -- recv, which the workqueue of an endpoint calls for a request that is done.
  unfoldable pub recv : DriverEndpoint → DriverRequest → Act (DriverState W) (Unit {0})
  recv ep req = recv_status ep req req.transfer.status ▷ λ go_on.
      if go_on then ep_free_driver_request k ep req else ret tt

  unfoldable pub driver_recv_userland_usb : Msg → Act (DriverState W) ℤ
  driver_recv_userland_usb msg =
      find_driver_endpoint k (get_epid msg)
      ▷ elim [ none ↦ ret einval | some ep ↦ recv_userland ep msg ▷ λ err. ret (error_or_zero err) ]

  -- The message of driver_disconnect.
  unfoldable pub announce_reset : Option Msg → Act (DriverState W) (Unit {0})
  announce_reset none = ret tt
  announce_reset (some msg) = lift (set_management_type msg reset) ▷ λ m.
      on_heap (send_userland k.com_send m) ▷ λ _. free_msg k

  unfoldable pub driver_disconnect : Act (DriverState W) (Unit {0})
  driver_disconnect s =
      if s.own.init == 0
      then some (tt, s)
      else (with_msg k (add32 (add32 0 (msg_diff_size management_type)) 4)
              (λ kmalloc. alloc_msg_management kmalloc 0)
            ▷ announce_reset
            ▷ λ _. clean_endpoints k ▷ λ _. λ s. some (tt, set_init 0 s))
          s

  -- The calls of driver_probe by usb_register. An interface whose probe fails has no driver.
  unfoldable pub probe_interfaces : List Device → Act (DriverState W) (Unit {0})
  probe_interfaces [] = ret tt
  probe_interfaces (dev ∷ rest) = driver_probe k dev ▷ λ _. probe_interfaces rest

  unfoldable pub probe_unbound : Act (DriverState W) (Unit {0})
  probe_unbound s = probe_interfaces (k.unbound s.heap.world) s

  unfoldable pub ubq_enable_device : Act (DriverState W) ℤ
  ubq_enable_device = call k.usb_register ▷ λ err.
      if is_nonzero err then ret err else probe_unbound ▷ (λ _. ret err)

  -- The calls of driver_disconnect by usb_deregister.
  unfoldable pub disconnect_interfaces : ℕ → Act (DriverState W) (Unit {0})
  disconnect_interfaces zero = ret tt
  disconnect_interfaces (suc n) = driver_disconnect ▷ λ _. disconnect_interfaces n

  unfoldable pub disconnect_bound : Act (DriverState W) (Unit {0})
  disconnect_bound s = disconnect_interfaces (k.bound s.heap.world) s

  unfoldable pub ubq_disable_device : Act (DriverState W) (Unit {0})
  ubq_disable_device = clean_endpoints k ▷ λ _.
      disconnect_bound ▷ λ _. on_heap (λ h. (tt {0}, record h { world = k.usb_deregister h.world }))

  unfoldable pub driver_recv_userland_management : Msg → Act (DriverState W) ℤ
  driver_recv_userland_management msg =
      if is_reset_mng_msg msg
      then ubq_disable_device ▷ (λ _. ret (pos 0))
      else if is_reload_mng_msg msg
      then ubq_enable_device ▷ (λ err. ret (error_or_zero err))
      else ret einval

  unfoldable pub driver_recv_userland : Msg → Act (DriverState W) ℤ
  driver_recv_userland msg =
      if is_usb_msg msg
      then driver_recv_userland_usb msg ▷ (λ err. ret (error_or_zero err))
      else if is_management_msg msg
      then driver_recv_userland_management msg ▷ (λ err. ret (error_or_zero err))
      else ret einval
