-- ===== src/Driver/Callbacks.antt =====
-- driver.c: the operations of an endpoint that do not change interfaces, by the table
-- driver_cb_conf.
use usbq_core.Action.{Act, crash, ret, ◌▷◌}
use usbq_core.Driver.Request.{
  ep_driver_fill_bulk_request, ep_driver_fill_ctrl_request, ep_driver_fill_int_request,
  ep_driver_fill_isoc_request, ep_free_driver_request, get_pipe,
}
use usbq_core.Driver.State.{DriverEndpoint, DriverRequest, DriverState}
use usbq_core.Endpoint.{Kernel, send_userland}
use usbq_core.Msg.{Msg, is_usb_ack, msg_set_data_size}
use usbq_core.Part.{call, on_heap}
use usbq_core.Types.{dir_in, is_bulk, is_ctrl, is_interrupt, is_isochronous}
use usbq_core.Prelude.{
  Option, einval, error_or_zero, if◌then◌else◌, is_neg, is_nonzero, ltb, none, not, pos, some, ℤ,
  ◌&&◌, ◌==◌,
}

module _ {W : Type 0} (k : Kernel W) where
  -- urb_submit
  unfoldable pub urb_submit : DriverRequest → Act (DriverState W) ℤ
  urb_submit req =
      call (k.usb_submit_urb req.transfer) ▷ λ err. ret (if is_neg err then err else pos 0)

  -- ep->ops->fill_request: the row of driver_cb_conf for the type of the endpoint.
  unfoldable pub fill_request :
      DriverEndpoint → Option Msg → Act (DriverState W) (Option DriverRequest)
  fill_request ep msg =
      if is_ctrl ep.epid
      then ep_driver_fill_ctrl_request k ep msg
      else if is_isochronous ep.epid
      then ep_driver_fill_isoc_request k ep msg
      else if is_bulk ep.epid
      then ep_driver_fill_bulk_request k ep msg
      else if is_interrupt ep.epid
      then ep_driver_fill_int_request k ep msg
      else crash

  -- Submit a request, which is freed if that fails.
  unfoldable pub submit_or_free : DriverEndpoint → DriverRequest → Act (DriverState W) ℤ
  submit_or_free ep req = urb_submit req ▷ λ err.
      if is_neg err then ep_free_driver_request k ep req ▷ (λ _. ret err) else ret (pos 0)

  unfoldable pub ep_driver_send_usb : DriverEndpoint → Option Msg → Act (DriverState W) ℤ
  ep_driver_send_usb ep msg =
      fill_request ep msg ▷ elim [ none ↦ ret einval | some req ↦ submit_or_free ep req ]

  unfoldable pub ep_driver_send_userland : Msg → Act (DriverState W) ℤ
  ep_driver_send_userland msg =
      on_heap (send_userland k.com_send msg) ▷ λ err. ret (error_or_zero err)

  unfoldable pub ep_driver_recv_userland : DriverEndpoint → Msg → Act (DriverState W) ℤ
  ep_driver_recv_userland ep msg =
      ep_driver_send_usb ep (if is_usb_ack msg then none else some msg) ▷ λ err.
      ret (error_or_zero err)

  unfoldable pub ep_clear_halt : DriverEndpoint → Act (DriverState W) ℤ
  ep_clear_halt ep = call (k.usb_clear_halt (get_pipe ep.epid))

  unfoldable pub ep_driver_recv_usb : DriverEndpoint → DriverRequest → Act (DriverState W) ℤ
  ep_driver_recv_usb ep req =
      if ep.epid.dir == dir_in
      then ep_driver_send_userland (msg_set_data_size req.msg req.transfer.actual_length)
      else ret (pos 0)

  unfoldable pub ep_driver_recv_usb_isoc : DriverEndpoint → DriverRequest → Act (DriverState W) ℤ
  ep_driver_recv_usb_isoc ep req =
      if ep.epid.dir == dir_in
      then (if ltb 0 req.transfer.actual_length && not (is_nonzero req.transfer.status)
          then ep_driver_send_userland (msg_set_data_size req.msg req.transfer.actual_length)
          else ep_driver_send_usb ep none ▷ λ err. ret (error_or_zero err))
      else ret (pos 0)
