-- ===== src/Gadget/Callbacks.antt =====
-- gadget.c: completions, and the messages of userland for an endpoint, by the table gadget_cb_conf.
use usbq_core.Action.{Act, crash, lift, ret, ◌▷◌}
use usbq_core.Endpoint.{Kernel, send_userland}
use usbq_core.Gadget.{GadgetEndpoint, GadgetRequest, GadgetState, Udc}
use usbq_core.Gadget.Interfaces.{disable_active_interface, enable_default_interface}
use usbq_core.Gadget.Requests.{ep_free_gadget_request, ep_gadget_send_usb, setup_of}
use usbq_core.Gadget.State.{find_gadget_endpoint}
use usbq_core.Msg.{Msg, get_epid, get_status, is_usb_ack, msg_set_data_size, word_of_int}
use usbq_core.Part.{call, free_msg, new_ack, on_heap}
use usbq_core.Types.{
  is_bulk, is_ctrl, is_get_desc_configuration, is_in, is_interrupt, is_isochronous, is_out,
  w_length,
}
use usbq_core.Prelude.{
  Bytes, Option, add32, einval, enomem, epipe, error_or_zero, if◌then◌else◌, is_neg, is_nonzero,
  ltb, none, pos, some, ℤ, ◌&&◌, ◌==◌, ◌||◌,
}

module _ {W : Type 0} (k : Kernel W) (g : Udc W) where
  unfoldable pub ep_gadget_send_userland : Msg → Act (GadgetState W) ℤ
  ep_gadget_send_userland msg =
      on_heap (send_userland g.com_send msg) ▷ λ err. ret (error_or_zero err)

  -- The OUT case of ep_gadget_recv_usb_ctrl.
  unfoldable pub forward_ctrl_out : GadgetRequest → Act (GadgetState W) ℤ
  forward_ctrl_out req = lift (setup_of req.msg) ▷ λ c.
      if ltb 0 (w_length c)
      then ep_gadget_send_userland (msg_set_data_size req.msg (add32 req.transfer.actual 8))
      else ret (pos 0)

  unfoldable pub ep_gadget_recv_usb_ctrl : GadgetEndpoint → GadgetRequest → Act (GadgetState W) ℤ
  ep_gadget_recv_usb_ctrl ep req =
      if is_in ep.epid
      then ret (if is_nonzero req.transfer.status then req.transfer.status else pos 0)
      else forward_ctrl_out req

  -- The OUT case of ep_gadget_recv_usb: data of the host, and the next request.
  unfoldable pub forward_out : GadgetEndpoint → Msg → Act (GadgetState W) ℤ
  forward_out ep msg = ep_gadget_send_userland msg ▷ λ err.
      if is_neg err
      then ret err
      else ep_gadget_send_usb k g ep none ▷ λ err. ret (error_or_zero err)

  -- The IN case: the host took the data, of which userland is told.
  unfoldable pub acknowledge_in : Option Msg → Act (GadgetState W) ℤ
  acknowledge_in none = ret enomem
  acknowledge_in (some m) =
      ep_gadget_send_userland m ▷ λ err. free_msg k ▷ λ _. ret (error_or_zero err)

  unfoldable pub ep_gadget_recv_usb : GadgetEndpoint → GadgetRequest → Act (GadgetState W) ℤ
  ep_gadget_recv_usb ep req =
      if is_out ep.epid
      then forward_out ep (msg_set_data_size req.msg req.transfer.actual)
      else new_ack k ep.epid req.transfer.status none 0 ▷ acknowledge_in

  -- ep->ops->recv_usb
  unfoldable pub recv_gadget_usb : GadgetEndpoint → GadgetRequest → Act (GadgetState W) ℤ
  recv_gadget_usb ep req =
      if is_ctrl ep.epid
      then ep_gadget_recv_usb_ctrl ep req
      else if is_isochronous ep.epid || is_bulk ep.epid || is_interrupt ep.epid
      then ep_gadget_recv_usb ep req
      else crash

  -- recv, which the workqueue of an endpoint calls, and gadget_recv_usb, the completion.
  unfoldable pub recv_completed : GadgetEndpoint → GadgetRequest → Act (GadgetState W) (Unit {0})
  recv_completed ep req = recv_gadget_usb ep req ▷ λ _. ep_free_gadget_request k g ep req

  unfoldable pub gadget_recv_usb : GadgetEndpoint → GadgetRequest → Act (GadgetState W) (Unit {0})
  gadget_recv_usb ep req =
      if is_neg req.transfer.status
      then ep_free_gadget_request k g ep req
      else recv_completed ep req

  -- The endpoints of the host's configuration, when its descriptor is asked for as a whole.
  unfoldable pub reconfigure : Bytes → Act (GadgetState W) ℤ
  reconfigure c =
      if is_get_desc_configuration c && ltb 9 (w_length c)
      then disable_active_interface k g
        ▷ (λ err. if is_neg err then ret err else enable_default_interface k g)
      else ret (pos 0)

  -- The answer of userland to a control request.
  unfoldable pub answer_ctrl : GadgetEndpoint → Msg → Act (GadgetState W) ℤ
  answer_ctrl ep msg =
      if is_in ep.epid
      then (lift (setup_of msg) ▷ λ c. reconfigure c ▷ λ err.
          if is_neg err
          then ret err
          else ep_gadget_send_usb k g ep (some msg) ▷ λ err. ret (error_or_zero err))
      else ep_gadget_send_usb k g ep (some msg) ▷ λ err. ret (error_or_zero err)

  unfoldable pub ep_gadget_recv_userland_ctrl : GadgetEndpoint → Msg → Act (GadgetState W) ℤ
  ep_gadget_recv_userland_ctrl ep msg =
      if is_usb_ack msg
      then (if get_status msg == word_of_int epipe
          then call (g.usb_ep_set_halt ep.usb_ep) ▷ (λ _. ret (pos 0))
          else ret (pos 0))
      else answer_ctrl ep msg

  unfoldable pub ep_gadget_recv_userland : GadgetEndpoint → Msg → Act (GadgetState W) ℤ
  ep_gadget_recv_userland ep msg =
      ep_gadget_send_usb k g ep (some msg) ▷ λ err. ret (error_or_zero err)

  -- ep->ops->recv_userland
  unfoldable pub recv_gadget_userland : GadgetEndpoint → Msg → Act (GadgetState W) ℤ
  recv_gadget_userland ep msg =
      if is_ctrl ep.epid
      then ep_gadget_recv_userland_ctrl ep msg
      else if is_isochronous ep.epid || is_bulk ep.epid || is_interrupt ep.epid
      then ep_gadget_recv_userland ep msg
      else crash

  unfoldable pub gadget_recv_userland_usb : Msg → Act (GadgetState W) ℤ
  gadget_recv_userland_usb msg s =
      if s.own.registered == 0
      then some (pos 0, s)
      else (find_gadget_endpoint k g (get_epid msg) ▷ elim [
        | none ↦ ret einval
        | some ep ↦ recv_gadget_userland ep msg ▷ λ err. ret (error_or_zero err)
      ])
          s
