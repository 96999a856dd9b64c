-- ===== src/Gadget/Requests.antt =====
-- gadget.c: requests, the functions that fill them, and sending on an endpoint.
use usbq_core.Action.{Act, crash, lift, ret, ◌▷◌}
use usbq_core.Endpoint.{Kernel, packet_size_of}
use usbq_core.Gadget.{GadgetEndpoint, GadgetRequest, GadgetState, Udc, UsbRequest}
use usbq_core.Msg.{Msg, data_type, msg_get_data, msg_get_data_size, msgcpy}
use usbq_core.Part.{call}
use usbq_core.Part.Requests.{alloc_request, filled, free_request}
use usbq_core.Types.{is_bulk, is_ctrl, is_in, is_interrupt, is_isochronous, w_length}
use usbq_core.Prelude.{
  Bytes, Option, add32, einval, error_or_zero, false, if◌then◌else◌, is_neg, load, ltb, none, pos,
  some, sub32, ℕ, ℤ, ◌+◌, ◌>>=◌, ◌||◌,
}

-- What usb_ep_alloc_request gives, with the buffer of alloc_gadget_request.
abbrev pub init_request : Msg → UsbRequest
init_request msg = record {
  buf = msg_get_data msg;
  length = 0;
  zero = false;
  status = pos 0;
  actual = 0;
}

-- The struct usb_ctrlrequest at msg_get_data(msg).
unfoldable pub setup_of : Msg → Option Bytes
setup_of msg = load msg.body (msg_get_data msg) 8

-- msgcpy(dreq->msg, msg_get_data(msg), msg_get_data_size(msg))
unfoldable pub copy_data : Msg → Msg → Option Msg
copy_data dest msg = do
  bytes ← load msg.body (msg_get_data msg) (msg_get_data_size msg)
  msgcpy dest bytes

module _ {W : Type 0} (k : Kernel W) (g : Udc W) where
  unfoldable pub alloc_gadget_request :
      GadgetEndpoint → ℕ → ℕ → Act (GadgetState W) (Option GadgetRequest)
  alloc_gadget_request ep sz type =
      alloc_request k (g.usb_ep_alloc_request ep.usb_ep) init_request ep 36 sz type

  unfoldable pub free_gadget_request :
      GadgetEndpoint → GadgetRequest → Act (GadgetState W) (Unit {0})
  free_gadget_request ep req = free_request k ep req

  -- ep_free_gadget_request
  unfoldable pub ep_free_gadget_request :
      GadgetEndpoint → GadgetRequest → Act (GadgetState W) (Unit {0})
  ep_free_gadget_request ep req = free_gadget_request ep req

  -- The request with the data of `msg`.
  unfoldable pub request_with :
      GadgetEndpoint → ℕ → Msg → Act (GadgetState W) (Option GadgetRequest)
  request_with ep sz msg = alloc_gadget_request ep sz msg.type ▷ elim [
    | none ↦ ret none
    | some dreq ↦ lift (copy_data dreq.msg msg) ▷ λ m. ret (some (record dreq { msg = m }))
  ]

  -- `sz`: an OUT request has room for the data of the host as well.
  unfoldable pub ctrl_size : GadgetEndpoint → Msg → Option ℕ
  ctrl_size ep msg =
      if is_in ep.epid
      then some (msg_get_data_size msg)
      else setup_of msg >>= λ c. some (add32 (msg_get_data_size msg) (w_length c))

  unfoldable pub ep_fill_ctrl_request :
      GadgetEndpoint → Option Msg → Act (GadgetState W) (Option GadgetRequest)
  ep_fill_ctrl_request ep none = crash
  ep_fill_ctrl_request ep (some msg) = lift (ctrl_size ep msg) ▷ λ sz.
      request_with ep sz msg ▷ elim [
        | none ↦ ret none
        | some dreq ↦ filled k ep (record dreq {
          transfer = record dreq.transfer {
            buf = msg_get_data dreq.msg + 8;
            length = sub32 sz 8;
            zero = ltb (msg_get_data_size dreq.msg) (sub32 sz 8);
          };
        })
      ]

  unfoldable pub data_request_for :
      GadgetEndpoint → Option Msg → Act (GadgetState W) (Option GadgetRequest)
  data_request_for ep none =
      lift (packet_size_of ep) ▷ λ size. alloc_gadget_request ep size data_type
  data_request_for ep (some msg) = request_with ep (msg_get_data_size msg) msg

  unfoldable pub ep_fill_request :
      GadgetEndpoint → Option Msg → Act (GadgetState W) (Option GadgetRequest)
  ep_fill_request ep msg = data_request_for ep msg ▷ elim [
    | none ↦ ret none
    | some dreq ↦ filled k ep (record dreq {
      transfer = record dreq.transfer {
        buf = msg_get_data dreq.msg;
        length = if is_in ep.epid then msg_get_data_size dreq.msg else dreq.msg.allocated_size;
        zero = false;
      };
    })
  ]

  -- ep->ops->fill_request: the row of gadget_cb_conf for the type of the endpoint.
  unfoldable pub fill_gadget_request :
      GadgetEndpoint → Option Msg → Act (GadgetState W) (Option GadgetRequest)
  fill_gadget_request ep msg =
      if is_ctrl ep.epid || is_isochronous ep.epid
      then ep_fill_ctrl_request ep msg
      else if is_bulk ep.epid || is_interrupt ep.epid
      then ep_fill_request ep msg
      else crash

  unfoldable pub endpoint_queue : GadgetEndpoint → GadgetRequest → Act (GadgetState W) ℤ
  endpoint_queue ep req =
      call (g.usb_ep_queue ep.usb_ep req.transfer) ▷ λ err. ret (error_or_zero err)

  -- Queue a request, which is freed if that fails.
  unfoldable pub queue_or_free : GadgetEndpoint → GadgetRequest → Act (GadgetState W) ℤ
  queue_or_free ep req = endpoint_queue ep req ▷ λ err.
      if is_neg err then ep_free_gadget_request ep req ▷ (λ _. ret err) else ret (pos 0)

  unfoldable pub ep_gadget_send_usb : GadgetEndpoint → Option Msg → Act (GadgetState W) ℤ
  ep_gadget_send_usb ep msg =
      fill_gadget_request ep msg ▷ elim [ none ↦ ret einval | some req ↦ queue_or_free ep req ]
