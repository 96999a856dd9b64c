-- ===== src/Gadget/Awaiting.antt =====
-- An OUT endpoint that waits for the host: ep_gadget_send_usb of gadget.c without a message.
use usbq_core.Action.{Ok, lift, ▷-Ok}
use usbq_core.Endpoint.{Kernel, packet_size_of}
use usbq_core.Gadget.{GadgetEndpoint, GadgetRequest, GadgetState, Udc}
use usbq_core.Gadget.Requests.{
  alloc_gadget_request, data_request_for, ep_fill_request, ep_gadget_send_usb, fill_gadget_request,
}
use usbq_core.Gadget.Sending.{Offered, Prepared, filled-Prepared, send_usb-Offered}
use usbq_core.Msg.{data_type, get_data, get_epid, msg_get_data}
use usbq_core.Msg.Copy.{msg_get_data-diff}
use usbq_core.Msg.Headers.{IsNarrow}
use usbq_core.Part.Accounts.{Gives, alloc_request-Ok}
use usbq_core.Types.{is_bulk, is_ctrl, is_in, is_interrupt, is_isochronous, w_max_packet_size}
use usbq_core.Prelude.{Bytes, [], arith, false, none, refl, some, true, ◌<◌, ◌||◌, ◌≡◌}

-- A bulk or interrupt endpoint that the host sends on.
pub record IsSink (ep : GadgetEndpoint) : Type 0 where
  pub desc : Bytes
  pub desc_eq : ep.desc ≡ some desc
  pub narrow : IsNarrow ep.epid
  pub kind : (is_bulk ep.epid || is_interrupt ep.epid) ≡ true
  pub sinks : is_in ep.epid ≡ false
  pub packet : w_max_packet_size desc < 65536

-- The request has an empty message of the endpoint, and room for one packet behind its headers.
abbrev pub Awaits : GadgetEndpoint → Bytes → GadgetRequest → Type 0
Awaits ep desc req =
    (req.transfer.length ≡ w_max_packet_size desc)
    × (req.transfer.buf ≡ msg_get_data req.msg)
    × (get_data req.msg ≡ [])
    × (req.msg.type ≡ data_type)
    × (get_epid req.msg ≡ ep.epid)

module _ {W : Type 0} (k : Kernel W) (gives : Gives k) (g : Udc W) (ep : GadgetEndpoint)
    (r : IsSink ep) (s : GadgetState W) where
  packet_eq : packet_size_of ep ≡ some (w_max_packet_size r.desc)
  packet_eq = rw (r.desc_eq, packet_size_of)

  fill-Prepared : Ok (Prepared k g s ep (Awaits ep r.desc)) (fill_gadget_request k g ep none s)
  unfolding fill_gadget_request ep_fill_request data_request_for alloc_gadget_request
  fill-Prepared =
      let other : (is_ctrl ep.epid || is_isochronous ep.epid) ≡ false = ground (arith, r.kind) in
      rw (other, r.kind, fill_gadget_request, packet_eq, lift)
        (▷-Ok (Prepared k g s ep (Awaits ep r.desc)) _
          (alloc_gadget_request k g ep (w_max_packet_size r.desc) data_type) _ s refl
          (alloc_request-Ok k gives _ _ ep r.narrow (w_max_packet_size r.desc)
            (omega (arith, r.packet)) data_type (omega arith) s 36)
          (elim [
            | none ↦ λ s' grew. grew
            | some req ↦ λ s' (p, fits, empty, room, allocated, type_eq, epid_eq, _).
                filled-Prepared k g s ep (Awaits ep r.desc) req _ s' refl p
                  (rw r.sinks (
                    omega
                      (arith, allocated, room, fits.covers, msg_get_data-diff req.msg fits.kind)))
                  (rw r.sinks allocated, refl, empty, type_eq, epid_eq)
          ]))

  -- If kmalloc gives as many bytes as it is asked for, asking the host for data on a bulk or an
  -- interrupt endpoint never leaves the memory. On success one request more is in the list of the
  -- endpoint, which the gadget layer accepted: it has an empty message of the endpoint, and room
  -- for one packet of the endpoint's size inside of its memory. On failure the endpoints and the
  -- count of what is allocated are as they were.
  pub ep_gadget_send_usb-Awaits :
      Ok (Offered k g s ep (Awaits ep r.desc)) (ep_gadget_send_usb k g ep none s)
  ep_gadget_send_usb-Awaits = send_usb-Offered k g s ep (Awaits ep r.desc) none fill-Prepared
