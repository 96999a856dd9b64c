-- ===== src/Driver/Completion.antt =====
-- recv of driver.c, for a transfer that is done on a bulk or an interrupt endpoint.
use usbq_core.Action.{Ok, ret, ▷-Ok}
use usbq_core.Driver.Callbacks.{ep_driver_recv_usb, ep_driver_send_userland}
use usbq_core.Driver.Dispatch.{recv, recv_status, recv_usb}
use usbq_core.Driver.Request.{ep_free_driver_request}
use usbq_core.Driver.Sending.{free_driver_request-Ok}
use usbq_core.Driver.State.{DriverEndpoint, DriverRequest, DriverState}
use usbq_core.Endpoint.{Kernel, send_userland}
use usbq_core.Msg.{Msg}
use usbq_core.Part.Accounts.{Grew, Pushed}
use usbq_core.Types.{dir_in, is_bulk, is_ctrl, is_interrupt, is_isochronous}
use usbq_core.Prelude.{
  Bool-cases, false, if◌then◌else◌, inl, inr, pos, refl, subst, sym, true, ◌==◌, ◌||◌, ◌≡◌,
}

-- A bulk or an interrupt endpoint.
abbrev pub IsData : DriverEndpoint → Type 0
IsData ep =
    (is_ctrl ep.epid ≡ false)
    × (is_isochronous ep.epid ≡ false)
    × ((is_bulk ep.epid || is_interrupt ep.epid) ≡ true)

module _ {W : Type 0} (k : Kernel W) (s0 : DriverState W) (ep : DriverEndpoint)
    (req : DriverRequest) where
  -- Sending to userland leaves the endpoints and the count.
  sent :
      (msg : Msg) (s : DriverState W)
      → Pushed s0 ep.ref req s
      → Ok (λ _ s'. Pushed s0 ep.ref req s') (ep_driver_send_userland k msg s)
  unfolding ep_driver_send_userland send_userland
  sent msg s p = record {
    own_eq = p.own_eq;
    pushed = p.pushed;
    live_eq = p.live_eq;
    next_le = p.next_le;
  }

  data_received :
      (s : DriverState W)
      → Pushed s0 ep.ref req s
      → Ok (λ _ s'. Pushed s0 ep.ref req s') (ep_driver_recv_usb k ep req s)
  unfolding ep_driver_recv_usb
  data_received s p = elim (Bool-cases (ep.epid.dir == dir_in)) [
    | inl e ↦ rw (e, ep_driver_recv_usb) (sent _ s p)
    | inr e ↦ rw (e, ep_driver_recv_usb) p
  ]

  status_handled :
      (s : DriverState W)
      → IsData ep
      → Pushed s0 ep.ref req s
      → Ok (λ go_on s'. (go_on ≡ true) × Pushed s0 ep.ref req s') (recv_status k ep req (pos 0) s)
  unfolding recv_status recv_usb
  status_handled s (c, i, b) p =
      ▷-Ok _ _ (recv_usb k ep req) (λ _. ret true) s refl
        (rw (c, i, b, recv_usb) (data_received s p)) (λ _ s' p'. (refl, p'))

  -- When a transfer on a bulk or an interrupt endpoint has succeeded, recv never leaves the memory
  -- and frees the request, also when the message could not be sent to userland: for the newest
  -- request of the endpoint, the endpoints and the count of what is allocated are then those before
  -- its allocation.
  pub recv-freed :
      (s : DriverState W)
      → IsData ep
      → req.transfer.status ≡ pos 0
      → Pushed s0 ep.ref req s
      → Ok (λ _ s'. Grew s0 0 s') (recv k ep req s)
  unfolding recv ep_free_driver_request
  recv-freed s kind ok p =
      ▷-Ok _ _ (recv_status k ep req req.transfer.status)
        (λ go_on. if go_on then ep_free_driver_request k ep req else ret tt) s refl
        (subst
          (λ st.
            Ok (λ go_on s'. (go_on ≡ true) × Pushed s0 ep.ref req s') (recv_status k ep req st s))
          (sym ok) (status_handled s kind p))
        (λ go_on s' (e, p'). rw e (free_driver_request-Ok k s0 ep req s' p'))
