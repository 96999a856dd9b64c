-- ===== src/Gadget/Completing.antt =====
-- The completion of a request that the host took the data of: gadget_recv_usb of gadget.c.
use usbq_core.Action.{Ok, Ok-map, lift, ▷-Ok, ◌▷◌}
use usbq_core.Endpoint.{Kernel, memory, release, send_userland}
use usbq_core.Gadget.{GadgetEndpoint, GadgetRequest, GadgetState, Udc}
use usbq_core.Gadget.Callbacks.{
  acknowledge_in, ep_gadget_recv_usb, ep_gadget_send_userland, gadget_recv_usb, recv_completed,
  recv_gadget_usb,
}
use usbq_core.Gadget.Requests.{ep_free_gadget_request, free_gadget_request}
use usbq_core.Msg.{Msg, ack_type, alloc_msg_ack}
use usbq_core.Msg.Ack.{IsAck, alloc_msg_ack-null}
use usbq_core.Msg.Check.{IsEpid}
use usbq_core.Msg.Headers.{IsNarrow}
use usbq_core.Part.{free_msg, msg_memory, new_ack, with_msg}
use usbq_core.Part.Accounts.{Gives, Grew, Pushed, free_request-Ok}
use usbq_core.Part.Requests.{free_request}
use usbq_core.Types.{Epid, is_bulk, is_ctrl, is_in, is_interrupt, is_isochronous, is_out}
use usbq_core.Prelude.{
  [], arith, false, inl, inr, is_neg, none, refl, some, true, ◌||◌, ◌∙◌, ◌≡◌, ◌⊎◌,
}

-- The identity is that of an endpoint, and its number fits its field.
pub record IsReal (e : Epid) : Type 0 where
  pub real : IsEpid e
  pub narrow : IsNarrow e

module _ {W : Type 0} (k : Kernel W) (gives : Gives k) (g : Udc W) (s0 : GadgetState W)
    (ep : GadgetEndpoint) (req : GadgetRequest) where
  -- The kernel after the allocation of the acknowledgement.
  abbrev pub after_kmalloc : GadgetState W → W
  after_kmalloc s = (k.kmalloc (msg_memory 0 ack_type) s.heap.world).1

  -- From `s`, userland was sent the acknowledgement that alloc_msg_ack made there; or there it made
  -- none, and nothing was sent.
  abbrev pub Reported : GadgetState W → GadgetState W → Type 0
  Reported s s' =
      (alloc_msg_ack (memory k s.heap.world) ep.epid req.transfer.status none 0 ≡ some none)
        × (s'.heap.world ≡ after_kmalloc s)
      ⊎ ((m : Msg) × (alloc_msg_ack (memory k s.heap.world) ep.epid req.transfer.status none 0
            ≡ some (some m))
          × IsAck ep.epid req.transfer.status [] m
          × (s'.heap.world ≡ (g.com_send m (after_kmalloc s)).1))

  -- The request is still in the list.
  abbrev Waits : GadgetState W → Type 0
  Waits s' = Pushed s0 ep.ref req s'

  acknowledged :
      (s : GadgetState W)
      → IsReal ep.epid
      → Waits s
      → Ok
          (λ _ s'. Waits s' × Reported s s')
          ((new_ack k ep.epid req.transfer.status none 0 ▷ acknowledge_in k g) s)
  unfolding new_ack with_msg acknowledge_in free_msg release ep_gadget_send_userland send_userland
  acknowledged s r p =
      elim (alloc_msg_ack-null (memory k s.heap.world) (gives s.heap.world) ep.epid
        req.transfer.status r.real r.narrow) [
          | inl e ↦
              rw (e, Ok, lift, ◌▷◌, acknowledge_in)
                (
                  record {
                    own_eq = p.own_eq;
                    pushed = p.pushed;
                    live_eq = p.live_eq;
                    next_le = omega (arith, p.next_le);
                  },
                  inl (e, refl),
                )
          | inr (m, e, ack) ↦
              rw (e, Ok, lift, ◌▷◌, acknowledge_in)
                (
                  record {
                    own_eq = p.own_eq;
                    pushed = p.pushed;
                    live_eq = omega (arith, p.live_eq);
                    next_le = omega (arith, p.next_le);
                  },
                  inr (m, e, ack, refl),
                )
        ]

  freed :
      (s : GadgetState W)
      → Waits s
      → Ok
          (λ _ s'. Grew s0 0 s' × (s'.heap.world ≡ s.heap.world))
          (ep_free_gadget_request k g ep req s)
  unfolding ep_free_gadget_request free_gadget_request free_request release
  freed s p = (unfold free_request release in free_request-Ok k s0 ep req s p, refl)

  data_received :
      (s : GadgetState W)
      → IsReal ep.epid
      → is_in ep.epid ≡ true
      → is_ctrl ep.epid ≡ false
      → Waits s
      → Ok (λ _ s'. Waits s' × Reported s s') (recv_gadget_usb k g ep req s)
  unfolding recv_gadget_usb ep_gadget_recv_usb
  data_received s r sends c p =
      let inward : is_out ep.epid ≡ false = ground (arith, sends) in
      let served : (is_isochronous ep.epid || is_bulk ep.epid || is_interrupt ep.epid) ≡ true =
        ground (arith, r.real.type_le, c) in
      rw (c, served, recv_gadget_usb, inward, ep_gadget_recv_usb) (acknowledged s r p)

  -- When the host took the data of the newest request of an IN endpoint other than a control
  -- endpoint, and kmalloc gives as many bytes as it is asked for, gadget_recv_usb never leaves the
  -- memory, and frees the request: the endpoints and the count of what is allocated are those
  -- before its allocation. If kmalloc, as it is when the call begins, has memory for an
  -- acknowledgement, userland is sent one of the endpoint with the status of the transfer and
  -- without data; if not, nothing is sent, and only kmalloc was called.
  pub gadget_recv_usb-Reported :
      (s : GadgetState W)
      → IsReal ep.epid
      → is_in ep.epid ≡ true
      → is_ctrl ep.epid ≡ false
      → is_neg req.transfer.status ≡ false
      → Pushed s0 ep.ref req s
      → Ok (λ _ s'. Grew s0 0 s' × Reported s s') (gadget_recv_usb k g ep req s)
  unfolding gadget_recv_usb recv_completed
  gadget_recv_usb-Reported s r sends c good p =
      rw (good, gadget_recv_usb)
        (▷-Ok (λ _ s'. Grew s0 0 s' × Reported s s') _ (recv_gadget_usb k g ep req)
          (λ _. ep_free_gadget_request k g ep req) s refl (data_received s r sends c p)
          (λ _ s' (p', told).
            Ok-map _ _ (ep_free_gadget_request k g ep req s')
              (λ _ s'' (grew, same). (
                grew,
                elim told [
                  | inl (nothing, w) ↦ inl (nothing, same ∙ w)
                  | inr (m, made, ack, w) ↦ inr (m, made, ack, same ∙ w)
                ],
              ))
              (freed s' p')))
