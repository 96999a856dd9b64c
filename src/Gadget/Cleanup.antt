-- ===== src/Gadget/Cleanup.antt =====
-- clean_endpoints and callback_reset of gadget.c.
use usbq_core.Action.{Ok, ret, ▷-Ok, ◌▷◌}
use usbq_core.Endpoint.{Heap, Kernel, release}
use usbq_core.Gadget.{GadgetRequest, GadgetState, Udc, UsbEp, UsbRequest}
use usbq_core.Gadget.Dispatch.{
  callback_reset, gadget_recv_userland, gadget_recv_userland_management, ubq_unregister,
}
use usbq_core.Gadget.State.{
  clean_gadget_endpoints, dequeue_request, dequeue_requests, free_gadget_endpoint,
}
use usbq_core.Msg.{Msg, is_management_msg, is_reset_mng_msg, is_usb_msg}
use usbq_core.Part.{list_del}
use usbq_core.Part.Cleanup.{Frees, for_each_endpoint-freed, free_endpoint-live, objects}
use usbq_core.Part.Lists.{list_del-head}
use usbq_core.Prelude.{
  List, [], ap, arith, error_or_zero, false, is_neg, length, pos, refl, true, ℕ, ℤ, ◌*◌, ◌+◌, ◌-◌,
  ◌∙◌, ◌∷◌, ◌≡◌,
}

-- usb_ep_dequeue finds every request that is queued.
abbrev pub Dequeues : {W : Type 0} → Udc W → Type 0
Dequeues {W = W} g =
    (ep : UsbEp) (req : UsbRequest) (w : W) → is_neg (g.usb_ep_dequeue ep req w).0 ≡ false

module _ {W : Type 0} (k : Kernel W) (g : Udc W) (dequeues : Dequeues g) where
  dequeue_request-live :
      (ep : UsbEp) (req : GadgetRequest) (h : Heap W)
      → (dequeue_request k g ep req h).live ≡ h.live - 3
  unfolding dequeue_request release
  dequeue_request-live ep req h =
      rw (dequeues ep req.transfer h.world, dequeue_request) (omega arith)

  pub dequeue_requests-live :
      (ep : UsbEp) (list : List GadgetRequest) (h : Heap W)
      → (dequeue_requests k g ep list h).live ≡ h.live - length list * 3
  unfolding dequeue_requests
  dequeue_requests-live ep [] h = omega arith
  dequeue_requests-live ep (req ∷ list) h = omega (
    arith,
    dequeue_requests-live ep list (dequeue_request k g ep req h),
    dequeue_request-live ep req h,
  )

  pub free_gadget_endpoint-Accounted : Frees (free_gadget_endpoint k g)
  unfolding free_gadget_endpoint objects
  free_gadget_endpoint-Accounted own n ep list s a = record {
    own_eq = a.own_eq;
    eplist_eq = ap (list_del ep.ref) a.eplist_eq ∙ list_del-head ep list;
    live_eq = omega (
      arith,
      free_endpoint-live k ep ep.desc _ refl,
      dequeue_requests-live ep.usb_ep ep.reqlist _,
      a.live_eq,
    );
  }

  -- If every queued request can be dequeued and `n` objects are allocated besides those of
  -- endpoints and requests, clean_endpoints of the gadget never leaves the memory, leaves no
  -- endpoint, and leaves `n` objects allocated.
  pub clean_gadget_endpoints-Accounted :
      (n : ℕ) (s : GadgetState W)
      → s.heap.live ≡ objects s.eplist + n
      → Ok
          (λ _ s'. (s'.eplist ≡ []) × (s'.heap.live ≡ n) × (s'.own ≡ s.own))
          (clean_gadget_endpoints k g s)
  unfolding clean_gadget_endpoints
  clean_gadget_endpoints-Accounted =
      for_each_endpoint-freed (free_gadget_endpoint k g) free_gadget_endpoint-Accounted

  -- What a reset leaves.
  abbrev pub Disconnected : GadgetState W → ℕ → ℤ → GadgetState W → Type 0
  Disconnected s n err s' =
      (err ≡ pos 0)
      × (s'.own.registered ≡ 0)
      × (s'.own.identity ≡ s.own.identity)
      × (s'.eplist ≡ [])
      × (s'.heap.live ≡ n)

  callback_reset-Disconnected :
      (n : ℕ) (s : GadgetState W)
      → s.heap.live ≡ objects s.eplist + n
      → Ok (Disconnected s n) (callback_reset k g s)
  unfolding callback_reset ubq_unregister
  callback_reset-Disconnected n s e =
      ▷-Ok (Disconnected s n) _ (clean_gadget_endpoints k g) (λ _. ret (pos 0)) _ refl
        (clean_gadget_endpoints-Accounted n _ e)
        (λ _ s' (nil, live, own).
          (refl, ap (λ o. o.registered) own, ap (λ o. o.identity) own, nil, live))

  -- If every queued request can be dequeued and `n` objects are allocated besides those of
  -- endpoints and requests, a RESET message from userland is answered with 0 by the gadget. It then
  -- counts as not registered, has no endpoint and the identity it had, `n` objects are allocated,
  -- and the memory is never left.
  pub gadget_recv_userland-Disconnected :
      (msg : Msg) (n : ℕ) (s : GadgetState W)
      → is_reset_mng_msg msg ≡ true
      → s.heap.live ≡ objects s.eplist + n
      → Ok (Disconnected s n) (gadget_recv_userland k g msg s)
  unfolding gadget_recv_userland gadget_recv_userland_management
  gadget_recv_userland-Disconnected msg n s r e =
      let managed : is_management_msg msg ≡ true = ground (arith, r) in
      let other : is_usb_msg msg ≡ false = ground (arith, managed) in
      rw (other, r, managed, gadget_recv_userland, gadget_recv_userland_management)
        (▷-Ok (Disconnected s n) _ (callback_reset k g ▷ λ err. ret (error_or_zero err))
          (λ err. ret (error_or_zero err)) s refl
          (▷-Ok (Disconnected s n) _ (callback_reset k g) (λ err. ret (error_or_zero err)) s refl
            (callback_reset-Disconnected n s e) (λ err s' (ok, a, b, c, d). (rw ok, a, b, c, d)))
          (λ err s' (ok, a, b, c, d). (rw ok, a, b, c, d)))
