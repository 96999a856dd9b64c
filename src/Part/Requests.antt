-- ===== src/Part/Requests.antt =====
-- alloc_driver_request and alloc_gadget_request, free_driver_request and free_gadget_request, which
-- differ in how a transfer is allocated.
use usbq_core.Action.{Act, lift, ret, ◌▷◌}
use usbq_core.Endpoint.{Endpoint, Kernel, Request, allocate, memory, release}
use usbq_core.Msg.{Msg, alloc_msg, msg_set_epid}
use usbq_core.Part.{Part, call, list_del_request, msg_memory, on_heap, on_reqlist, put_request}
use usbq_core.Prelude.{Bool, Option, false, none, some, suc, true, ℕ, ◌∷◌}

module _ {O U X W : Type 0} (k : Kernel W) (alloc_transfer : W → Bool × W) (blank : Msg → U) where
  -- The part from alloc_msg on: fail3 frees the transfer, fail2 the request. A new transfer is
  -- `blank`.
  unfoldable pub alloc_request_msg :
      Endpoint U X → (sz type ref : ℕ) → Act (Part O U X W) (Option (Request U))
  alloc_request_msg ep sz type ref s =
      let w : W = (k.kmalloc (msg_memory sz type) s.heap.world).1 in
      (lift (alloc_msg (memory k s.heap.world) sz type) ▷ elim [
        | none ↦
            on_heap (λ h. (tt {0}, release k (release k (record h { world = w })))) ▷ λ _. ret none
        | some msg ↦ on_heap (λ h. (tt {0}, record h { world = w; live = suc h.live })) ▷ λ _.
            lift (msg_set_epid msg ep.epid) ▷ λ msg'.
            on_reqlist ep.ref
              (λ list. record { ref = ref; msg = msg'; transfer = blank msg' } ∷ list)
            ▷ λ _. ret (some (record { ref = ref; msg = msg'; transfer = blank msg' }))
      ])
        s

  unfoldable pub alloc_request_transfer :
      Endpoint U X → (sz type ref : ℕ) → Act (Part O U X W) (Option (Request U))
  alloc_request_transfer ep sz type ref = call alloc_transfer ▷ elim [
    | false ↦ on_heap (λ h. (tt {0}, release k h)) ▷ λ _. ret none
    | true ↦ on_heap (λ h. (tt {0}, record h { live = suc h.live })) ▷ λ _.
        alloc_request_msg ep sz type ref
  ]

  -- With the size of the struct of the request.
  unfoldable pub alloc_request :
      Endpoint U X → (size sz type : ℕ) → Act (Part O U X W) (Option (Request U))
  alloc_request ep size sz type s =
      (on_heap (allocate k size)
          ▷ elim [ true ↦ alloc_request_transfer ep sz type s.heap.next | false ↦ ret none ])
        s

module _ {O U X W : Type 0} (k : Kernel W) where
  unfoldable pub free_request : Endpoint U X → Request U → Act (Part O U X W) (Unit {0})
  free_request ep req = on_reqlist ep.ref (list_del_request req.ref) ▷ λ _.
      on_heap (λ h. (tt {0}, release k (release k (release k h))))

  -- The request after it is filled, which is the one that the list holds.
  unfoldable pub filled : Endpoint U X → Request U → Act (Part O U X W) (Option (Request U))
  filled ep req = on_reqlist ep.ref (put_request req) ▷ λ _. ret (some req)
