-- ===== src/Part.antt =====
-- What gadget.c and driver.c do alike: their lists of endpoints, the requests of an endpoint, and
-- the memory of both.
pub mod Lists
pub mod Accounts
pub mod Cleanup
pub mod Requests
pub mod Adding
pub mod Table
pub mod Addresses
pub mod Members
pub mod Held
pub mod Stacks
use usbq_core.Action.{Act, lift, ret, ◌▷◌}
use usbq_core.Endpoint.{
  Endpoint, Heap, Kernel, Request, allocate, create_endpoint, create_ep0_endpoint, memory, release,
}
use usbq_core.Msg.{Kmalloc, Msg, ack_type, alloc_msg_ack, msg_diff_size}
use usbq_core.Types.{Epid}
use usbq_core.Prelude.{
  Bytes, List, Option, [], add32, false, if◌then◌else◌, none, some, suc, true, ℕ, ℤ, ◌==◌, ◌∷◌,
}

-- gadget_state and driver_state: what one part has of its own, the endpoints, and the memory. The
-- device is within the kernel, whose state `heap.world` is.
pub record Part (O U X W : Type 0) : Type 0 where
  pub own : O
  pub eplist : List (Endpoint U X)
  pub heap : Heap W

-- The list with the endpoint at an address changed, or deleted.
unfoldable pub at_ref :
    {U X : Type 0} → ℕ → (Endpoint U X → Endpoint U X) → List (Endpoint U X) → List (Endpoint U X)
at_ref ref f [] = []
at_ref ref f (ep ∷ list) =
    let rest = at_ref ref f list in if ep.ref == ref then f ep ∷ list else ep ∷ rest

unfoldable pub list_del : {U X : Type 0} → ℕ → List (Endpoint U X) → List (Endpoint U X)
list_del ref [] = []
list_del ref (ep ∷ list) = let rest = list_del ref list in if ep.ref == ref then list else ep ∷ rest

-- The same for the requests of an endpoint.
unfoldable pub put_request : {U : Type 0} → Request U → List (Request U) → List (Request U)
put_request req [] = []
put_request req (r ∷ list) =
    let rest = put_request req list in if r.ref == req.ref then req ∷ list else r ∷ rest

unfoldable pub list_del_request : {U : Type 0} → ℕ → List (Request U) → List (Request U)
list_del_request ref [] = []
list_del_request ref (r ∷ list) =
    let rest = list_del_request ref list in if r.ref == ref then list else r ∷ rest

-- What alloc_msg asks of kmalloc.
abbrev pub msg_memory : ℕ → ℕ → ℕ
msg_memory sz type = add32 (add32 sz (msg_diff_size type)) 4

module _ {O U X W : Type 0} where
  -- An action on the heap.
  abbrev pub on_heap : {A : Type 0} → (Heap W → A × Heap W) → Act (Part O U X W) A
  on_heap f s = some ((f s.heap).0, record s { heap = (f s.heap).1 })

  -- A call of the kernel.
  abbrev pub call : {A : Type 0} → (W → A × W) → Act (Part O U X W) A
  call f = on_heap (λ h. ((f h.world).0, record h { world = (f h.world).1 }))

  abbrev pub on_eplist : (List (Endpoint U X) → List (Endpoint U X)) → Act (Part O U X W) (Unit {0})
  on_eplist f s = some (tt, record s { eplist = f s.eplist })

  abbrev pub on_reqlist : ℕ → (List (Request U) → List (Request U)) → Act (Part O U X W) (Unit {0})
  on_reqlist ref f = on_eplist (at_ref ref (λ ep. record ep { reqlist = f ep.reqlist }))

  -- list_for_each_entry_safe: the loop reads the next endpoint before it frees one.
  unfoldable pub for_each_endpoint :
      (Endpoint U X → Act (Part O U X W) (Unit {0}))
      → List (Endpoint U X)
      → Act (Part O U X W) (Unit {0})
  for_each_endpoint free [] = ret tt
  for_each_endpoint free (ep ∷ list) = free ep ▷ λ _. for_each_endpoint free list

  module _ (k : Kernel W) where
    -- The end of the functions that add an endpoint: list_add, or kfree(ep).
    unfoldable pub keep_endpoint :
        Option (Endpoint U X) → Act (Part O U X W) (Option (Endpoint U X))
    keep_endpoint (some ep) = on_eplist (λ list. ep ∷ list) ▷ λ _. ret (some ep)
    keep_endpoint none = on_heap (λ h. (tt {0}, release k h)) ▷ λ _. ret none

    -- The two ways to add an endpoint, with the size of its struct.
    unfoldable pub add_ep0_endpoint : X → ℕ → ℕ → Act (Part O U X W) (Option (Endpoint U X))
    add_ep0_endpoint usb_ep size epdir s =
        (on_heap (allocate k size) ▷ elim [
          | true ↦ on_heap (create_ep0_endpoint k usb_ep s.heap.next epdir) ▷ keep_endpoint
          | false ↦ ret none
        ])
          s

    unfoldable pub add_endpoint : X → ℕ → Bytes → Act (Part O U X W) (Option (Endpoint U X))
    add_endpoint usb_ep size epdesc s =
        (on_heap (allocate k size) ▷ elim [
          | true ↦ on_heap (create_endpoint k usb_ep s.heap.next epdesc) ▷ keep_endpoint
          | false ↦ ret none
        ])
          s

    -- The memory of a message that alloc_msg gave, with what is done to it, then free_msg.
    unfoldable pub with_msg : ℕ → (Kmalloc → Option (Option Msg)) → Act (Part O U X W) (Option Msg)
    with_msg n alloc s =
        let w : W = (k.kmalloc n s.heap.world).1 in
        (lift (alloc (memory k s.heap.world)) ▷ λ m.
        on_heap
          (λ h. (m, record h { world = w; live = elim m [ none ↦ h.live | some _ ↦ suc h.live ] })))
          s

    unfoldable pub free_msg : Act (Part O U X W) (Unit {0})
    free_msg = on_heap (λ h. (tt {0}, release k h))

    -- alloc_msg_ack(epid, status, buf, size)
    unfoldable pub new_ack : Epid → ℤ → Option Bytes → ℕ → Act (Part O U X W) (Option Msg)
    new_ack epid status buf size =
        with_msg (msg_memory size ack_type) (λ kmalloc. alloc_msg_ack kmalloc epid status buf size)
