-- ===== src/Driver/Refinement.antt =====
-- The endpoint management of driver.c as a table of stacks, one for each identity.
use usbq_core.Action.{Ok, Ok-both, ◌▷◌}
use usbq_core.Driver.Adding.{add_driver_endpoint-Added}
use usbq_core.Driver.Interfaces.{disable_endpoint}
use usbq_core.Driver.State.{
  DriverEndpoint, DriverRequest, DriverState, add_driver_endpoint, cancel_driver_request,
  cancel_requests, find_driver_endpoint, free_driver_endpoint,
}
use usbq_core.Endpoint.{Heap, Kernel, find_endpoint, release, same_epid}
use usbq_core.Part.Accounts.{Gives}
use usbq_core.Part.Adding.{Added}
use usbq_core.Part.Addresses.{
  Addressed, Addressed-remove, add_endpoint-Addressed, free_endpoint-next,
}
use usbq_core.Part.Stacks.{below, find_endpoint-top, stack, stack-push, stack-remove, top}
use usbq_core.Part.Table.{list_del-remove, remove, remove-none}
use usbq_core.Types.{Epid, epid_of_desc}
use usbq_core.Prelude.{
  Bytes, List, Option, Option-cases, [], ap, if◌then◌else◌, inl, inr, none, refl, some, subst, sym,
  ◌∙◌, ◌∷◌, ◌≡◌,
}

module _ {W : Type 0} (k : Kernel W) (id : Epid) where
  -- What adding and disabling do to the stack of `id`.
  abbrev pub Adds : DriverState W → Bytes → Option DriverEndpoint → DriverState W → Type 0
  Adds s d none s' = Addressed s' × (stack id s'.eplist ≡ stack id s.eplist)
  Adds s d (some ep) s' =
      Addressed s'
      × (stack id s'.eplist
          ≡ (if same_epid id (epid_of_desc d) then ep ∷ stack id s.eplist else stack id s.eplist))

  abbrev pub Takes : DriverState W → Bytes → Unit {0} → DriverState W → Type 0
  Takes s d _ s' =
      Addressed s'
      × (stack id s'.eplist ≡ (
          if same_epid id (epid_of_desc d) then below (stack id s.eplist) else stack id s.eplist))

  added :
      (gives : Gives k) (s : DriverState W) (d : Bytes)
      → Addressed s
      → Ok (Adds s d) (add_driver_endpoint k d s)
  unfolding add_driver_endpoint
  added gives s d a =
      Ok-both (Added tt s d) (λ _ s'. Addressed s') (Adds s d) (add_driver_endpoint k d s)
        (elim [
          | none ↦ λ s' (same, _, _, _) a'. (a', ap (stack id) same)
          | some ep ↦ λ s' (list, id_eq, _, _, _, _, _) a'. (
            a',
            ap (stack id) list
                ∙ subst
                    (λ e.
                      stack id (ep ∷ s.eplist)
                      ≡ (if same_epid id e then ep ∷ stack id s.eplist else stack id s.eplist))
                    id_eq (stack-push id ep s.eplist),
          )
        ])
        (add_driver_endpoint-Added k gives d s) (add_endpoint-Addressed k tt d s a 64)

  removed :
      (s s' : DriverState W) (d : Bytes)
      → Addressed s
      → s'.eplist ≡ remove (epid_of_desc d) s.eplist
      → s'.heap.next ≡ s.heap.next
      → Takes s d tt s'
  removed s s' d a gone next = (
    Addressed-remove s s' a (epid_of_desc d) gone next,
    ap (stack id) gone ∙ stack-remove (epid_of_desc d) id s.eplist,
  )

  -- Freeing gives no addresses away.
  pub cancel_requests-next :
      (list : List DriverRequest) (h : Heap W) → (cancel_requests k list h).next ≡ h.next
  unfolding cancel_requests cancel_driver_request release
  cancel_requests-next [] h = refl
  cancel_requests-next (req ∷ list) h = cancel_requests-next list (cancel_driver_request k req h)

  taken : (s : DriverState W) (d : Bytes) → Addressed s → Ok (Takes s d) (disable_endpoint k d s)
  unfolding disable_endpoint find_driver_endpoint free_driver_endpoint
  taken s d a = elim (Option-cases (find_endpoint (epid_of_desc d) s.eplist)) [
    | inl e ↦ rw (e, Ok, ◌▷◌) (removed s s d a (sym (remove-none (epid_of_desc d) s.eplist e)) refl)
    | inr (ep, e) ↦
        rw (e, Ok, ◌▷◌)
          (removed s _ d a (list_del-remove (epid_of_desc d) ep s.eplist a.distinct e) (
            free_endpoint-next k ep (cancel_requests k ep.reqlist s.heap)
            ∙ cancel_requests-next ep.reqlist s.heap))
  ]

  -- The endpoints of the driver implement a table of stacks, one for each identity, if kmalloc
  -- gives as many bytes as it is asked for and the addresses in the list are distinct and before
  -- that of the next object, which both ways to change the list keep. For every identity: finding
  -- it gives the top of its stack, and changes nothing. Adding the endpoint of a descriptor puts it
  -- on top if the descriptor has this identity, and otherwise, or when it fails, leaves the stack.
  -- The loop body of disable_driver_interface takes the top away if the descriptor has this
  -- identity, and otherwise leaves the stack. Memory is never left.
  pub driver_endpoints-Stacks :
      (gives : Gives k) (s : DriverState W) (d : Bytes)
      → Addressed s
      → (find_driver_endpoint k id s ≡ some (top (stack id s.eplist), s))
        × Ok (Adds s d) (add_driver_endpoint k d s)
        × Ok (Takes s d) (disable_endpoint k d s)
  unfolding find_driver_endpoint
  driver_endpoints-Stacks gives s d a =
      (ap (λ o. some (o, s)) (find_endpoint-top id s.eplist), added gives s d a, taken s d a)
