-- ===== src/Gadget/Disabling.antt =====
-- disable_interface of gadget.c.
use usbq_core.Action.{Ok, Ok-map, lift, ▷-Ok, ◌▷◌}
use usbq_core.Endpoint.{Heap, Kernel, find_endpoint, release}
use usbq_core.Gadget.{GadgetEndpoint, GadgetFlags, GadgetRequest, GadgetState, Udc, UsbEp}
use usbq_core.Gadget.Cleanup.{Dequeues, dequeue_requests-live}
use usbq_core.Gadget.Interfaces.{
  disable_gadget_endpoint, disable_gadget_endpoints, disable_interface,
}
use usbq_core.Gadget.State.{
  dequeue_request, dequeue_requests, endpoint_at, find_gadget_endpoint, free_gadget_endpoint,
  interface_at, put_interface_at, set_active,
}
use usbq_core.Identity.{InterfaceDesc, b_num_endpoints}
use usbq_core.Part.{list_del}
use usbq_core.Part.Addresses.{Addressed, Addressed-remove, free_endpoint-next}
use usbq_core.Part.Cleanup.{free_endpoint-live, objects}
use usbq_core.Part.Table.{list_del-remove, objects-remove, remove, remove-none, remove_all}
use usbq_core.Types.{Epid, epid_of_desc}
use usbq_core.Prelude.{
  Bool-cases, Bytes, List, Option-cases, [], ap, arith, drop, get_elem?, get_elem?-drop,
  get_elem?-lt, get_elem?-set_self, inl, inr, is_neg, length, map, pos, refl, set, some, subst, suc,
  sym, take, zero, ℕ, ◌+◌, ◌∙◌, ◌∷◌, ◌≡◌, ◌≤◌,
}

-- The endpoints have distinct addresses, before that of the next object, and `n` objects are
-- allocated besides theirs.
pub record Tidy {W : Type 0} (n : ℕ) (s : GadgetState W) : Type 0 where
  pub addressed : Addressed s
  pub live_eq : s.heap.live ≡ objects s.eplist + n

-- `own` stays, and of the endpoints the newest of each identity goes.
pub record Removed {W : Type 0} (n : ℕ) (own : GadgetFlags) (ids : List Epid)
    (list : List GadgetEndpoint) (s' : GadgetState W) : Type 0 where
  pub own_eq : s'.own ≡ own
  pub eplist_eq : s'.eplist ≡ remove_all ids list
  pub tidy : Tidy n s'

module _ {W : Type 0} (k : Kernel W) (g : Udc W) (dequeues : Dequeues g) (n : ℕ) where
  dequeue_request-next :
      (usb_ep : UsbEp) (req : GadgetRequest) (h : Heap W)
      → (dequeue_request k g usb_ep req h).next ≡ h.next
  unfolding dequeue_request release
  dequeue_request-next usb_ep req h =
      elim (Bool-cases (is_neg ((g.usb_ep_dequeue usb_ep req.transfer h.world).0))) [
        | inl neg ↦ rw (neg, dequeue_request)
        | inr ok ↦ rw (ok, dequeue_request)
      ]

  dequeue_requests-next :
      (usb_ep : UsbEp) (list : List GadgetRequest) (h : Heap W)
      → (dequeue_requests k g usb_ep list h).next ≡ h.next
  unfolding dequeue_requests
  dequeue_requests-next usb_ep [] h = refl
  dequeue_requests-next usb_ep (req ∷ list) h =
      dequeue_requests-next usb_ep list (dequeue_request k g usb_ep req h)
      ∙ dequeue_request-next usb_ep req h

  -- The endpoint that was found is the newest of its identity, and all of its objects are freed.
  pub found_freed :
      (id : Epid) (ep : GadgetEndpoint) (s : GadgetState W)
      → Tidy n s
      → find_endpoint id s.eplist ≡ some ep
      → Ok (λ _ s'. Removed n s.own (id ∷ []) s.eplist s') (free_gadget_endpoint k g ep s)
  unfolding free_gadget_endpoint remove_all
  found_freed id ep s t e =
      let gone : list_del ep.ref s.eplist ≡ remove id s.eplist =
        list_del-remove id ep s.eplist t.addressed.distinct e in
      record {
        own_eq = refl;
        eplist_eq = gone;
        tidy = record {
          addressed =
              Addressed-remove s _ t.addressed id gone
                (free_endpoint-next k ep _ ∙ dequeue_requests-next ep.usb_ep ep.reqlist _);
          live_eq = rw gone (
              omega (
                arith,
                free_endpoint-live k ep ep.desc _ refl,
                dequeue_requests-live k g dequeues ep.usb_ep ep.reqlist _,
                objects-remove id ep s.eplist e,
                t.live_eq,
              ));
        };
      }

  module _ (interface : InterfaceDesc) (i : ℕ) (own : GadgetFlags)
      (at_i : get_elem? own.identity.interfaces i ≡ some interface) where
    endpoint_at-some :
        (s : GadgetState W) (j : ℕ) (desc : Bytes)
        → s.own ≡ own
        → get_elem? interface.endpoints j ≡ some desc
        → endpoint_at i j s ≡ some (desc, s)
    unfolding endpoint_at interface_at
    endpoint_at-some s j desc same at_j =
        let here : get_elem? s.own.identity.interfaces i ≡ some interface =
          ap (λ o. get_elem? o.identity.interfaces i) same ∙ at_i in
        rw (here, ◌▷◌, lift, at_j)

    disable_gadget_endpoint-Removed :
        (s : GadgetState W) (j : ℕ) (desc : Bytes)
        → s.own ≡ own
        → get_elem? interface.endpoints j ≡ some desc
        → Tidy n s
        → Ok
            (λ _ s'. Removed n own (epid_of_desc desc ∷ []) s.eplist s')
            (disable_gadget_endpoint k g i j s)
    unfolding disable_gadget_endpoint find_gadget_endpoint remove_all
    disable_gadget_endpoint-Removed s j desc same at_j t =
        rw (endpoint_at-some s j desc same at_j, Ok, ◌▷◌)
          (elim (Option-cases (find_endpoint (epid_of_desc desc) s.eplist)) [
            | inl e ↦
                rw (e, Ok)
                  (record {
                    own_eq = same;
                    eplist_eq = sym (remove-none (epid_of_desc desc) s.eplist e);
                    tidy = t;
                  })
            | inr (ep, e) ↦
                rw (e, Ok)
                  (subst
                    (λ o.
                      Ok (λ _ s'. Removed n o (epid_of_desc desc ∷ []) s.eplist s')
                        (free_gadget_endpoint k g ep s))
                    same (found_freed (epid_of_desc desc) ep s t e))
          ])

    disable_gadget_endpoints-Removed :
        (m j : ℕ) (s : GadgetState W)
        → s.own ≡ own
        → j + m ≤ length interface.endpoints
        → Tidy n s
        → Ok
            (λ err s'.
              (err ≡ pos 0)
              × Removed n own (map epid_of_desc (take m (drop j interface.endpoints))) s.eplist s')
            (disable_gadget_endpoints k g m i j s)
    unfolding disable_gadget_endpoints remove_all
    disable_gadget_endpoints-Removed zero j s same h t =
        (refl, record { own_eq = same; eplist_eq = refl; tidy = t })
    disable_gadget_endpoints-Removed (suc m) j s same h t =
        let (desc, at_j, from_j) = get_elem?-drop interface.endpoints j (omega arith) in
        ▷-Ok _ _ (disable_gadget_endpoint k g i j) (λ _. disable_gadget_endpoints k g m i (suc j)) s
          refl (disable_gadget_endpoint-Removed s j desc same at_j t)
          (λ _ s' r.
            Ok-map _ _ (disable_gadget_endpoints k g m i (suc j) s')
              (λ err s'' (ok, r'). (
                ok,
                record {
                  own_eq = r'.own_eq;
                  eplist_eq = rw from_j (
                      r'.eplist_eq
                      ∙ ap
                          (remove_all
                            (map epid_of_desc (take m (drop (suc j) interface.endpoints))))
                          r.eplist_eq);
                  tidy = r'.tidy;
                },
              ))
              (disable_gadget_endpoints-Removed m (suc j) s' r.own_eq (omega arith) r.tidy))

  -- gadget_state with `active` of interface `i` set.
  abbrev pub with_active : ℕ → ℕ → InterfaceDesc → GadgetFlags → GadgetFlags
  with_active i a interface own = record own {
    identity = record own.identity {
      interfaces = set own.identity.interfaces i (record interface { active = a });
    };
  }

  -- If every queued request can be dequeued, the endpoints have distinct addresses, all before that
  -- of the next object, which stays so, and the descriptor of interface `i` counts no more
  -- endpoints than its array has, disable_interface returns 0, never leaves the memory, marks the
  -- interface as not active and changes nothing else of the identity. For each of its endpoint
  -- descriptors, the newest endpoint with that identity, if there is one, is gone with all that was
  -- allocated for it; every other endpoint stays.
  pub disable_interface-Removed :
      (i : ℕ) (interface : InterfaceDesc) (s : GadgetState W)
      → get_elem? s.own.identity.interfaces i ≡ some interface
      → b_num_endpoints interface.desc ≤ length interface.endpoints
      → Tidy n s
      → Ok
          (λ err s'.
            (err ≡ pos 0)
            × Removed n
                (with_active i 0 interface s.own)
                (map epid_of_desc (take (b_num_endpoints interface.desc) interface.endpoints))
                s.eplist
                s')
          (disable_interface k g i s)
  unfolding disable_interface set_active put_interface_at interface_at
  disable_interface-Removed i interface s at_i h t =
      let after : get_elem? (with_active i 0 interface s.own).identity.interfaces i
          ≡ some (record interface { active = 0 }) =
        get_elem?-set_self s.own.identity.interfaces i _
          (get_elem?-lt s.own.identity.interfaces i interface at_i) in
      rw (at_i, Ok, ◌▷◌, after)
        (disable_gadget_endpoints-Removed (record interface { active = 0 }) i
          (with_active i 0 interface s.own) after (b_num_endpoints interface.desc) 0
          (record s { own = with_active i 0 interface s.own }) refl (omega (arith, h))
          (record {
            addressed = record { distinct = t.addressed.distinct; before = t.addressed.before };
            live_eq = t.live_eq;
          }))
