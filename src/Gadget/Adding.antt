-- ===== src/Gadget/Adding.antt =====
-- add_gadget_endpoint of gadget.c.
use usbq_core.Action.{Ok, Ok-both, ret, ▷-Ok, ◌▷◌}
use usbq_core.Endpoint.{Kernel, free_endpoint, release}
use usbq_core.Gadget.{GadgetEndpoint, GadgetState, Udc, UsbEp}
use usbq_core.Gadget.Limits.{Limited, endpoint_at-with_desc, usb_ep_config-Configured, with_desc}
use usbq_core.Gadget.State.{
  add_gadget_endpoint, endpoint_at, ep_name, find_usb_ep, limit_packet, run, start_endpoint,
  usb_ep_config,
}
use usbq_core.Identity.{InterfaceDesc}
use usbq_core.Part.{add_endpoint, list_del}
use usbq_core.Part.Accounts.{Gives}
use usbq_core.Part.Adding.{Added, add_endpoint-Added}
use usbq_core.Part.Addresses.{Addressed, Addressed-below, Addressed-same, add_endpoint-Addressed}
use usbq_core.Part.Lists.{list_del-head}
use usbq_core.Types.{epid_of_desc}
use usbq_core.Prelude.{
  Bool-cases, Bytes, Option, [], ap, arith, get_elem?, inl, inr, is_neg, length, none, refl, some,
  subst, suc, sym, ℕ, ◌+◌, ◌<◌, ◌∙◌, ◌∷◌, ◌≡◌, ◌≤◌, ◌⊎◌,
}

module _ {W : Type 0} (k : Kernel W) (gives : Gives k) (g : Udc W) (i j : ℕ)
    (interface : InterfaceDesc) (desc : Bytes) (s : GadgetState W)
    (at_i : get_elem? s.own.identity.interfaces i ≡ some interface)
    (at_j : get_elem? interface.endpoints j ≡ some desc) where
  -- The state with the descriptor that `usb_ep` can take.
  abbrev pub limited_state : UsbEp → GadgetState W
  limited_state usb_ep = with_desc i j interface desc s at_i at_j (limit_packet usb_ep desc)

  -- The two outcomes of add_gadget_endpoint.
  abbrev pub Joined : Option GadgetEndpoint → GadgetState W → Type 0
  Joined none s' =
      Addressed s'
      × (s'.eplist ≡ s.eplist)
      × (s.heap.live ≤ s'.heap.live)
      × (s'.heap.live ≤ suc s.heap.live)
      × ((s'.own ≡ s.own)
          ⊎ (u : UsbEp) × (find_usb_ep (ep_name desc) (g.ep_list s.heap.world) ≡ some u)
            × Limited u desc (limit_packet u desc)
            × (s'.own ≡ (limited_state u).own))
  Joined (some ep) s' =
      Addressed s'
      × (s'.eplist ≡ ep ∷ s.eplist)
      × (ep.epid ≡ epid_of_desc desc)
      × (ep.desc ≡ some (limit_packet ep.usb_ep desc))
      × Limited ep.usb_ep desc (limit_packet ep.usb_ep desc)
      × (ep.reqlist ≡ [])
      × (find_usb_ep (ep_name desc) (g.ep_list s.heap.world) ≡ some ep.usb_ep)
      × (s'.own ≡ (limited_state ep.usb_ep).own)
      × (s'.heap.live ≡ 3 + s.heap.live)

  start_endpoint-Joined :
      (usb_ep : UsbEp) (ep : GadgetEndpoint) (s' : GadgetState W)
      → find_usb_ep (ep_name desc) (g.ep_list s.heap.world) ≡ some usb_ep
      → Limited usb_ep desc (limit_packet usb_ep desc)
      → Added usb_ep (limited_state usb_ep) (limit_packet usb_ep desc) (some ep) s'
      → Addressed s'
      → Ok Joined (start_endpoint k g ep s')
  unfolding start_endpoint free_endpoint release
  start_endpoint-Joined usb_ep ep s' e l (list, id_eq, desc_eq, empty, same, live, own) a' =
      elim (Bool-cases (
        is_neg
          ((g.usb_ep_enable ep.usb_ep ep.desc (g.usb_ep_disable ep.usb_ep s'.heap.world).1).0))) [
            | inl neg ↦
                rw (neg, start_endpoint)
                  (
                    Addressed-below s' _ a' ep s.eplist list
                        (ap (list_del ep.ref) list ∙ list_del-head ep s.eplist)
                        (rw desc_eq (omega arith)),
                    ap (list_del ep.ref) list ∙ list_del-head ep s.eplist,
                    rw desc_eq (omega (arith, live)),
                    rw desc_eq (omega (arith, live)),
                    inr (usb_ep, e, l, own),
                  )
            | inr ok ↦
                rw (ok, start_endpoint)
                  (
                    Addressed-same s' _ a' refl (omega arith),
                    list,
                    id_eq ∙ l.same_epid,
                    desc_eq ∙ ap (λ u. some (limit_packet u desc)) (sym same),
                    subst (λ u. Limited u desc (limit_packet u desc)) (sym same) l,
                    empty,
                    e ∙ ap some (sym same),
                    own ∙ ap (λ u. (limited_state u).own) (sym same),
                    live,
                  )
          ]

  added-Joined :
      (usb_ep : UsbEp)
      → find_usb_ep (ep_name desc) (g.ep_list s.heap.world) ≡ some usb_ep
      → Limited usb_ep desc (limit_packet usb_ep desc)
      → Addressed s
      → Ok Joined (
          (add_endpoint k usb_ep 68 (limit_packet usb_ep desc) ▷ elim [
            | none ↦ run (g.usb_ep_autoconfig_release usb_ep) ▷ λ _. ret none
            | some ep ↦ start_endpoint k g ep
          ])
            (limited_state usb_ep))
  added-Joined usb_ep e l a =
      ▷-Ok Joined _ (add_endpoint k usb_ep 68 (limit_packet usb_ep desc)) _ (limited_state usb_ep)
        refl
        (Ok-both (Added usb_ep (limited_state usb_ep) (limit_packet usb_ep desc))
          (λ _ s'. Addressed s')
          (λ r s'.
            Added usb_ep (limited_state usb_ep) (limit_packet usb_ep desc) r s' × Addressed s')
          (add_endpoint k usb_ep 68 (limit_packet usb_ep desc) (limited_state usb_ep))
          (λ r s' p q. (p, q))
          (add_endpoint-Added k gives usb_ep 68 (limit_packet usb_ep desc) (limited_state usb_ep))
          (add_endpoint-Addressed k usb_ep (limit_packet usb_ep desc) (limited_state usb_ep)
            (Addressed-same s (limited_state usb_ep) a refl (omega arith)) 68))
        (elim [
          | none ↦ λ s' ((list, more, less, own), a').
              (Addressed-same s' _ a' refl (omega arith), list, more, less, inr (usb_ep, e, l, own))
          | some ep ↦ λ s' (p, a'). start_endpoint-Joined usb_ep ep s' e l p a'
        ])

  -- If kmalloc gives as many bytes as it is asked for, and the endpoints have distinct addresses,
  -- all before that of the next object, which stays so, add_gadget_endpoint, for endpoint `j` of
  -- interface `i` of the identity, never leaves the memory. It puts at the head of the list an
  -- endpoint with the identity of the descriptor, without a request, on the first usb_ep that its
  -- name matches, with a copy of the descriptor whose packet size is limited to what the usb_ep
  -- takes, for three objects; the identity then has the limited descriptor as well. Or it gives
  -- NULL and leaves the list, also when the usb_ep cannot be enabled, with at most one object that
  -- is not freed. The limits of the usb_eps must fit their sixteen bits.
  pub add_gadget_endpoint-Joined :
      Addressed s
      → 6 ≤ length desc
      → ((ep : UsbEp)
          → find_usb_ep (ep_name desc) (g.ep_list s.heap.world) ≡ some ep
          → ep.maxpacket_limit < 65536)
      → Ok Joined (add_gadget_endpoint k g i j s)
  unfolding add_gadget_endpoint
  add_gadget_endpoint-Joined a h small =
      ▷-Ok Joined _ (usb_ep_config k g i j) _ s refl
        (usb_ep_config-Configured i j interface desc s at_i at_j k g h small)
        (elim [
          | none ↦ λ s' (_, same). (
            subst Addressed (sym same) a,
            ap (λ s. s.eplist) same,
            omega (arith, ap (λ s. s.heap.live) same),
            omega (arith, ap (λ s. s.heap.live) same),
            inl (ap (λ s. s.own) same),
          )
          | some usb_ep ↦ λ s' (e, _, same, l).
              subst
                (λ t. Ok Joined (
                  (endpoint_at i j ▷ λ epdesc. add_endpoint k usb_ep 68 epdesc ▷ elim [
                    | none ↦ run (g.usb_ep_autoconfig_release usb_ep) ▷ λ _. ret none
                    | some ep ↦ start_endpoint k g ep
                  ])
                    t))
                (sym same)
                (rw
                  (
                    endpoint_at-with_desc i j interface desc s at_i at_j (limit_packet usb_ep desc),
                    Ok,
                    ◌▷◌,
                  )
                  (added-Joined usb_ep e l a))
        ])
