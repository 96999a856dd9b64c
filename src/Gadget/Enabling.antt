-- ===== src/Gadget/Enabling.antt =====
-- enable_interface, set_interface and the loops over the interfaces of gadget.c, on a sound state.
use usbq_core.Action.{Ok, Ok-map, ret, ▷-Ok}
use usbq_core.Endpoint.{Kernel, find_endpoint, same_epid}
use usbq_core.Gadget.{GadgetEndpoint, GadgetState, Udc, UsbEp}
use usbq_core.Gadget.Adding.{Joined, add_gadget_endpoint-Joined}
use usbq_core.Gadget.Awaiting.{Awaits, IsSink, ep_gadget_send_usb-Awaits}
use usbq_core.Gadget.Cleanup.{Dequeues}
use usbq_core.Gadget.Interfaces.{await_host}
use usbq_core.Gadget.Requests.{ep_gadget_send_usb}
use usbq_core.Gadget.Sending.{Offered}
use usbq_core.Gadget.Sound.{Grew-Kept, IsServed, IsSound, Kept, Sends-Kept}
use usbq_core.Gadget.State.{add_gadget_endpoint, ep_name, free_gadget_endpoint, limit_packet}
use usbq_core.Gadget.Switching.{Narrow, freed-Kept, fresh-IsServed, with_interface-Kept}
use usbq_core.Gadget.Usable.{
  IsTable, IsUsable, IsUsableDesc, Limited-IsUsableDesc, SameShape, with_endpoint-IsUsable,
  with_interface,
}
use usbq_core.Identity.{Identity, InterfaceDesc}
use usbq_core.Part.Accounts.{Gives}
use usbq_core.Part.Cleanup.{objects}
use usbq_core.Part.Members.{Present}
use usbq_core.Types.{Epid, is_ctrl, is_out}
use usbq_core.Prelude.{
  Bool-cases, Bytes, Every, List, Option, ap, arith, false, get_elem?, inl, inr, is_neg, length-set,
  negsuc, none, not, pos, refl, set, some, subst, sym, true, ℕ, ◌&&◌, ◌∙◌, ◌∷◌, ◌≡◌, ◌⊎◌,
}

module _ {W : Type 0} (k : Kernel W) (gives : Gives k) (g : Udc W) (narrow : Narrow g)
    (dequeues : Dequeues g) (n ref : ℕ) (id : Epid) (control : is_ctrl id ≡ true)
    (shape : Identity) where
  abbrev pub I : GadgetState W → Type 0
  I = Kept n ref id shape

  -- The endpoint that was added is the head of the list, and can be used.
  pub record Newest (s : GadgetState W) (ep : GadgetEndpoint) : Type 0 where
    pub rest : List GadgetEndpoint
    pub list_eq : s.eplist ≡ ep ∷ rest
    pub served : IsServed ep
    pub other : is_ctrl ep.epid ≡ false

  abbrev pub Gained : Option GadgetEndpoint → GadgetState W → Type 0
  Gained none s = I s
  Gained (some ep) s = I s × Newest s ep

  -- What add_gadget_endpoint does to the identity.
  limited-Kept :
      (i j : ℕ) (x : InterfaceDesc) (d : Bytes) (u : UsbEp) (s s' : GadgetState W)
      → I s
      → get_elem? s.own.identity.interfaces i ≡ some x
      → IsUsable x
      → IsUsableDesc (limit_packet u d)
      → s'.own.identity
        ≡ with_interface i
            (record x { endpoints = set x.endpoints j (limit_packet u d) })
            s.own.identity
      → IsSound n (record s' { own = s.own })
      → Present ref id s'.eplist
      → I s'
  limited-Kept i j x d u s s' h at_i usable limited own v p =
      with_interface-Kept k gives g narrow dequeues n ref id control shape i x
        (record x { endpoints = set x.endpoints j (limit_packet u d) }) s s' h at_i refl
        (length-set x.endpoints j (limit_packet u d))
        (with_endpoint-IsUsable j (limit_packet u d) x usable limited) own v p

  pub add_gadget_endpoint-Gained :
      (i j : ℕ) (x : InterfaceDesc) (d : Bytes) (s : GadgetState W)
      → I s
      → (at_i : get_elem? s.own.identity.interfaces i ≡ some x)
      → (at_j : get_elem? x.endpoints j ≡ some d) → IsUsable x
      → IsUsableDesc d
      → Ok Gained (add_gadget_endpoint k g i j s)
  unfolding objects
  add_gadget_endpoint-Gained i j x d s h at_i at_j usable u =
      Ok-map (Joined k gives g i j x d s at_i at_j) Gained (add_gadget_endpoint k g i j s)
        (elim [
          | none ↦ λ s' (a, list, more, less, own).
              let v : IsSound n (record s' { own = s.own }) = record {
                addressed = record { distinct = a.distinct; before = a.before };
                served = subst (Every IsServed) (sym list) h.sound.served;
                live_le = rw list (omega (arith, h.sound.live_le, more));
                table = h.sound.table;
              } in
              let p : Present ref id s'.eplist = subst (Present ref id) (sym list) h.here in
              elim own [
                | inl same ↦ record {
                  sound = record {
                    addressed = a;
                    served = v.served;
                    live_le = v.live_le;
                    table = subst (λ o. IsTable o.identity) (sym same) h.sound.table;
                  };
                  here = p;
                  shape_eq = subst (λ o. SameShape shape o.identity) (sym same) h.shape_eq;
                }
                | inr (e, found, l, own_eq) ↦
                    limited-Kept i j x d e s s' h at_i usable
                      (Limited-IsUsableDesc e d (limit_packet e d)
                        (narrow (ep_name d) s.heap.world e found) l u)
                      (ap (λ o. o.identity) own_eq) v p
              ]
          | some ep ↦ λ s' (a, list, id_eq, desc_eq, l, nil, found, own_eq, live).
              let limited : IsUsableDesc (limit_packet ep.usb_ep d) =
                Limited-IsUsableDesc ep.usb_ep d (limit_packet ep.usb_ep d)
                  (narrow (ep_name d) s.heap.world ep.usb_ep found) l u in
              let served : IsServed ep =
                fresh-IsServed ep d (limit_packet ep.usb_ep d) id_eq l.same_epid desc_eq nil
                  limited in
              (
                limited-Kept i j x d ep.usb_ep s s' h at_i usable limited
                    (ap (λ o. o.identity) own_eq)
                    (record {
                      addressed = record { distinct = a.distinct; before = a.before };
                      served = subst (Every IsServed) (sym list) (served, h.sound.served);
                      live_le = rw (list, desc_eq, nil) (omega (arith, h.sound.live_le, live));
                      table = h.sound.table;
                    })
                    (subst (Present ref id) (sym list) (inr h.here)),
                record {
                  rest = s.eplist;
                  list_eq = list;
                  served = served;
                  other = ap is_ctrl id_eq ∙ u.other;
                },
              )
        ])
        (add_gadget_endpoint-Joined k gives g i j x d s at_i at_j h.sound.addressed u.long
          (λ ep e. narrow (ep_name d) s.heap.world ep e))

  head_found :
      (ep : GadgetEndpoint) (list rest : List GadgetEndpoint)
      → list ≡ ep ∷ rest
      → find_endpoint ep.epid list ≡ some ep
  unfolding find_endpoint
  head_found ep list rest e =
      let same : same_epid ep.epid ep.epid ≡ true = ground arith in rw e (rw (same, find_endpoint))

  pub await_host-Kept :
      (ep : GadgetEndpoint) (s : GadgetState W)
      → I s
      → Newest s ep
      → Ok (λ _ s'. I s') (await_host k g ep s)
  unfolding await_host
  await_host-Kept ep s h new = elim new.served.role [
    | inl c ↦ absurd (ground (arith, c, new.other))
    | inr (inl i) ↦
        let away : (is_out ep.epid && not (is_ctrl ep.epid)) ≡ false = ground (arith, i) in
        rw (away, await_host) h
    | inr (inr r) ↦
        let out : is_out ep.epid ≡ true = ground (arith, r.sinks, new.served.real.real.dir_le) in
        rw (out, new.other, await_host)
          (▷-Ok (λ _ s'. I s') _ (ep_gadget_send_usb k g ep none) _ s refl
            (ep_gadget_send_usb-kept ep s h new r)
            (λ err s' (h', found). elim (Bool-cases (is_neg err)) [
              | inl neg ↦ rw neg (
                  ▷-Ok (λ _ s''. I s'') _ (free_gadget_endpoint k g ep) (λ _. ret err) s' refl
                    (elim found [
                      | inl e ↦
                          freed-Kept k gives g narrow dequeues n ref id control shape ep s' h'
                            new.other e
                      | inr good ↦ absurd (ground (arith, good, neg))
                    ])
                    (λ _ s'' h''. h''))
              | inr good ↦ rw good h'
            ]))
  ]
    where
      -- When the wait fails, the endpoint is there as it was.
      ep_gadget_send_usb-kept :
          (ep : GadgetEndpoint) (s : GadgetState W)
          → I s
          → Newest s ep
          → (r : IsSink ep)
          → Ok
              (λ err s'.
                I s' × ((find_endpoint ep.epid s'.eplist ≡ some ep) ⊎ (is_neg err ≡ false)))
              (ep_gadget_send_usb k g ep none s)
      ep_gadget_send_usb-kept ep s h new r =
          let there : Present ep.ref ep.epid s.eplist =
            subst (Present ep.ref ep.epid) (sym new.list_eq) (inl (refl, refl)) in
          Ok-map (Offered k g s ep (Awaits ep r.desc)) _ (ep_gadget_send_usb k g ep none s)
            (elim [
              | pos m ↦ λ s' (_, q, _, _, _, _). (
                Sends-Kept n ref id shape s s' h ep there
                    (inr (q.request, inl new.other, q.pushed)),
                inr refl,
              )
              | negsuc m ↦ λ s' grew. (
                Grew-Kept n ref id shape s s' h 0 grew,
                inl (head_found ep s'.eplist new.rest (grew.same ∙ new.list_eq)),
              )
            ])
            (ep_gadget_send_usb-Awaits k gives g ep r s)
