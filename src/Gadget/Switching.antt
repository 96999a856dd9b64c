-- ===== src/Gadget/Switching.antt =====
-- The interfaces of the identity, whose endpoints come and go: what enable_interface,
-- disable_interface, set_interface and their loops keep.
use usbq_core.Action.{Ok, Ok-map}
use usbq_core.Endpoint.{Kernel, find_endpoint}
use usbq_core.Gadget.{GadgetEndpoint, GadgetState, Udc, UsbEp}
use usbq_core.Gadget.Cleanup.{Dequeues}
use usbq_core.Gadget.Completing.{IsReal}
use usbq_core.Gadget.Disabling.{disable_interface-Removed, found_freed}
use usbq_core.Gadget.Interfaces.{disable_interface}
use usbq_core.Gadget.Sound.{Answerable, IsServed, IsSound, Kept}
use usbq_core.Gadget.State.{find_usb_ep, free_gadget_endpoint}
use usbq_core.Gadget.Usable.{
  IsTable, IsUsable, IsUsableDesc, SameShape, SameShape-trans, epid_of_desc-IsReal,
  interface-length, with_interface, with_interface-IsTable, with_interface-SameShape,
}
use usbq_core.Identity.{Identity, InterfaceDesc, b_num_endpoints}
use usbq_core.Part.Accounts.{Gives}
use usbq_core.Part.Cleanup.{objects}
use usbq_core.Part.Members.{Present, Present-remove}
use usbq_core.Part.Table.{Every-remove, remove, remove_all}
use usbq_core.Types.{Epid, epid_of_desc, is_ctrl, is_in, is_isochronous, is_out}
use usbq_core.Prelude.{
  Bool-cases, Bytes, Every, Every-get_elem?, List, [], ap, arith, false, get_elem?, get_elem?-drop,
  inl, inr, length, map, refl, some, subst, sym, take, true, ℕ, ◌&&◌, ◌-◌, ◌<◌, ◌∙◌, ◌∷◌, ◌≡◌,
}

-- The limits of the usb_eps are words of sixteen bits.
abbrev pub Narrow : {W : Type 0} → Udc W → Type 0
Narrow {W = W} g =
    (name : Bytes) (w : W) (ep : UsbEp)
    → find_usb_ep name (g.ep_list w) ≡ some ep
    → ep.maxpacket_limit < 65536

remove_all-kept :
    (ref : ℕ) (id : Epid) (list : List GadgetEndpoint) (xs : List Bytes)
    → is_ctrl id ≡ true
    → Every IsUsableDesc xs
    → Every IsServed list
    → Present ref id list
    → Every IsServed (remove_all (map epid_of_desc xs) list)
      × Present ref id (remove_all (map epid_of_desc xs) list)
unfolding remove_all
remove_all-kept ref id list [] c u v p = (v, p)
remove_all-kept ref id list (d ∷ xs) c (h, u) v p =
    remove_all-kept ref id (remove (epid_of_desc d) list) xs c u
      (Every-remove IsServed (epid_of_desc d) list v)
      (Present-remove ref id (epid_of_desc d) list (ground (arith, h.other, c)) p)

-- An endpoint that was just added can be used, and so can the other ones.
pub fresh-IsServed :
    (ep : GadgetEndpoint) (desc d : Bytes)
    → ep.epid ≡ epid_of_desc desc
    → epid_of_desc d ≡ epid_of_desc desc
    → ep.desc ≡ some d
    → ep.reqlist ≡ []
    → IsUsableDesc d
    → IsServed ep
fresh-IsServed ep desc d id_eq same desc_eq nil u =
    let id : ep.epid ≡ epid_of_desc d = id_eq ∙ sym same in
    let real : IsReal ep.epid = subst IsReal (sym id) (epid_of_desc-IsReal d) in
    record {
      real = real;
      role = elim (Bool-cases (is_in ep.epid)) [
        | inl i ↦ inr (inl i)
        | inr i ↦ inr (
            inr (record {
              desc = d;
              desc_eq = desc_eq;
              narrow = real.narrow;
              kind = ground (
                arith,
                ap is_ctrl id ∙ u.other,
                ap (λ e. is_isochronous e && is_out e) id ∙ u.served,
                real.real.type_le,
                real.real.dir_le,
                i,
              );
              sinks = i;
              packet = u.packet;
            }))
      ];
      requests = subst (Every (Answerable ep.epid)) (sym nil) tt;
    }

module _ {W : Type 0} (k : Kernel W) (gives : Gives k) (g : Udc W) (narrow : Narrow g)
    (dequeues : Dequeues g) (n ref : ℕ) (id : Epid) (control : is_ctrl id ≡ true)
    (shape : Identity) where
  abbrev pub K : GadgetState W → Type 0
  K = Kept n ref id shape

  -- The endpoint that was found is freed.
  pub freed-Kept :
      (ep : GadgetEndpoint) (s : GadgetState W)
      → K s
      → is_ctrl ep.epid ≡ false
      → find_endpoint ep.epid s.eplist ≡ some ep
      → Ok (λ _ s'. K s') (free_gadget_endpoint k g ep s)
  unfolding remove_all
  freed-Kept ep s h other e =
      Ok-map _ _ (free_gadget_endpoint k g ep s)
        (λ _ s' r. record {
          sound = record {
            addressed = r.tidy.addressed;
            served =
                subst (Every IsServed) (sym r.eplist_eq)
                  (Every-remove IsServed ep.epid s.eplist h.sound.served);
            live_le = omega (arith, r.tidy.live_eq, h.sound.live_le);
            table = subst (λ o. IsTable o.identity) (sym r.own_eq) h.sound.table;
          };
          here =
              subst (Present ref id) (sym r.eplist_eq)
                (Present-remove ref id ep.epid s.eplist (ground (arith, other, control)) h.here);
          shape_eq = subst (λ o. SameShape shape o.identity) (sym r.own_eq) h.shape_eq;
        })
        (found_freed k g dequeues (s.heap.live - objects s.eplist) ep.epid ep s
          (record { addressed = h.sound.addressed; live_eq = omega (arith, h.sound.live_le) }) e)

  pub with_interface-Kept :
      (i : ℕ) (old new : InterfaceDesc) (s s' : GadgetState W)
      → K s
      → get_elem? s.own.identity.interfaces i ≡ some old
      → new.desc ≡ old.desc
      → length new.endpoints ≡ length old.endpoints
      → IsUsable new
      → s'.own.identity ≡ with_interface i new s.own.identity
      → IsSound n (record s' { own = s.own })
      → Present ref id s'.eplist
      → K s'
  with_interface-Kept i old new s s' h at_i same len u own v p = record {
    sound = record {
      addressed = record { distinct = v.addressed.distinct; before = v.addressed.before };
      served = v.served;
      live_le = v.live_le;
      table = subst IsTable (sym own) (
          with_interface-IsTable i new s.own.identity h.sound.table u
            (len ∙ interface-length i old s.own.identity h.sound.table at_i));
    };
    here = p;
    shape_eq = subst (SameShape shape) (sym own) (
        SameShape-trans shape s.own.identity (with_interface i new s.own.identity) h.shape_eq
          (with_interface-SameShape i old new s.own.identity at_i same));
  }

  pub interface-IsUsable :
      (i : ℕ) (x : InterfaceDesc) (s : GadgetState W)
      → K s
      → i < shape.nb_int
      → get_elem? s.own.identity.interfaces i ≡ some x
      → IsUsable x
  interface-IsUsable i x s h lt at_i =
      Every-get_elem? IsUsable s.own.identity.nb_int s.own.identity.interfaces i x
        (omega (arith, lt, h.shape_eq.nb_eq)) at_i h.sound.table.usable

  -- There is an interface at every index of the loops.
  pub interface_there :
      (i : ℕ) (s : GadgetState W)
      → K s
      → i < shape.nb_int
      → (x : InterfaceDesc) × (get_elem? s.own.identity.interfaces i ≡ some x)
  interface_there i s h lt =
      let (x, at_i, _) =
        get_elem?-drop s.own.identity.interfaces i
          (omega (arith, lt, h.shape_eq.nb_eq, h.sound.table.count)) in
      (x, at_i)

  pub disable_interface-Kept :
      (i : ℕ) (s : GadgetState W)
      → K s
      → i < shape.nb_int
      → Ok (λ _ s'. K s') (disable_interface k g i s)
  disable_interface-Kept i s h lt =
      let (x, at_i) = interface_there i s h lt in
      let u : IsUsable x = interface-IsUsable i x s h lt at_i in
      Ok-map _ _ (disable_interface k g i s)
        (λ err s' (_, r).
          let (served, here) =
            remove_all-kept ref id s.eplist (take (b_num_endpoints x.desc) x.endpoints) control
              u.descs h.sound.served h.here in
          with_interface-Kept i x (record x { active = 0 }) s s' h at_i refl refl
            (record { few = u.few; descs = u.descs }) (ap (λ o. o.identity) r.own_eq)
            (record {
              addressed = record {
                distinct = r.tidy.addressed.distinct;
                before = r.tidy.addressed.before;
              };
              served = subst (Every IsServed) (sym r.eplist_eq) served;
              live_le = omega (arith, r.tidy.live_eq, h.sound.live_le);
              table = h.sound.table;
            })
            (subst (Present ref id) (sym r.eplist_eq) here))
        (disable_interface-Removed k g dequeues (s.heap.live - objects s.eplist) i x s at_i u.few
          (record { addressed = h.sound.addressed; live_eq = omega (arith, h.sound.live_le) }))
