-- ===== src/Gadget/Replacing.antt =====
-- What userland sends to the gadget, on a sound state: gadget_recv_userland of gadget.c with a
-- device that comes or goes.
use usbq_core.Action.{Ok, Ok-both, Ok-map, ret, ▷-Ok, ◌▷◌}
use usbq_core.Endpoint.{Kernel}
use usbq_core.Gadget.{GadgetEndpoint, GadgetState, Udc}
use usbq_core.Gadget.Callbacks.{gadget_recv_userland_usb}
use usbq_core.Gadget.Cleanup.{Dequeues, clean_gadget_endpoints-Accounted}
use usbq_core.Gadget.Completing.{IsReal}
use usbq_core.Gadget.Dispatch.{
  callback_new_device, callback_reset, drop_device, gadget_recv_userland,
  gadget_recv_userland_management, read_identity, register_device, ubq_bind, ubq_register,
  ubq_unregister,
}
use usbq_core.Gadget.Plugging.{AllUsable, packet-IsTable}
use usbq_core.Gadget.Serving.{IsForEndpoint, V-result, gadget_recv_userland_usb-IsSound}
use usbq_core.Gadget.Sound.{Answerable, Grew-IsSound, IsServed, IsSound}
use usbq_core.Gadget.State.{add_gadget_ep0_endpoint, clean_gadget_endpoints}
use usbq_core.Gadget.Switching.{Narrow}
use usbq_core.Gadget.Usable.{IsTable}
use usbq_core.Identity.{Device, Identity}
use usbq_core.Identity.Build.{visited}
use usbq_core.Identity.Built.{IsPacket, altsettings}
use usbq_core.Identity.Parse.{parse_init_pkt}
use usbq_core.Identity.RoundTrip.{IsAnnounced, behind_data}
use usbq_core.Msg.{Msg, is_management_msg, is_new_device_mng_msg, is_reset_mng_msg, is_usb_msg}
use usbq_core.Part.{call}
use usbq_core.Part.Accounts.{Gives}
use usbq_core.Part.Adding.{Added0, add_ep0_endpoint-Added0, ep0}
use usbq_core.Part.Addresses.{Addressed, Addressed-same, add_ep0_endpoint-Addressed}
use usbq_core.Part.Cleanup.{objects}
use usbq_core.Part.Table.{Distinct}
use usbq_core.Types.{dir_in, dir_out, is_ctrl, unknown}
use usbq_core.Prelude.{
  Bool-cases, Every, Option-cases, [], ap, arith, false, if◌then◌else◌, inl, inr, is_neg,
  is_nonzero, length, none, pos, refl, some, subst, sym, true, ℕ, ℤ, ◌-◌, ◌<◌, ◌==◌, ◌∙◌, ◌≡◌, ◌≤◌,
}

-- What userland may send to a gadget: a message for an endpoint, a RESET, the packet that
-- build_init_pkt makes for a device whose descriptors can be used, with two bytes of memory behind
-- it, or a kind of message that is not known.
pub data Accepted (msg : Msg) : Type 0 where
  for_endpoint : is_usb_msg msg ≡ true → IsForEndpoint msg → Accepted msg
  for_reset : is_reset_mng_msg msg ≡ true → Accepted msg
  for_device :
      (dev : Device) (a : IsAnnounced dev)
      → IsPacket dev a.device msg
      → 2 ≤ length (behind_data msg)
      → AllUsable (altsettings (visited dev))
      → Accepted msg
  for_nothing :
      is_usb_msg msg ≡ false
      → is_reset_mng_msg msg ≡ false
      → is_new_device_mng_msg msg ≡ false
      → Accepted msg

module _ {W : Type 0} (k : Kernel W) (gives : Gives k) (g : Udc W) (narrow : Narrow g)
    (dequeues : Dequeues g) (n : ℕ) where
  abbrev V : {A : Type 0} → A → GadgetState W → Type 0
  V a s = IsSound n s

  -- Only the kernel, or the flag, has changed.
  moved :
      (s s' : GadgetState W)
      → IsSound n s
      → s'.eplist ≡ s.eplist
      → s'.heap.next ≡ s.heap.next
      → s'.heap.live ≡ s.heap.live
      → s'.own.identity ≡ s.own.identity
      → IsSound n s'
  moved s s' v same next live own = record {
    addressed = Addressed-same s s' v.addressed same (omega (arith, next));
    served = subst (Every IsServed) (sym same) v.served;
    live_le = rw same (omega (arith, live, v.live_le));
    table = subst IsTable (sym own) v.table;
  }

  -- A state without endpoints.
  emptied :
      (m : ℕ) (s s' : GadgetState W)
      → IsSound n s
      → n ≤ m
      → s'.eplist ≡ []
      → s'.heap.live ≡ m
      → s'.own.identity ≡ s.own.identity
      → IsSound n s'
  unfolding objects
  emptied m s s' v le nil live own = record {
    addressed = record {
      distinct = subst Distinct (sym nil) tt;
      before = subst (Every (λ x. x.ref < s'.heap.next)) (sym nil) tt;
    };
    served = subst (Every IsServed) (sym nil) tt;
    live_le = rw nil (omega (arith, live, le));
    table = subst IsTable (sym own) v.table;
  }

  -- The identity stays when the endpoints go.
  cleaned :
      (s : GadgetState W)
      → IsSound n s
      → Ok
          (λ _ s'. IsSound n s' × (s'.own.identity ≡ s.own.identity))
          (clean_gadget_endpoints k g s)
  cleaned s v =
      Ok-map
        (λ (_ : Unit {0}) s'.
          (s'.eplist ≡ []) × (s'.heap.live ≡ s.heap.live - objects s.eplist) × (s'.own ≡ s.own))
        (λ _ s'. IsSound n s' × (s'.own.identity ≡ s.own.identity)) _
        (λ _ s' (nil, live, own). (
          emptied (s.heap.live - objects s.eplist) s s' v (omega (arith, v.live_le)) nil live
              (ap (λ o. o.identity) own),
          ap (λ o. o.identity) own,
        ))
        (clean_gadget_endpoints-Accounted k g dequeues (s.heap.live - objects s.eplist) s
          (omega (arith, v.live_le)))

  drop_device-IsSound :
      (s : GadgetState W)
      → IsSound n s
      → Ok (λ _ s'. IsSound n s' × (s'.own.identity ≡ s.own.identity)) (drop_device k g s)
  unfolding drop_device ubq_unregister
  drop_device-IsSound s v = elim (Bool-cases (s.own.registered == 0)) [
    | inl off ↦ rw (off, drop_device) (v, refl)
    | inr on ↦ rw (on, drop_device) (cleaned _ (moved s _ v refl refl refl refl))
  ]

  callback_reset-IsSound : (s : GadgetState W) → IsSound n s → Ok V (callback_reset k g s)
  unfolding callback_reset ubq_unregister
  callback_reset-IsSound s v =
      ▷-Ok V _ (clean_gadget_endpoints k g) (λ _. ret (pos 0)) _ refl
        (cleaned _ (moved s _ v refl refl refl refl)) (λ _ s' (v', _). v')

  -- A control endpoint 0, which can be used.
  ep0-IsServed :
      (dir : ℕ) (ep : GadgetEndpoint)
      → dir ≤ dir_out
      → ep.epid ≡ ep0 dir
      → ep.reqlist ≡ []
      → IsServed ep
  ep0-IsServed dir ep le id_eq nil = record {
    real = subst IsReal (sym id_eq) (record {
      real = record { type_le = omega arith; dir_le = le };
      narrow = record { num_lt = omega arith; type_lt = omega arith; dir_lt = omega (arith, le) };
    });
    role = inl (ap is_ctrl id_eq);
    requests = subst (Every (Answerable ep.epid)) (sym nil) tt;
  }

  add_gadget_ep0_endpoint-IsSound :
      (dir : ℕ) (s : GadgetState W)
      → dir ≤ dir_out
      → IsSound n s
      → Ok V (add_gadget_ep0_endpoint k g dir s)
  unfolding add_gadget_ep0_endpoint objects
  add_gadget_ep0_endpoint-IsSound dir s le v =
      Ok-both (Added0 s dir) (λ _ s'. Addressed s') V (add_gadget_ep0_endpoint k g dir s)
        (elim [
          | none ↦ λ s' grew a. Grew-IsSound n s s' v 0 grew
          | some ep ↦ λ s' (list, id_eq, desc_eq, nil, live, own) a. record {
            addressed = a;
            served = subst (Every IsServed) (sym list) (ep0-IsServed dir ep le id_eq nil, v.served);
            live_le = rw (list, desc_eq, nil) (omega (arith, v.live_le, live));
            table = subst (λ o. IsTable o.identity) (sym own) v.table;
          }
        ])
        (add_ep0_endpoint-Added0 k gives (g.ep0 s.heap.world) 68 dir s)
        (add_ep0_endpoint-Addressed k (g.ep0 s.heap.world) 68 dir s v.addressed)

  ubq_bind-IsSound : (s : GadgetState W) → IsSound n s → Ok V (ubq_bind k g s)
  unfolding ubq_bind
  ubq_bind-IsSound s v =
      ▷-Ok V _ (add_gadget_ep0_endpoint k g dir_in) _ _ refl
        (add_gadget_ep0_endpoint-IsSound dir_in _ (omega arith) (moved s _ v refl refl refl refl))
        (elim [
          | none ↦ λ s' v'. moved s' _ v' refl refl refl refl
          | some epin ↦ λ s' v'.
              ▷-Ok V _ (add_gadget_ep0_endpoint k g dir_out) _ s' refl
                (add_gadget_ep0_endpoint-IsSound dir_out s' (omega arith) v')
                (elim [
                  | none ↦ λ s'' v''. moved s'' _ v'' refl refl refl refl
                  | some epout ↦ λ s'' v''. v''
                ])
        ])

  ubq_register-IsSound : (s : GadgetState W) → IsSound n s → Ok V (ubq_register k g s)
  unfolding ubq_register
  ubq_register-IsSound s v = elim (Option-cases ((g.probe_driver s.heap.world).0)) [
    | inr (err, e) ↦ rw (e, ubq_register) (moved s _ v refl refl refl refl)
    | inl e ↦
        rw (e, ubq_register)
          (▷-Ok V _ (ubq_bind k g) (λ err. if is_nonzero err then ret err else call g.udc_start) _
            refl (ubq_bind-IsSound _ (moved s _ v refl refl refl refl))
            (λ err s' v'. elim (Bool-cases (is_nonzero err)) [
              | inl bad ↦ rw bad v'
              | inr good ↦ rw good (moved s' _ v' refl refl refl refl)
            ]))
  ]

  register_device-IsSound : (s : GadgetState W) → IsSound n s → Ok V (register_device k g s)
  unfolding register_device
  register_device-IsSound s v =
      ▷-Ok V _ (ubq_register k g) _ s refl (ubq_register-IsSound s v) (λ err s' v'.
        elim (Bool-cases (is_neg err)) [
          | inl bad ↦ rw bad v'
          | inr good ↦ rw good (moved s' _ v' refl refl refl refl)
        ])

  callback_new_device-IsSound :
      (s : GadgetState W) (msg : Msg) (identity : Identity) (err : ℤ)
      → IsSound n s
      → parse_init_pkt s.own.identity msg ≡ some (identity, err)
      → IsTable identity
      → Ok V (callback_new_device k g msg s)
  unfolding callback_new_device read_identity
  callback_new_device-IsSound s msg identity err v e t =
      ▷-Ok V _ (drop_device k g) _ s refl (drop_device-IsSound s v) (λ _ s' (v', same).
        let e' : parse_init_pkt s'.own.identity msg ≡ some (identity, err) =
          ap (λ i. parse_init_pkt i msg) same ∙ e in
        let s'' : GadgetState W = record s' { own = record s'.own { identity = identity } } in
        let v'' : IsSound n s'' = record {
          addressed = record { distinct = v'.addressed.distinct; before = v'.addressed.before };
          served = v'.served;
          live_le = v'.live_le;
          table = t;
        } in
        rw (e', Ok, ◌▷◌)
          (elim (Bool-cases (is_neg err)) [
            | inl bad ↦ rw bad v''
            | inr good ↦ rw good (register_device-IsSound s'' v'')
          ]))

  packet_new :
      {msg : Msg} (dev : Device) (a : IsAnnounced dev)
      → IsPacket dev a.device msg
      → is_new_device_mng_msg msg ≡ true
  packet_new {msg = msg} dev a packet =
      let managed : is_management_msg msg ≡ true = ground (arith, packet.type_eq) in
      ground (arith, managed, packet.announces)

  gadget_recv_userland_management-IsSound :
      (s : GadgetState W) (msg : Msg)
      → IsSound n s
      → is_usb_msg msg ≡ false
      → Accepted msg
      → Ok V (gadget_recv_userland_management k g msg s)
  unfolding gadget_recv_userland_management
  gadget_recv_userland_management-IsSound s msg v other (for_endpoint usb r) = cc
  gadget_recv_userland_management-IsSound s msg v other (for_reset r) =
      rw (r, gadget_recv_userland_management)
        (V-result k gives g narrow dequeues n (callback_reset k g) s (callback_reset-IsSound s v))
  gadget_recv_userland_management-IsSound s msg v other (for_device dev a packet two u) =
      let new : is_new_device_mng_msg msg ≡ true = packet_new dev a packet in
      let (identity, e, t) = packet-IsTable s.own.identity dev a msg packet two v.table.whole u in
      let kept : is_reset_mng_msg msg ≡ false = ground (arith, new) in
      rw (kept, new, gadget_recv_userland_management)
        (V-result k gives g narrow dequeues n (callback_new_device k g msg) s
          (callback_new_device-IsSound s msg identity (pos 0) v e t))
  gadget_recv_userland_management-IsSound s msg v other (for_nothing _ kept old) =
      rw (kept, old, gadget_recv_userland_management) v

  for_usb :
      (s : GadgetState W) (msg : Msg) → is_usb_msg msg ≡ true → Accepted msg → IsForEndpoint msg
  for_usb s msg usb (for_endpoint _ r) = r
  for_usb s msg usb (for_reset r) = absurd (ground (arith, usb, r))
  for_usb s msg usb (for_device dev a packet _ _) =
      absurd (ground (arith, usb, packet_new dev a packet))
  for_usb s msg usb (for_nothing other _ _) = cc

  pub gadget_recv_userland-IsSound :
      (s : GadgetState W) (msg : Msg)
      → IsSound n s
      → Accepted msg
      → Ok V (gadget_recv_userland k g msg s)
  unfolding gadget_recv_userland
  gadget_recv_userland-IsSound s msg v a = elim (Bool-cases (is_usb_msg msg)) [
    | inl usb ↦
        rw (usb, gadget_recv_userland)
          (V-result k gives g narrow dequeues n (gadget_recv_userland_usb k g msg) s (
            gadget_recv_userland_usb-IsSound k gives g narrow dequeues n s msg v
              (for_usb s msg usb a)))
    | inr other ↦ elim (Bool-cases (is_management_msg msg)) [
      | inl managed ↦
          rw (other, managed, gadget_recv_userland)
            (V-result k gives g narrow dequeues n (gadget_recv_userland_management k g msg) s
              (gadget_recv_userland_management-IsSound s msg v other a))
      | inr unknown ↦ rw (other, unknown, gadget_recv_userland) v
    ]
  ]
