-- ===== src/Gadget/Hosting.antt =====
-- ubq_setup and handle_setup of gadget.c on a sound state, for any control request of the host.
use usbq_core.Action.{Ok, Ok-map, lift, ret, ▷-Ok, ◌▷◌}
use usbq_core.Endpoint.{Kernel, allocate, find_endpoint, memory, release, same_epid, send_userland}
use usbq_core.Endpoint.Find.{find_endpoint-same_epid}
use usbq_core.Gadget.{GadgetEndpoint, GadgetState, Udc}
use usbq_core.Gadget.Callbacks.{ep_gadget_send_userland}
use usbq_core.Gadget.Cleanup.{Dequeues}
use usbq_core.Gadget.Offering.{ep_gadget_send_usb-Sends}
use usbq_core.Gadget.Relaying.{Asks, Asks-IsRequest, setup_msg-Asks}
use usbq_core.Gadget.Requests.{ep_gadget_send_usb}
use usbq_core.Gadget.Selecting.{set_interface-Keeps}
use usbq_core.Gadget.Setup.{
  dispatch_setup, forward_setup, handle_setup, queue_setup, setup_id, setup_with, standard_request,
  ubq_setup,
}
use usbq_core.Gadget.Sound.{Grew-IsSound, Grew-Kept, IsServed, IsSound, Kept, Sends-Kept}
use usbq_core.Gadget.State.{find_gadget_endpoint}
use usbq_core.Gadget.Switching.{Narrow}
use usbq_core.Identity.{Identity}
use usbq_core.Msg.{Msg, alloc_msg, data_type}
use usbq_core.Msg.Alloc.{alloc_msg-IsFresh}
use usbq_core.Part.{msg_memory, on_heap, with_msg}
use usbq_core.Part.Accounts.{world-Grew, Gives, Grew, allocate-cases}
use usbq_core.Part.Members.{Every-find_endpoint, find_endpoint-Present}
use usbq_core.Types.{dir_of_ctrl, is_ctrl, is_out, is_set_interface, w_index, w_length, w_value}
use usbq_core.Prelude.{
  Bool-cases, Bytes, Option-cases, arith, inl, inr, is_neg, length, none, not, pos, refl, some,
  true, ℕ, ◌&&◌, ◌+◌, ◌<◌, ◌==◌, ◌≡◌,
}

-- What was allocated counts among the other objects.
pub Grew-others :
    {W : Type 0} (n m : ℕ) (s s' : GadgetState W) → IsSound n s → Grew s m s' → IsSound (m + n) s'
Grew-others n m s s' v grew =
    let v' : IsSound n s' = Grew-IsSound n s s' v m grew in
    record {
      addressed = v'.addressed;
      served = v'.served;
      live_le = rw grew.same (omega (arith, v.live_le, grew.live_eq));
      table = v'.table;
    }

module _ {W : Type 0} (k : Kernel W) (gives : Gives k) (g : Udc W) (narrow : Narrow g)
    (dequeues : Dequeues g) (n : ℕ) (c : Bytes) (eight : length c ≡ 8)
    (small : w_length c < 65536) where
  module _ (ep : GadgetEndpoint) (served : IsServed ep)
      (same : same_epid (setup_id c) ep.epid ≡ true) (shape : Identity) where
    abbrev I : GadgetState W → Type 0
    I = Kept n ep.ref ep.epid shape

    control : is_ctrl ep.epid ≡ true
    unfolding setup_id
    control = ground (arith, same)

    dir_eq : ep.epid.dir ≡ dir_of_ctrl c
    unfolding setup_id
    dir_eq = ground (arith, same)

    sent_back :
        (m : Msg) (s : GadgetState W)
        → Asks c m
        → I s
        → Ok (λ _ s'. I s') ((ep_gadget_send_usb k g ep (some m) ▷ λ _. ret (tt {0})) s)
    sent_back m s a h =
        ▷-Ok (λ _ s'. I s') _ (ep_gadget_send_usb k g ep (some m)) (λ _. ret (tt {0})) s refl
          (ep_gadget_send_usb-Sends k gives g ep s served m
            (Asks-IsRequest ep.epid c m eight small a))
          (λ _ s' sends. Sends-Kept n ep.ref ep.epid shape s s' h ep h.here sends)

    told : (m : Msg) (s : GadgetState W) → I s → Ok (λ _ s'. I s') (ep_gadget_send_userland k g m s)
    unfolding ep_gadget_send_userland send_userland
    told m s h = Grew-Kept n ep.ref ep.epid shape s _ h 0 (world-Grew _ _)

    forward_setup-Kept :
        (m : Msg) (s : GadgetState W)
        → Asks c m
        → I s
        → Ok (λ _ s'. I s') (forward_setup k g ep c m s)
    unfolding forward_setup
    forward_setup-Kept m s a h =
        ▷-Ok (λ _ s'. I s') _ (ep_gadget_send_userland k g m) _ s refl (told m s h)
          (λ err s' h'. elim (Bool-cases (not (is_neg err) && is_out ep.epid && w_length c == 0)) [
            | inl y ↦ rw y (sent_back m s' a h')
            | inr y ↦ rw y h'
          ])

    standard_request-Kept : (s : GadgetState W) → I s → Ok (λ _ s'. I s') (standard_request k g c s)
    unfolding standard_request
    standard_request-Kept s h = elim (Bool-cases (is_set_interface c)) [
      | inl y ↦
          rw (y, standard_request)
            (set_interface-Keeps k gives g narrow dequeues n ep.ref ep.epid control shape
              (w_index c) (w_value c) s h)
      | inr y ↦ rw (y, standard_request) h
    ]

    dispatch_setup-Kept :
        (m : Msg) (s : GadgetState W)
        → Asks c m
        → I s
        → Ok (λ _ s'. I s') (dispatch_setup k g ep c m s)
    unfolding dispatch_setup
    dispatch_setup-Kept m s a h = elim (Bool-cases (is_out ep.epid && not (w_length c == 0))) [
      | inl y ↦ rw (y, dispatch_setup) (sent_back m s a h)
      | inr y ↦
          rw (y, dispatch_setup)
            (▷-Ok (λ _ s'. I s') _ (standard_request k g c) _ s refl (standard_request-Kept s h)
              (λ err s' h'. elim (Bool-cases (is_neg err)) [
                | inl neg ↦ rw neg h'
                | inr good ↦ rw good (forward_setup-Kept m s' a h')
              ]))
    ]

    setup_with-Kept :
        (s : GadgetState W)
        → I s
        → Ok
            (λ _ s'. I s')
            ((with_msg k (msg_memory 8 data_type) (λ kmalloc. alloc_msg kmalloc 8 data_type)
                ▷ setup_with k g ep c)
              s)
    unfolding with_msg setup_with
    setup_with-Kept s h =
        elim (alloc_msg-IsFresh (memory k s.heap.world) (gives s.heap.world) 8 data_type
          (omega arith) (omega arith)) [
            | inl (nothing, e) ↦
                rw (e, Ok, lift, ◌▷◌) (Grew-Kept n ep.ref ep.epid shape s _ h 0 (world-Grew _ _))
            | inr (m, e, fresh) ↦
                let (m', set_eq, asks) =
                  setup_msg-Asks ep c eight dir_eq served.real.real.dir_le m fresh in
                rw (e, Ok, lift, ◌▷◌, set_eq)
                  (dispatch_setup-Kept m' _ asks (
                    Grew-Kept n ep.ref ep.epid shape s _ h 1 (record {
                      own_eq = refl;
                      same = refl;
                      live_eq = omega arith;
                      next_le = omega arith;
                    })))
          ]

module _ {W : Type 0} (k : Kernel W) (gives : Gives k) (g : Udc W) (narrow : Narrow g)
    (dequeues : Dequeues g) (n : ℕ) (c : Bytes) (eight : length c ≡ 8)
    (small : w_length c < 65536) where
  -- The work frees its two objects at the end.
  handle_setup-IsSound :
      (s : GadgetState W) → IsSound (2 + n) s → Ok (λ _ s'. IsSound n s') (handle_setup k g c s)
  unfolding handle_setup find_gadget_endpoint release
  handle_setup-IsSound s v =
      ▷-Ok {P = λ _ s'. IsSound (2 + n) s'} (λ _ s'. IsSound n s') _
        (find_gadget_endpoint k g (setup_id c) ▷ (elim [
          | none ↦ ret tt
          | some ep ↦
              with_msg k (msg_memory 8 data_type) (λ kmalloc. alloc_msg kmalloc 8 data_type)
              ▷ setup_with k g ep c
        ]))
        (λ _. on_heap (λ h. (tt {0}, release k (release k h)))) s refl
        (elim (Option-cases (find_endpoint (setup_id c) s.eplist)) [
          | inl e ↦ rw (e, Ok, ◌▷◌) v
          | inr (ep, e) ↦
              rw (e, Ok, ◌▷◌)
                (Ok-map (λ (_ : Unit {0}) s'. Kept (2 + n) ep.ref ep.epid s.own.identity s')
                  (λ _ s'. IsSound (2 + n) s') _ (λ _ s' h. h.sound)
                  (setup_with-Kept k gives g narrow dequeues (2 + n) c eight small ep
                    (Every-find_endpoint IsServed (setup_id c) ep s.eplist v.served e)
                    (find_endpoint-same_epid (setup_id c) ep s.eplist e) s.own.identity s
                    (record {
                      sound = v;
                      here = find_endpoint-Present (setup_id c) ep s.eplist e;
                      shape_eq = record { nb_eq = refl; descs_eq = refl };
                    })))
        ])
        (λ _ s' v'. record {
          addressed = record { distinct = v'.addressed.distinct; before = v'.addressed.before };
          served = v'.served;
          live_le = omega (arith, v'.live_le);
          table = v'.table;
        })

  queue_setup-IsSound :
      (s : GadgetState W) → IsSound n s → Ok (λ _ s'. IsSound n s') (queue_setup k g c s)
  unfolding queue_setup release
  queue_setup-IsSound s v = elim (allocate-cases k gives 20 s.heap) [
    | inl (e, live, next) ↦
        rw (e, Ok, queue_setup, ◌▷◌)
          (Grew-IsSound n s _ v 0 (record {
            own_eq = refl;
            same = refl;
            live_eq = omega (arith, live);
            next_le = omega (arith, next);
          }))
    | inr (e, live, next) ↦ elim (allocate-cases k gives 8 (allocate k 20 s.heap).1) [
      | inl (e', live', next') ↦
          rw (e, Ok, queue_setup, ◌▷◌, e')
            (Grew-IsSound n s _ v 0 (record {
              own_eq = refl;
              same = refl;
              live_eq = omega (arith, live, live');
              next_le = omega (arith, next, next');
            }))
      | inr (e', live', next') ↦
          rw (e, Ok, queue_setup, ◌▷◌, e')
            (▷-Ok (λ _ s'. IsSound n s') _ (handle_setup k g c) (λ _. ret (pos 0)) _ refl
              (handle_setup-IsSound _ (
                Grew-others n 2 s _ v (record {
                  own_eq = refl;
                  same = refl;
                  live_eq = omega (arith, live, live');
                  next_le = omega (arith, next, next');
                })))
              (λ _ s' v'. v'))
    ]
  ]

  pub ubq_setup-IsSound :
      (s : GadgetState W) → IsSound n s → Ok (λ _ s'. IsSound n s') (ubq_setup k g c s)
  unfolding ubq_setup find_gadget_endpoint
  ubq_setup-IsSound s v = elim (Option-cases (find_endpoint (setup_id c) s.eplist)) [
    | inl e ↦ rw (e, Ok, ◌▷◌) v
    | inr (ep, e) ↦ rw (e, Ok, ◌▷◌) (queue_setup-IsSound s v)
  ]
