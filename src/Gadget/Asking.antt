-- ===== src/Gadget/Asking.antt =====
-- A control request by which the host asks for data: ubq_setup and handle_setup of gadget.c.
use usbq_core.Action.{Ok, lift, ret, ▷-Ok, ◌▷◌}
use usbq_core.Endpoint.{
  Heap, Kernel, allocate, find_endpoint, memory, release, same_epid, send_userland,
}
use usbq_core.Endpoint.Find.{find_endpoint-same_epid}
use usbq_core.Gadget.{GadgetEndpoint, GadgetState, Udc}
use usbq_core.Gadget.Callbacks.{ep_gadget_send_userland}
use usbq_core.Gadget.Relaying.{Asks, setup_msg-Asks}
use usbq_core.Gadget.Setup.{
  dispatch_setup, forward_setup, handle_setup, queue_setup, setup_id, setup_with, standard_request,
  ubq_setup,
}
use usbq_core.Gadget.State.{find_gadget_endpoint}
use usbq_core.Msg.{Msg, alloc_msg, data_type}
use usbq_core.Msg.Alloc.{alloc_msg-IsFresh}
use usbq_core.Part.{msg_memory, on_heap, with_msg}
use usbq_core.Part.Accounts.{Gives, Grew, allocate-cases}
use usbq_core.Types.{dir_in, dir_of_ctrl, is_out, is_set_interface, w_length}
use usbq_core.Prelude.{
  Bool-cases, Bytes, ap, arith, enomem, false, inl, inr, is_neg, length, none, not, pos, refl, some,
  subst, sym, true, ℤ, ◌&&◌, ◌==◌, ◌∙◌, ◌≡◌, ◌⊎◌,
}

-- The request of the host is one for data, and no standard SET_INTERFACE, and control endpoint 0 is
-- there.
pub record IsQuery {W : Type 0} (c : Bytes) (s : GadgetState W) : Type 0 where
  pub eight : length c ≡ 8
  pub asks : dir_of_ctrl c ≡ dir_in
  pub other : is_set_interface c ≡ false
  pub ep : GadgetEndpoint
  pub found : find_endpoint (setup_id c) s.eplist ≡ some ep

module _ {W : Type 0} (k : Kernel W) (gives : Gives k) (g : Udc W) (c : Bytes) (s : GadgetState W)
    (q : IsQuery c s) where
  dir_eq : q.ep.epid.dir ≡ dir_in
  unfolding setup_id
  dir_eq =
      let same : same_epid (setup_id c) q.ep.epid ≡ true =
        find_endpoint-same_epid (setup_id c) q.ep s.eplist q.found in
      ground (arith, same, q.asks)

  -- The kernel after the first allocation, after the second, and after that of the message.
  abbrev pub first : Heap W
  first = (allocate k 20 s.heap).1

  abbrev pub second : Heap W
  second = (allocate k 8 first).1

  abbrev pub third : W
  third = (k.kmalloc (msg_memory 8 data_type) second.world).1

  -- Userland was told, or the allocation that failed.
  abbrev pub Told : ℤ → GadgetState W → Type 0
  Told err s' =
      ((err ≡ enomem)
        × Grew s 0 s'
        × (((allocate k 20 s.heap).0 ≡ false) × (s'.heap.world ≡ first.world)
            ⊎ ((allocate k 8 first).0 ≡ false) × (s'.heap.world ≡ second.world)))
      ⊎ ((err ≡ pos 0)
          × Grew s 0 s'
          × (alloc_msg (memory k second.world) 8 data_type ≡ some none)
          × (s'.heap.world ≡ third))
      ⊎ ((err ≡ pos 0)
          × Grew s 1 s'
          × (m : Msg) × Asks c m
          × (s'.heap.world ≡ (g.com_send m third).1))

  -- What is there after the message: the two objects of the work are still to be freed.
  abbrev Sent : GadgetState W → Type 0
  Sent s' =
      Grew s 2 s'
        × (alloc_msg (memory k second.world) 8 data_type ≡ some none)
        × (s'.heap.world ≡ third)
      ⊎ Grew s 3 s' × (m : Msg) × Asks c m × (s'.heap.world ≡ (g.com_send m third).1)

  inward : is_out q.ep.epid ≡ false
  inward = ground (arith, dir_eq)

  -- A request for data is not acknowledged.
  quiet : (err : ℤ) → (not (is_neg err) && is_out q.ep.epid && w_length c == 0) ≡ false
  quiet err = rw inward (elim (Bool-cases (is_neg err)) [ inl e ↦ rw e | inr e ↦ rw e ])

  told :
      (m : Msg) (s' : GadgetState W)
      → Grew s 3 s'
      → s'.heap.world ≡ third
      → Asks c m
      → Ok (λ _ s''. Sent s'') (ep_gadget_send_userland k g m s')
  unfolding ep_gadget_send_userland send_userland
  told m s' grew at asks = inr (
    record {
      own_eq = grew.own_eq;
      same = grew.same;
      live_eq = grew.live_eq;
      next_le = omega (arith, grew.next_le);
    },
    m,
    asks,
    ap (λ w. (g.com_send m w).1) at,
  )

  forward-Sent :
      (m : Msg) (s' : GadgetState W)
      → Grew s 3 s'
      → s'.heap.world ≡ third
      → Asks c m
      → Ok (λ _ s''. Sent s'') (forward_setup k g q.ep c m s')
  unfolding forward_setup
  forward-Sent m s' grew at asks =
      ▷-Ok (λ _ s''. Sent s'') _ (ep_gadget_send_userland k g m) _ s' refl (told m s' grew at asks)
        (λ err s'' t. rw (quiet err) t)

  dispatch-Sent :
      (m : Msg) (s' : GadgetState W)
      → Grew s 3 s'
      → s'.heap.world ≡ third
      → Asks c m
      → Ok (λ _ s''. Sent s'') (dispatch_setup k g q.ep c m s')
  unfolding dispatch_setup standard_request
  dispatch-Sent m s' grew at asks = rw (inward, q.other) (forward-Sent m s' grew at asks)

  setup_with-Sent :
      (s' : GadgetState W)
      → Grew s 2 s'
      → s'.heap.world ≡ second.world
      → Ok
          (λ _ s''. Sent s'')
          ((with_msg k (msg_memory 8 data_type) (λ kmalloc. alloc_msg kmalloc 8 data_type)
              ▷ setup_with k g q.ep c)
            s')
  unfolding with_msg setup_with
  setup_with-Sent s' grew at =
      let moved : (k.kmalloc (msg_memory 8 data_type) s'.heap.world).1 ≡ third =
        ap (λ w. (k.kmalloc (msg_memory 8 data_type) w).1) at in
      elim (alloc_msg-IsFresh (memory k s'.heap.world) (gives s'.heap.world) 8 data_type
        (omega arith) (omega arith)) [
          | inl (nothing, e) ↦
              rw (e, Ok, lift, ◌▷◌)
                (inl (
                  record {
                    own_eq = grew.own_eq;
                    same = grew.same;
                    live_eq = grew.live_eq;
                    next_le = omega (arith, grew.next_le);
                  },
                  subst (λ w. alloc_msg (memory k w) 8 data_type ≡ some none) at e,
                  moved,
                ))
          | inr (m, e, fresh) ↦
              let (m', set_eq, asks) =
                setup_msg-Asks q.ep c q.eight (dir_eq ∙ sym q.asks) (omega (arith, dir_eq)) m
                  fresh in
              rw (e, Ok, lift, ◌▷◌, set_eq)
                (dispatch-Sent m' _
                  (record {
                    own_eq = grew.own_eq;
                    same = grew.same;
                    live_eq = omega (arith, grew.live_eq);
                    next_le = omega (arith, grew.next_le);
                  })
                  moved asks)
        ]

  handle_setup-Told :
      (s' : GadgetState W)
      → Grew s 2 s'
      → s'.heap.world ≡ second.world
      → Ok (λ _ s''. Told (pos 0) s'') (handle_setup k g c s')
  unfolding handle_setup find_gadget_endpoint release
  handle_setup-Told s' grew at =
      let here : find_endpoint (setup_id c) s'.eplist ≡ some q.ep =
        ap (find_endpoint (setup_id c)) grew.same ∙ q.found in
      rw (here, Ok, ◌▷◌)
        (▷-Ok (λ _ s''. Told (pos 0) s'') _
          (with_msg k (msg_memory 8 data_type) (λ kmalloc. alloc_msg kmalloc 8 data_type)
            ▷ setup_with k g q.ep c)
          (λ _. on_heap (λ h. (tt {0}, release k (release k h)))) s' refl
          (setup_with-Sent s' grew at)
          (λ _ s''. elim [
            | inl (g2, nothing, w) ↦ inr (
                inl (
                  refl,
                  record {
                    own_eq = g2.own_eq;
                    same = g2.same;
                    live_eq = omega (arith, g2.live_eq);
                    next_le = omega (arith, g2.next_le);
                  },
                  nothing,
                  w,
                ))
            | inr (g3, m, asks, sent_eq) ↦ inr (
                inr (
                  refl,
                  record {
                    own_eq = g3.own_eq;
                    same = g3.same;
                    live_eq = omega (arith, g3.live_eq);
                    next_le = omega (arith, g3.next_le);
                  },
                  m,
                  asks,
                  sent_eq,
                ))
          ]))

  queue_setup-Told : Ok Told (queue_setup k g c s)
  unfolding queue_setup release
  queue_setup-Told = elim (allocate-cases k gives 20 s.heap) [
    | inl (e, live, next) ↦
        rw (e, Ok, queue_setup, ◌▷◌)
          (inl (
            refl,
            record {
              own_eq = refl;
              same = refl;
              live_eq = omega (arith, live);
              next_le = omega (arith, next);
            },
            inl (e, refl),
          ))
    | inr (e, live, next) ↦ elim (allocate-cases k gives 8 (allocate k 20 s.heap).1) [
      | inl (e', live', next') ↦
          rw (e, Ok, queue_setup, ◌▷◌, e')
            (inl (
              refl,
              record {
                own_eq = refl;
                same = refl;
                live_eq = omega (arith, live, live');
                next_le = omega (arith, next, next');
              },
              inr (e', refl),
            ))
      | inr (e', live', next') ↦
          rw (e, Ok, queue_setup, ◌▷◌, e')
            (▷-Ok Told _ (handle_setup k g c) (λ _. ret (pos 0)) _ refl
              (handle_setup-Told _
                (record {
                  own_eq = refl;
                  same = refl;
                  live_eq = omega (arith, live, live');
                  next_le = omega (arith, next, next');
                })
                refl)
              (λ _ s' t. t))
    ]
  ]

  -- If kmalloc gives as many bytes as it is asked for, then on a control request of eight bytes by
  -- which the host asks for data, other than a standard SET_INTERFACE, while control endpoint 0 is
  -- there, ubq_setup never leaves the memory, and leaves the endpoints, the flag and the identity
  -- as they were. When kmalloc fails for one of the two objects of the work, it gives -ENOMEM and
  -- nothing more is allocated. When it fails for the message, it gives 0 and nothing more is
  -- allocated. In both cases the kernel is as that kmalloc left it: nothing is sent. Otherwise it
  -- gives 0, and userland was sent a message of control endpoint 0 with the request as its data,
  -- which stays allocated.
  pub ubq_setup-Told : Ok Told (ubq_setup k g c s)
  unfolding ubq_setup find_gadget_endpoint
  ubq_setup-Told = rw (q.found, Ok, ◌▷◌) queue_setup-Told
