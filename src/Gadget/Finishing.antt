-- ===== src/Gadget/Finishing.antt =====
-- The completion of any waiting request of the gadget, on a sound state: gadget_recv_usb and recv
-- of gadget.c.
use usbq_core.Action.{Ok, Ok-map, lift, ret, ▷-Ok, ◌▷◌}
use usbq_core.Endpoint.{Kernel, memory, release, send_userland}
use usbq_core.Gadget.{GadgetEndpoint, GadgetRequest, GadgetState, Udc}
use usbq_core.Gadget.Awaiting.{IsSink}
use usbq_core.Gadget.Callbacks.{
  acknowledge_in, ep_gadget_recv_usb, ep_gadget_recv_usb_ctrl, ep_gadget_send_userland,
  forward_ctrl_out, forward_out, gadget_recv_usb, recv_completed, recv_gadget_usb,
}
use usbq_core.Gadget.Completing.{IsReal}
use usbq_core.Gadget.Offering.{ep_gadget_send_usb-waits, setup_bytes, setup_of-some}
use usbq_core.Gadget.Requests.{ep_free_gadget_request, ep_gadget_send_usb, free_gadget_request}
use usbq_core.Gadget.Sound.{Answerable, Grew-IsSound, IsServed, IsSound, Pushed-IsSound, Sends}
use usbq_core.Msg.{Msg, msg_set_data_size}
use usbq_core.Msg.Ack.{alloc_msg_ack-null}
use usbq_core.Part.{at_ref, free_msg, new_ack, with_msg}
use usbq_core.Part.Accounts.{world-Grew, Gives, Grew}
use usbq_core.Part.Cleanup.{objects}
use usbq_core.Part.Held.{
  Every-list_del_request, Held, IsIn-Held, drop_request, drop_request-Distinct,
  objects-drop_request, push-Held,
}
use usbq_core.Part.Members.{Every-at_ref, IsIn-Present, Present}
use usbq_core.Part.Requests.{free_request}
use usbq_core.Types.{is_bulk, is_ctrl, is_in, is_interrupt, is_isochronous, is_out, w_length}
use usbq_core.Prelude.{
  Bool-cases, Every-IsIn, IsIn, add32, arith, error_or_zero, if◌then◌else◌, inl, inr, is_neg, ltb,
  none, refl, subst, sym, true, ℕ, ℤ, ◌+◌, ◌<◌, ◌||◌, ◌≡◌,
}

-- The request as the kernel gives it back.
abbrev pub with_result : ℤ → ℕ → GadgetRequest → GadgetRequest
with_result status actual req = record req {
  transfer = record req.transfer { status = status; actual = actual };
}

drop_request-IsServed : (r : ℕ) (ep : GadgetEndpoint) → IsServed ep → IsServed (drop_request r ep)
drop_request-IsServed r ep v = record {
  real = v.real;
  role = elim v.role [
    | inl c ↦ inl c
    | inr (inl i) ↦ inr (inl i)
    | inr (inr k) ↦ inr (
        inr (record {
          desc = k.desc;
          desc_eq = k.desc_eq;
          narrow = k.narrow;
          kind = k.kind;
          sinks = k.sinks;
          packet = k.packet;
        }))
  ];
  requests = Every-list_del_request (Answerable ep.epid) r ep.reqlist v.requests;
}

module _ {W : Type 0} (k : Kernel W) (gives : Gives k) (g : Udc W) (n : ℕ) (ep : GadgetEndpoint)
    (req : GadgetRequest) where
  -- The request still waits.
  abbrev J : GadgetState W → Type 0
  J s = IsSound n s × Held ep.ref req.ref s.eplist

  freed :
      (s : GadgetState W) → J s → Ok (λ _ s'. IsSound n s') (ep_free_gadget_request k g ep req s)
  unfolding ep_free_gadget_request free_gadget_request free_request release
  freed s (v, held) =
      let less : objects (at_ref ep.ref (drop_request req.ref) s.eplist) + 3 ≡ objects s.eplist =
        objects-drop_request ep.ref req.ref s.eplist held in
      record {
        addressed = record {
          distinct = drop_request-Distinct ep.ref req.ref s.eplist v.addressed.distinct;
          before =
              Every-at_ref (λ x. x.ref < s.heap.next) IsServed ep.ref (drop_request req.ref)
                (λ x _ h _. h) s.eplist v.addressed.before v.served;
        };
        served =
            Every-at_ref IsServed IsServed ep.ref (drop_request req.ref)
              (λ x _ h _. drop_request-IsServed req.ref x h) s.eplist v.served v.served;
        live_le = omega (arith, less, v.live_le);
        table = v.table;
      }

  -- Nothing has changed but what the kernel and userland know.
  same-J : (s s' : GadgetState W) → J s → Grew s 0 s' → J s'
  same-J s s' (v, held) grew =
      (Grew-IsSound n s s' v 0 grew, subst (Held ep.ref req.ref) (sym grew.same) held)

  Sends-J : (s s' : GadgetState W) → J s → Present ep.ref ep.epid s.eplist → Sends ep s s' → J s'
  Sends-J s s' j here (inl grew) = same-J s s' j grew
  Sends-J s s' (v, held) here (inr (q, a, p)) = (
    Pushed-IsSound n s s' v ep q here a p,
    subst (Held ep.ref req.ref) (sym p.pushed) (push-Held ep.ref req.ref ep.ref q s.eplist held),
  )

  told : (m : Msg) (s : GadgetState W) → Ok (λ _ s'. Grew s 0 s') (ep_gadget_send_userland k g m s)
  unfolding ep_gadget_send_userland send_userland
  told m s = record { own_eq = refl; same = refl; live_eq = omega arith; next_le = omega arith }

  acknowledged :
      (status : ℤ) (s : GadgetState W)
      → IsReal ep.epid
      → Ok (λ _ s'. Grew s 0 s') ((new_ack k ep.epid status none 0 ▷ acknowledge_in k g) s)
  unfolding new_ack with_msg acknowledge_in free_msg release ep_gadget_send_userland send_userland
  acknowledged status s r =
      elim (alloc_msg_ack-null (memory k s.heap.world) (gives s.heap.world) ep.epid status r.real
        r.narrow) [
          | inl e ↦ rw (e, Ok, lift, ◌▷◌, acknowledge_in) (world-Grew _ _)
          | inr (m, e, ack) ↦
              rw (e, Ok, lift, ◌▷◌, acknowledge_in)
                (record {
                  own_eq = refl;
                  same = refl;
                  live_eq = omega arith;
                  next_le = omega arith;
                })
        ]

  module _ (status : ℤ) (actual : ℕ) (served : IsServed ep) (a : Answerable ep.epid req)
      (s : GadgetState W) (j : J s) (here : Present ep.ref ep.epid s.eplist) where
    abbrev done : GadgetRequest
    done = with_result status actual req

    ctrl-J : is_ctrl ep.epid ≡ true → Ok (λ _ s'. J s') (ep_gadget_recv_usb_ctrl k g ep done s)
    unfolding ep_gadget_recv_usb_ctrl forward_ctrl_out
    ctrl-J c = elim (Bool-cases (is_in ep.epid)) [
      | inl i ↦ rw (i, ep_gadget_recv_usb_ctrl) j
      | inr o ↦ elim a [
        | inl other ↦ absurd (ground (arith, other, c))
        | inr eight ↦
            rw (o, ep_gadget_recv_usb_ctrl, setup_of-some req.msg eight, Ok, ◌▷◌, lift)
              (elim (Bool-cases (ltb 0 (w_length (setup_bytes req.msg)))) [
                | inl y ↦ rw y (
                    Ok-map (λ _ s'. Grew s 0 s') (λ _ s'. J s') _ (λ _ s' grew. same-J s s' j grew)
                      (told (msg_set_data_size req.msg (add32 actual 8)) s))
                | inr y ↦ rw y j
              ])
      ]
    ]

    -- Data of the host, and the next wait.
    forwarded : (m : Msg) → IsSink ep → Ok (λ _ s'. J s') (forward_out k g ep m s)
    unfolding forward_out
    forwarded m r =
        ▷-Ok (λ _ s'. J s') _ (ep_gadget_send_userland k g m)
          (λ err.
            if is_neg err
            then ret err
            else ep_gadget_send_usb k g ep none ▷ λ err. ret (error_or_zero err))
          s refl (told m s)
          (λ err s' grew. elim (Bool-cases (is_neg err)) [
            | inl neg ↦ rw neg (same-J s s' j grew)
            | inr good ↦ rw good (
                ▷-Ok (λ _ s''. J s'') _ (ep_gadget_send_usb k g ep none)
                  (λ err. ret (error_or_zero err)) s' refl
                  (ep_gadget_send_usb-waits k gives g ep s' r)
                  (λ _ s'' sends.
                    Sends-J s' s'' (same-J s s' j grew)
                      (subst (Present ep.ref ep.epid) (sym grew.same) here) sends))
          ])

    recv_gadget_usb-J : Ok (λ _ s'. J s') (recv_gadget_usb k g ep done s)
    unfolding recv_gadget_usb ep_gadget_recv_usb
    recv_gadget_usb-J = elim (Bool-cases (is_ctrl ep.epid)) [
      | inl c ↦ rw (c, recv_gadget_usb) (ctrl-J c)
      | inr other ↦
          let known : (is_isochronous ep.epid || is_bulk ep.epid || is_interrupt ep.epid) ≡ true =
            ground (arith, served.real.real.type_le, other) in
          elim (Bool-cases (is_out ep.epid)) [
            | inr inward ↦
                rw (other, known, recv_gadget_usb, inward)
                  (Ok-map (λ _ s'. Grew s 0 s') (λ _ s'. J s') _ (λ _ s' grew. same-J s s' j grew)
                    (acknowledged status s served.real))
            | inl outward ↦ elim served.role [
              | inl c ↦ absurd (ground (arith, c, other))
              | inr (inl i) ↦ absurd (ground (arith, i, outward))
              | inr (inr r) ↦
                  rw (other, known, recv_gadget_usb, outward)
                    (forwarded (msg_set_data_size req.msg actual) r)
            ]
          ]
    ]

    gadget_recv_usb-J : Ok (λ _ s'. IsSound n s') (gadget_recv_usb k g ep done s)
    unfolding gadget_recv_usb recv_completed
    gadget_recv_usb-J = elim (Bool-cases (is_neg status)) [
      | inl neg ↦ rw (neg, gadget_recv_usb) (freed' s j)
      | inr good ↦
          rw (good, gadget_recv_usb)
            (▷-Ok (λ _ s'. IsSound n s') _ (recv_gadget_usb k g ep done)
              (λ _. ep_free_gadget_request k g ep done) s refl recv_gadget_usb-J
              (λ _ s' j'. freed' s' j'))
    ]
      where
        -- What is freed is known by its address.
        freed' :
            (s : GadgetState W)
            → J s
            → Ok (λ _ s'. IsSound n s') (ep_free_gadget_request k g ep done s)
        freed' s j = unfold ep_free_gadget_request free_gadget_request free_request in freed s j

module _ {W : Type 0} (k : Kernel W) (gives : Gives k) (g : Udc W) (n : ℕ) where
  -- Whatever request of whatever endpoint is done.
  pub gadget_recv_usb-IsSound :
      (ep : GadgetEndpoint) (req : GadgetRequest) (status : ℤ) (actual : ℕ) (s : GadgetState W)
      → IsSound n s
      → IsIn ep s.eplist
      → IsIn req ep.reqlist
      → Ok (λ _ s'. IsSound n s') (gadget_recv_usb k g ep (with_result status actual req) s)
  gadget_recv_usb-IsSound ep req status actual s v m m' =
      let served : IsServed ep = Every-IsIn IsServed ep s.eplist v.served m in
      gadget_recv_usb-J k gives g n ep req status actual served
        (Every-IsIn (Answerable ep.epid) req ep.reqlist served.requests m') s
        (v, IsIn-Held ep req s.eplist v.addressed.distinct m m') (IsIn-Present ep s.eplist m)
