-- ===== src/Gadget/Serving.antt =====
-- gadget_recv_userland of gadget.c on a sound state.
use usbq_core.Action.{Act, Ok, lift, ret, ▷-Ok, ◌▷◌}
use usbq_core.Endpoint.{Kernel, find_endpoint, same_epid}
use usbq_core.Endpoint.Find.{find_endpoint-same_epid}
use usbq_core.Gadget.{GadgetEndpoint, GadgetState, Udc}
use usbq_core.Gadget.Callbacks.{
  answer_ctrl, ep_gadget_recv_userland, ep_gadget_recv_userland_ctrl, gadget_recv_userland_usb,
  reconfigure, recv_gadget_userland,
}
use usbq_core.Gadget.Cleanup.{Dequeues}
use usbq_core.Gadget.Interfaces.{disable_active_interface, enable_default_interface}
use usbq_core.Gadget.Offering.{
  IsRequest, ep_gadget_send_usb-Sends, get_data-within, setup_bytes, setup_of-some,
}
use usbq_core.Gadget.Requests.{ep_gadget_send_usb}
use usbq_core.Gadget.Selecting.{
  Keeps-loop, disable_active_interface-Keeps, enable_default_interface-Keeps,
}
use usbq_core.Gadget.Sending.{skipped_of}
use usbq_core.Gadget.Sound.{Grew-IsSound, IsServed, IsSound, Kept, Sends-Kept}
use usbq_core.Gadget.State.{find_gadget_endpoint}
use usbq_core.Gadget.Switching.{Narrow}
use usbq_core.Msg.{Msg, get_epid, get_status, is_usb_ack, word_of_int}
use usbq_core.Part.Accounts.{world-Grew, Gives}
use usbq_core.Part.Members.{Every-find_endpoint, find_endpoint-Present}
use usbq_core.Part.Table.{same_epid-eq}
use usbq_core.Types.{
  is_bulk, is_ctrl, is_get_desc_configuration, is_in, is_interrupt, is_isochronous, w_length,
}
use usbq_core.Prelude.{
  Bool-cases, Bytes, Option-cases, arith, epipe, error_or_zero, if◌then◌else◌, inl, inr, is_neg,
  ltb, refl, some, subst, true, ℕ, ℤ, ◌&&◌, ◌==◌, ◌||◌, ◌≡◌, ◌⊎◌,
}

-- A message of userland for an endpoint: an acknowledgement of a control request, or data.
abbrev pub IsForEndpoint : Msg → Type 0
IsForEndpoint msg =
    ((is_ctrl (get_epid msg) && is_usb_ack msg) ≡ true) ⊎ IsRequest (get_epid msg) msg

module _ {W : Type 0} (k : Kernel W) (gives : Gives k) (g : Udc W) (narrow : Narrow g)
    (dequeues : Dequeues g) (n : ℕ) where
  abbrev pub V : {A : Type 0} → A → GadgetState W → Type 0
  V a s = IsSound n s

  -- The error that a handler passes on changes nothing.
  pub V-result :
      (m : Act (GadgetState W) ℤ) (s : GadgetState W)
      → Ok V (m s)
      → Ok V ((m ▷ λ err. ret (error_or_zero err)) s)
  V-result m s v = ▷-Ok V (m s) m (λ err. ret (error_or_zero err)) s refl v (λ err s' v'. v')

  module _ (ep : GadgetEndpoint) (s : GadgetState W) (v : IsSound n s) (msg : Msg)
      (found : find_endpoint (get_epid msg) s.eplist ≡ some ep) (r : IsForEndpoint msg) where
    same : same_epid (get_epid msg) ep.epid ≡ true
    same = find_endpoint-same_epid (get_epid msg) ep s.eplist found

    served : IsServed ep
    served = Every-find_endpoint IsServed (get_epid msg) ep s.eplist v.served found

    abbrev I : GadgetState W → Type 0
    I = Kept n ep.ref ep.epid s.own.identity

    kept : I s
    kept = record {
      sound = v;
      here = find_endpoint-Present (get_epid msg) ep s.eplist found;
      shape_eq = record { nb_eq = refl; descs_eq = refl };
    }

    -- The message is sent on the endpoint.
    passed :
        (s' : GadgetState W)
        → IsRequest (get_epid msg) msg
        → I s'
        → Ok V ((ep_gadget_send_usb k g ep (some msg) ▷ λ err. ret (error_or_zero err)) s')
    passed s' q h =
        ▷-Ok V _ (ep_gadget_send_usb k g ep (some msg)) (λ err. ret (error_or_zero err)) s' refl
          (ep_gadget_send_usb-Sends k gives g ep s' served msg
            (subst (λ id. IsRequest id msg) (same_epid-eq (get_epid msg) ep.epid same) q))
          (λ err s'' sends.
            (Sends-Kept n ep.ref ep.epid s.own.identity s' s'' h ep h.here sends).sound)

    reconfigure-Kept :
        (c : Bytes) → is_ctrl ep.epid ≡ true → Ok (λ _ s'. I s') (reconfigure k g c s)
    unfolding reconfigure
    reconfigure-Kept c control =
        elim (Bool-cases (is_get_desc_configuration c && ltb 9 (w_length c))) [
          | inl y ↦
              rw (y, reconfigure)
                (Keeps-loop k gives g narrow dequeues n ep.ref ep.epid control s.own.identity
                  (disable_active_interface k g) (enable_default_interface k g)
                  (disable_active_interface-Keeps k gives g narrow dequeues n ep.ref ep.epid control
                    s.own.identity)
                  (enable_default_interface-Keeps k gives g narrow dequeues n ep.ref ep.epid control
                    s.own.identity)
                  s kept)
          | inr y ↦ rw (y, reconfigure) kept
        ]

    answered :
        is_ctrl ep.epid ≡ true → IsRequest (get_epid msg) msg → Ok V (answer_ctrl k g ep msg s)
    unfolding answer_ctrl
    answered control q = elim (Bool-cases (is_in ep.epid)) [
      | inr out ↦ rw (out, answer_ctrl) (passed s q kept)
      | inl inward ↦
          let control' : is_ctrl (get_epid msg) ≡ true = ground (arith, same, control) in
          let eight : skipped_of (get_epid msg) ≡ 8 = rw control' in
          rw
            (
              inward,
              answer_ctrl,
              setup_of-some msg (get_data-within msg (omega (arith, q.enough, eight))),
              Ok,
              ◌▷◌,
              lift,
            )
            (▷-Ok V _ (reconfigure k g (setup_bytes msg))
              (λ err.
                if is_neg err
                then ret err
                else ep_gadget_send_usb k g ep (some msg) ▷ λ err. ret (error_or_zero err))
              s refl (reconfigure-Kept (setup_bytes msg) control)
              (λ err s' h. elim (Bool-cases (is_neg err)) [
                | inl neg ↦ rw neg h.sound
                | inr good ↦ rw good (passed s' q h)
              ]))
    ]

    ctrl-IsSound : is_ctrl ep.epid ≡ true → Ok V (ep_gadget_recv_userland_ctrl k g ep msg s)
    unfolding ep_gadget_recv_userland_ctrl answer_ctrl
    ctrl-IsSound control = elim (Bool-cases (is_usb_ack msg)) [
      | inl ack ↦ elim (Bool-cases (get_status msg == word_of_int epipe)) [
        | inl y ↦
            rw (ack, ep_gadget_recv_userland_ctrl, y) (Grew-IsSound n s _ v 0 (world-Grew _ _))
        | inr y ↦ rw (ack, ep_gadget_recv_userland_ctrl, y) v
      ]
      | inr other ↦ elim r [
        | inl halts ↦ absurd (ground (arith, halts, other))
        | inr q ↦ rw (other, ep_gadget_recv_userland_ctrl) (answered control q)
      ]
    ]

    recv_gadget_userland-IsSound : Ok V (recv_gadget_userland k g ep msg s)
    unfolding recv_gadget_userland ep_gadget_recv_userland
    recv_gadget_userland-IsSound = elim (Bool-cases (is_ctrl ep.epid)) [
      | inl control ↦ rw (control, recv_gadget_userland) (ctrl-IsSound control)
      | inr other ↦
          let known : (is_isochronous ep.epid || is_bulk ep.epid || is_interrupt ep.epid) ≡ true =
            ground (arith, served.real.real.type_le, other) in
          elim r [
            | inl halts ↦ absurd (ground (arith, halts, other, same))
            | inr q ↦ rw (other, known, recv_gadget_userland) (passed s q kept)
          ]
    ]

  pub gadget_recv_userland_usb-IsSound :
      (s : GadgetState W) (msg : Msg)
      → IsSound n s
      → IsForEndpoint msg
      → Ok V (gadget_recv_userland_usb k g msg s)
  unfolding gadget_recv_userland_usb find_gadget_endpoint
  gadget_recv_userland_usb-IsSound s msg v r = elim (Bool-cases (s.own.registered == 0)) [
    | inl off ↦ rw (off, gadget_recv_userland_usb) v
    | inr on ↦
        rw (on, gadget_recv_userland_usb)
          (elim (Option-cases (find_endpoint (get_epid msg) s.eplist)) [
            | inl e ↦ rw (e, Ok, ◌▷◌) v
            | inr (ep, e) ↦
                rw (e, Ok, ◌▷◌)
                  (V-result (recv_gadget_userland k g ep msg) s
                    (recv_gadget_userland-IsSound ep s v msg e r))
          ])
  ]
