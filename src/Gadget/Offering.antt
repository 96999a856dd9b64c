-- ===== src/Gadget/Offering.antt =====
-- ep_gadget_send_usb of gadget.c on any endpoint: what it leaves in the list can be completed.
use usbq_core.Action.{Ok, Ok-map, lift, ▷-Ok}
use usbq_core.Endpoint.{Kernel}
use usbq_core.Gadget.{GadgetEndpoint, GadgetRequest, GadgetState, Udc}
use usbq_core.Gadget.Awaiting.{Awaits, IsSink, ep_gadget_send_usb-Awaits}
use usbq_core.Gadget.Copying.{IsCarried, request_with-Loaded}
use usbq_core.Gadget.Requests.{
  ctrl_size, data_request_for, ep_fill_ctrl_request, ep_fill_request, ep_gadget_send_usb,
  fill_gadget_request, request_with, setup_of,
}
use usbq_core.Gadget.Sending.{
  Answers, Offered, Prepared, ep_gadget_send_usb-Offered, filled-Prepared, send_usb-Offered,
  skipped, skipped_of,
}
use usbq_core.Gadget.Sound.{Answerable, IsServed, Sends}
use usbq_core.Msg.{Msg, get_data, msg_get_data, msg_get_data_size}
use usbq_core.Msg.Copy.{length-get_data, msg_get_data_size-Fits}
use usbq_core.Part.Accounts.{Gives}
use usbq_core.Types.{Epid, is_ctrl, is_in, is_isochronous, w_length}
use usbq_core.Prelude.{
  Bool-cases, Bytes, add32, ap, arith, drop, false, inl, inr, length, length-drop, length-take,
  load-ok, negsuc, none, pos, refl, some, take, true, ℤ, ◌+◌, ◌<◌, ◌>>=◌, ◌||◌, ◌≡◌, ◌≤◌,
}

-- The bytes of a message that stand for a struct usb_ctrlrequest.
abbrev pub setup_bytes : Msg → Bytes
setup_bytes msg = take 8 (drop (msg_get_data msg) msg.body)

-- A message for an endpoint of an identity: on a control or an isochronous endpoint it begins with
-- eight bytes, and what stands there for wLength is a word of sixteen bits.
pub record IsRequest (id : Epid) (msg : Msg) : Type 0 where
  pub carried : IsCarried msg
  pub enough : skipped_of id ≤ length (get_data msg)
  pub length_lt : w_length (setup_bytes msg) < 65536

-- The bytes of the data lie in the memory.
pub get_data-within : (m : Msg) → 8 ≤ length (get_data m) → msg_get_data m + 8 ≤ length m.body
unfolding get_data
get_data-within m h = omega (
  arith,
  h,
  length-take (msg_get_data_size m) (drop (msg_get_data m) m.body),
  length-drop (msg_get_data m) m.body,
)

pub setup_of-some :
    (msg : Msg) → msg_get_data msg + 8 ≤ length msg.body → setup_of msg ≡ some (setup_bytes msg)
unfolding setup_of
setup_of-some msg h = load-ok msg.body (msg_get_data msg) 8 h

module _ {W : Type 0} (k : Kernel W) (gives : Gives k) (g : Udc W) (ep : GadgetEndpoint)
    (s : GadgetState W) where
  Offered-Sends :
      (P : GadgetRequest → Type 0)
      → ((req : GadgetRequest) → P req → Answerable ep.epid req)
      → (err : ℤ) (s' : GadgetState W) → Offered k g s ep P err s'
      → Sends ep s s'
  Offered-Sends P f (pos m) s' (_, q, p, _, _, _) = inr (q.request, f q.request p, q.pushed)
  Offered-Sends P f (negsuc m) s' grew = inl grew

  -- A wait for the host.
  pub ep_gadget_send_usb-waits :
      IsSink ep → Ok (λ _ s'. Sends ep s s') (ep_gadget_send_usb k g ep none s)
  ep_gadget_send_usb-waits r =
      Ok-map (Offered k g s ep (Awaits ep r.desc)) (λ _ s'. Sends ep s s')
        (ep_gadget_send_usb k g ep none s)
        (Offered-Sends (Awaits ep r.desc) (λ req _. inl (ground (arith, r.kind))))
        (ep_gadget_send_usb-Awaits k gives g ep r s)

  module _ (v : IsServed ep) (msg : Msg) (q : IsRequest ep.epid msg) where
    len : length (get_data msg) ≡ msg_get_data_size msg
    len = length-get_data msg q.carried.fits

    small : msg_get_data_size msg < 65536
    small = omega (arith, q.carried.small, msg_get_data_size-Fits msg q.carried.fits)

    -- A message for an endpoint that the host reads from.
    inward :
        is_in ep.epid ≡ true → Ok (λ _ s'. Sends ep s s') (ep_gadget_send_usb k g ep (some msg) s)
    inward i =
        Ok-map (Offered k g s ep (Answers ep msg)) (λ _ s'. Sends ep s s')
          (ep_gadget_send_usb k g ep (some msg) s)
          (Offered-Sends (Answers ep msg) (λ req (data_eq, _, _, _, _).
            elim (Bool-cases (is_ctrl ep.epid)) [
              | inl c ↦
                  let eight : skipped ep ≡ 8 = rw c in
                  inr (get_data-within req.msg (omega (arith, ap length data_eq, q.enough, eight)))
              | inr c ↦ inl c
            ]))
          (ep_gadget_send_usb-Offered k gives g ep v.real.narrow v.real.real.type_le i msg q.carried
            q.enough s)

    -- A message for an endpoint that the host writes to, which is not a control endpoint.
    outward : (r : IsSink ep) → Ok (λ _ s'. Sends ep s s') (ep_gadget_send_usb k g ep (some msg) s)
    unfolding fill_gadget_request ep_fill_request data_request_for
    outward r =
        let other : (is_ctrl ep.epid || is_isochronous ep.epid) ≡ false = ground (arith, r.kind) in
        Ok-map (Offered k g s ep (Answerable ep.epid)) (λ _ s'. Sends ep s s')
          (ep_gadget_send_usb k g ep (some msg) s) (Offered-Sends (Answerable ep.epid) (λ req a. a))
          (send_usb-Offered k g s ep (Answerable ep.epid) (some msg) (
            rw (other, r.kind, fill_gadget_request)
              (▷-Ok (Prepared k g s ep (Answerable ep.epid)) _
                (request_with k g ep (msg_get_data_size msg) msg) _ s refl
                (request_with-Loaded k gives g ep v.real.narrow s (msg_get_data_size msg) msg
                  q.carried (omega arith) (omega (arith, small)))
                (elim [
                  | none ↦ λ s' grew. grew
                  | some req ↦ λ s' (first, p, same, c).
                      filled-Prepared k g s ep (Answerable ep.epid) first _ s' same p
                        (rw r.sinks (omega (arith, c.room, c.allocated_eq)))
                        (inl (ground (arith, r.kind)))
                ]))))

    -- The answer to a control request that writes, which has room for the data of the host as well.
    control :
        is_ctrl ep.epid ≡ true
        → is_in ep.epid ≡ false
        → Ok (λ _ s'. Sends ep s s') (ep_gadget_send_usb k g ep (some msg) s)
    unfolding fill_gadget_request ep_fill_ctrl_request ctrl_size
    control c i =
        let eight : skipped ep ≡ 8 = rw c in
        let enough : 8 ≤ length (get_data msg) = omega (arith, q.enough, eight) in
        let found : setup_of msg ≡ some (setup_bytes msg) =
          setup_of-some msg (get_data-within msg enough) in
        let sz_eq : add32 (msg_get_data_size msg) (w_length (setup_bytes msg))
            ≡ msg_get_data_size msg + w_length (setup_bytes msg) =
          omega (arith, small, q.length_lt) in
        Ok-map (Offered k g s ep (Answerable ep.epid)) (λ _ s'. Sends ep s s')
          (ep_gadget_send_usb k g ep (some msg) s) (Offered-Sends (Answerable ep.epid) (λ req a. a))
          (send_usb-Offered k g s ep (Answerable ep.epid) (some msg) (
            rw (c, fill_gadget_request, i, found, ◌>>=◌, lift)
              (▷-Ok (Prepared k g s ep (Answerable ep.epid)) _
                (request_with k g ep (add32 (msg_get_data_size msg) (w_length (setup_bytes msg)))
                  msg)
                _ s refl
                (request_with-Loaded k gives g ep v.real.narrow s _ msg q.carried
                  (omega (arith, sz_eq)) (omega (arith, small, q.length_lt, sz_eq)))
                (elim [
                  | none ↦ λ s' grew. grew
                  | some req ↦ λ s' (first, p, same, l).
                      filled-Prepared k g s ep (Answerable ep.epid) first _ s' same p
                        (omega (arith, l.room, sz_eq, small, q.length_lt, len, enough))
                        (inr (get_data-within req.msg (omega (arith, ap length l.data_eq, enough))))
                ]))))

    -- On an endpoint that can be used, ep_gadget_send_usb of a message for it stays inside of the
    -- memory.
    pub ep_gadget_send_usb-Sends :
        Ok (λ _ s'. Sends ep s s') (ep_gadget_send_usb k g ep (some msg) s)
    ep_gadget_send_usb-Sends = elim (Bool-cases (is_in ep.epid)) [
      | inl i ↦ inward i
      | inr i ↦ elim v.role [
        | inl c ↦ control c i
        | inr (inl i') ↦ inward i'
        | inr (inr r) ↦ outward r
      ]
    ]
