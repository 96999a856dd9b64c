-- ===== src/Driver/Offering.antt =====
-- ep_driver_send_usb of driver.c on any endpoint: what it leaves in the list can be completed.
use usbq_core.Action.{Ok, Ok-map, lift, ret, ▷-Ok, ◌▷◌}
use usbq_core.Driver.Callbacks.{ep_driver_send_usb, fill_request, submit_or_free, urb_submit}
use usbq_core.Driver.Copying.{backup_data-some, room-within}
use usbq_core.Driver.Request.{
  alloc_driver_request, ctrlrequest, data_at, ep_driver_fill_bulk_request,
  ep_driver_fill_ctrl_request, ep_driver_fill_int_request, ep_driver_fill_isoc_request,
  ep_free_driver_request, init_urb, interval_of, max_bulk_size, max_isoc_frame, nb_isoc_pkts,
  request_for,
}
use usbq_core.Driver.Sending.{free_driver_request-Ok, max_isoc_frame-le}
use usbq_core.Driver.Sound.{IsLinked, Readable, Submits}
use usbq_core.Driver.State.{DriverEndpoint, DriverRequest, DriverState}
use usbq_core.Endpoint.{Kernel, packet_size_of}
use usbq_core.Msg.{Msg, data_type, msg_get_data_size}
use usbq_core.Msg.Copy.{Fits}
use usbq_core.Part.Accounts.{Allocated, Gives, Grew, Pushed, alloc_request-Ok, filled-Pushed}
use usbq_core.Part.Requests.{filled}
use usbq_core.Types.{
  Epid, b_interval, is_bulk, is_ctrl, is_in, is_interrupt, is_isochronous, w_length,
  w_max_packet_size,
}
use usbq_core.Prelude.{
  Bool-cases, Bytes, Option, add32, arith, drop, false, if◌then◌else◌, inl, inr, is_neg, length,
  load, load-ok, none, refl, some, subst, sym, take, true, word, ℕ, ◌*◌, ◌+◌, ◌<◌, ◌∙◌, ◌≡◌, ◌≤◌,
}

-- A message that can be sent on an endpoint: the data that its size gives lie in its memory, and on
-- a control endpoint begin with a control request, whose wLength is a word of sixteen bits.
pub record IsSendable (id : Epid) (msg : Msg) : Type 0 where
  pub fits : Fits msg
  pub within : data_at + msg_get_data_size msg ≤ length msg.body
  pub small : msg_get_data_size msg < 65536
  pub request : is_ctrl id ≡ true → 8 ≤ msg_get_data_size msg
  pub length_lt : w_length (take 8 (drop data_at msg.body)) < 65536

module _ {W : Type 0} (k : Kernel W) (gives : Gives k) (s : DriverState W) (ep : DriverEndpoint)
    (v : IsLinked ep) where
  -- A request that was allocated, perhaps changed since, with room for `sz` bytes.
  abbrev Ready : ℕ → Option DriverRequest → DriverState W → Type 0
  Ready sz none s' = Grew s 0 s'
  Ready sz (some req) s' =
      (first : DriverRequest) × Pushed s ep.ref first s'
      × (first.ref ≡ req.ref)
      × (data_at + sz ≤ length req.msg.body)

  -- A request that the endpoint has.
  abbrev Put : Option DriverRequest → DriverState W → Type 0
  Put none s' = Grew s 0 s'
  Put (some req) s' = Pushed s ep.ref req s' × Readable ep.epid req

  alloc-Allocated :
      (sz : ℕ)
      → sz + 26 < word
      → Ok (Allocated (λ _. init_urb) s ep sz data_type) (alloc_driver_request k ep sz s)
  unfolding alloc_driver_request
  alloc-Allocated sz small =
      alloc_request-Ok k gives _ _ ep v.real.narrow sz small data_type (omega arith) s 72

  filled-Put :
      (first req : DriverRequest) (s' : DriverState W)
      → Pushed s ep.ref first s'
      → first.ref ≡ req.ref
      → Readable ep.epid req
      → Ok Put (filled k ep req s')
  filled-Put first req s' p same a =
      Ok-map (λ r s'. (r ≡ some req) × Pushed s ep.ref req s') Put (filled k ep req s')
        (λ r s'' (e, p'). subst (λ r. Put r s'') (sym e) (p', a))
        (filled-Pushed k s ep first req s' same p)

  -- The request is submitted, or freed again.
  submit_or_free-Submits :
      (req : DriverRequest) (s' : DriverState W)
      → Pushed s ep.ref req s'
      → Readable ep.epid req
      → Ok (λ _ s''. Submits ep s s'') (submit_or_free k ep req s')
  unfolding submit_or_free urb_submit ep_free_driver_request
  submit_or_free-Submits req s' p a =
      let after : DriverState W = record s' {
        heap = record s'.heap { world = (k.usb_submit_urb req.transfer s'.heap.world).1 };
      } in
      let moved : Pushed s ep.ref req after = record {
        own_eq = p.own_eq;
        pushed = p.pushed;
        live_eq = p.live_eq;
        next_le = p.next_le;
      } in
      elim (Bool-cases (is_neg ((k.usb_submit_urb req.transfer s'.heap.world).0))) [
        | inl neg ↦
            rw (neg, neg)
              (▷-Ok (λ _ s''. Submits ep s s'') _ (ep_free_driver_request k ep req) _ after refl
                (free_driver_request-Ok k s ep req after moved) (λ _ s'' grew. inl grew))
        | inr good ↦ rw (good, Ok, ◌▷◌) (inr (req, a, moved))
      ]

  send-Submits :
      (msg : Option Msg)
      → Ok Put (fill_request k ep msg s)
      → Ok (λ _ s'. Submits ep s s') (ep_driver_send_usb k ep msg s)
  unfolding ep_driver_send_usb
  send-Submits msg filled =
      ▷-Ok (λ _ s'. Submits ep s s') _ (fill_request k ep msg) _ s refl filled
        (elim [
          | none ↦ λ s' grew. inl grew
          | some req ↦ λ s' (p, a). submit_or_free-Submits req s' p a
        ])

  -- A request for what comes in.
  blank_request-Ready : (sz : ℕ) → sz + 26 < word → Ok (Ready sz) (request_for k ep sz none s)
  unfolding request_for
  blank_request-Ready sz small =
      Ok-map (Allocated (λ _. init_urb) s ep sz data_type) (Ready sz)
        (alloc_driver_request k ep sz s)
        (elim [
          | none ↦ λ s' grew. grew
          | some req ↦ λ s' (p, fits, _, room, _, type_eq, _, _).
              (req, p, refl, room-within req.msg sz fits type_eq room)
        ])
        (alloc-Allocated sz small)

  module _ (msg : Msg) (q : IsSendable ep.epid msg) where
    -- A request with the data of a message.
    copied_request-Ready :
        (sz : ℕ) → Ok (Ready (msg_get_data_size msg)) (request_for k ep sz (some msg) s)
    unfolding request_for
    copied_request-Ready sz =
        ▷-Ok (Ready (msg_get_data_size msg)) _ (alloc_driver_request k ep (msg_get_data_size msg)) _
          s refl (alloc-Allocated (msg_get_data_size msg) (omega (arith, q.small)))
          (elim [
            | none ↦ λ s' grew. grew
            | some req ↦ λ s' (p, fits, _, room, _, type_eq, _, _).
                let (m, e, len) =
                  backup_data-some req.msg msg (msg_get_data_size msg) fits type_eq room
                    (omega arith) q.within in
                let within : data_at + msg_get_data_size msg ≤ length m.body =
                  omega
                    (arith, len, room-within req.msg (msg_get_data_size msg) fits type_eq room) in
                rw (e, Ok, ◌▷◌, lift) (req, p, refl, within)
          ])

    ctrl-Put : is_ctrl ep.epid ≡ true → Ok Put (ep_driver_fill_ctrl_request k ep (some msg) s)
    unfolding ep_driver_fill_ctrl_request ctrlrequest
    ctrl-Put c =
        let enough : 8 ≤ msg_get_data_size msg = q.request c in
        let setup : Bytes = take 8 (drop data_at msg.body) in
        let found : load msg.body data_at 8 ≡ some setup =
          load-ok msg.body data_at 8 (omega (arith, enough, q.within)) in
        let sz : ℕ =
          if is_in ep.epid
          then add32 (w_length setup) (msg_get_data_size msg)
          else msg_get_data_size msg in
        let size_le : msg_get_data_size msg ≤ sz = ground (arith, q.small, q.length_lt) in
        let size_lt : sz + 26 < word = ground (arith, q.small, q.length_lt) in
        rw (found, Ok, ◌▷◌, lift)
          (▷-Ok Put _ (alloc_driver_request k ep sz) _ s refl (alloc-Allocated sz size_lt) (elim [
            | none ↦ λ s' grew. grew
            | some req ↦ λ s' (p, fits, _, room, _, type_eq, _, _).
                let (m, e, len) =
                  backup_data-some req.msg msg sz fits type_eq room size_le q.within in
                let within : data_at + 8 ≤ length m.body =
                  omega (arith, len, room-within req.msg sz fits type_eq room, size_le, enough) in
                rw (e, Ok, ◌▷◌, lift) (filled-Put req _ s' p refl (inr within))
          ]))

  -- Every endpoint but a control endpoint, with or without a message.
  module _ (other : is_ctrl ep.epid ≡ false) (msg : Option Msg)
      (ready : (sz : ℕ) → sz + 26 < word → (n : ℕ) × Ok (Ready n) (request_for k ep sz msg s)) where
    -- What a fill function does to a request that is ready.
    ready-Put :
        (sz : ℕ)
        → sz + 26 < word
        → (change : DriverRequest → DriverRequest)
        → ((req : DriverRequest) → (change req).ref ≡ req.ref)
        → Ok Put (
            (request_for k ep sz msg
                ▷ elim [ none ↦ ret none | some req ↦ filled k ep (change req) ])
              s)
    ready-Put sz small change same =
        ▷-Ok Put _ (request_for k ep sz msg) _ s refl ((ready sz small).1) (elim [
          | none ↦ λ s' grew. grew
          | some req ↦ λ s' (first, p, first_eq, _).
              filled-Put first (change req) s' p (first_eq ∙ sym (same req)) (inl other)
        ])

    fill_request-Put : Ok Put (fill_request k ep msg s)
    unfolding fill_request ep_driver_fill_isoc_request ep_driver_fill_bulk_request
        ep_driver_fill_int_request
    fill_request-Put = elim v.described [
      | inl c ↦ absurd (ground (arith, c, other))
      | inr (d, e, small) ↦
          let packet : packet_size_of ep ≡ some (w_max_packet_size d) = rw (e, packet_size_of) in
          let interval : interval_of ep ≡ some (b_interval d) = rw (e, interval_of) in
          elim (Bool-cases (is_isochronous ep.epid)) [
            | inl i ↦
                rw (other, i, packet, interval, lift)
                  (ready-Put (max_isoc_frame (w_max_packet_size d) * nb_isoc_pkts)
                    (omega (arith, max_isoc_frame-le (w_max_packet_size d), small)) _ (λ req. refl))
            | inr i ↦ elim (Bool-cases (is_bulk ep.epid)) [
              | inl b ↦ rw (other, i, b) (ready-Put max_bulk_size (omega arith) _ (λ req. refl))
              | inr b ↦ elim (Bool-cases (is_interrupt ep.epid)) [
                | inl t ↦
                    rw (other, i, b, t, packet, interval, lift)
                      (ready-Put (w_max_packet_size d) (omega (arith, small)) _ (λ req. refl))
                | inr t ↦ absurd (ground (arith, other, i, b, t, v.real.real.type_le))
              ]
            ]
          ]
    ]

  -- On any endpoint but a control endpoint, asking for what comes in never leaves the memory.
  pub ep_driver_send_usb-waits :
      is_ctrl ep.epid ≡ false → Ok (λ _ s'. Submits ep s s') (ep_driver_send_usb k ep none s)
  ep_driver_send_usb-waits other =
      send-Submits none
        (fill_request-Put other none (λ sz small. (sz, blank_request-Ready sz small)))

  -- On any endpoint, sending a message for it never leaves the memory.
  pub ep_driver_send_usb-Submits :
      (msg : Msg)
      → IsSendable ep.epid msg
      → Ok (λ _ s'. Submits ep s s') (ep_driver_send_usb k ep (some msg) s)
  unfolding fill_request
  ep_driver_send_usb-Submits msg q = send-Submits (some msg) (elim (Bool-cases (is_ctrl ep.epid)) [
    | inl c ↦ rw (c, fill_request) (ctrl-Put msg q c)
    | inr other ↦
        fill_request-Put other (some msg)
          (λ sz small. (msg_get_data_size msg, copied_request-Ready msg q sz))
  ])
