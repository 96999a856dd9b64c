-- ===== src/Gadget/Sending.antt =====
-- ep_gadget_send_usb of gadget.c.
use usbq_core.Action.{Ok, lift, ▷-Ok}
use usbq_core.Endpoint.{Kernel}
use usbq_core.Gadget.{GadgetEndpoint, GadgetRequest, GadgetState, Udc}
use usbq_core.Gadget.Copying.{Carries, IsCarried, request_with-Loaded}
use usbq_core.Gadget.Requests.{
  ctrl_size, data_request_for, endpoint_queue, ep_fill_ctrl_request, ep_fill_request,
  ep_free_gadget_request, ep_gadget_send_usb, fill_gadget_request, free_gadget_request,
  queue_or_free, request_with,
}
use usbq_core.Msg.{Msg, get_data, get_epid, msg_get_data, msg_get_data_size}
use usbq_core.Msg.Copy.{length-get_data, msg_get_data_size-Fits}
use usbq_core.Msg.Headers.{IsNarrow}
use usbq_core.Part.Accounts.{Gives, Grew, Pushed, filled-Pushed, free_request-Ok}
use usbq_core.Part.Requests.{filled}
use usbq_core.Types.{Epid, interrupt, is_bulk, is_ctrl, is_in, is_interrupt, is_isochronous}
use usbq_core.Prelude.{
  Bool-cases, Bytes, Option, ap, arith, drop, drop-add, drop-take, false, ge→ltb, if◌then◌else◌,
  inl, inr, length, negsuc, none, pos, refl, some, sub32, subst, sym, take, true, word, ℕ, ℤ, ◌+◌,
  ◌<◌, ◌||◌, ◌∙◌, ◌≡◌, ◌≤◌,
}

-- The bytes that a request puts on the wire, or that it has room for.
abbrev pub transferred : GadgetRequest → Bytes
transferred req = take req.transfer.length (drop req.transfer.buf req.msg.body)

-- The request that a send left in the list, with its transfer inside of the memory of its message.
pub record Queued {W : Type 0} (s : GadgetState W) (ep : GadgetEndpoint) (s' : GadgetState W)
    : Type 0 where
  pub request : GadgetRequest
  pub pushed : Pushed s ep.ref request s'
  pub bounded : request.transfer.buf + request.transfer.length ≤ length request.msg.body

module _ {W : Type 0} (k : Kernel W) (g : Udc W) (s0 : GadgetState W) (ep : GadgetEndpoint)
    (P : GadgetRequest → Type 0) where
  -- What the call gave: a request that the kernel took over, with a property, or an error.
  abbrev pub Offered : ℤ → GadgetState W → Type 0
  Offered (pos n) s' =
      (n ≡ 0)
      × (q : Queued s0 ep s') × P q.request
      × (w : W) × (m : ℕ) × (g.usb_ep_queue ep.usb_ep q.request.transfer w ≡ (pos m, s'.heap.world))
  Offered (negsuc n) s' = Grew s0 0 s'

  -- What fill_request gives.
  abbrev pub Prepared : Option GadgetRequest → GadgetState W → Type 0
  Prepared none s' = Grew s0 0 s'
  Prepared (some req) s' = (q : Queued s0 ep s') × (q.request ≡ req) × P req

  pub filled-Prepared :
      (req req' : GadgetRequest) (s : GadgetState W)
      → req.ref ≡ req'.ref
      → Pushed s0 ep.ref req s
      → req'.transfer.buf + req'.transfer.length ≤ length req'.msg.body
      → P req'
      → Ok Prepared (filled k ep req' s)
  unfolding filled
  filled-Prepared req req' s same p bounded holds =
      let (_, p') = filled-Pushed k s0 ep req req' s same p in
      (record { request = req'; pushed = p'; bounded = bounded }, refl, holds)

  queue_or_free-Offered :
      (s : GadgetState W) (q : Queued s0 ep s)
      → P q.request
      → Ok Offered (queue_or_free k g ep q.request s)
  unfolding queue_or_free endpoint_queue ep_free_gadget_request free_gadget_request
  queue_or_free-Offered s q holds =
      go ((g.usb_ep_queue ep.usb_ep q.request.transfer s.heap.world).0) refl
    where
      after : W → GadgetState W
      after w = record s { heap = record s.heap { world = w } }

      moved : (w : W) → Pushed s0 ep.ref q.request (after w)
      moved w = record {
        own_eq = q.pushed.own_eq;
        pushed = q.pushed.pushed;
        live_eq = q.pushed.live_eq;
        next_le = omega (arith, q.pushed.next_le);
      }

      go :
          (err : ℤ)
          → (g.usb_ep_queue ep.usb_ep q.request.transfer s.heap.world).0 ≡ err
          → Ok Offered (queue_or_free k g ep q.request s)
      go (pos n) e =
          rw (e, queue_or_free)
            (
              refl,
              record { request = q.request; pushed = moved _; bounded = q.bounded },
              holds,
              s.heap.world,
              n,
              ap (λ err. (err, (g.usb_ep_queue ep.usb_ep q.request.transfer s.heap.world).1)) e,
            )
      go (negsuc n) e =
          rw (e, queue_or_free)
            (▷-Ok Offered _ (ep_free_gadget_request k g ep q.request) _ _ refl
              (free_request-Ok k s0 ep q.request _ (moved _)) (λ _ s' grew. grew))

  pub send_usb-Offered :
      (msg : Option Msg)
      → Ok Prepared (fill_gadget_request k g ep msg s0)
      → Ok Offered (ep_gadget_send_usb k g ep msg s0)
  unfolding ep_gadget_send_usb
  send_usb-Offered msg prepared =
      ▷-Ok Offered _ (fill_gadget_request k g ep msg) _ s0 refl prepared (elim [
        | none ↦ λ s' grew. grew
        | some req ↦ λ s' (q, e, holds).
            subst (λ r. Ok Offered (queue_or_free k g ep r s')) e
              (queue_or_free-Offered s' q (subst P (sym e) holds))
      ])

-- What goes to the host for the data of a message: on a control endpoint not the control request
-- that stands before the answer. An isochronous endpoint has the functions of a control endpoint.
abbrev pub skipped_of : Epid → ℕ
skipped_of id = if is_ctrl id || is_isochronous id then 8 else 0

abbrev pub skipped : GadgetEndpoint → ℕ
skipped ep = skipped_of ep.epid

-- The request has the whole data of the message, and transfers what is behind `skipped`.
abbrev pub Answers : GadgetEndpoint → Msg → GadgetRequest → Type 0
Answers ep msg req =
    (get_data req.msg ≡ get_data msg)
    × (get_epid req.msg ≡ ep.epid)
    × (req.msg.type ≡ msg.type)
    × (req.transfer.zero ≡ false)
    × (transferred req ≡ drop (skipped ep) (get_data msg))

-- The data of a message behind a control request.
data_behind :
    (m : Msg) (n : ℕ)
    → msg_get_data_size m ≡ 8 + n
    → take n (drop (msg_get_data m + 8) m.body) ≡ drop 8 (get_data m)
unfolding get_data
data_behind m n e =
    rw (e, drop-add (msg_get_data m) 8 m.body) (sym (drop-take 8 n (drop (msg_get_data m) m.body)))

module _ {W : Type 0} (k : Kernel W) (gives : Gives k) (g : Udc W) (ep : GadgetEndpoint)
    (narrow : IsNarrow ep.epid) (kind : ep.epid.type ≤ interrupt) (sends : is_in ep.epid ≡ true)
    (msg : Msg) (carried : IsCarried msg) (enough : skipped ep ≤ length (get_data msg))
    (s : GadgetState W) where
  len : length (get_data msg) ≡ msg_get_data_size msg
  len = length-get_data msg carried.fits

  small : msg_get_data_size msg + 26 < word
  small = omega (arith, carried.small, msg_get_data_size-Fits msg carried.fits)

  payload :
      (m : Msg)
      → Carries msg ep.epid (msg_get_data_size msg) m
      → msg_get_data_size m ≡ msg_get_data_size msg
  payload m c = sym (length-get_data m c.fits) ∙ ap length c.data_eq ∙ len

  within :
      (m : Msg)
      → Carries msg ep.epid (msg_get_data_size msg) m
      → msg_get_data m + msg_get_data_size msg ≤ length m.body
  within m c = omega (arith, c.room)

  data-Prepared :
      skipped ep ≡ 0 → Ok (Prepared k g s ep (Answers ep msg)) (ep_fill_request k g ep (some msg) s)
  unfolding ep_fill_request data_request_for get_data
  data-Prepared e =
      ▷-Ok (Prepared k g s ep (Answers ep msg)) _ (request_with k g ep (msg_get_data_size msg) msg)
        _ s refl
        (request_with-Loaded k gives g ep narrow s (msg_get_data_size msg) msg carried (omega arith)
          small)
        (elim [
          | none ↦ λ s' grew. grew
          | some req ↦ λ s' (first, p, same, c).
              filled-Prepared k g s ep (Answers ep msg) first _ s' same p
                (rw sends (omega (arith, within req.msg c, payload req.msg c)))
                (c.data_eq, c.epid_eq, c.type_eq, refl, rw (sends, e) c.data_eq)
        ])

  ctrl-Prepared :
      skipped ep ≡ 8
      → Ok (Prepared k g s ep (Answers ep msg)) (ep_fill_ctrl_request k g ep (some msg) s)
  unfolding ep_fill_ctrl_request ctrl_size get_data
  ctrl-Prepared e =
      let eight : 8 ≤ msg_get_data_size msg = omega (arith, enough, e, len) in
      rw (sends, lift)
        (▷-Ok (Prepared k g s ep (Answers ep msg)) _
          (request_with k g ep (msg_get_data_size msg) msg) _ s refl
          (request_with-Loaded k gives g ep narrow s (msg_get_data_size msg) msg carried
            (omega arith) small)
          (elim [
            | none ↦ λ s' grew. grew
            | some req ↦ λ s' (first, p, same, c).
                filled-Prepared k g s ep (Answers ep msg) first _ s' same p
                  (omega (arith, within req.msg c, small, eight))
                  (
                    c.data_eq,
                    c.epid_eq,
                    c.type_eq,
                    ge→ltb _ _ (omega (arith, payload req.msg c, small, eight)),
                    rw e (
                        data_behind req.msg (sub32 (msg_get_data_size msg) 8)
                          (omega (arith, payload req.msg c, small, eight))
                        ∙ ap (drop 8) c.data_eq),
                  )
          ]))

  fill-Prepared : Ok (Prepared k g s ep (Answers ep msg)) (fill_gadget_request k g ep (some msg) s)
  unfolding fill_gadget_request
  fill-Prepared = elim (Bool-cases (is_ctrl ep.epid || is_isochronous ep.epid)) [
    | inl c ↦ rw (c, fill_gadget_request) (ctrl-Prepared (rw c))
    | inr c ↦
        let d : (is_bulk ep.epid || is_interrupt ep.epid) ≡ true = ground (arith, kind, c) in
        rw (c, d, fill_gadget_request) (data-Prepared (rw c))
  ]

  -- If kmalloc gives as many bytes as it is asked for, ep_gadget_send_usb of an USB message on an
  -- IN endpoint never leaves the memory. The message must fit its memory and be shorter than 64
  -- kilobytes, and on a control or isochronous endpoint have at least eight bytes of data. On
  -- success one request more is in the list of the endpoint, which the gadget layer accepted, with
  -- the data of the message; it sends these data to the host, less the first eight bytes on a
  -- control or an isochronous endpoint. On failure the endpoints and the count of what is allocated
  -- are as they were.
  pub ep_gadget_send_usb-Offered :
      Ok (Offered k g s ep (Answers ep msg)) (ep_gadget_send_usb k g ep (some msg) s)
  ep_gadget_send_usb-Offered = send_usb-Offered k g s ep (Answers ep msg) (some msg) fill-Prepared
