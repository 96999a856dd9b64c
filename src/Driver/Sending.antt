-- ===== src/Driver/Sending.antt =====
-- Sending on an endpoint: the fill functions and ep_driver_send_usb of driver.c.
use usbq_core.Action.{Ok, lift, ret, ▷-Ok, ◌▷◌}
use usbq_core.Driver.Callbacks.{ep_driver_send_usb, fill_request, submit_or_free, urb_submit}
use usbq_core.Driver.Request.{
  alloc_driver_request, ep_driver_fill_bulk_request, ep_driver_fill_int_request,
  ep_driver_fill_isoc_request, ep_free_driver_request, free_driver_request, get_pipe, interval_of,
  isoc_pkts, max_bulk_size, max_isoc_frame, max_isoc_pkt, nb_isoc_pkts, request_for,
}
use usbq_core.Driver.State.{DriverEndpoint, DriverRequest, DriverState}
use usbq_core.Endpoint.{Kernel, packet_size_of, rcvisocpipe}
use usbq_core.Msg.{data_type, msg_diff_size}
use usbq_core.Msg.Headers.{IsNarrow}
use usbq_core.Part.Accounts.{Gives, Grew, Pushed, alloc_request-Ok, filled-Pushed, free_request-Ok}
use usbq_core.Part.Requests.{filled}
use usbq_core.Types.{
  b_interval, interrupt, is_bulk, is_ctrl, is_in, is_interrupt, is_isochronous, isoc,
  w_max_packet_size,
}
use usbq_core.Prelude.{
  Bool-cases, Bytes, Option, ap, arith, false, fill, inl, inr, length, negsuc, none, pos, refl,
  some, subst, suc, sym, true, word, zero, ℕ, ℤ, ◌%◌, ◌*◌, ◌+◌, ◌/◌, ◌<◌, ◌≡◌, ◌≤◌,
}

-- The request that a send left in the list, with its transfer inside of the memory of its message
-- and on the pipe of the endpoint; or an error, with all that was allocated freed again.
pub record Submitted {W : Type 0} (s : DriverState W) (ep : DriverEndpoint) (s' : DriverState W)
    : Type 0 where
  pub request : DriverRequest
  pub pushed : Pushed s ep.ref request s'
  pub pipe_eq : request.transfer.pipe ≡ get_pipe ep.epid
  pub bounded :
      request.transfer.transfer_buffer + request.transfer.transfer_buffer_length
      ≤ length request.msg.body

-- What the call gave: a request that the kernel took over, or an error.
abbrev pub Sent :
    {W : Type 0} → Kernel W → DriverState W → DriverEndpoint → ℤ → DriverState W → Type 0
Sent k s ep (pos n) s' =
    (n ≡ 0)
    × (sub : Submitted s ep s') × (w : _) × (m : ℕ) × (k.usb_submit_urb sub.request.transfer w
        ≡ (pos m, s'.heap.world))
Sent k s ep (negsuc n) s' = Grew s 0 s'

-- What fill_request gives.
abbrev pub Filled :
    {W : Type 0} → DriverState W → DriverEndpoint → Option DriverRequest → DriverState W → Type 0
Filled s ep none s' = Grew s 0 s'
Filled s ep (some req) s' = (sub : Submitted s ep s') × (sub.request ≡ req)

module _ {W : Type 0} (k : Kernel W) (s0 : DriverState W) (ep : DriverEndpoint) where
  filled-Ok :
      (req req' : DriverRequest) (s : DriverState W)
      → req.ref ≡ req'.ref
      → Pushed s0 ep.ref req s
      → req'.transfer.pipe ≡ get_pipe ep.epid
      → req'.transfer.transfer_buffer + req'.transfer.transfer_buffer_length ≤ length req'.msg.body
      → Ok (Filled s0 ep) (filled k ep req' s)
  unfolding filled
  filled-Ok req req' s same p pipe_eq bounded =
      let (_, p') = filled-Pushed k s0 ep req req' s same p in
      (record { request = req'; pushed = p'; pipe_eq = pipe_eq; bounded = bounded }, refl)

  -- For the newest request of an endpoint, free_driver_request never leaves the memory, and the
  -- endpoints and the count of what is allocated are then those before its allocation.
  pub free_driver_request-Ok :
      (req : DriverRequest) (s : DriverState W)
      → Pushed s0 ep.ref req s
      → Ok (λ _ s'. Grew s0 0 s') (free_driver_request k ep req s)
  unfolding free_driver_request
  free_driver_request-Ok req s p = free_request-Ok k s0 ep req s p

  submit_or_free-Ok :
      (s : DriverState W) (sub : Submitted s0 ep s)
      → Ok (Sent k s0 ep) (submit_or_free k ep sub.request s)
  unfolding submit_or_free urb_submit ep_free_driver_request
  submit_or_free-Ok s sub = go ((k.usb_submit_urb sub.request.transfer s.heap.world).0) refl
    where
      after : W → DriverState W
      after w = record s { heap = record s.heap { world = w } }

      moved : (w : W) → Pushed s0 ep.ref sub.request (after w)
      moved w = record {
        own_eq = sub.pushed.own_eq;
        pushed = sub.pushed.pushed;
        live_eq = sub.pushed.live_eq;
        next_le = omega (arith, sub.pushed.next_le);
      }

      go :
          (err : ℤ)
          → (k.usb_submit_urb sub.request.transfer s.heap.world).0 ≡ err
          → Ok (Sent k s0 ep) (submit_or_free k ep sub.request s)
      go (pos n) e =
          rw (e, submit_or_free)
            (
              refl,
              record {
                request = sub.request;
                pushed = moved _;
                pipe_eq = sub.pipe_eq;
                bounded = sub.bounded;
              },
              s.heap.world,
              n,
              ap (λ err. (err, (k.usb_submit_urb sub.request.transfer s.heap.world).1)) e,
            )
      go (negsuc n) e =
          rw (e, submit_or_free)
            (▷-Ok (Sent k s0 ep) _ (ep_free_driver_request k ep sub.request) _ _ refl
              (free_driver_request-Ok sub.request _ (moved _)) (λ _ s' g. g))

packets_le : (q r : ℕ) → r < 2048 → (q + 1) * r ≤ 2048 * q + r
packets_le zero r h = omega arith
packets_le (suc q) r h = omega (arith, packets_le q r h)

-- A frame of an isochronous transfer is no longer than the packets that it is for.
pub max_isoc_frame-le : (w : ℕ) → max_isoc_frame w ≤ w
unfolding max_isoc_frame isoc_pkts max_isoc_pkt
max_isoc_frame-le w = omega (arith, packets_le (w % 65536 / 2048) (w % 65536 % 2048) (omega arith))

-- An endpoint that the device sends on, other than a control endpoint.
pub record IsReceiver (ep : DriverEndpoint) : Type 0 where
  pub desc : Bytes
  pub desc_eq : ep.desc ≡ some desc
  pub narrow : IsNarrow ep.epid
  pub receives : is_in ep.epid ≡ true
  pub kind : ep.epid.type ≤ interrupt
  pub not_ctrl : is_ctrl ep.epid ≡ false
  pub packet : w_max_packet_size desc < 65536

module _ {W : Type 0} (k : Kernel W) (gives : Gives k) (s : DriverState W) (ep : DriverEndpoint)
    (r : IsReceiver ep) where
  -- A request of `sz` bytes, filled by `urb` with a transfer of no more than them.
  request-Filled :
      (sz : ℕ) (small : sz + 26 < word) (fill : DriverRequest → DriverRequest)
      → ((req : DriverRequest)
          → ((fill req).ref ≡ req.ref)
            × ((fill req).transfer.pipe ≡ get_pipe ep.epid)
            × ((fill req).msg ≡ req.msg)
            × (req.msg.allocated_size ≡ sz
                → (fill req).transfer.transfer_buffer + (fill req).transfer.transfer_buffer_length
                  ≤ 10 + sz))
      → Ok (Filled s ep) (
          (request_for k ep sz none ▷ elim [ none ↦ ret none | some req ↦ filled k ep (fill req) ])
            s)
  unfolding request_for msg_diff_size alloc_driver_request
  request-Filled sz small fill good =
      ▷-Ok (Filled s ep) _ (alloc_driver_request k ep sz) _ s refl
        (alloc_request-Ok k gives _ _ ep r.narrow sz small data_type (omega arith) s 72)
        (elim [
          | none ↦ λ s' g. g
          | some req ↦ λ s' (p, fits, _, room, allocated, type_eq, _, _).
              let (same, pipe_eq, msg_eq, len) = good req in
              let covers : 18 ≤ req.msg.size =
                subst (λ t. msg_diff_size t ≤ req.msg.size) type_eq fits.covers in
              filled-Ok k s ep req (fill req) s' (sym same) p pipe_eq
                (rw msg_eq (omega (arith, len allocated, room, covers)))
        ])

  interval_eq : interval_of ep ≡ some (b_interval r.desc)
  interval_eq = rw (r.desc_eq, interval_of)

  packet_eq : packet_size_of ep ≡ some (w_max_packet_size r.desc)
  packet_eq = rw (r.desc_eq, packet_size_of)

  pipe_isoc : ep.epid.type ≡ isoc → get_pipe ep.epid ≡ rcvisocpipe ep.epid.num
  unfolding get_pipe
  pipe_isoc e = rw (e, r.receives)

  isoc-Filled : ep.epid.type ≡ isoc → Ok (Filled s ep) (ep_driver_fill_isoc_request k ep none s)
  unfolding ep_driver_fill_isoc_request
  isoc-Filled e =
      let frame : ℕ = max_isoc_frame (w_max_packet_size r.desc) in
      rw (packet_eq, interval_eq, lift)
        (request-Filled (max_isoc_frame (w_max_packet_size r.desc) * nb_isoc_pkts)
          (omega (arith, max_isoc_frame-le (w_max_packet_size r.desc), r.packet)) _
          (λ req. (
            refl,
            sym (pipe_isoc e),
            refl,
            λ _. omega (arith, max_isoc_frame-le (max_isoc_frame (w_max_packet_size r.desc))),
          )))

  bulk-Filled : Ok (Filled s ep) (ep_driver_fill_bulk_request k ep none s)
  unfolding ep_driver_fill_bulk_request
  bulk-Filled =
      request-Filled max_bulk_size (omega arith) _
        (λ req. (refl, refl, refl, λ e. rw (r.receives, e) (omega arith)))

  int-Filled : Ok (Filled s ep) (ep_driver_fill_int_request k ep none s)
  unfolding ep_driver_fill_int_request
  int-Filled =
      rw (packet_eq, interval_eq, lift)
        (request-Filled (w_max_packet_size r.desc) (omega (arith, r.packet)) _
          (λ req. (refl, refl, refl, λ e. rw (r.receives, e) (omega arith))))

  fill_request-Filled : Ok (Filled s ep) (fill_request k ep none s)
  unfolding fill_request
  fill_request-Filled = elim (Bool-cases (is_isochronous ep.epid)) [
    | inl e ↦ rw (r.not_ctrl, e) (isoc-Filled (ground arith))
    | inr e ↦ elim (Bool-cases (is_bulk ep.epid)) [
      | inl b ↦ rw (r.not_ctrl, e, b) bulk-Filled
      | inr b ↦ elim (Bool-cases (is_interrupt ep.epid)) [
        | inl i ↦ rw (r.not_ctrl, e, b, i) int-Filled
        | inr i ↦ absurd (ground (arith, r.kind, r.not_ctrl))
      ]
    ]
  ]

  -- If kmalloc gives as many bytes as it is asked for, asking an endpoint that receives, other than
  -- a control endpoint, for its next transfer never leaves the memory. On success one request more
  -- is in the list of the endpoint, accepted by the USB core, on the pipe of the endpoint and with
  -- its transfer inside of its message; on failure the endpoints and the count of what is allocated
  -- are as they were.
  pub ep_driver_send_usb-Sent : Ok (Sent k s ep) (ep_driver_send_usb k ep none s)
  unfolding ep_driver_send_usb
  ep_driver_send_usb-Sent =
      ▷-Ok (Sent k s ep) _ (fill_request k ep none) _ s refl fill_request-Filled (elim [
        | none ↦ λ s' g. g
        | some req ↦ λ s' (sub, e).
            subst (λ q. Ok (Sent k s ep) (submit_or_free k ep q s')) e
              (submit_or_free-Ok k s ep s' sub)
      ])
