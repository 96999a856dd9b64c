-- ===== src/Gadget/State.antt =====
-- gadget.c: endpoint management (lines 76-272) and clean_endpoints.
use usbq_core.Action.{Act, lift, ret, ◌▷◌}
use usbq_core.Endpoint.{Heap, Kernel, find_endpoint, free_endpoint, release}
use usbq_core.Gadget.{GadgetEndpoint, GadgetRequest, GadgetState, Udc, UsbEp}
use usbq_core.Identity.{InterfaceDesc}
use usbq_core.Part.{
  add_endpoint, add_ep0_endpoint, call, for_each_endpoint, list_del, on_eplist, on_heap,
}
use usbq_core.Types.{Epid, b_endpoint_address, w_max_packet_size}
use usbq_core.Prelude.{
  Bool, Bytes, List, Option, [], false, get_elem?, if◌then◌else◌, is_neg, le16, ltb, none,
  overwrite, set, some, true, ℕ, ◌%◌, ◌&&◌, ◌*◌, ◌++◌, ◌+◌, ◌/◌, ◌==◌, ◌∷◌,
}

-- A call of the kernel that gives nothing.
abbrev pub run : {W : Type 0} → (W → W) → Act (GadgetState W) (Unit {0})
run f = call (λ w. (tt, f w))

-- ep_match_name: whether the second is the first, or what the first begins with.
unfoldable pub ep_match_name : Bytes → Bytes → Bool
ep_match_name name [] = true
ep_match_name [] (c ∷ gname) = false
ep_match_name (n ∷ name) (c ∷ gname) = n == c && ep_match_name name gname

-- What snprintf writes for "%d" of a number below 100, and for "ep%d%s" of an endpoint.
unfoldable pub decimal : ℕ → Bytes
decimal n = if ltb n 10 then (48 + n) ∷ [] else (48 + n / 10) ∷ (48 + n % 10) ∷ []

unfoldable pub ep_name : Bytes → Bytes
ep_name desc =
    101
    ∷ 112
    ∷ (decimal (b_endpoint_address desc % 16)
        ++ (if b_endpoint_address desc / 128 % 2 * 128 == 0x80
            then 105 ∷ 110 ∷ []
            else 111 ∷ 117 ∷ 116 ∷ []))

-- The loop over gadget->ep_list.
unfoldable pub find_usb_ep : Bytes → List UsbEp → Option UsbEp
find_usb_ep myname [] = none
find_usb_ep myname (ep ∷ list) =
    let rest = find_usb_ep myname list in if ep_match_name myname ep.name then some ep else rest

-- desc->wMaxPacketSize = cpu_to_le16(ep->maxpacket_limit) where the limit is less.
unfoldable pub limit_packet : UsbEp → Bytes → Bytes
limit_packet ep desc =
    if ltb ep.maxpacket_limit (w_max_packet_size desc % 2048)
    then overwrite desc 4 (le16 ep.maxpacket_limit)
    else desc

-- gadget_state.identity.interfaces[i], and its endpoints[j], which the pointers of the code point
-- to; outside of the arrays is a fault.
unfoldable pub interface_at : {W : Type 0} → ℕ → Act (GadgetState W) InterfaceDesc
interface_at i s = lift (get_elem? s.own.identity.interfaces i) s

unfoldable pub put_interface_at : {W : Type 0} → ℕ → InterfaceDesc → Act (GadgetState W) (Unit {0})
put_interface_at i interface s = some (
  tt,
  record s {
    own = record s.own {
      identity = record s.own.identity { interfaces = set s.own.identity.interfaces i interface };
    };
  },
)

unfoldable pub endpoint_at : {W : Type 0} → ℕ → ℕ → Act (GadgetState W) Bytes
endpoint_at i j = interface_at i ▷ λ interface. lift (get_elem? interface.endpoints j)

unfoldable pub put_endpoint_at : {W : Type 0} → ℕ → ℕ → Bytes → Act (GadgetState W) (Unit {0})
put_endpoint_at i j desc = interface_at i ▷ λ interface.
    put_interface_at i (record interface { endpoints = set interface.endpoints j desc })

-- interface->active = n
unfoldable pub set_active : {W : Type 0} → ℕ → ℕ → Act (GadgetState W) (Unit {0})
set_active i n = interface_at i ▷ λ interface. put_interface_at i (record interface { active = n })

module _ {W : Type 0} (k : Kernel W) (g : Udc W) where
  unfoldable pub add_gadget_ep0_endpoint : ℕ → Act (GadgetState W) (Option GadgetEndpoint)
  add_gadget_ep0_endpoint epdir s = add_ep0_endpoint k (g.ep0 s.heap.world) 68 epdir s

  -- usb_ep_config of endpoint `j` of interface `i`, whose descriptor it changes.
  unfoldable pub usb_ep_config : ℕ → ℕ → Act (GadgetState W) (Option UsbEp)
  usb_ep_config i j = endpoint_at i j ▷ λ desc. λ s.
      elim (find_usb_ep (ep_name desc) (g.ep_list s.heap.world)) [
        | none ↦ some (none, s)
        | some ep ↦ (put_endpoint_at i j (limit_packet ep desc) ▷ λ _. ret (some ep)) s
      ]

  -- add_gadget_endpoint from list_add on. Its fail3 takes the endpoint out of the list again.
  unfoldable pub start_endpoint : GadgetEndpoint → Act (GadgetState W) (Option GadgetEndpoint)
  start_endpoint ep = call (g.usb_ep_disable ep.usb_ep) ▷ λ _.
      call (g.usb_ep_enable ep.usb_ep ep.desc) ▷ λ err.
      if is_neg err
      then on_eplist (list_del ep.ref) ▷ (λ _.
        on_heap (λ h. (tt {0}, release k (free_endpoint k ep h))) ▷ λ _.
        run (g.usb_ep_autoconfig_release ep.usb_ep) ▷ λ _. ret none)
      else ret (some ep)

  unfoldable pub add_gadget_endpoint : ℕ → ℕ → Act (GadgetState W) (Option GadgetEndpoint)
  add_gadget_endpoint i j = usb_ep_config i j ▷ elim [
    | none ↦ ret none
    | some usb_ep ↦ endpoint_at i j ▷ λ epdesc. add_endpoint k usb_ep 68 epdesc ▷ elim [
      | none ↦ run (g.usb_ep_autoconfig_release usb_ep) ▷ λ _. ret none
      | some ep ↦ start_endpoint ep
    ]
  ]

  -- usb_ep_dequeue: unless it fails, the completion of the request has status -ECONNRESET, and
  -- gadget_recv_usb frees it.
  unfoldable pub dequeue_request : UsbEp → GadgetRequest → Heap W → Heap W
  dequeue_request usb_ep req h =
      let (err, w) = g.usb_ep_dequeue usb_ep req.transfer h.world in
      if is_neg err
      then record h { world = w }
      else release k (release k (release k (record h { world = w })))

  unfoldable pub dequeue_requests : UsbEp → List GadgetRequest → Heap W → Heap W
  dequeue_requests usb_ep [] h = h
  dequeue_requests usb_ep (req ∷ list) h =
      dequeue_requests usb_ep list (dequeue_request usb_ep req h)

  unfoldable pub free_gadget_endpoint : GadgetEndpoint → Act (GadgetState W) (Unit {0})
  free_gadget_endpoint ep = run (g.usb_ep_autoconfig_release ep.usb_ep) ▷ λ _.
      on_eplist (list_del ep.ref) ▷ λ _.
      on_heap (λ h. (tt {0}, dequeue_requests ep.usb_ep ep.reqlist h)) ▷ λ _.
      run (g.usb_ep_fifo_flush ep.usb_ep) ▷ λ _. call (g.usb_ep_disable ep.usb_ep) ▷ λ _.
      on_heap (λ h. (tt {0}, release k (free_endpoint k ep h)))

  unfoldable pub find_gadget_endpoint : Epid → Act (GadgetState W) (Option GadgetEndpoint)
  find_gadget_endpoint id s = some (find_endpoint id s.eplist, s)

  -- clean_endpoints of gadget.c
  unfoldable pub clean_gadget_endpoints : Act (GadgetState W) (Unit {0})
  clean_gadget_endpoints s = for_each_endpoint free_gadget_endpoint s.eplist s
