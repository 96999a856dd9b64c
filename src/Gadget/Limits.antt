-- ===== src/Gadget/Limits.antt =====
-- usb_ep_config of gadget.c.
use usbq_core.Action.{Ok, lift, ◌▷◌}
use usbq_core.Endpoint.{Kernel}
use usbq_core.Gadget.{GadgetState, Udc, UsbEp}
use usbq_core.Gadget.State.{
  endpoint_at, ep_match_name, ep_name, find_usb_ep, interface_at, limit_packet, put_endpoint_at,
  put_interface_at, usb_ep_config,
}
use usbq_core.Identity.{InterfaceDesc}
use usbq_core.Types.{epid_of_desc, w_max_packet_size}
use usbq_core.Prelude.{
  Bool-cases, Bytes, List, Option, Option-cases, [], arith, byte_at, drop, get_elem?, get_elem?-lt,
  get_elem?-set_self, inl, inr, le16, length, ltb, none, overwrite, read16, refl, set, some, subst,
  sym, take, true, ℕ, ◌%◌, ◌<◌, ◌∙◌, ◌∷◌, ◌≡◌, ◌≤◌, ◌⊎◌,
}

-- The usb_ep that was found is named by a beginning of the name that was looked for.
find_usb_ep-match :
    (name : Bytes) (list : List UsbEp) (ep : UsbEp)
    → find_usb_ep name list ≡ some ep
    → ep_match_name name ep.name ≡ true
unfolding find_usb_ep
find_usb_ep-match name [] ep e = cc
find_usb_ep-match name (x ∷ list) ep e = elim (Bool-cases (ep_match_name name x.name)) [
  | inl same ↦
      let first : find_usb_ep name (x ∷ list) ≡ some x = rw (same, find_usb_ep) in
      let found : x ≡ ep = cc in subst (λ y. ep_match_name name y.name ≡ true) found same
  | inr other ↦
      let later : find_usb_ep name (x ∷ list) ≡ find_usb_ep name list = rw (other, find_usb_ep) in
      find_usb_ep-match name list ep (sym later ∙ e)
]

-- A descriptor whose largest packet the usb_ep can take, and that differs in nothing else.
pub record Limited (ep : UsbEp) (desc d : Bytes) : Type 0 where
  pub limited : w_max_packet_size d % 2048 ≤ ep.maxpacket_limit
  pub packet :
      (w_max_packet_size d ≡ w_max_packet_size desc) ⊎ (w_max_packet_size d ≡ ep.maxpacket_limit)
  pub same_epid : epid_of_desc d ≡ epid_of_desc desc
  pub same_length : length d ≡ length desc
  pub before : take 4 d ≡ take 4 desc
  pub behind : drop 6 d ≡ drop 6 desc

written-Limited :
    (ep : UsbEp) (a b c d e f : ℕ) (desc : Bytes)
    → ep.maxpacket_limit < 65536
    → Limited ep
        (a ∷ b ∷ c ∷ d ∷ e ∷ f ∷ desc)
        (overwrite (a ∷ b ∷ c ∷ d ∷ e ∷ f ∷ desc) 4 (le16 ep.maxpacket_limit))
unfolding overwrite le16 read16 byte_at epid_of_desc
written-Limited ep a b c d e f desc small = record {
  limited = omega arith;
  packet = inr (omega arith);
  same_epid = refl;
  same_length = refl;
  before = refl;
  behind = refl;
}

overwrite-Limited :
    (ep : UsbEp) (desc : Bytes)
    → 6 ≤ length desc
    → ep.maxpacket_limit < 65536
    → Limited ep desc (overwrite desc 4 (le16 ep.maxpacket_limit))
overwrite-Limited ep (a ∷ b ∷ c ∷ d ∷ e ∷ f ∷ desc) h small =
    written-Limited ep a b c d e f desc small
overwrite-Limited ep (a ∷ b ∷ c ∷ d ∷ e ∷ []) h small = absurd (omega arith)
overwrite-Limited ep (a ∷ b ∷ c ∷ d ∷ []) h small = absurd (omega arith)
overwrite-Limited ep (a ∷ b ∷ c ∷ []) h small = absurd (omega arith)
overwrite-Limited ep (a ∷ b ∷ []) h small = absurd (omega arith)
overwrite-Limited ep (a ∷ []) h small = absurd (omega arith)
overwrite-Limited ep [] h small = absurd (omega arith)

limit_packet-Limited :
    (ep : UsbEp) (desc : Bytes)
    → 6 ≤ length desc
    → ep.maxpacket_limit < 65536
    → Limited ep desc (limit_packet ep desc)
unfolding limit_packet
limit_packet-Limited ep desc h small =
    elim (Bool-cases (ltb ep.maxpacket_limit (w_max_packet_size desc % 2048))) [
      | inl less ↦ rw (less, limit_packet) (overwrite-Limited ep desc h small)
      | inr more ↦
          rw (more, limit_packet)
            (record {
              limited = ground (arith, more);
              packet = inl refl;
              same_epid = refl;
              same_length = refl;
              before = refl;
              behind = refl;
            })
    ]

-- Reading the descriptor of endpoint `j` of interface `i`, and writing it.
module _ {W : Type 0} (i j : ℕ) (interface : InterfaceDesc) (desc : Bytes) (s : GadgetState W)
    (at_i : get_elem? s.own.identity.interfaces i ≡ some interface)
    (at_j : get_elem? interface.endpoints j ≡ some desc) where
  pub endpoint_at-desc : endpoint_at i j s ≡ some (desc, s)
  unfolding endpoint_at interface_at
  endpoint_at-desc = rw (at_i, ◌▷◌, lift, at_j)

  -- gadget_state with another descriptor there.
  abbrev pub with_desc : Bytes → GadgetState W
  with_desc d = record s {
    own = record s.own {
      identity = record s.own.identity {
        interfaces =
            set s.own.identity.interfaces i
              (record interface { endpoints = set interface.endpoints j d });
      };
    };
  }

  put_endpoint_at-desc : (d : Bytes) → put_endpoint_at i j d s ≡ some (tt, with_desc d)
  unfolding put_endpoint_at interface_at put_interface_at
  put_endpoint_at-desc d = rw (at_i, ◌▷◌, lift)

  pub endpoint_at-with_desc : (d : Bytes) → endpoint_at i j (with_desc d) ≡ some (d, with_desc d)
  unfolding endpoint_at interface_at
  endpoint_at-with_desc d = rw (
    get_elem?-set_self s.own.identity.interfaces i
        (record interface { endpoints = set interface.endpoints j d })
        (get_elem?-lt s.own.identity.interfaces i interface at_i),
    ◌▷◌,
    lift,
    get_elem?-set_self interface.endpoints j d (get_elem?-lt interface.endpoints j desc at_j),
  )

  -- What usb_ep_config gives: nothing is changed when no usb_ep has the name, and else only the
  -- descriptor, to one that the usb_ep can take.
  abbrev pub Configured : Udc W → Option UsbEp → GadgetState W → Type 0
  Configured g none s' = (find_usb_ep (ep_name desc) (g.ep_list s.heap.world) ≡ none) × (s' ≡ s)
  Configured g (some ep) s' =
      (find_usb_ep (ep_name desc) (g.ep_list s.heap.world) ≡ some ep)
      × (ep_match_name (ep_name desc) ep.name ≡ true)
      × (s' ≡ with_desc (limit_packet ep desc))
      × Limited ep desc (limit_packet ep desc)

  -- For a descriptor within the arrays of the identity, usb_ep_config never leaves the memory. It
  -- gives the first usb_ep of the gadget whose name is a beginning of the name of the endpoint, and
  -- NULL, changing nothing, when there is none. It changes only the descriptor, and there only the
  -- packet size, which then is no more than the usb_ep can take. The limits of the usb_eps must fit
  -- their sixteen bits.
  pub usb_ep_config-Configured :
      (k : Kernel W) (g : Udc W)
      → 6 ≤ length desc
      → ((ep : UsbEp)
          → find_usb_ep (ep_name desc) (g.ep_list s.heap.world) ≡ some ep
          → ep.maxpacket_limit < 65536)
      → Ok (Configured g) (usb_ep_config k g i j s)
  unfolding usb_ep_config
  usb_ep_config-Configured k g h small =
      rw (endpoint_at-desc, Ok, ◌▷◌)
        (elim (Option-cases (find_usb_ep (ep_name desc) (g.ep_list s.heap.world))) [
          | inl e ↦ rw (e, Ok) (e, refl)
          | inr (ep, e) ↦
              rw (e, put_endpoint_at-desc (limit_packet ep desc), Ok, ◌▷◌)
                (
                  e,
                  find_usb_ep-match (ep_name desc) (g.ep_list s.heap.world) ep e,
                  refl,
                  limit_packet-Limited ep desc h (small ep e),
                )
        ])
