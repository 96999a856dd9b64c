-- ===== src/Identity/Interfaces.antt =====
-- The loop over the interfaces, on the bytes of well-formed altsettings.
use usbq_core.Identity.Parse.{
  put_interface, close_interface, check_descriptor_header, interface_loop,
}
use usbq_core.Identity.Endpoints.{
  endpoint_loop-stores, drop-wire_desc, byte_at-wire_desc, stored_endpoints,
}
use usbq_core.Identity.{
  usb_dt_interface, usb_dt_interface_size, b_num_endpoints, b_descriptor_type, b_length,
  max_endpoint_interface, InterfaceDesc, HostInterface,
}
use usbq_core.Identity.Packet.{
  length-endpoint_bytes, endpoint_bytes, wire_desc, IsAltsetting, altsetting_bytes,
}
use usbq_core.Prelude.{
  Bytes, List, [], ap, arith, byte_at, drop, false, fill, get_elem?, length, length-append,
  length-take, load, load-ok, refl, set, some, subst, suc, take, take-append, take_all, true, zero,
  ℕ, ◌*◌, ◌++◌, ◌+◌, ◌-◌, ◌<◌, ◌==◌, ◌^◌, ◌∙◌, ◌∷◌, ◌≡◌, ◌≤◌,
}

-- Every interface of the table has its eight endpoints.
abbrev pub Sized : List InterfaceDesc → Type 0
Sized [] = Unit {0}
Sized (x ∷ xs) = (length x.endpoints ≡ max_endpoint_interface) × Sized xs

pub Sized-set :
    (table : List InterfaceDesc) (i : ℕ) (x : InterfaceDesc)
    → length x.endpoints ≡ max_endpoint_interface
    → Sized table
    → Sized (set table i x)
Sized-set [] i x l s = tt
Sized-set (y ∷ ys) zero x l s = (l, s.1)
Sized-set (y ∷ ys) (suc i) x l s = (s.0, Sized-set ys i x l s.1)

pub Sized-get :
    (table : List InterfaceDesc) (i : ℕ)
    → i < length table
    → Sized table
    → (x : InterfaceDesc) × (get_elem? table i ≡ some x)
      × (length x.endpoints ≡ max_endpoint_interface)
Sized-get [] i h s = elim h [ ]
Sized-get (y ∷ ys) zero h s = (y, refl, s.0)
Sized-get (y ∷ ys) (suc i) h s = Sized-get ys i (omega arith) s.1

-- What the table holds for altsettings that stand in the packet before `tail`: the descriptor, not
-- active, and the bytes of each endpoint.
abbrev pub Parsed : List HostInterface → Bytes → List InterfaceDesc → Type 0
Parsed [] tail xs = xs ≡ []
Parsed (alt ∷ alts) tail [] = ⊥
Parsed (alt ∷ alts) tail (x ∷ xs) =
    (x.desc ≡ alt.desc)
    × (x.active ≡ 0)
    × (take (length alt.endpoint) x.endpoints
        ≡ stored_endpoints alt.endpoint (altsetting_bytes alts ++ tail))
    × Parsed alts tail xs

pub length-altsetting :
    (alt : HostInterface) (alts : List HostInterface) (w : IsAltsetting alt)
    → length (altsetting_bytes (alt ∷ alts))
      ≡ 9 + (length alt.endpoint * 7 + length (altsetting_bytes alts))
unfolding altsetting_bytes
length-altsetting alt alts w = omega (
  arith,
  length-append (wire_desc alt.desc) (endpoint_bytes alt.endpoint ++ altsetting_bytes alts),
  length-append (endpoint_bytes alt.endpoint) (altsetting_bytes alts),
  length-endpoint_bytes alt.endpoint w.endpoints,
  length-take (b_length alt.desc) alt.desc,
  w.says,
  w.length_eq,
)

module _ (alt : HostInterface) (w : IsAltsetting alt) (behind : Bytes)
    (tail_len : 2 ≤ length behind) where
  unfoldable pub front : Bytes
  front = wire_desc alt.desc ++ (endpoint_bytes alt.endpoint ++ behind)

  field : (i : ℕ) → i < 9 → byte_at front i ≡ byte_at alt.desc i
  unfolding front
  field i h =
      byte_at-wire_desc alt.desc (endpoint_bytes alt.endpoint ++ behind) i (omega (arith, w.says))
        (omega (arith, w.says, w.length_eq))

  front_length : b_length front ≡ 9
  front_length = field 0 (omega arith) ∙ w.says

  front_type : b_descriptor_type front ≡ usb_dt_interface
  front_type = field 1 (omega arith) ∙ w.type_eq

  front_count : b_num_endpoints front ≡ length alt.endpoint
  front_count = field 4 (omega arith) ∙ w.count

  front-drop : drop 9 front ≡ endpoint_bytes alt.endpoint ++ behind
  unfolding front
  front-drop =
      subst
        (λ k.
          drop k (wire_desc alt.desc ++ (endpoint_bytes alt.endpoint ++ behind))
          ≡ endpoint_bytes alt.endpoint ++ behind)
        w.says
        (drop-wire_desc alt.desc (endpoint_bytes alt.endpoint ++ behind)
          (omega (arith, w.says, w.length_eq)))

  front-header : (more : ℕ) → 9 + more < 2 ^ 31 → check_descriptor_header front (9 + more) ≡ true
  unfolding check_descriptor_header
  front-header more small = ground (arith, front_length)

  length-wire : length (wire_desc alt.desc) ≡ 9
  length-wire = omega (arith, length-take (b_length alt.desc) alt.desc, w.says, w.length_eq)

  length-front : 9 ≤ length front
  unfolding front
  length-front = omega (
    arith,
    length-append (wire_desc alt.desc) (endpoint_bytes alt.endpoint ++ behind),
    length-wire,
  )

  take-front : take 9 front ≡ alt.desc
  unfolding front
  take-front =
      subst (λ k. take k front ≡ wire_desc alt.desc) length-wire
        (take-append (wire_desc alt.desc) (endpoint_bytes alt.endpoint ++ behind))
      ∙ take_all (b_length alt.desc) alt.desc (omega (arith, w.says, w.length_eq))

  front-load : load front 0 usb_dt_interface_size ≡ some alt.desc
  front-load = load-ok front 0 9 (omega (arith, length-front)) ∙ ap some take-front

  -- The interface as it is stored over an old one.
  abbrev pub stored : InterfaceDesc → InterfaceDesc
  stored x = record {
    desc = alt.desc;
    endpoints = fill x.endpoints 0 (stored_endpoints alt.endpoint behind);
    active = 0;
  }

  -- One round of the loop.
  pub interface_loop-step :
      (fuel : ℕ) (table : List InterfaceDesc) (i : ℕ) (x : InterfaceDesc) (more : ℕ)
      → get_elem? table i ≡ some x
      → 9 + (length alt.endpoint * 7 + more) < 2 ^ 31
      → interface_loop (suc fuel) table i front (9 + (length alt.endpoint * 7 + more))
        ≡ interface_loop fuel (set table i (stored x)) (i + 1) behind more
  unfolding interface_loop close_interface put_interface
  interface_loop-step fuel table i x more here small =
      let size = length alt.endpoint * 7 + more in
      let left : 9 + size - 9 ≡ size = omega arith in
      let some_left : (9 + size == 0) ≡ false = ground arith in
      rw (
        some_left,
        front-header size small,
        front_type,
        front_length,
        front-drop,
        left,
        here,
        front_count,
        endpoint_loop-stores (suc size) 9 0 x alt.endpoint behind (length alt.endpoint) more
            w.endpoints (omega arith) w.few (omega arith) (omega arith) tail_len (omega arith),
        close_interface,
        front-load,
      )
