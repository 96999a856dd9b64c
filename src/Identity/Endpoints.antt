-- ===== src/Identity/Endpoints.antt =====
-- The loop over the endpoints of one interface, on the bytes of well-formed descriptors.
use usbq_core.Identity.Parse.{finished, write_endpoint, check_descriptor_header, endpoint_loop}
use usbq_core.Identity.Packet.{AllEndpoints, endpoint_bytes, wire_desc, IsEndpointDesc}
use usbq_core.Identity.{
  sizeof_endpoint_descriptor, usb_dt_endpoint_size, max_endpoint_interface, InterfaceDesc,
  usb_dt_endpoint, b_descriptor_type, b_length,
}
use usbq_core.Prelude.{
  Bytes, List, [], ap, append_assoc, arith, byte_at, drop, drop-append, fill, get_or-append,
  get_or-take, ge→ltb, length, length-append, length-take, load, load-ok, lt→ltb, refl, set, some,
  subst, suc, take, take-fill, true, zero, ℕ, ◌*◌, ◌++◌, ◌+◌, ◌-◌, ◌<◌, ◌^◌, ◌∙◌, ◌∷◌, ◌≡◌, ◌≤◌,
}

-- A descriptor at the front of the memory is read from there.
pub byte_at-wire_desc :
    (d tail : Bytes) (i : ℕ)
    → i < b_length d
    → b_length d ≤ length d
    → byte_at (wire_desc d ++ tail) i ≡ byte_at d i
byte_at-wire_desc d tail i h fits =
    unfold byte_at in
    (get_or-append (take (b_length d) d) tail i 0 (omega (arith, length-take (b_length d) d))
      ∙ get_or-take (b_length d) i d 0 h)

pub drop-wire_desc :
    (d tail : Bytes) → b_length d ≤ length d → drop (b_length d) (wire_desc d ++ tail) ≡ tail
drop-wire_desc d tail fits =
    let l : length (wire_desc d) ≡ b_length d = omega (arith, length-take (b_length d) d) in
    subst (λ k. drop k (wire_desc d ++ tail) ≡ tail) l (drop-append (wire_desc d) tail)

-- The nine bytes that are kept for each endpoint: the seven of the descriptor, and the two behind.
unfoldable pub stored_endpoints : List Bytes → Bytes → List Bytes
stored_endpoints [] tail = []
stored_endpoints (e ∷ es) tail =
    take 9 (wire_desc e ++ (endpoint_bytes es ++ tail)) ∷ stored_endpoints es tail

module _ (e tail : Bytes) (w : IsEndpointDesc e) where
  front : Bytes
  front = wire_desc e ++ tail

  front_length : b_length front ≡ 7
  unfolding front
  front_length =
      byte_at-wire_desc e tail 0 (omega (arith, w.says)) (omega (arith, w.says, w.length_eq))
      ∙ w.says

  front_type : b_descriptor_type front ≡ usb_dt_endpoint
  unfolding front
  front_type =
      byte_at-wire_desc e tail 1 (omega (arith, w.says)) (omega (arith, w.says, w.length_eq))
      ∙ w.type_eq

  front-drop : drop 7 front ≡ tail
  unfolding front
  front-drop =
      subst (λ k. drop k (wire_desc e ++ tail) ≡ tail) w.says
        (drop-wire_desc e tail (omega (arith, w.says, w.length_eq)))

  length-front : length front ≡ 7 + length tail
  unfolding front
  length-front =
      omega
        (arith, length-append (wire_desc e) tail, length-take (b_length e) e, w.says, w.length_eq)

  front-header : (more : ℕ) → 7 + more < 2 ^ 31 → check_descriptor_header front (7 + more) ≡ true
  unfolding check_descriptor_header
  front-header more small = ground (arith, front_length)

  front-load : 2 ≤ length tail → load front 0 sizeof_endpoint_descriptor ≡ some (take 9 front)
  front-load behind = load-ok front 0 9 (omega (arith, length-front))

  -- One round of the loop.
  endpoint_loop-step :
      (fuel d_length nb_ep i_ep : ℕ) (cur : InterfaceDesc) (more : ℕ)
      → i_ep < nb_ep
      → i_ep < max_endpoint_interface
      → usb_dt_endpoint_size ≤ d_length
      → 7 + more < 2 ^ 31
      → 2 ≤ length tail
      → endpoint_loop (suc fuel) d_length nb_ep i_ep (some cur) front (7 + more)
        ≡ endpoint_loop fuel d_length nb_ep
            (i_ep + 1)
            (some (record cur { endpoints = set cur.endpoints i_ep (take 9 front) }))
            tail
            more
  unfolding endpoint_loop write_endpoint
  endpoint_loop-step fuel d_length nb_ep i_ep cur more lt room long small behind =
      let left : 7 + more - 7 ≡ more = omega arith in
      rw (
        lt→ltb i_ep nb_ep lt,
        front-header more small,
        front_type,
        ge→ltb d_length usb_dt_endpoint_size long,
        lt→ltb i_ep max_endpoint_interface room,
        front-load behind,
        front_length,
        front-drop,
        left,
      )

-- The interface with the endpoints written from cell `i` on.
abbrev pub with_endpoints : InterfaceDesc → ℕ → List Bytes → InterfaceDesc
with_endpoints cur i es = record cur { endpoints = fill cur.endpoints i es }

endpoint_loop-ended :
    (fuel d_length nb_ep i_ep : ℕ) (cur : InterfaceDesc) (buffer : Bytes) (size : ℕ)
    → nb_ep ≤ i_ep
    → endpoint_loop (suc fuel) d_length nb_ep i_ep (some cur) buffer size
      ≡ finished (some cur) buffer size
unfolding endpoint_loop
endpoint_loop-ended fuel d_length nb_ep i_ep cur buffer size h = rw (ge→ltb i_ep nb_ep h)

-- On as many endpoint descriptors as announced, no more than the table holds, the loop stores each,
-- ends behind them and does not fault. Two bytes of memory follow, and a round is given for each
-- descriptor and one more.
pub endpoint_loop-stores :
    (fuel d_length i_ep : ℕ) (cur : InterfaceDesc) (es : List Bytes) (tail : Bytes) (nb_ep more : ℕ)
    → AllEndpoints es
    → nb_ep ≡ i_ep + length es
    → nb_ep ≤ max_endpoint_interface
    → usb_dt_endpoint_size ≤ d_length
    → length es * 7 + more < 2 ^ 31
    → 2 ≤ length tail
    → length es < fuel
    → endpoint_loop fuel d_length nb_ep i_ep
        (some cur)
        (endpoint_bytes es ++ tail)
        (length es * 7 + more)
      ≡ finished (some (with_endpoints cur i_ep (stored_endpoints es tail))) tail more
unfolding endpoint_bytes stored_endpoints fill front
endpoint_loop-stores zero d_length i_ep cur es tail nb_ep more w e room long small behind enough =
    absurd (omega arith)
endpoint_loop-stores (suc fuel) d_length i_ep cur [] tail nb_ep more w e room long small behind
      enough =
    let nothing : 0 * 7 + more ≡ more = omega arith in
    rw nothing (endpoint_loop-ended fuel d_length nb_ep i_ep cur tail more (omega arith))
endpoint_loop-stores (suc fuel) d_length i_ep cur (e ∷ es) tail nb_ep more (w, ws) eq room long
      small behind enough =
    let first : suc (length es) * 7 + more ≡ 7 + (length es * 7 + more) = omega arith in
    let rest = endpoint_bytes es ++ tail in
    let next : i_ep + 1 ≡ suc i_ep = omega arith in
    rw (first, append_assoc (wire_desc e) (endpoint_bytes es) tail)
      (endpoint_loop-step e rest w fuel d_length nb_ep i_ep cur (length es * 7 + more) (omega arith)
          (omega arith) long (omega arith) (omega (arith, length-append (endpoint_bytes es) tail))
        ∙ rw next (
            endpoint_loop-stores fuel d_length (suc i_ep)
              (record cur { endpoints = set cur.endpoints i_ep (take 9 (wire_desc e ++ rest)) }) es
              tail nb_ep more ws (omega arith) room long (omega arith) behind (omega arith)))

pub length-stored_endpoints :
    (es : List Bytes) (tail : Bytes) → length (stored_endpoints es tail) ≡ length es
unfolding stored_endpoints
length-stored_endpoints [] tail = refl
length-stored_endpoints (e ∷ es) tail = ap suc (length-stored_endpoints es tail)

-- The endpoints written from the first cell on are the first cells.
pub take-with_endpoints :
    (cur : InterfaceDesc) (es : List Bytes) (tail : Bytes)
    → length es ≤ length cur.endpoints
    → take (length es) (fill cur.endpoints 0 (stored_endpoints es tail)) ≡ stored_endpoints es tail
take-with_endpoints cur es tail h =
    let count : 0 + length (stored_endpoints es tail) ≡ length es =
      omega (arith, length-stored_endpoints es tail) in
    subst (λ k. take k (fill cur.endpoints 0 (stored_endpoints es tail)) ≡ stored_endpoints es tail)
      count (take-fill cur.endpoints 0 (stored_endpoints es tail) (omega arith))
