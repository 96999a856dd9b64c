-- ===== src/Identity/Written.antt =====
-- The copying loops of build_init_pkt of driver.c.
use usbq_core.Identity.Packet.{
  AllAltsettings, AllEndpoints, wire_desc, altsetting_bytes, endpoint_bytes,
}
use usbq_core.Identity.{b_num_endpoints, HostInterface, b_length}
use usbq_core.Msg.Copy.{
  copied-Fits, length-copied, headers-copied, get_data-copied, msgcpy-copied, copied, Fits, HasRoom,
}
use usbq_core.Msg.{msgcpy, msg_get_data, get_data, Msg}
use usbq_core.Identity.Build.{copy_altsettings, copy_desc, copy_endpoints}
use usbq_core.Prelude.{
  Bytes, List, Option, [], append-nil, append_assoc, arith, length, length-append, load-ok, refl,
  some, subst, sym, take, take_all, ◌++◌, ◌+◌, ◌>>=◌, ◌∙◌, ◌∷◌, ◌≡◌, ◌≤◌,
}

header_end : (m m' : Msg) → m'.type ≡ m.type → msg_get_data m' ≡ msg_get_data m
unfolding msg_get_data
header_end m m' e = rw e

-- The run `r` appended `bytes` to the payload of `m`.
pub record Appends (m : Msg) (bytes : Bytes) (r : Option Msg) : Type 0 where
  pub after : Msg
  pub result : r ≡ some after
  pub payload : get_data after ≡ get_data m ++ bytes
  pub headers : take (msg_get_data m) after.body ≡ take (msg_get_data m) m.body
  pub type_eq : after.type ≡ m.type
  pub size_eq : after.size ≡ m.size + length bytes
  pub body_eq : length after.body ≡ length m.body
  pub allocated : after.allocated_size ≡ m.allocated_size
  pub fits : Fits after

pub msgcpy-Appends :
    (m : Msg) (bytes : Bytes) → Fits m → HasRoom m (length bytes) → Appends m bytes (msgcpy m bytes)
msgcpy-Appends m bytes f room = record {
  after = copied m bytes;
  result = msgcpy-copied m bytes f room;
  payload = get_data-copied m bytes f room;
  headers = headers-copied m bytes f room;
  type_eq = refl;
  size_eq = refl;
  body_eq = length-copied m bytes f room;
  allocated = refl;
  fits = copied-Fits m bytes f room;
}

pub Appends-nil : (m : Msg) → Fits m → Appends m [] (some m)
Appends-nil m f = record {
  after = m;
  result = refl;
  payload = sym (append-nil (get_data m));
  headers = refl;
  type_eq = refl;
  size_eq = omega arith;
  body_eq = refl;
  allocated = refl;
  fits = f;
}

-- One run after the other.
pub Appends-bind :
    (m : Msg) (b b' : Bytes) (r : Option Msg) (k : Msg → Option Msg)
    → HasRoom m (length (b ++ b'))
    → Appends m b r
    → ((m' : Msg) → Fits m' → HasRoom m' (length b') → Appends m' b' (k m'))
    → Appends m (b ++ b') (r >>= k)
Appends-bind m b b' r k room first next = record {
  after = second.after;
  result = rw first.result second.result;
  payload = second.payload ∙ rw first.payload (append_assoc (get_data m) b b');
  headers =
      subst (λ n. take n second.after.body ≡ take n first.after.body)
        (header_end m first.after first.type_eq) second.headers
      ∙ first.headers;
  type_eq = second.type_eq ∙ first.type_eq;
  size_eq = omega (arith, second.size_eq, first.size_eq, length-append b b');
  body_eq = second.body_eq ∙ first.body_eq;
  allocated = second.allocated ∙ first.allocated;
  fits = second.fits;
}
  where
    second : Appends first.after b' (k first.after)
    second =
        next first.after first.fits
          (omega (arith, first.size_eq, first.body_eq, length-append b b'))

copy_desc-Appends :
    (m : Msg) (d : Bytes)
    → b_length d ≤ length d
    → Fits m
    → HasRoom m (length (wire_desc d))
    → Appends m (wire_desc d) (copy_desc m d)
unfolding copy_desc
copy_desc-Appends m d whole f room =
    rw (load-ok d 0 (b_length d) (omega arith)) (msgcpy-Appends m (wire_desc d) f room)

copy_endpoints-Appends :
    (m : Msg) (es : List Bytes)
    → AllEndpoints es
    → Fits m
    → HasRoom m (length (endpoint_bytes es))
    → Appends m (endpoint_bytes es) (copy_endpoints m es)
unfolding copy_endpoints endpoint_bytes
copy_endpoints-Appends m [] w f room = Appends-nil m f
copy_endpoints-Appends m (e ∷ es) (w, ws) f room =
    Appends-bind m (wire_desc e) (endpoint_bytes es) (copy_desc m e) (λ m'. copy_endpoints m' es)
      room
      (copy_desc-Appends m e (omega (arith, w.says, w.length_eq)) f
        (omega (arith, length-append (wire_desc e) (endpoint_bytes es))))
      (λ m' f' room'. copy_endpoints-Appends m' es ws f' room')

pub copy_altsettings-Appends :
    (m : Msg) (alts : List HostInterface)
    → AllAltsettings alts
    → Fits m
    → HasRoom m (length (altsetting_bytes alts))
    → Appends m (altsetting_bytes alts) (copy_altsettings m alts)
unfolding copy_altsettings altsetting_bytes
copy_altsettings-Appends m [] w f room = Appends-nil m f
copy_altsettings-Appends m (alt ∷ alts) (w, ws) f room =
    Appends-bind m (wire_desc alt.desc) (endpoint_bytes alt.endpoint ++ altsetting_bytes alts)
      (copy_desc m alt.desc) _ room
      (copy_desc-Appends m alt.desc (omega (arith, w.says, w.length_eq)) f (
        omega (
          arith,
          length-append (wire_desc alt.desc) (endpoint_bytes alt.endpoint ++ altsetting_bytes alts),
        )))
      (λ m' f' room'.
        Appends-bind m' (endpoint_bytes alt.endpoint) (altsetting_bytes alts)
          (copy_endpoints m' (take (b_num_endpoints alt.desc) alt.endpoint)) _ room'
          (subst (λ es. Appends m' (endpoint_bytes alt.endpoint) (copy_endpoints m' es))
            (sym (take_all (b_num_endpoints alt.desc) alt.endpoint (omega (arith, w.count))))
            (copy_endpoints-Appends m' alt.endpoint w.endpoints f'
              (omega (arith, length-append (endpoint_bytes alt.endpoint) (altsetting_bytes alts)))))
          (λ m'' f'' room''. copy_altsettings-Appends m'' alts ws f'' room''))
