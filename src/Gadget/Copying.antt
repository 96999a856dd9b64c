-- ===== src/Gadget/Copying.antt =====
-- A request of the gadget that carries the data of a message.
use usbq_core.Action.{Ok, lift, ▷-Ok}
use usbq_core.Endpoint.{Kernel}
use usbq_core.Gadget.{GadgetEndpoint, GadgetRequest, GadgetState, Udc}
use usbq_core.Gadget.Requests.{alloc_gadget_request, copy_data, request_with}
use usbq_core.Msg.{Msg, ack_type, get_data, get_epid, msg_get_data, msg_get_data_size}
use usbq_core.Msg.Copy.{
  Fits, HasRoom, copied, copied-Fits, data_end-le, get_data-copied, headers-copied, length-copied,
  length-get_data, msg_get_data-diff, msgcpy-append, msgcpy-copied,
}
use usbq_core.Msg.Headers.{IsNarrow}
use usbq_core.Part.Accounts.{Gives, Grew, Pushed, alloc_request-Ok}
use usbq_core.Types.{Epid}
use usbq_core.Prelude.{
  Option, [], ap, arith, length, load, load-ok, none, overwrite, read16-take, read32-take, refl,
  some, sym, take, word, ℕ, ◌++◌, ◌+◌, ◌<◌, ◌>>=◌, ◌∙◌, ◌≡◌, ◌≤◌,
}

-- The identity stands in the first ten bytes.
pub get_epid-take :
    (n : ℕ) (m m' : Msg) → 10 ≤ n → take n m'.body ≡ take n m.body → get_epid m' ≡ get_epid m
get_epid-take n m m' h e = sym (front m') ∙ ap (λ b. get_epid (record m { body = b })) e ∙ front m
  where
    front : (m : Msg) → get_epid (record m { body = take n m.body }) ≡ get_epid m
    front m = rw (
      read16-take n 0 m.body (omega (arith, h)),
      read32-take n 2 m.body (omega (arith, h)),
      read32-take n 6 m.body (omega (arith, h)),
    )

-- A message for which a request is made: its used bytes lie in its memory, it has data or
-- acknowledges data, and its size is that of a datagram at most.
pub record IsCarried (msg : Msg) : Type 0 where
  pub fits : Fits msg
  pub usb : msg.type ≤ ack_type
  pub small : msg.size < 65536

-- The message of a request with the data of `msg`, and room for `sz` bytes.
pub record Carries (msg : Msg) (e : Epid) (sz : ℕ) (m : Msg) : Type 0 where
  pub fits : Fits m
  pub data_eq : get_data m ≡ get_data msg
  pub type_eq : m.type ≡ msg.type
  pub epid_eq : get_epid m ≡ e
  pub allocated_eq : m.allocated_size ≡ sz
  pub room : msg_get_data m + sz ≤ length m.body

pub ten-msg_get_data : (m : Msg) → m.type ≤ ack_type → 10 ≤ msg_get_data m
unfolding msg_get_data
ten-msg_get_data m usb = ground (arith, usb)

pub load-get_data :
    (m : Msg) → Fits m → load m.body (msg_get_data m) (msg_get_data_size m) ≡ some (get_data m)
unfolding get_data
load-get_data m f =
    load-ok m.body (msg_get_data m) (msg_get_data_size m) (omega (arith, data_end-le m f, f.within))

copy_data-Carries :
    (dest msg : Msg) (e : Epid) (sz : ℕ)
    → Fits msg
    → msg.type ≤ ack_type
    → Fits dest
    → get_data dest ≡ []
    → HasRoom dest sz
    → dest.allocated_size ≡ sz
    → dest.type ≡ msg.type
    → get_epid dest ≡ e
    → msg_get_data_size msg ≤ sz
    → (m : Msg) × (copy_data dest msg ≡ some m) × Carries msg e sz m
unfolding copy_data msg_get_data overwrite
copy_data-Carries dest msg e sz fits usb f empty room allocated type_eq epid_eq le =
    let len : length (get_data msg) ≡ msg_get_data_size msg = length-get_data msg fits in
    let fit : HasRoom dest (length (get_data msg)) = omega (arith, room, len, le) in
    let (m, copied_eq, data_eq, headers, type_eq', allocated', fits') =
      msgcpy-append dest (get_data msg) f fit in
    (
      copied dest (get_data msg),
      rw (load-get_data msg fits, ◌>>=◌) (msgcpy-copied dest (get_data msg) f fit),
      record {
        fits = copied-Fits dest (get_data msg) f fit;
        data_eq = get_data-copied dest (get_data msg) f fit ∙ ap (λ l. l ++ get_data msg) empty;
        type_eq = type_eq;
        epid_eq =
            get_epid-take (msg_get_data dest) dest (copied dest (get_data msg))
              (ten-msg_get_data dest (omega (arith, type_eq, usb)))
              (headers-copied dest (get_data msg) f fit)
            ∙ epid_eq;
        allocated_eq = allocated;
        room = omega (
          arith,
          length-copied dest (get_data msg) f fit,
          room,
          f.covers,
          msg_get_data-diff dest f.kind,
        );
      },
    )

module _ {W : Type 0} (k : Kernel W) (gives : Gives k) (g : Udc W) (ep : GadgetEndpoint)
    (narrow : IsNarrow ep.epid) where
  -- What request_with gives.
  abbrev pub Loaded : GadgetState W → ℕ → Msg → Option GadgetRequest → GadgetState W → Type 0
  Loaded s sz msg none s' = Grew s 0 s'
  Loaded s sz msg (some req) s' =
      (first : GadgetRequest) × Pushed s ep.ref first s'
      × (first.ref ≡ req.ref)
      × Carries msg ep.epid sz req.msg

  pub request_with-Loaded :
      (s : GadgetState W) (sz : ℕ) (msg : Msg)
      → IsCarried msg
      → msg_get_data_size msg ≤ sz
      → sz + 26 < word
      → Ok (Loaded s sz msg) (request_with k g ep sz msg s)
  unfolding request_with alloc_gadget_request
  request_with-Loaded s sz msg c le small =
      ▷-Ok (Loaded s sz msg) _ (alloc_gadget_request k g ep sz msg.type) _ s refl
        (alloc_request-Ok k gives _ _ ep narrow sz small msg.type c.usb s 36)
        (elim [
          | none ↦ λ s' grew. grew
          | some req ↦ λ s' (p, f, empty, room, allocated, type_eq, epid_eq, _).
              let (m, e, c') =
                copy_data-Carries req.msg msg ep.epid sz c.fits c.usb f empty room allocated type_eq
                  epid_eq le in
              rw (e, lift) (req, p, refl, c')
        ])
