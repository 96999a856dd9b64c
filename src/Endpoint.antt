-- ===== src/Endpoint.antt =====
-- common.c and the structs of types.h and driver.c: endpoints, their requests, and the calls of the
-- USB core that they need. An object has the address `ref`; `live` counts what is allocated.
pub mod Find
use usbq_core.Identity.{Device, HostInterface}
use usbq_core.Msg.{Kmalloc, Msg}
use usbq_core.Types.{Epid, ctrl, epid_of_desc, w_max_packet_size}
use usbq_core.Prelude.{
  Bool, Bytes, List, Option, [], eagain, false, if◌then◌else◌, is_neg, none, some, suc, true, ℕ, ℤ,
  ◌&&◌, ◌-◌, ◌==◌, ◌>>=◌, ◌>>◌, ◌∷◌,
}

-- What usb_sndctrlpipe, usb_rcvctrlpipe and so on give for the number of an endpoint.
pub data Pipe : Type 0 where
  sndctrlpipe rcvctrlpipe : ℕ → Pipe
  sndintpipe rcvintpipe : ℕ → Pipe
  sndbulkpipe rcvbulkpipe : ℕ → Pipe
  sndisocpipe rcvisocpipe : ℕ → Pipe

-- A struct urb. The buffers are offsets in the body of the message of the request, and a frame of
-- an isochronous transfer is an offset and a length.
pub record Urb : Type 0 where
  pub pipe : Pipe
  pub setup_packet : Option ℕ
  pub transfer_buffer : ℕ
  pub transfer_buffer_length : ℕ
  pub interval : ℕ
  pub iso_frame_desc : List (ℕ × ℕ)
  pub status : ℤ
  pub actual_length : ℕ

-- driver_request_t and gadget_request_t, which differ in the kind `U` of their transfer: an URB or
-- a struct usb_request. The endpoint of a request is the one whose list it is in.
pub record Request (U : Type 0) : Type 0 where
  pub ref : ℕ
  pub msg : Msg
  pub transfer : U

-- ep_t, and the usb_ep that a gadget_endpoint_t has besides, of type `X`. The operations of an
-- endpoint are those of the row `epid.type` of its table of callbacks.
pub record Endpoint (U X : Type 0) : Type 0 where
  pub ref : ℕ
  pub epid : Epid
  pub desc : Option Bytes
  pub reqlist : List (Request U)
  pub usb_ep : X

-- le16_to_cpu(ep->desc->wMaxPacketSize), where a descriptor is needed.
abbrev pub packet_size_of : {U X : Type 0} → Endpoint U X → Option ℕ
packet_size_of ep = elim ep.desc [ none ↦ none | some d ↦ some (w_max_packet_size d) ]

-- A struct usb_interface and a struct usb_host_config.
pub record UsbInterface : Type 0 where
  pub altsetting : List HostInterface
  pub cur_altsetting : HostInterface

pub record HostConfig : Type 0 where
  pub desc : Bytes
  pub interface : List UsbInterface

-- The kernel as the driver sees it, with a state `W` of its own, and the com_t of the driver.
pub record Kernel (W : Type 0) : Type 0 where
  pub kmalloc : ℕ → W → Option Bytes × W
  pub usb_alloc_urb : ℕ → W → Bool × W
  pub usb_submit_urb : Urb → W → ℤ × W
  pub usb_kill_urb : Urb → W → W
  -- the interval that usb_fill_int_urb makes of a bInterval, by the speed of the device
  pub int_interval : W → ℕ → ℕ
  pub usb_clear_halt : Pipe → W → ℤ × W
  pub usb_set_interface : ℕ → ℕ → W → ℤ × W
  pub usb_ifnum_to_if : ℕ → W → Option UsbInterface
  pub usb_altnum_to_altsetting : UsbInterface → ℕ → Option HostInterface
  pub actconfig : W → HostConfig
  -- usb_register, and the devices of the interfaces without a driver, which it offers to the probe
  -- of a driver that it has taken
  pub usb_register : W → ℤ × W
  pub unbound : W → List Device
  -- how many interfaces the driver has, which usb_deregister disconnects, and the rest of it
  pub bound : W → ℕ
  pub usb_deregister : W → W
  pub com_init : W → Bool × W
  pub com_send : Msg → W → ℤ × W
  pub com_close : W → W

pub record Heap (W : Type 0) : Type 0 where
  pub world : W
  pub live : ℕ
  pub next : ℕ

-- find_endpoint: the first of the list with the identity.
abbrev pub same_epid : Epid → Epid → Bool
same_epid id e = (id.num == e.num && id.type == e.type) && id.dir == e.dir

unfoldable pub find_endpoint : {U X : Type 0} → Epid → List (Endpoint U X) → Option (Endpoint U X)
find_endpoint id [] = none
find_endpoint id (ep ∷ list) =
    let rest = find_endpoint id list in if same_epid id ep.epid then some ep else rest

module _ {W : Type 0} (k : Kernel W) where
  -- What kmalloc gives in a state of the kernel.
  abbrev pub memory : W → Kmalloc
  memory w n = (k.kmalloc n w).0

  -- kmalloc of a struct that is filled at once: whether it was given.
  unfoldable pub allocate : ℕ → Heap W → Bool × Heap W
  allocate n h =
      let (r, w) = k.kmalloc n h.world in
      elim r [
        | none ↦ (false, record h { world = w })
        | some mem ↦ (true, record { world = w; live = suc h.live; next = suc h.next })
      ]

  -- kfree
  unfoldable pub release : Heap W → Heap W
  release h = record h { live = h.live - 1 }

  module _ {U X : Type 0} where
    -- The end of `_create_endpoint`, which names the endpoint. On its fail2 the descriptor stays.
    unfoldable pub name_endpoint :
        X → ℕ → Epid → Option Bytes → Heap W → Option (Endpoint U X) × Heap W
    name_endpoint usb_ep ref epid desc h =
        let (given, h') = allocate 128 h in
        if given
        then (
          some (record { ref = ref; epid = epid; desc = desc; reqlist = []; usb_ep = usb_ep }),
          h',
        )
        else (none, h')

    -- `_create_endpoint`: none is -ENOMEM. The usb_ep is what the gadget sets after it.
    unfoldable pub create_endpoint_as :
        X → ℕ → Epid → Option Bytes → Heap W → Option (Endpoint U X) × Heap W
    create_endpoint_as usb_ep ref epid (some desc) h =
        let (given, h') = allocate 9 h in
        if given then name_endpoint usb_ep ref epid (some desc) h' else (none, h')
    create_endpoint_as usb_ep ref epid none h = name_endpoint usb_ep ref epid none h

    unfoldable pub create_ep0_endpoint : X → ℕ → ℕ → Heap W → Option (Endpoint U X) × Heap W
    create_ep0_endpoint usb_ep ref epdir h =
        create_endpoint_as usb_ep ref (record { num = 0; type = ctrl; dir = epdir }) none h

    unfoldable pub create_endpoint : X → ℕ → Bytes → Heap W → Option (Endpoint U X) × Heap W
    create_endpoint usb_ep ref desc h =
        create_endpoint_as usb_ep ref (epid_of_desc desc) (some desc) h

    -- free_endpoint: the descriptor, if there is one, and the name.
    unfoldable pub free_endpoint : Endpoint U X → Heap W → Heap W
    free_endpoint ep h = elim ep.desc [ some desc ↦ release (release h) | none ↦ release h ]

-- send_userland, with the send function of the com_t.
unfoldable pub send_userland : {W : Type 0} → (Msg → W → ℤ × W) → Msg → Heap W → ℤ × Heap W
send_userland com_send msg h =
    let (sz, w) = com_send msg h.world in (if is_neg sz then eagain else sz, record h { world = w })
