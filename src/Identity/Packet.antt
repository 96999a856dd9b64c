-- ===== src/Identity/Packet.antt =====
-- The bytes of a packet, described without the loops that write and read them.
use usbq_core.Identity.{
  max_endpoint_interface, b_num_endpoints, usb_dt_endpoint, usb_dt_interface, b_descriptor_type,
  usb_dt_interface_size, usb_dt_endpoint_size, Device, HostInterface, sizeof_endpoint_descriptor,
  b_length,
}
use usbq_core.Prelude.{
  Bytes, List, [], arith, le32, length, length-append, length-take, refl, take, ◌*◌, ◌++◌, ◌∷◌, ◌≡◌,
  ◌≤◌,
}

-- A descriptor as it stands in the packet.
abbrev pub wire_desc : Bytes → Bytes
wire_desc d = take (b_length d) d

unfoldable pub endpoint_bytes : List Bytes → Bytes
endpoint_bytes [] = []
endpoint_bytes (e ∷ es) = wire_desc e ++ endpoint_bytes es

unfoldable pub altsetting_bytes : List HostInterface → Bytes
altsetting_bytes [] = []
altsetting_bytes (alt ∷ alts) =
    wire_desc alt.desc ++ (endpoint_bytes alt.endpoint ++ altsetting_bytes alts)

unfoldable pub packet_bytes : Device → List HostInterface → Bytes
packet_bytes dev alts =
    le32 dev.speed ++ (dev.descriptor ++ (dev.config_desc ++ altsetting_bytes alts))

-- A struct usb_endpoint_descriptor of a plain endpoint: its length byte says seven.
pub record IsEndpointDesc (e : Bytes) : Type 0 where
  pub length_eq : length e ≡ sizeof_endpoint_descriptor
  pub says : b_length e ≡ usb_dt_endpoint_size
  pub type_eq : b_descriptor_type e ≡ usb_dt_endpoint

abbrev pub AllEndpoints : List Bytes → Type 0
AllEndpoints [] = Unit {0}
AllEndpoints (e ∷ es) = IsEndpointDesc e × AllEndpoints es

-- An altsetting as the kernel keeps it, with no more endpoints than an interface_desc_t holds.
pub record IsAltsetting (alt : HostInterface) : Type 0 where
  pub length_eq : length alt.desc ≡ usb_dt_interface_size
  pub says : b_length alt.desc ≡ usb_dt_interface_size
  pub type_eq : b_descriptor_type alt.desc ≡ usb_dt_interface
  pub count : b_num_endpoints alt.desc ≡ length alt.endpoint
  pub few : length alt.endpoint ≤ max_endpoint_interface
  pub endpoints : AllEndpoints alt.endpoint

abbrev pub AllAltsettings : List HostInterface → Type 0
AllAltsettings [] = Unit {0}
AllAltsettings (alt ∷ alts) = IsAltsetting alt × AllAltsettings alts

length-wire_endpoint : (e : Bytes) → IsEndpointDesc e → length (wire_desc e) ≡ 7
length-wire_endpoint e w = omega (arith, length-take (b_length e) e, w.says, w.length_eq)

pub length-endpoint_bytes :
    (es : List Bytes) → AllEndpoints es → length (endpoint_bytes es) ≡ length es * 7
unfolding endpoint_bytes
length-endpoint_bytes [] w = refl
length-endpoint_bytes (e ∷ es) (w, ws) = omega (
  arith,
  length-append (wire_desc e) (endpoint_bytes es),
  length-wire_endpoint e w,
  length-endpoint_bytes es ws,
)
