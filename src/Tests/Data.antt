-- ===== src/Tests/Data.antt =====
-- An allocator, a socket layer, a kernel and a mass storage device.
use usbq_core.Msg.Copy.{Fits}
use usbq_core.Identity.Interfaces.{Sized}
use usbq_core.Udp.Send.{Delivers}
use usbq_core.Identity.RoundTrip.{IsAnnounced, IsIdentity}
use usbq_core.Identity.Built.{IsPacket, IsDevice, altsettings}
use usbq_core.Identity.Packet.{
  endpoint_bytes, altsetting_bytes, IsEndpointDesc, packet_bytes, IsAltsetting,
}
use usbq_core.Msg.{msg_get_data, msg_get_data_size, get_data, Msg, msg_diff_size, Kmalloc}
use usbq_core.Identity.Build.{altsettings_size, interfaces_size}
use usbq_core.Types.{Epid}
use usbq_core.Msg.Headers.{IsNarrow}
use usbq_core.Udp.{received, Net, UdpState}
use usbq_core.Identity.{Identity, HostInterface, InterfaceDesc, Device}
use usbq_core.Msg.Alloc.{Allocates}
use usbq_core.Prelude.{
  Bytes, Option, [], ap, arith, byte_at, le32, length, length-replicate, negsuc, none, pos, read32,
  refl, replicate, some, suc, sym, take_all, true, zero, ℕ, ℤ, ◌++◌, ◌∙◌, ◌∷◌, ◌≡◌,
}

abbrev pub zeros : Kmalloc
zeros n = some (replicate n 0)

length_of : Option Bytes → ℕ
length_of none = 0
length_of (some mem) = length mem

pub zeros-Allocates : Allocates zeros
unfolding length_of
zeros-Allocates n mem e = sym (ap length_of e) ∙ length-replicate n 0

abbrev pub bulk_in : Epid
bulk_in = record { num = 1; type = 2; dir = 0 }

pub bulk_in-IsNarrow : IsNarrow bulk_in
bulk_in-IsNarrow = record { num_lt = omega arith; type_lt = omega arith; dir_lt = omega arith }

-- A message with the data 10 20 for that endpoint, in memory with room for four bytes more.
abbrev pub data_msg : Msg
data_msg = record {
  allocated_size = 6;
  size = 20;
  type = 0;
  body = 1 ∷ 0 ∷ 2 ∷ 0 ∷ 0 ∷ 0 ∷ 0 ∷ 0 ∷ 0 ∷ 0 ∷ 10 ∷ 20 ∷ 0 ∷ 0 ∷ 0 ∷ 0 ∷ [];
}

pub data_msg-Fits : Fits data_msg
unfolding msg_diff_size
data_msg-Fits = record {
  kind = omega arith;
  covers = omega arith;
  within = omega arith;
  small = omega arith;
}

abbrev pub bulk_desc : Bytes
bulk_desc = 7 ∷ 5 ∷ 0x81 ∷ 2 ∷ 64 ∷ 0 ∷ 0 ∷ 0 ∷ 0 ∷ []

abbrev pub storage : HostInterface
storage = record { desc = 9 ∷ 4 ∷ 0 ∷ 0 ∷ 1 ∷ 8 ∷ 6 ∷ 0x50 ∷ 0 ∷ []; endpoint = bulk_desc ∷ [] }

abbrev pub disk : Device
disk = record {
  speed = 3;
  descriptor = 18 ∷ 1 ∷ 0 ∷ 2 ∷ 0 ∷ 0 ∷ 0 ∷ 64 ∷ 0 ∷ 0 ∷ 0 ∷ 0 ∷ 0 ∷ 0 ∷ 0 ∷ 0 ∷ 0 ∷ 1 ∷ [];
  config_desc = 9 ∷ 2 ∷ 25 ∷ 0 ∷ 1 ∷ 1 ∷ 0 ∷ 0x80 ∷ 50 ∷ [];
  interface = (storage ∷ []) ∷ [];
}

pub bulk_desc-IsEndpointDesc : IsEndpointDesc bulk_desc
unfolding byte_at
bulk_desc-IsEndpointDesc = record { length_eq = refl; says = refl; type_eq = refl }

pub storage-IsAltsetting : IsAltsetting storage
unfolding byte_at
storage-IsAltsetting = record {
  length_eq = refl;
  says = refl;
  type_eq = refl;
  count = refl;
  few = omega arith;
  endpoints = (bulk_desc-IsEndpointDesc, tt);
}

pub disk-IsDevice : IsDevice disk
unfolding byte_at interfaces_size altsettings_size
disk-IsDevice = record {
  device_length = refl;
  config_length = refl;
  interfaces = ((storage-IsAltsetting, tt), tt);
  small = omega arith;
}

pub disk-IsAnnounced : IsAnnounced disk
unfolding byte_at altsettings
disk-IsAnnounced = record {
  device = disk-IsDevice;
  speed_small = omega arith;
  device_says = refl;
  device_type = refl;
  config_says = refl;
  config_type = refl;
  altsettings_ok = (storage-IsAltsetting, tt);
  few = omega arith;
}

-- The identity before any packet.
abbrev pub no_interface : InterfaceDesc
no_interface = record { desc = []; endpoints = replicate 8 []; active = 0 }

abbrev pub no_identity : Identity
no_identity = record {
  speed = 0;
  device = [];
  conf = [];
  nb_int = 0;
  interfaces = replicate 64 no_interface;
}

Sized-replicate : (n : ℕ) → Sized (replicate n no_interface)
Sized-replicate zero = tt
Sized-replicate (suc n) = (refl, Sized-replicate n)

pub no_identity-IsIdentity : IsIdentity no_identity
no_identity-IsIdentity = record { count = refl; sized = Sized-replicate 64 }

-- The packet of the disk in a message with two bytes behind.
abbrev pub disk_msg : Msg
disk_msg = record {
  allocated_size = 49;
  size = 59;
  type = 2;
  body = le32 1 ++ (packet_bytes disk (storage ∷ []) ++ (0 ∷ 0 ∷ []));
}

pub disk_msg-IsPacket : IsPacket disk disk-IsAnnounced.device disk_msg
unfolding le32 packet_bytes altsetting_bytes endpoint_bytes byte_at altsettings get_data
    msg_get_data_size msg_get_data msg_diff_size read32
disk_msg-IsPacket = record {
  payload = refl;
  type_eq = refl;
  announces = refl;
  fits = record {
    kind = omega arith;
    covers = omega arith;
    within = omega arith;
    small = omega arith;
  };
}

-- A socket that takes all that it is offered, and gives a message without data.
abbrev pub socket : Net Bytes
socket = record {
  sock_create = λ s. (s, true);
  bind = λ s a. (s, pos 0);
  sock_release = λ s. s;
  has_sk = λ s. true;
  sock_sendmsg = λ s a buf. (s ++ buf, pos (length buf));
  sock_recvmsg = λ s len. (s, received [] (record { port = 0; ip = 0 }));
  access_ok = λ s n. true;
}

natural : ℤ → ℕ
natural (pos n) = n
natural (negsuc n) = n

pub socket-Delivers : Delivers socket (λ s. s)
unfolding natural
socket-Delivers = record {
  accepts = λ s s' a buf n e.
      let count : length buf ≡ n = ap (λ p. natural p.1) e in
      (
        omega (arith, count),
        sym (ap (λ p. p.0) e) ∙ ap (λ b. s ++ b) (sym (take_all n buf (omega (arith, count)))),
      );
  refuses = λ s s' a buf code e. cc;
}

abbrev pub idle : UdpState Bytes
idle = record {
  sockservaddr = record { port = 64241; ip = 0 };
  clientaddr = record { port = 64240; ip = 1 };
  udpsocket = [];
  has_socket = true;
}
