-- ===== src/Identity/Built.antt =====
-- build_init_pkt of driver.c as a whole, against the packet of Identity.Packet.
use usbq_core.Msg.Alloc.{alloc_msg-IsFresh, Allocates, IsFresh}
use usbq_core.Identity.Written.{
  copy_altsettings-Appends, msgcpy-Appends, Appends-bind, Appends-nil, Appends,
}
use usbq_core.Msg.Copy.{get_data-nil, HasRoom, Fits}
use usbq_core.Identity.Interfaces.{length-altsetting}
use usbq_core.Msg.{
  Kmalloc, alloc_msg_management, msg_get_data, msg_diff_size, get_management_type,
  set_management_type, management_type, get_data, new_device, msgcpy, Msg,
}
use usbq_core.Identity.Packet.{
  endpoint_bytes, wire_desc, packet_bytes, AllAltsettings, altsetting_bytes,
}
use usbq_core.Identity.Build.{
  build_init_pkt, packet_size, fill_packet, copy_altsettings, visited, interfaces_size,
  copy_interfaces, altsettings_size,
}
use usbq_core.Identity.{usb_dt_config_size, usb_dt_device_size, Device, HostInterface}
use usbq_core.Prelude.{
  Bytes, List, Option, [], add32, ap, append_assoc, arith, inl, inr, le32, length, length-append,
  length-overwrite, none, overwrite, read32, read32-overwrite, read32-take, refl, some, store-ok,
  subst, sym, take, ◌++◌, ◌+◌, ◌<◌, ◌>>=◌, ◌^◌, ◌∙◌, ◌∷◌, ◌≡◌, ◌≤◌, ◌⊎◌,
}

-- All the altsettings of the interfaces, in order.
unfoldable pub altsettings : List (List HostInterface) → List HostInterface
altsettings [] = []
altsettings (intf ∷ rest) = intf ++ altsettings rest

abbrev pub AllInterfaces : List (List HostInterface) → Type 0
AllInterfaces [] = Unit {0}
AllInterfaces (intf ∷ rest) = AllAltsettings intf × AllInterfaces rest

-- A struct usb_device as the kernel keeps it.
pub record IsDevice (dev : Device) : Type 0 where
  pub device_length : length dev.descriptor ≡ usb_dt_device_size
  pub config_length : length dev.config_desc ≡ usb_dt_config_size
  pub interfaces : AllInterfaces (visited dev)
  pub small : interfaces_size (visited dev) < 2 ^ 31

altsetting_bytes-append :
    (xs ys : List HostInterface)
    → altsetting_bytes (xs ++ ys) ≡ altsetting_bytes xs ++ altsetting_bytes ys
unfolding altsetting_bytes
altsetting_bytes-append [] ys = refl
altsetting_bytes-append (x ∷ xs) ys =
    ap (λ b. wire_desc x.desc ++ (endpoint_bytes x.endpoint ++ b)) (altsetting_bytes-append xs ys)
    ∙ ap (◌++◌ (wire_desc x.desc))
        (sym (append_assoc (endpoint_bytes x.endpoint) (altsetting_bytes xs) (altsetting_bytes ys)))
    ∙ sym (
        append_assoc (wire_desc x.desc) (endpoint_bytes x.endpoint ++ altsetting_bytes xs)
          (altsetting_bytes ys))

altsettings-size :
    (alts : List HostInterface)
    → AllAltsettings alts
    → length (altsetting_bytes alts) ≡ altsettings_size alts
unfolding altsettings_size altsetting_bytes
altsettings-size [] w = refl
altsettings-size (alt ∷ alts) (w, ws) =
    omega (arith, length-altsetting alt alts w, altsettings-size alts ws, w.count)

-- The loop that adds up the size counts the bytes that the other loop writes.
pub interfaces-size :
    (intfs : List (List HostInterface))
    → AllInterfaces intfs
    → length (altsetting_bytes (altsettings intfs)) ≡ interfaces_size intfs
unfolding interfaces_size altsettings altsetting_bytes
interfaces-size [] w = refl
interfaces-size (intf ∷ rest) (w, ws) =
    ap length (altsetting_bytes-append intf (altsettings rest))
    ∙ omega (
      arith,
      length-append (altsetting_bytes intf) (altsetting_bytes (altsettings rest)),
      altsettings-size intf w,
      interfaces-size rest ws,
    )

copy_interfaces-Appends :
    (m : Msg) (intfs : List (List HostInterface))
    → AllInterfaces intfs
    → Fits m
    → HasRoom m (length (altsetting_bytes (altsettings intfs)))
    → Appends m (altsetting_bytes (altsettings intfs)) (copy_interfaces m intfs)
unfolding copy_interfaces altsettings altsetting_bytes
copy_interfaces-Appends m [] w f room = Appends-nil m f
copy_interfaces-Appends m (intf ∷ rest) (w, ws) f room =
    subst (λ b. Appends m b (copy_interfaces m (intf ∷ rest)))
      (sym (altsetting_bytes-append intf (altsettings rest)))
      (Appends-bind m (altsetting_bytes intf) (altsetting_bytes (altsettings rest))
        (copy_altsettings m intf) _ room'
        (copy_altsettings-Appends m intf w f (
          omega (
            arith,
            room',
            length-append (altsetting_bytes intf) (altsetting_bytes (altsettings rest)),
          )))
        (λ m' f' r'. copy_interfaces-Appends m' rest ws f' r'))
  where
    room' : HasRoom m (length (altsetting_bytes intf ++ altsetting_bytes (altsettings rest)))
    room' = subst (λ b. HasRoom m (length b)) (altsetting_bytes-append intf (altsettings rest)) room

module _ (dev : Device) (d : IsDevice dev) where
  abbrev pub packet : Bytes
  packet = packet_bytes dev (altsettings (visited dev))

  pub length-packet : length packet ≡ 31 + interfaces_size (visited dev)
  unfolding packet_bytes le32
  length-packet = omega (
    arith,
    length-append dev.descriptor (dev.config_desc ++ altsetting_bytes (altsettings (visited dev))),
    length-append dev.config_desc (altsetting_bytes (altsettings (visited dev))),
    interfaces-size (visited dev) d.interfaces,
    d.device_length,
    d.config_length,
  )

  abbrev pub copies : Msg → Option Msg
  copies m = msgcpy m (le32 dev.speed) >>= (λ m.
      msgcpy m dev.descriptor
      >>= (λ m. msgcpy m dev.config_desc >>= (λ m. copy_interfaces m (visited dev))))

  copies-Appends : (m : Msg) → Fits m → HasRoom m (length packet) → Appends m packet (copies m)
  unfolding packet_bytes
  copies-Appends m f room =
      let rest : Bytes = altsetting_bytes (altsettings (visited dev)) in
      Appends-bind m (le32 dev.speed) (dev.descriptor ++ (dev.config_desc ++ rest)) _ _ room
        (msgcpy-Appends m (le32 dev.speed) f (
          omega (
            arith,
            room,
            length-append (le32 dev.speed) (dev.descriptor ++ (dev.config_desc ++ rest)),
          )))
        (λ m f room.
          Appends-bind m dev.descriptor (dev.config_desc ++ rest) _ _ room
            (msgcpy-Appends m dev.descriptor f
              (omega (arith, room, length-append dev.descriptor (dev.config_desc ++ rest))))
            (λ m f room.
              Appends-bind m dev.config_desc rest _ _ room
                (msgcpy-Appends m dev.config_desc f
                  (omega (arith, room, length-append dev.config_desc rest)))
                (λ m f room. copy_interfaces-Appends m (visited dev) d.interfaces f room)))

  packet_size-length : packet_size dev ≡ length packet
  unfolding packet_size
  packet_size-length = omega (arith, length-packet, d.small)

  -- msg->management_type = NEW_DEVICE in a fresh message.
  abbrev marked : Msg → Msg
  marked m = record m { body = overwrite m.body 0 (le32 new_device) }

  length-marked : (m : Msg) → 4 ≤ length m.body → length (marked m).body ≡ length m.body
  unfolding le32
  length-marked m room = length-overwrite m.body 0 (le32 new_device) (omega (arith, room))

  marked-Fits : (m : Msg) → 4 ≤ length m.body → Fits m → Fits (marked m)
  marked-Fits m room f = record {
    kind = f.kind;
    covers = f.covers;
    within = omega (arith, length-marked m room, f.within);
    small = omega (arith, length-marked m room, f.small);
  }

  -- What the caller of build_init_pkt gets.
  pub record IsPacket (m : Msg) : Type 0 where
    pub payload : get_data m ≡ packet
    pub type_eq : m.type ≡ management_type
    pub announces : get_management_type m ≡ new_device
    pub fits : Fits m

  marked-Appends :
      (m : Msg)
      → IsFresh (packet_size dev) management_type m
      → Fits (marked m)
      → 4 ≤ length m.body
      → Appends (marked m) packet (copies (marked m))
  marked-Appends m fresh fits room =
      copies-Appends (marked m) fits
        (omega (arith, fresh.size_eq, fresh.body_length, length-marked m room, packet_size-length))

  data_offset : (m : Msg) → m.type ≡ management_type → msg_get_data (marked m) ≡ 4
  unfolding msg_get_data
  data_offset m e = rw e

  announced :
      (m m' : Msg)
      → m.type ≡ management_type
      → 4 ≤ length m.body
      → take (msg_get_data (marked m)) m'.body ≡ take (msg_get_data (marked m)) (marked m).body
      → get_management_type m' ≡ new_device
  announced m m' e room same =
      let same' : take 4 m'.body ≡ take 4 (marked m).body =
        subst (λ n. take n m'.body ≡ take n (marked m).body) (data_offset m e) same in
      sym (read32-take 4 0 m'.body (omega arith))
      ∙ ap (λ b. read32 b 0) same'
      ∙ read32-take 4 0 (marked m).body (omega arith)
      ∙ read32-overwrite 0 new_device m.body (omega arith) (omega arith)

  fill_packet-IsPacket :
      (m : Msg)
      → IsFresh (packet_size dev) management_type m
      → 4 ≤ length m.body
      → (m' : Msg) × (fill_packet dev m ≡ some m') × IsPacket m'
  unfolding fill_packet set_management_type
  fill_packet-IsPacket m fresh room =
      let fits = marked-Fits m room fresh.fits in
      let written = marked-Appends m fresh fits room in
      (
        written.after,
        rw (store-ok m.body 0 (le32 new_device) (unfold le32 in omega (arith, room)))
            written.result,
        record {
          payload =
              written.payload
              ∙ ap (λ b. b ++ packet)
                  (get_data-nil (marked m) fits
                    (fresh.size_eq ∙ ap msg_diff_size (sym fresh.type_eq)));
          type_eq = written.type_eq ∙ fresh.type_eq;
          announces = announced m written.after fresh.type_eq room written.headers;
          fits = written.fits;
        },
      )

  -- For a device whose descriptors have the sizes that they should, and an allocator that gives as
  -- many bytes as it is asked for, build_init_pkt writes inside of its message, and gives NULL when
  -- the allocator does, and else the message that announces a new device, whose payload is the
  -- speed, the device and the configuration descriptor and the descriptors of all altsettings with
  -- their endpoints, in order. A descriptor of an endpoint says that it is seven bytes long, and
  -- an altsetting has no more than eight.
  pub build_init_pkt-IsPacket :
      (kmalloc : Kmalloc)
      → Allocates kmalloc
      → ((kmalloc (add32 (add32 (packet_size dev) (msg_diff_size management_type)) 4) ≡ none)
          × (build_init_pkt kmalloc dev ≡ some none))
        ⊎ ((m : Msg) × (build_init_pkt kmalloc dev ≡ some (some m)) × IsPacket m)
  unfolding build_init_pkt alloc_msg_management
  build_init_pkt-IsPacket kmalloc gives =
      elim (alloc_msg-IsFresh kmalloc gives (packet_size dev) management_type (omega arith)
        (omega (arith, packet_size-length, length-packet, d.small))) [
          | inl (nothing, e) ↦ inl (nothing, rw (e, build_init_pkt))
          | inr (m, e, fresh) ↦
              let (m', filled, good) =
                fill_packet-IsPacket m fresh
                  (unfold msg_diff_size in omega (arith, fresh.body_length)) in
              inr (m', rw (e, build_init_pkt, filled), good)
        ]
