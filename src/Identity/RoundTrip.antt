-- ===== src/Identity/RoundTrip.antt =====
-- parse_init_pkt of gadget.c on the message of build_init_pkt of driver.c.
use usbq_core.Identity.{
  Device, HostInterface, Identity, b_descriptor_type, b_length, max_interface_configuration,
  usb_dt_config, usb_dt_config_size, usb_dt_device, usb_dt_device_size,
}
use usbq_core.Identity.Build.{interfaces_size, visited}
use usbq_core.Identity.Built.{IsDevice, IsPacket, altsettings, interfaces-size, length-packet}
use usbq_core.Identity.Interfaces.{Parsed, Sized}
use usbq_core.Identity.Packet.{AllAltsettings, altsetting_bytes, packet_bytes}
use usbq_core.Identity.Parse.{
  Result, interface_loop, parse_configuration, parse_device, parse_init_pkt, parse_interfaces,
  parse_packet,
}
use usbq_core.Identity.Table.{Stores, interface_loop-Stores}
use usbq_core.Msg.{Msg, get_data, msg_get_data, msg_get_data_size}
use usbq_core.Msg.Copy.{length-get_data}
use usbq_core.Prelude.{
  Bytes, List, ap, append_assoc, arith, drop, drop-append, ge→ltb, le32, length, pos, read32,
  read32-le32, refl, some, subst, suc, sym, take, take-append, take-append-drop, word, ℕ, ◌++◌, ◌+◌,
  ◌-◌, ◌<◌, ◌∙◌, ◌≡◌, ◌≤◌,
}

-- The descriptors of a device as USB 2.0 has them, with no more altsettings than an identity_t has
-- places for.
pub record IsAnnounced (dev : Device) : Type 0 where
  pub device : IsDevice dev
  pub speed_small : dev.speed < word
  pub device_says : b_length dev.descriptor ≡ usb_dt_device_size
  pub device_type : b_descriptor_type dev.descriptor ≡ usb_dt_device
  pub config_says : b_length dev.config_desc ≡ usb_dt_config_size
  pub config_type : b_descriptor_type dev.config_desc ≡ usb_dt_config
  pub altsettings_ok : AllAltsettings (altsettings (visited dev))
  pub few : length (altsettings (visited dev)) ≤ max_interface_configuration

-- An identity_t, whose arrays have the lengths that they are declared with.
pub record IsIdentity (identity : Identity) : Type 0 where
  pub count : length identity.interfaces ≡ max_interface_configuration
  pub sized : Sized identity.interfaces

module _ (dev : Device) (a : IsAnnounced dev) (identity : Identity) (w : IsIdentity identity)
    (tail : Bytes) (behind : 2 ≤ length tail) where
  abbrev alts : List HostInterface
  alts = altsettings (visited dev)

  abbrev table_bytes : Bytes
  table_bytes = altsetting_bytes alts

  -- The identity that the packet describes.
  pub record IsRead (r : Result) : Type 0 where
    pub read : Identity
    pub result : r ≡ some (read, pos 0)
    pub speed_eq : read.speed ≡ dev.speed
    pub device_eq : read.device ≡ dev.descriptor
    pub conf_eq : read.conf ≡ dev.config_desc
    pub nb_int_eq : read.nb_int ≡ length alts
    pub parsed : Parsed alts tail (take (length alts) read.interfaces)
    pub whole : IsIdentity read

  size_table : length table_bytes ≡ interfaces_size (visited dev)
  size_table = interfaces-size (visited dev) a.device.interfaces

  stored-IsRead :
      (identity : Identity) (size : ℕ)
      → IsIdentity identity
      → Stores alts tail identity.interfaces 0
          (interface_loop (suc size) identity.interfaces 0 (table_bytes ++ tail) size)
      → identity.speed ≡ dev.speed
      → identity.device ≡ dev.descriptor
      → identity.conf ≡ dev.config_desc
      → IsRead (parse_interfaces identity (table_bytes ++ tail) size)
  unfolding parse_interfaces
  stored-IsRead identity size w stores speed_eq device_eq conf_eq = record {
    read = record identity { interfaces = stores.table'; nb_int = 0 + length alts };
    result = rw (stores.result, parse_interfaces);
    whole = record { count = stores.length_eq ∙ w.count; sized = stores.sized };
    speed_eq = speed_eq;
    device_eq = device_eq;
    conf_eq = conf_eq;
    nb_int_eq = omega arith;
    parsed =
        subst (Parsed alts tail) (sym stores.prefix ∙ ap (λ n. take n stores.table') zero_left)
          stores.parsed;
  }
    where
      zero_left : 0 + length alts ≡ length alts
      zero_left = omega arith

  interfaces-IsRead :
      (identity : Identity) (size : ℕ)
      → IsIdentity identity
      → size ≡ length table_bytes
      → identity.speed ≡ dev.speed
      → identity.device ≡ dev.descriptor
      → identity.conf ≡ dev.config_desc
      → IsRead (parse_interfaces identity (table_bytes ++ tail) size)
  interfaces-IsRead identity size w e = stored-IsRead identity size w (
      subst
        (λ n.
          Stores alts tail identity.interfaces 0
            (interface_loop (suc size) identity.interfaces 0 (table_bytes ++ tail) n))
        (sym e)
        (interface_loop-Stores alts (suc size) identity.interfaces 0 tail a.altsettings_ok w.sized
          (omega (arith, w.count, a.few)) (omega (arith, size_table, a.device.small)) behind
          (omega (arith, e))))

  configuration-IsRead :
      (identity : Identity) (size : ℕ)
      → IsIdentity identity
      → size ≡ 9 + length table_bytes
      → identity.speed ≡ dev.speed
      → identity.device ≡ dev.descriptor
      → IsRead (parse_configuration identity (dev.config_desc ++ (table_bytes ++ tail)) size)
  unfolding parse_configuration
  configuration-IsRead identity size w e speed_eq device_eq =
      rw
        (
          ge→ltb size 9 (omega (arith, e)),
          front,
          a.config_type,
          a.config_says,
          rest,
          ge→ltb size 9 (omega (arith, e)),
        )
        (interfaces-IsRead (record identity { conf = dev.config_desc }) (size - 9)
          (record { count = w.count; sized = w.sized }) (omega (arith, e)) speed_eq device_eq refl)
    where
      front : take usb_dt_config_size (dev.config_desc ++ (table_bytes ++ tail)) ≡ dev.config_desc
      front =
          subst (λ n. take n (dev.config_desc ++ (table_bytes ++ tail)) ≡ dev.config_desc)
            a.device.config_length (take-append dev.config_desc (table_bytes ++ tail))

      rest :
          drop usb_dt_config_size (dev.config_desc ++ (table_bytes ++ tail)) ≡ table_bytes ++ tail
      rest =
          subst (λ n. drop n (dev.config_desc ++ (table_bytes ++ tail)) ≡ table_bytes ++ tail)
            a.device.config_length (drop-append dev.config_desc (table_bytes ++ tail))

  device-IsRead :
      (identity : Identity) (size : ℕ)
      → IsIdentity identity
      → size ≡ 27 + length table_bytes
      → identity.speed ≡ dev.speed
      → IsRead (
          parse_device identity (dev.descriptor ++ (dev.config_desc ++ (table_bytes ++ tail))) size)
  unfolding parse_device
  device-IsRead identity size w e speed_eq =
      rw
        (
          ge→ltb size 18 (omega (arith, e)),
          front,
          a.device_type,
          a.device_says,
          rest,
          ge→ltb size 18 (omega (arith, e)),
        )
        (configuration-IsRead (record identity { device = dev.descriptor }) (size - 18)
          (record { count = w.count; sized = w.sized }) (omega (arith, e)) speed_eq refl)
    where
      behind_device : Bytes
      behind_device = dev.config_desc ++ (table_bytes ++ tail)

      front : take usb_dt_device_size (dev.descriptor ++ behind_device) ≡ dev.descriptor
      front =
          subst (λ n. take n (dev.descriptor ++ behind_device) ≡ dev.descriptor)
            a.device.device_length (take-append dev.descriptor behind_device)

      rest : drop usb_dt_device_size (dev.descriptor ++ behind_device) ≡ behind_device
      rest =
          subst (λ n. drop n (dev.descriptor ++ behind_device) ≡ behind_device)
            a.device.device_length (drop-append dev.descriptor behind_device)

  regrouped :
      packet_bytes dev alts ++ tail
      ≡ le32 dev.speed ++ (dev.descriptor ++ (dev.config_desc ++ (table_bytes ++ tail)))
  unfolding packet_bytes le32
  regrouped = ap (le32 dev.speed ++◌) (
      append_assoc dev.descriptor (dev.config_desc ++ table_bytes) tail
      ∙ ap (dev.descriptor ++◌) (append_assoc dev.config_desc table_bytes tail))

  speed_read : read32 (packet_bytes dev alts ++ tail) 0 ≡ dev.speed
  speed_read = ap (λ b. read32 b 0) regrouped ∙ read32-le32 dev.speed _ a.speed_small

  behind_speed :
      drop 4 (packet_bytes dev alts ++ tail)
      ≡ dev.descriptor ++ (dev.config_desc ++ (table_bytes ++ tail))
  behind_speed = ap (drop 4) regrouped ∙ unfold le32 in refl

  pub parse_packet-IsRead :
      (size : ℕ)
      → size ≡ length (packet_bytes dev alts)
      → IsRead (parse_packet identity (packet_bytes dev alts ++ tail) size)
  unfolding parse_packet
  parse_packet-IsRead size e =
      rw (ge→ltb size 4 (omega (arith, total)), speed_read, behind_speed)
        (device-IsRead (record identity { speed = dev.speed }) (size - 4)
          (record { count = w.count; sized = w.sized }) (omega (arith, total)) refl)
    where
      total : size ≡ 31 + length table_bytes
      total = omega (arith, e, length-packet dev a.device, size_table)

-- What the memory of a message holds behind its data.
abbrev pub behind_data : Msg → Bytes
behind_data m = drop (msg_get_data_size m) (drop (msg_get_data m) m.body)

-- parse_init_pkt, on a message that build_init_pkt made for a device with the descriptors of USB
-- 2.0, no more than 64 altsettings and no more than 8 endpoints in each, and whose memory goes on
-- for two bytes behind the data, stays inside of its memory, returns 0 and reads back the speed,
-- the device and the configuration descriptor, and each altsetting, in order and not active, with
-- its descriptor and the bytes of its endpoints.
pub parse_init_pkt-IsRead :
    (dev : Device) (a : IsAnnounced dev) (identity : Identity) (w : IsIdentity identity) (m : Msg)
    → IsPacket dev a.device m
    → (two : 2 ≤ length (behind_data m))
    → IsRead dev a identity w (behind_data m) two (parse_init_pkt identity m)
unfolding parse_init_pkt
parse_init_pkt-IsRead dev a identity w m p two =
    subst
      (λ b.
        IsRead dev a identity w (behind_data m) two (parse_packet identity b (msg_get_data_size m)))
      (ap (λ b. b ++ behind_data m) (sym p.payload)
        ∙ (unfold get_data in
            take-append-drop (msg_get_data_size m) (drop (msg_get_data m) m.body)))
      (parse_packet-IsRead dev a identity w (behind_data m) two (msg_get_data_size m)
        (sym (length-get_data m p.fits) ∙ ap length p.payload))
