-- ===== src/Msg/Headers.antt =====
-- msg_set_epid of msg.c and the header fields.
use usbq_core.Msg.Copy.{Fits}
use usbq_core.Prelude.{
  ◌-◌, ◌+◌, length-overwrite, take, drop, refl, ◌^◌, ◌≤◌, ◌<◌, ◌≡◌, some, length, arith, word,
  store-ok, overwrite, ap, drop-overwrite_past, read16, read32, byte_at, le16, le32,
}
use usbq_core.Types.{Epid}
use usbq_core.Msg.{
  Msg, ack_type, msg_diff_size, get_data, msg_get_data, msg_get_data_size, get_epid, epid_bytes,
  msg_set_epid,
}

-- The fields of the identity fit into an epid_t.
pub record IsNarrow (e : Epid) : Type 0 where
  pub num_lt : e.num < 2 ^ 16
  pub type_lt : e.type < word
  pub dir_lt : e.dir < word

abbrev pub with_epid : Msg → Epid → Msg
with_epid m e = record m { body = overwrite m.body 0 (epid_bytes e) }

pub msg_set_epid-with_epid :
    (m : Msg) (e : Epid) → 10 ≤ length m.body → msg_set_epid m e ≡ some (with_epid m e)
unfolding msg_set_epid
msg_set_epid-with_epid m e h =
    rw (store-ok m.body 0 (epid_bytes e) (unfold epid_bytes le16 le32 in omega arith))

pub get_epid-with_epid : (m : Msg) (e : Epid) → IsNarrow e → get_epid (with_epid m e) ≡ e
unfolding overwrite epid_bytes le16 le32 read16 read32 byte_at
get_epid-with_epid m e n = ground arith

pub length-epid_bytes : (e : Epid) → length (epid_bytes e) ≡ 10
unfolding epid_bytes le16 le32
length-epid_bytes e = refl

-- A message of data or an acknowledgement, whose memory holds its headers.
pub record IsUsb (m : Msg) : Type 0 where
  pub fits : Fits m
  pub usb : m.type ≤ ack_type

module _ (m : Msg) (e : Epid) (u : IsUsb m) where
  room : 10 ≤ length m.body
  unfolding msg_diff_size
  room = ground (arith, u.fits)

  data_at : drop (msg_get_data m) (overwrite m.body 0 (epid_bytes e)) ≡ drop (msg_get_data m) m.body
  data_at =
      let past : 0 + (length (epid_bytes e) + (msg_get_data m - 10)) ≡ msg_get_data m =
        omega (arith, length-epid_bytes e, data_offset) in
      rw past at (
        drop-overwrite_past 0 (msg_get_data m - 10) m.body (epid_bytes e)
          (omega (arith, room, length-epid_bytes e)))
    where
      data_offset : 10 ≤ msg_get_data m
      data_offset = unfold msg_get_data in ground (arith, u.usb)

  pub get_data-with_epid : get_data (with_epid m e) ≡ get_data m
  unfolding get_data msg_get_data_size msg_get_data
  get_data-with_epid = ap (take (msg_get_data_size m)) data_at

  pub length-with_epid : length (with_epid m e).body ≡ length m.body
  length-with_epid =
      length-overwrite m.body 0 (epid_bytes e) (omega (arith, room, length-epid_bytes e))

  pub with_epid-IsUsb : IsUsb (with_epid m e)
  with_epid-IsUsb = record {
    fits = record {
      kind = f.kind;
      covers = f.covers;
      within = omega (arith, length-with_epid, f.within);
      small = omega (arith, length-with_epid, f.small);
    };
    usb = u.usb;
  }
    where
      open u use {fits as f}

  -- msg_set_epid puts an identity whose fields fit theirs into the headers of an USB message, and
  -- leaves its payload, its kind, its two sizes and the length of its memory.
  pub msg_set_epid-get_epid :
      IsNarrow e
      → (m' : Msg) × (msg_set_epid m e ≡ some m')
        × (get_epid m' ≡ e)
        × (get_data m' ≡ get_data m)
        × (m'.type ≡ m.type)
        × (m'.size ≡ m.size)
        × (length m'.body ≡ length m.body)
        × (m'.allocated_size ≡ m.allocated_size)
        × IsUsb m'
  msg_set_epid-get_epid n = (
    with_epid m e,
    msg_set_epid-with_epid m e room,
    get_epid-with_epid m e n,
    get_data-with_epid,
    refl,
    refl,
    length-with_epid,
    refl,
    with_epid-IsUsb,
  )
