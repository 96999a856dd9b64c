-- ===== src/Msg/Ack.antt =====
-- alloc_msg_ack: what an acknowledgement holds.
use usbq_core.Msg.{
  Kmalloc, Msg, ack_type, alloc_msg_ack, check_msg, epid_bytes, fill_ack, get_data, get_epid,
  get_status, msg_diff_size, msg_get_data, word_of_int,
}
use usbq_core.Msg.Alloc.{Allocates, IsFresh, alloc_msg-IsFresh}
use usbq_core.Msg.Check.{IsEpid, IsWellFormed-check_msg, usb_ack}
use usbq_core.Msg.Copy.{
  Fits, HasRoom, copied, copied-Fits, get_data-copied, get_data-nil, headers-copied, msgcpy-copied,
}
use usbq_core.Msg.Headers.{
  IsNarrow, IsUsb, get_data-with_epid, get_epid-with_epid, length-epid_bytes, length-with_epid,
  msg_set_epid-with_epid, with_epid, with_epid-IsUsb,
}
use usbq_core.Types.{Epid}
use usbq_core.Prelude.{
  Bytes, [], arith, drop, drop-overwrite_past, inl, inr, le32, length, length-overwrite, negsuc,
  none, overwrite, pos, read16-take, read32-drop, read32-overwrite, read32-take, refl, some,
  store-ok, subst, sym, take, true, word, ℕ, ℤ, ◌+◌, ◌<◌, ◌∙◌, ◌≡◌, ◌≤◌, ◌⊎◌,
}

-- An acknowledgement that may be sent: it passes check_msg and holds what it was made from.
pub record IsAck (e : Epid) (status : ℤ) (buf : Bytes) (m : Msg) : Type 0 where
  pub valid : check_msg m ≡ true
  pub is_ack : m.type ≡ ack_type
  pub epid_eq : get_epid m ≡ e
  pub status_eq : get_status m ≡ word_of_int status
  pub data_eq : get_data m ≡ buf
  pub fits : Fits m

word_of_int-lt : (z : ℤ) → word_of_int z < word
unfolding word_of_int
word_of_int-lt (pos n) = omega arith
word_of_int-lt (negsuc n) = omega arith

-- Two messages whose first 14 bytes of the union agree have the same headers.
module _ (m m' : Msg) (same : take 14 m'.body ≡ take 14 m.body) where
  same_status : get_status m' ≡ get_status m
  same_status =
      rw (← read32-take 14 10 m'.body (omega arith), same) (read32-take 14 10 m.body (omega arith))

  same_epid : get_epid m' ≡ get_epid m
  same_epid = rw (
    ← read16-take 14 0 m'.body (omega arith),
    ← read32-take 14 2 m'.body (omega arith),
    ← read32-take 14 6 m'.body (omega arith),
    same,
    read16-take 14 0 m.body (omega arith),
    read32-take 14 2 m.body (omega arith),
    read32-take 14 6 m.body (omega arith),
  )

module _ (e : Epid) (status : ℤ) (m : Msg) (n : ℕ) (fresh : IsFresh n ack_type m)
    (narrow : IsNarrow e) where
  length-le32 : length (le32 (word_of_int status)) ≡ 4
  unfolding le32
  length-le32 = refl

  body_length : length m.body ≡ n + 14
  unfolding msg_diff_size
  body_length = omega (arith, fresh.body_length)

  abbrev with_status : Msg
  with_status = record m { body = overwrite m.body 10 (le32 (word_of_int status)) }

  length-with_status : length with_status.body ≡ length m.body
  length-with_status =
      length-overwrite m.body 10 (le32 (word_of_int status))
        (omega (arith, body_length, length-le32))

  with_status-IsUsb : IsUsb with_status
  with_status-IsUsb = record {
    fits = record {
      kind = fresh.fits.kind;
      covers = fresh.fits.covers;
      within = omega (arith, length-with_status, fresh.fits.within);
      small = omega (arith, length-with_status, fresh.fits.small);
    };
    usb = omega (arith, fresh.type_eq);
  }

  -- The headers are written one after the other, status first.
  abbrev with_headers : Msg
  with_headers = with_epid with_status e

  with_headers-status : get_status with_headers ≡ word_of_int status
  with_headers-status =
      rw (← read32-drop 10, beyond, read32-drop 10 with_status.body)
        (read32-overwrite 10 (word_of_int status) m.body (omega (arith, body_length))
          (word_of_int-lt status))
    where
      beyond : drop 10 with_headers.body ≡ drop 10 with_status.body
      beyond =
          let ten : 0 + (length (epid_bytes e) + 0) ≡ 10 = omega (arith, length-epid_bytes e) in
          rw ten at (
            drop-overwrite_past 0 0 with_status.body (epid_bytes e)
              (omega (arith, body_length, length-epid_bytes e, length-with_status)))

  with_headers-Fits : Fits with_headers
  with_headers-Fits = (with_epid-IsUsb with_status e with_status-IsUsb).fits

  same_size : m.size ≡ msg_diff_size m.type
  same_size = rw fresh.type_eq fresh.size_eq

  with_headers-empty : get_data with_headers ≡ []
  with_headers-empty =
      get_data-with_epid with_status e with_status-IsUsb
      ∙ get_data-nil with_status with_status-IsUsb.fits same_size

  with_headers-size : with_headers.size ≡ 22
  unfolding msg_diff_size
  with_headers-size = fresh.size_eq

  -- Without bytes to copy.
  pub with_headers-IsAck : IsEpid e → IsAck e status [] with_headers
  with_headers-IsAck real = record {
    valid = IsWellFormed-check_msg with_headers (
        usb_ack fresh.type_eq (omega (arith, with_headers-size))
          (subst IsEpid (sym (get_epid-with_epid with_status e narrow)) real));
    is_ack = fresh.type_eq;
    epid_eq = get_epid-with_epid with_status e narrow;
    status_eq = with_headers-status;
    data_eq = with_headers-empty;
    fits = with_headers-Fits;
  }

  pub fill_ack-with_headers : fill_ack e status none m ≡ some with_headers
  unfolding fill_ack
  fill_ack-with_headers = rw (
    store-ok m.body 10 (le32 (word_of_int status)) (omega (arith, body_length, length-le32)),
    msg_set_epid-with_epid with_status e (omega (arith, body_length, length-with_status)),
  )

  module _ (buf : Bytes) (room : length buf ≤ n) where
    abbrev ack : Msg
    ack = copied with_headers buf

    has_room : HasRoom with_headers (length buf)
    has_room = omega (
      arith,
      with_headers-size,
      body_length,
      length-with_status,
      length-with_epid with_status e with_status-IsUsb,
    )

    ack-headers : take 14 ack.body ≡ take 14 with_headers.body
    ack-headers =
        subst (λ k. take k ack.body ≡ take k with_headers.body) data_at
          (headers-copied with_headers buf with_headers-Fits has_room)
      where
        data_at : msg_get_data with_headers ≡ 14
        data_at = unfold msg_get_data in ground (arith, fresh.type_eq)

    ack-epid : get_epid ack ≡ e
    ack-epid = same_epid with_headers ack ack-headers ∙ get_epid-with_epid with_status e narrow

    ack-IsAck : IsEpid e → IsAck e status buf ack
    ack-IsAck real = record {
      valid = IsWellFormed-check_msg ack (
          usb_ack fresh.type_eq (omega (arith, with_headers-size))
            (subst IsEpid (sym ack-epid) real));
      is_ack = fresh.type_eq;
      epid_eq = ack-epid;
      status_eq = same_status with_headers ack ack-headers ∙ with_headers-status;
      data_eq =
          rw (get_data-copied with_headers buf with_headers-Fits has_room, with_headers-empty);
      fits = copied-Fits with_headers buf with_headers-Fits has_room;
    }

    fill_ack-ack : fill_ack e status (some buf) m ≡ some ack
    unfolding fill_ack
    fill_ack-ack = rw (
      store-ok m.body 10 (le32 (word_of_int status)) (omega (arith, body_length, length-le32)),
      msg_set_epid-with_epid with_status e (omega (arith, body_length, length-with_status)),
      msgcpy-copied with_headers buf with_headers-Fits has_room,
    )

module _ (kmalloc : Kmalloc) (gives : Allocates kmalloc) (e : Epid) (status : ℤ) (buf : Bytes)
    (real : IsEpid e) (narrow : IsNarrow e) (small : length buf + 26 < word) where
  -- If kmalloc gives as many bytes as it is asked for, the identity exists and its number fits its
  -- field, and the size leaves room for the headers in a size_t, then alloc_msg_ack gives NULL, or
  -- makes a message that passes check_msg and holds the endpoint identity, the status as a 32-bit
  -- word and exactly the bytes that it was given; it never leaves its memory.
  pub alloc_msg_ack-IsAck :
      (alloc_msg_ack kmalloc e status (some buf) (length buf) ≡ some none)
      ⊎ ((m : Msg) × (alloc_msg_ack kmalloc e status (some buf) (length buf) ≡ some (some m))
          × IsAck e status buf m)
  unfolding alloc_msg_ack
  alloc_msg_ack-IsAck =
      elim (alloc_msg-IsFresh kmalloc gives (length buf) ack_type (omega arith) small) [
        | inl (failed, null) ↦ inl (rw null)
        | inr (m, got, fresh) ↦ inr (
          ack e status m (length buf) fresh narrow buf (omega arith),
          rw (got, fill_ack-ack e status m (length buf) fresh narrow buf (omega arith)),
          ack-IsAck e status m (length buf) fresh narrow buf (omega arith) real,
        )
      ]

-- The same without bytes to copy.
pub alloc_msg_ack-null :
    (kmalloc : Kmalloc) (gives : Allocates kmalloc) (e : Epid) (status : ℤ)
    → IsEpid e
    → IsNarrow e
    → (alloc_msg_ack kmalloc e status none 0 ≡ some none)
      ⊎ ((m : Msg) × (alloc_msg_ack kmalloc e status none 0 ≡ some (some m)) × IsAck e status [] m)
unfolding alloc_msg_ack
alloc_msg_ack-null kmalloc gives e status real narrow =
    elim (alloc_msg-IsFresh kmalloc gives 0 ack_type (omega arith) (omega arith)) [
      | inl (failed, null) ↦ inl (rw null)
      | inr (m, got, fresh) ↦ inr (
        with_headers e status m 0 fresh narrow,
        rw (got, fill_ack-with_headers e status m 0 fresh narrow),
        with_headers-IsAck e status m 0 fresh narrow real,
      )
    ]
