-- ===== src/Msg/Copy.antt =====
-- msgcpy and the setters: what they do to the payload and the headers of a message.
use usbq_core.Prelude.{
  [], ℕ, ◌+◌, ◌≤◌, ◌<◌, ◌≡◌, refl, none, some, gt→leb, ◌++◌, Bytes, length, take, drop, length-take,
  arith, word, overwrite, store, store-ok, length-overwrite, take-overwrite, length-drop,
  drop-overwrite, take-overwrite_before, add32,
}
use usbq_core.Msg.{
  Msg, management_type, msg_diff_size, msg_get_data, msg_get_data_size, msg_set_data_size, get_data,
  msgcpy,
}

-- The known kinds of message, whose headers end where `msg_get_data` says.
abbrev pub IsKind : ℕ → Type 0
IsKind t = t ≤ management_type

-- A message whose used bytes lie within the memory that it was given.
pub record Fits (m : Msg) : Type 0 where
  pub kind : IsKind m.type
  pub covers : msg_diff_size m.type ≤ m.size
  pub within : m.size ≤ length m.body + 8
  pub small : length m.body + 12 < word

module _ (m : Msg) where
  -- Behind size and type come the headers of the union.
  pub msg_get_data-diff : IsKind m.type → msg_get_data m + 8 ≡ msg_diff_size m.type
  unfolding msg_get_data msg_diff_size
  msg_get_data-diff k = ground arith

  pub msg_diff_size-le : msg_diff_size m.type ≤ 22
  unfolding msg_diff_size
  msg_diff_size-le = ground arith

  pub msg_get_data_size-Fits : Fits m → msg_get_data_size m + msg_diff_size m.type ≡ m.size
  unfolding msg_get_data_size
  msg_get_data_size-Fits f = omega (arith, msg_diff_size-le)

  -- There is room for `n` more bytes.
  abbrev pub HasRoom : ℕ → Type 0
  HasRoom n = m.size + n ≤ length m.body + 8

  -- The used bytes of `body`.
  pub data_end-le : Fits m → msg_get_data m + msg_get_data_size m + 8 ≡ m.size
  data_end-le f = omega (arith, msg_get_data-diff f.kind, msg_get_data_size-Fits f)

  pub length-get_data : Fits m → length (get_data m) ≡ msg_get_data_size m
  unfolding get_data
  length-get_data f = omega (
    arith,
    data_end-le f,
    length-take (msg_get_data_size m) (drop (msg_get_data m) m.body),
    length-drop (msg_get_data m) m.body,
  )

  -- A message whose size counts no more than its headers has no data.
  pub get_data-nil : Fits m → m.size ≡ msg_diff_size m.type → get_data m ≡ []
  unfolding get_data
  get_data-nil f e =
      let none_left : msg_get_data_size m ≡ 0 = omega (arith, msg_get_data_size-Fits f) in
      rw none_left

module _ (m : Msg) (buf : Bytes) where
  -- The message after the copy.
  abbrev pub copied : Msg
  copied = record m {
    size = m.size + length buf;
    body = overwrite m.body (msg_get_data m + msg_get_data_size m) buf;
  }

  module _ (f : Fits m) (room : HasRoom m (length buf)) where
    pub length-copied : length copied.body ≡ length m.body
    length-copied = length-overwrite m.body _ buf (omega (arith, data_end-le m f))

    copied_size :
        add32 (add32 (length buf) (msg_get_data_size m)) (msg_diff_size m.type)
        ≡ m.size + length buf
    copied_size = omega (arith, msg_get_data_size-Fits m f)

    -- With room for the bytes, msgcpy stays inside of the message.
    pub msgcpy-copied : msgcpy m buf ≡ some copied
    unfolding msgcpy msg_set_data_size
    msgcpy-copied = rw (
      store-ok m.body (msg_get_data m + msg_get_data_size m) buf (omega (arith, data_end-le m f)),
      copied_size,
    )

    pub copied-Fits : Fits copied
    copied-Fits = record {
      kind = f.kind;
      covers = omega (arith, f.covers);
      within = omega (arith, length-copied);
      small = omega (arith, length-copied);
    }

    data_size-copied : msg_get_data_size copied ≡ msg_get_data_size m + length buf
    data_size-copied =
        omega (arith, msg_get_data_size-Fits m f, msg_get_data_size-Fits copied copied-Fits)

    data_at : msg_get_data copied ≡ msg_get_data m
    unfolding msg_get_data
    data_at = refl

    pub get_data-copied : get_data copied ≡ get_data m ++ buf
    unfolding get_data
    get_data-copied =
        rw
          (
            data_at,
            data_size-copied,
            drop-overwrite (msg_get_data m) (msg_get_data_size m) m.body buf
                (omega (arith, data_end-le m f)),
          )
          (take-overwrite (msg_get_data_size m) (drop (msg_get_data m) m.body) buf
            (omega (arith, data_end-le m f, length-drop (msg_get_data m) m.body)))

    -- The headers, which stand before the data, are as they were.
    pub headers-copied : take (msg_get_data m) copied.body ≡ take (msg_get_data m) m.body
    headers-copied =
        take-overwrite_before (msg_get_data m) (msg_get_data_size m) m.body buf
          (omega (arith, data_end-le m f))

    -- msgcpy of bytes that the memory has room for appends them to the payload, keeps the kind, the
    -- headers and the allocated size, and leaves a message that fits its memory again.
    pub msgcpy-append :
        (m' : Msg) × (msgcpy m buf ≡ some m')
        × (get_data m' ≡ get_data m ++ buf)
        × (take (msg_get_data m) m'.body ≡ take (msg_get_data m) m.body)
        × (m'.type ≡ m.type)
        × (m'.allocated_size ≡ m.allocated_size)
        × Fits m'
    msgcpy-append =
        (copied, msgcpy-copied, get_data-copied, headers-copied, refl, refl, copied-Fits)

-- Without room for the bytes, msgcpy writes past the end of a message that fits its memory.
msgcpy-none :
    (m : Msg) (buf : Bytes) → Fits m → length m.body + 8 < m.size + length buf → msgcpy m buf ≡ none
unfolding msgcpy store
msgcpy-none m buf f h = rw (
    gt→leb (msg_get_data m + msg_get_data_size m + length buf) (length m.body)
      (omega (arith, data_end-le m f)))
