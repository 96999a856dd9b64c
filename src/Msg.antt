-- ===== src/Msg.antt =====
-- msg.h and msg.c: the messages exchanged with userland. A msg_t is packed, and the target is a
-- 32-bit little-endian machine: allocated_size, size and type take four bytes each, and the union
-- that follows them is kept as the bytes that kmalloc gave for it, `body`. All views of the union
-- (management_type, epid, status, the three data arrays) are offsets into `body`.
pub mod Check
pub mod Copy
pub mod Alloc
pub mod Headers
pub mod Ack
use usbq_core.Prelude.{
  ℕ, ◌+◌, ◌-◌, ◌%◌, Bool, true, false, not, ◌&&◌, ◌||◌, Option, none, some, ◌++◌, Bytes, length,
  take, drop, ltb, leb, ◌==◌, if◌then◌else◌, word, add32, sub32, store, le16, le32, read16, read32,
  ℤ, pos, negsuc, ◌>>=◌,
}
use usbq_core.Types.{Epid, ctrl, interrupt, isoc, bulk, dir_in, dir_out}

-- msg_type_t
abbrev pub data_type : ℕ
data_type = 0

abbrev pub ack_type : ℕ
ack_type = 1

abbrev pub management_type : ℕ
management_type = 2

-- msg_management_type_t
abbrev pub reset : ℕ
reset = 0

abbrev pub new_device : ℕ
new_device = 1

abbrev pub reload : ℕ
reload = 2

pub record Msg : Type 0 where
  pub allocated_size : ℕ
  pub size : ℕ
  pub type : ℕ
  pub body : Bytes

-- The fields of the union.
abbrev pub get_management_type : Msg → ℕ
get_management_type m = read32 m.body 0

abbrev pub get_epid : Msg → Epid
get_epid m = record { num = read16 m.body 0; type = read32 m.body 2; dir = read32 m.body 6 }

abbrev pub get_status : Msg → ℕ
get_status m = read32 m.body 10

-- IS_MANAGEMENT_MSG, IS_USB_MSG, IS_USB_DATA, IS_USB_ACK
abbrev pub is_management_msg : Msg → Bool
is_management_msg m = m.type == management_type

abbrev pub is_usb_data : Msg → Bool
is_usb_data m = m.type == data_type

abbrev pub is_usb_ack : Msg → Bool
is_usb_ack m = m.type == ack_type

abbrev pub is_usb_msg : Msg → Bool
is_usb_msg m = is_usb_data m || is_usb_ack m

-- IS_RESET_MNG_MSG, IS_NEW_DEVICE_MNG_MSG, IS_RELOAD_MNG_MSG
abbrev pub is_reset_mng_msg : Msg → Bool
is_reset_mng_msg m = is_management_msg m && get_management_type m == reset

abbrev pub is_new_device_mng_msg : Msg → Bool
is_new_device_mng_msg m = is_management_msg m && get_management_type m == new_device

abbrev pub is_reload_mng_msg : Msg → Bool
is_reload_mng_msg m = is_management_msg m && get_management_type m == reload

-- `_msg_diff_size`: what `size` counts besides the data.
unfoldable pub msg_diff_size : ℕ → ℕ
msg_diff_size type =
    let sz : ℕ = 4 + 4 in
    if type == data_type
    then sz + 10
    else if type == ack_type
    then sz + (10 + 4)
    else if type == management_type
    then sz + 4
    else sz

-- The offset in `body` of the data array of a message.
unfoldable pub msg_get_data : Msg → ℕ
msg_get_data m = if is_management_msg m then 4 else if is_usb_ack m then 14 else 10

unfoldable pub msg_get_data_size : Msg → ℕ
msg_get_data_size m = sub32 m.size (msg_diff_size m.type)

unfoldable pub msg_set_data_size : Msg → ℕ → Msg
msg_set_data_size m size = record m { size = add32 size (msg_diff_size m.type) }

-- The payload of a message.
unfoldable pub get_data : Msg → Bytes
get_data m = take (msg_get_data_size m) (drop (msg_get_data m) m.body)

-- memcpy behind the data that is there already; `none` when that leaves the allocated memory.
unfoldable pub msgcpy : Msg → Bytes → Option Msg
msgcpy m buf = do
  let m' = msg_set_data_size m (add32 (length buf) (msg_get_data_size m))
  body ← store m.body (msg_get_data m + msg_get_data_size m) buf
  some (record m' { body = body })

-- The bytes of an epid_t.
unfoldable pub epid_bytes : Epid → Bytes
epid_bytes e = le16 e.num ++ (le32 e.type ++ le32 e.dir)

unfoldable pub msg_set_epid : Msg → Epid → Option Msg
msg_set_epid m e = do body ← store m.body 0 (epid_bytes e); some (record m { body = body })

unfoldable pub msg_set_id : Msg → ℕ → ℕ → ℕ → Option Msg
msg_set_id m num type dir = do
  body ← store m.body 0 (epid_bytes (record { num = num; type = type; dir = dir }))
  some (record m { body = body })

-- msg->management_type = t
unfoldable pub set_management_type : Msg → ℕ → Option Msg
set_management_type m t = do body ← store m.body 0 (le32 t); some (record m { body = body })

-- An int as the word that holds it.
unfoldable pub word_of_int : ℤ → ℕ
word_of_int (pos n) = n % word
word_of_int (negsuc n) = word - 1 - n % word

-- The fields of an acknowledgement. `buf` is the `size` bytes to copy, or none for NULL.
unfoldable pub fill_ack : Epid → ℤ → Option Bytes → Msg → Option Msg
fill_ack epid status buf m = do
  body ← store m.body 10 (le32 (word_of_int status))
  m' ← msg_set_epid (record m { body = body }) epid
  elim buf [ none ↦ some m' | some bytes ↦ msgcpy m' bytes ]

-- What kmalloc gives for a number of bytes: the memory, with whatever it held, or none.
abbrev pub Kmalloc : Type 0
Kmalloc = ℕ → Option Bytes

-- The outer `none` is a write outside of the memory, the inner one is NULL.
module _ (kmalloc : Kmalloc) where
  unfoldable pub alloc_msg : ℕ → ℕ → Option (Option Msg)
  alloc_msg size type = elim (kmalloc (add32 (add32 size (msg_diff_size type)) 4)) [
    | none ↦ some none
    | some mem ↦
        if leb 12 (length mem)
        then some (
            some (
              msg_set_data_size
                (record { allocated_size = size; size = 0; type = type; body = drop 12 mem }) 0))
        else none
  ]

  unfoldable pub alloc_msg_data : ℕ → Option (Option Msg)
  alloc_msg_data size = alloc_msg size data_type

  unfoldable pub alloc_msg_management : ℕ → Option (Option Msg)
  alloc_msg_management size = alloc_msg size management_type

  unfoldable pub alloc_msg_ack : Epid → ℤ → Option Bytes → ℕ → Option (Option Msg)
  alloc_msg_ack epid status buf size = do
    r ← alloc_msg size ack_type
    elim r [ none ↦ some none | some m ↦ fill_ack epid status buf m >>= λ m'. some (some m') ]

-- Check message integrity. The successive values of the local `size` are 8 (size + type), 12 for
-- a management message, 18 for an USB message and 22 for an acknowledgement.
unfoldable pub check_msg : Msg → Bool
check_msg m =
    if ltb m.size 8
    then false
    else if is_management_msg m
    then (if ltb m.size 12
        then false
        else if not (get_management_type m == reset)
            && not (get_management_type m == reload)
            && not (get_management_type m == new_device)
        then false
        else true)
    else if is_usb_data m || is_usb_ack m
    then (if ltb m.size 18
        then false
        else if not ((get_epid m).type == ctrl)
            && not ((get_epid m).type == interrupt)
            && not ((get_epid m).type == isoc)
            && not ((get_epid m).type == bulk)
        then false
        else if not ((get_epid m).dir == dir_in) && not ((get_epid m).dir == dir_out)
        then false
        else if is_usb_ack m
        then (if ltb m.size 22 then false else true)
        else true)
    else false
