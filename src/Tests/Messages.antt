-- ===== src/Tests/Messages.antt =====
-- Messages: the theorems of Msg at work.
use usbq_core.Msg.Headers.{msg_set_epid-get_epid, IsUsb}
use usbq_core.Msg.Alloc.{alloc_msg-IsFresh, IsFresh}
use usbq_core.Msg.Ack.{alloc_msg_ack-IsAck, IsAck}
use usbq_core.Msg.Copy.{msgcpy-append, Fits}
use usbq_core.Tests.Data.{
  bulk_in-IsNarrow, zeros-Allocates, data_msg-Fits, bulk_in, data_msg, zeros,
}
use usbq_core.Msg.Check.{check_msg_iff, IsWellFormed, check_msg-data_size, IsEpid}
use usbq_core.Msg.{
  msg_get_data, alloc_msg, get_epid, get_data, msg_diff_size, msg_set_epid, check_msg,
  alloc_msg_ack, msg_get_data_size, Msg, msgcpy,
}
use usbq_core.Prelude.{
  [], add32, arith, byte_at, epipe, length, none, read16, read32, refl, some, take, true, ◌++◌, ◌+◌,
  ◌↔◌, ◌∷◌, ◌≡◌, ◌⊎◌,
}

check_msg_iff_example : (check_msg data_msg ≡ true) ↔ IsWellFormed data_msg
check_msg_iff_example = check_msg_iff data_msg

data_msg-check_msg : check_msg data_msg ≡ true
unfolding check_msg read16 read32 byte_at
data_msg-check_msg = refl

check_msg-data_size_example : msg_get_data_size data_msg + msg_diff_size 0 ≡ 20
check_msg-data_size_example = check_msg-data_size data_msg (omega arith) data_msg-check_msg

msgcpy-append_example :
    (m' : Msg) × (msgcpy data_msg (7 ∷ []) ≡ some m')
    × (get_data m' ≡ get_data data_msg ++ (7 ∷ []))
    × (take (msg_get_data data_msg) m'.body ≡ take (msg_get_data data_msg) data_msg.body)
    × (m'.type ≡ 0)
    × (m'.allocated_size ≡ 6)
    × Fits m'
msgcpy-append_example = msgcpy-append data_msg (7 ∷ []) data_msg-Fits (omega arith)

alloc_msg-IsFresh_example :
    ((zeros (add32 (add32 64 (msg_diff_size 0)) 4) ≡ none) × (alloc_msg zeros 64 0 ≡ some none))
    ⊎ ((m : Msg) × (alloc_msg zeros 64 0 ≡ some (some m)) × IsFresh 64 0 m)
alloc_msg-IsFresh_example = alloc_msg-IsFresh zeros zeros-Allocates 64 0 (omega arith) (omega arith)

msg_set_epid-get_epid_example :
    (m' : Msg) × (msg_set_epid data_msg bulk_in ≡ some m')
    × (get_epid m' ≡ bulk_in)
    × (get_data m' ≡ get_data data_msg)
    × (m'.type ≡ 0)
    × (m'.size ≡ 20)
    × (length m'.body ≡ 16)
    × (m'.allocated_size ≡ 6)
    × IsUsb m'
msg_set_epid-get_epid_example =
    msg_set_epid-get_epid data_msg bulk_in (record { fits = data_msg-Fits; usb = omega arith })
      bulk_in-IsNarrow

bulk_in-IsEpid : IsEpid bulk_in
bulk_in-IsEpid = record { type_le = omega arith; dir_le = omega arith }

alloc_msg_ack-IsAck_example :
    (alloc_msg_ack zeros bulk_in epipe (some (1 ∷ 2 ∷ [])) 2 ≡ some none)
    ⊎ ((m : Msg) × (alloc_msg_ack zeros bulk_in epipe (some (1 ∷ 2 ∷ [])) 2 ≡ some (some m))
        × IsAck bulk_in epipe (1 ∷ 2 ∷ []) m)
alloc_msg_ack-IsAck_example =
    alloc_msg_ack-IsAck zeros zeros-Allocates bulk_in epipe (1 ∷ 2 ∷ []) bulk_in-IsEpid
      bulk_in-IsNarrow (omega arith)
