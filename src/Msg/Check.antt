-- ===== src/Msg/Check.antt =====
-- What check_msg accepts, stated without its ladder of tests.
use usbq_core.Prelude.{◌+◌, ◌≤◌, ◌<◌, ◌≡◌, ◌↔◌, Bool-cases, inl, inr, ◌==◌, true, arith, word}
use usbq_core.Types.{Epid, interrupt, dir_out}
use usbq_core.Msg.{
  Msg, data_type, ack_type, management_type, get_management_type, get_epid, msg_diff_size,
  msg_get_data_size, check_msg, reload,
}

-- The epid names an endpoint type and a direction that exist.
pub record IsEpid (e : Epid) : Type 0 where
  pub type_le : e.type ≤ interrupt
  pub dir_le : e.dir ≤ dir_out

-- A message that userland and the kernel may exchange: its kind is known, its size covers the
-- headers of that kind, and its headers hold values that exist.
pub data IsWellFormed (m : Msg) : Type 0 where
  management :
      m.type ≡ management_type → 12 ≤ m.size → get_management_type m ≤ reload → IsWellFormed m
  usb_data : m.type ≡ data_type → 18 ≤ m.size → IsEpid (get_epid m) → IsWellFormed m
  usb_ack : m.type ≡ ack_type → 22 ≤ m.size → IsEpid (get_epid m) → IsWellFormed m

pub check_msg-IsWellFormed : (m : Msg) → check_msg m ≡ true → IsWellFormed m
unfolding check_msg
check_msg-IsWellFormed m h = elim (Bool-cases (m.type == management_type)) [
  | inl t ↦ management (ground arith) (ground arith) (ground arith)
  | inr not_management ↦ elim (Bool-cases (m.type == ack_type)) [
    | inl t ↦ usb_ack (ground arith) (ground arith) (ground arith)
    | inr not_ack ↦ usb_data (ground arith) (ground arith) (ground arith)
  ]
]

pub IsWellFormed-check_msg : (m : Msg) → IsWellFormed m → check_msg m ≡ true
unfolding check_msg
IsWellFormed-check_msg m (management t s g) = ground arith
IsWellFormed-check_msg m (usb_data t s e) = ground arith
IsWellFormed-check_msg m (usb_ack t s e) = ground arith

-- check_msg accepts a message exactly when it is well formed.
pub check_msg_iff : (m : Msg) → (check_msg m ≡ true) ↔ IsWellFormed m
check_msg_iff m = (check_msg-IsWellFormed m, IsWellFormed-check_msg m)

-- The data size of a message that check_msg accepted is what is left of `size` behind the headers:
-- the subtraction in msg_get_data_size does not wrap around.
pub check_msg-data_size :
    (m : Msg)
    → m.size < word
    → check_msg m ≡ true
    → msg_get_data_size m + msg_diff_size m.type ≡ m.size
unfolding msg_get_data_size msg_diff_size
check_msg-data_size m small h = elim (check_msg-IsWellFormed m h) [
  | management t s _ ↦ ground arith
  | usb_data t s _ ↦ ground arith
  | usb_ack t s _ ↦ ground arith
]
