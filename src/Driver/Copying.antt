-- ===== src/Driver/Copying.antt =====
-- The copy of the data of a message in a request of driver.c.
use usbq_core.Driver.Request.{backup_data, data_at}
use usbq_core.Msg.{Msg, data_type, msg_diff_size, msg_get_data_size}
use usbq_core.Msg.Copy.{Fits, HasRoom, copied, length-copied, msgcpy-copied}
use usbq_core.Prelude.{
  Bytes, arith, drop, length, length-take, load-ok, some, subst, take, ℕ, ◌+◌, ◌>>=◌, ◌≡◌, ◌≤◌,
}

pub room-within :
    (m : Msg) (sz : ℕ) → Fits m → m.type ≡ data_type → HasRoom m sz → data_at + sz ≤ length m.body
unfolding msg_diff_size
room-within m sz fits e room =
    let covers : 18 ≤ m.size = subst (λ t. msg_diff_size t ≤ m.size) e fits.covers in
    omega (arith, covers, room)

-- The backup of the data of a message in a request that was allocated with room for it.
pub backup_data-some :
    (dest msg : Msg) (sz : ℕ)
    → Fits dest
    → dest.type ≡ data_type
    → HasRoom dest sz
    → msg_get_data_size msg ≤ sz
    → data_at + msg_get_data_size msg ≤ length msg.body
    → (m : Msg) × (backup_data dest msg ≡ some m) × (length m.body ≡ length dest.body)
unfolding backup_data
backup_data-some dest msg sz fits e room le within =
    let bytes : Bytes = take (msg_get_data_size msg) (drop data_at msg.body) in
    let len : length bytes ≤ sz =
      omega (arith, le, length-take (msg_get_data_size msg) (drop data_at msg.body)) in
    let fit : HasRoom dest (length bytes) = omega (arith, len, room) in
    (
      copied dest bytes,
      rw (load-ok msg.body data_at (msg_get_data_size msg) within, ◌>>=◌)
          (msgcpy-copied dest bytes fits fit),
      length-copied dest bytes fits fit,
    )
