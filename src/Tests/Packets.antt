-- ===== src/Tests/Packets.antt =====
-- The packet of the disk: the theorems of Identity at work.
use usbq_core.Identity.Build.{build_init_pkt, packet_size}
use usbq_core.Identity.Built.{IsPacket, build_init_pkt-IsPacket}
use usbq_core.Identity.Packet.{altsetting_bytes, endpoint_bytes, packet_bytes}
use usbq_core.Identity.Parse.{interface_loop, parse_init_pkt}
use usbq_core.Identity.RoundTrip.{IsRead, behind_data, parse_init_pkt-IsRead}
use usbq_core.Identity.Table.{Stores, interface_loop-Stores}
use usbq_core.Msg.{Msg, management_type, msg_diff_size, msg_get_data, msg_get_data_size}
use usbq_core.Tests.Data.{
  disk, disk-IsAnnounced, disk-IsDevice, disk_msg, disk_msg-IsPacket, no_identity,
  no_identity-IsIdentity, no_interface, storage, storage-IsAltsetting, zeros, zeros-Allocates,
}
use usbq_core.Prelude.{
  [], add32, arith, byte_at, le32, length, none, replicate, some, ◌++◌, ◌∷◌, ◌≡◌, ◌≤◌, ◌⊎◌,
}

build_init_pkt-IsPacket_example :
    ((zeros (add32 (add32 (packet_size disk) (msg_diff_size management_type)) 4) ≡ none)
      × (build_init_pkt zeros disk ≡ some none))
    ⊎ ((m : Msg) × (build_init_pkt zeros disk ≡ some (some m)) × IsPacket disk disk-IsDevice m)
build_init_pkt-IsPacket_example = build_init_pkt-IsPacket disk disk-IsDevice zeros zeros-Allocates

pub two : 2 ≤ length (behind_data disk_msg)
unfolding msg_get_data_size msg_get_data msg_diff_size packet_bytes le32 altsetting_bytes
    endpoint_bytes byte_at
two = omega arith

parse_init_pkt-IsRead_example :
    IsRead disk disk-IsAnnounced no_identity no_identity-IsIdentity
      (behind_data disk_msg)
      two
      (parse_init_pkt no_identity disk_msg)
parse_init_pkt-IsRead_example =
    parse_init_pkt-IsRead disk disk-IsAnnounced no_identity no_identity-IsIdentity disk_msg
      disk_msg-IsPacket two

interface_loop-Stores_example : Stores (storage ∷ []) (0 ∷ 0 ∷ []) (replicate 64 no_interface) 0 (
    interface_loop 17
      (replicate 64 no_interface)
      0
      (altsetting_bytes (storage ∷ []) ++ (0 ∷ 0 ∷ []))
      (length (altsetting_bytes (storage ∷ []))))
interface_loop-Stores_example =
    interface_loop-Stores (storage ∷ []) 17 (replicate 64 no_interface) 0 (0 ∷ 0 ∷ [])
      (storage-IsAltsetting, tt) no_identity-IsIdentity.sized (omega arith)
      (unfold altsetting_bytes endpoint_bytes byte_at in omega arith) (omega arith)
      (unfold altsetting_bytes endpoint_bytes byte_at in omega arith)
