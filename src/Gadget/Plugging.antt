-- ===== src/Gadget/Plugging.antt =====
-- The packet of a device, from build_init_pkt of the driver to an identity of the gadget that can
-- be used.
use usbq_core.Gadget.Usable.{IsTable, IsUsable, IsUsableDesc}
use usbq_core.Identity.{Device, HostInterface, Identity, InterfaceDesc, b_length, b_num_endpoints}
use usbq_core.Identity.Build.{visited}
use usbq_core.Identity.Built.{IsPacket, altsettings}
use usbq_core.Identity.Endpoints.{byte_at-wire_desc, length-stored_endpoints, stored_endpoints}
use usbq_core.Identity.Interfaces.{Parsed, stored}
use usbq_core.Identity.Packet.{
  AllAltsettings, AllEndpoints, IsEndpointDesc, altsetting_bytes, endpoint_bytes, wire_desc,
}
use usbq_core.Identity.Parse.{parse_init_pkt}
use usbq_core.Identity.RoundTrip.{IsAnnounced, IsIdentity, behind_data, parse_init_pkt-IsRead}
use usbq_core.Msg.{Msg}
use usbq_core.Types.{epid_of_desc, is_ctrl, is_isochronous, is_out, w_max_packet_size}
use usbq_core.Prelude.{
  Bytes, Every, List, [], ap, arith, byte_at, get_or-take, length, length-append, length-take, pos,
  read16, refl, some, subst, suc, sym, take, ℕ, ◌&&◌, ◌++◌, ◌<◌, ◌∙◌, ◌∷◌, ◌≡◌, ◌≤◌,
}

-- What the gadget keeps of a descriptor that can be used can be used.
module _ (e rest : Bytes) (w : IsEndpointDesc e) where
  abbrev kept : Bytes
  kept = take 9 (wire_desc e ++ rest)

  byte_at-kept : (i : ℕ) → i < 7 → byte_at kept i ≡ byte_at e i
  byte_at-kept i h =
      unfold byte_at in
      get_or-take 9 i (wire_desc e ++ rest) 0 (omega (arith, h))
      ∙ unfold byte_at in
        byte_at-wire_desc e rest i (omega (arith, h, w.says)) (omega (arith, w.says, w.length_eq))

  epid_of_desc-kept : epid_of_desc kept ≡ epid_of_desc e
  unfolding epid_of_desc
  epid_of_desc-kept = rw (byte_at-kept 2 (omega arith), byte_at-kept 3 (omega arith))

  w_max_packet_size-kept : w_max_packet_size kept ≡ w_max_packet_size e
  unfolding read16
  w_max_packet_size-kept = rw (byte_at-kept 4 (omega arith), byte_at-kept 5 (omega arith))

  kept-IsUsableDesc : IsUsableDesc e → IsUsableDesc kept
  kept-IsUsableDesc u = record {
    long = omega (
      arith,
      length-take 9 (wire_desc e ++ rest),
      length-append (wire_desc e) rest,
      length-take (b_length e) e,
      w.says,
      w.length_eq,
    );
    packet = omega (arith, w_max_packet_size-kept, u.packet);
    other = ap is_ctrl epid_of_desc-kept ∙ u.other;
    served = ap (λ id. is_isochronous id && is_out id) epid_of_desc-kept ∙ u.served;
  }

stored-IsUsableDesc :
    (es : List Bytes) (tail : Bytes)
    → AllEndpoints es
    → Every IsUsableDesc es
    → Every IsUsableDesc (stored_endpoints es tail)
unfolding stored_endpoints
stored-IsUsableDesc [] tail w u = tt
stored-IsUsableDesc (e ∷ es) tail (w, ws) (u, us) =
    (kept-IsUsableDesc e (endpoint_bytes es ++ tail) w u, stored-IsUsableDesc es tail ws us)

-- The endpoints of each altsetting of a device can be used.
abbrev pub AllUsable : List HostInterface → Type 0
AllUsable = Every (λ alt. Every IsUsableDesc alt.endpoint)

Parsed-IsUsable :
    (alts : List HostInterface) (tail : Bytes) (xs : List InterfaceDesc)
    → AllAltsettings alts
    → AllUsable alts
    → Parsed alts tail xs
    → Every IsUsable xs × (length xs ≡ length alts)
Parsed-IsUsable [] tail xs w u p = rw p (tt, refl)
Parsed-IsUsable (alt ∷ alts) tail [] w u p = absurd p
Parsed-IsUsable (alt ∷ alts) tail (x ∷ xs) (w, ws) (u, us) (desc_eq, _, stored, p) =
    let (rest, len) = Parsed-IsUsable alts tail xs ws us p in
    let count : b_num_endpoints x.desc ≡ length alt.endpoint =
      ap b_num_endpoints desc_eq ∙ w.count in
    let usable : Every IsUsableDesc (take (length alt.endpoint) x.endpoints) =
      subst (Every IsUsableDesc) (sym stored)
        (stored-IsUsableDesc alt.endpoint (altsetting_bytes alts ++ tail) w.endpoints u) in
    (
      (
        record {
          few = omega (
            arith,
            count,
            ap length stored,
            length-stored_endpoints alt.endpoint (altsetting_bytes alts ++ tail),
            length-take (length alt.endpoint) x.endpoints,
          );
          descs = subst (λ m. Every IsUsableDesc (take m x.endpoints)) (sym count) usable;
        },
        rest,
      ),
      ap suc len,
    )

-- The packet that build_init_pkt makes for a device whose descriptors can be used is read without
-- leaving the memory, into an identity that can be used.
pub packet-IsTable :
    (identity : Identity) (dev : Device) (a : IsAnnounced dev) (m : Msg)
    → IsPacket dev a.device m
    → 2 ≤ length (behind_data m)
    → IsIdentity identity
    → AllUsable (altsettings (visited dev))
    → (read : Identity) × (parse_init_pkt identity m ≡ some (read, pos 0)) × IsTable read
packet-IsTable identity dev a m packet two w u =
    let read = parse_init_pkt-IsRead dev a identity w m packet two in
    let (usable, len) =
      Parsed-IsUsable (altsettings (visited dev)) (behind_data m)
        (take (length (altsettings (visited dev))) read.read.interfaces) a.altsettings_ok u
        read.parsed in
    (
      read.read,
      read.result,
      record {
        count = omega (
          arith,
          read.nb_int_eq,
          len,
          length-take (length (altsettings (visited dev))) read.read.interfaces,
        );
        usable =
            subst (λ n. Every IsUsable (take n read.read.interfaces)) (sym read.nb_int_eq) usable;
        whole = read.whole;
      },
    )
