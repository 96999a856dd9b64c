-- ===== src/Gadget/Usable.antt =====
-- An identity whose descriptors the operations on interfaces can use, and that stays one.
use usbq_core.Gadget.{UsbEp}
use usbq_core.Gadget.Completing.{IsReal}
use usbq_core.Gadget.Limits.{Limited}
use usbq_core.Identity.{Identity, InterfaceDesc, b_num_endpoints, max_endpoint_interface}
use usbq_core.Identity.Interfaces.{Sized-get, Sized-set}
use usbq_core.Identity.RoundTrip.{IsIdentity}
use usbq_core.Types.{
  dir_out, ep_dir_from_kernel, ep_type_from_kernel, epid_of_desc, interrupt, is_ctrl,
  is_isochronous, is_out, w_max_packet_size,
}
use usbq_core.Prelude.{
  Bytes, Every, Every-set, ap, arith, false, get_elem?, get_elem?-lt, get_elem?-map, inl, inr,
  length, length-set, map, map-get_elem?, map-set, refl, set, some, subst, take, ℕ, ◌&&◌, ◌<◌, ◌∙◌,
  ◌≡◌, ◌≤◌,
}

-- A descriptor of an endpoint that can be waited on or sent to: no control endpoint, and no
-- isochronous endpoint that the host sends on.
pub record IsUsableDesc (d : Bytes) : Type 0 where
  pub long : 6 ≤ length d
  pub packet : w_max_packet_size d < 65536
  pub other : is_ctrl (epid_of_desc d) ≡ false
  pub served : (is_isochronous (epid_of_desc d) && is_out (epid_of_desc d)) ≡ false

-- The array of an interface has the endpoints that its descriptor counts.
pub record IsUsable (interface : InterfaceDesc) : Type 0 where
  pub few : b_num_endpoints interface.desc ≤ length interface.endpoints
  pub descs : Every IsUsableDesc (take (b_num_endpoints interface.desc) interface.endpoints)

pub record IsTable (identity : Identity) : Type 0 where
  pub count : identity.nb_int ≤ length identity.interfaces
  pub usable : Every IsUsable (take identity.nb_int identity.interfaces)
  pub whole : IsIdentity identity

-- What no operation on an identity that was read changes: how many interfaces it has, and their
-- descriptors.
pub record SameShape (identity identity' : Identity) : Type 0 where
  pub nb_eq : identity'.nb_int ≡ identity.nb_int
  pub descs_eq : map (λ x. x.desc) identity'.interfaces ≡ map (λ x. x.desc) identity.interfaces

pub Limited-IsUsableDesc :
    (ep : UsbEp) (desc d : Bytes)
    → ep.maxpacket_limit < 65536
    → Limited ep desc d
    → IsUsableDesc desc
    → IsUsableDesc d
Limited-IsUsableDesc ep desc d small l u = record {
  long = omega (arith, l.same_length, u.long);
  packet = elim l.packet [
    | inl same ↦ omega (arith, same, u.packet)
    | inr limit ↦ omega (arith, limit, small)
  ];
  other = ap is_ctrl l.same_epid ∙ u.other;
  served = ap (λ e. is_isochronous e && is_out e) l.same_epid ∙ u.served;
}

-- The identity with interface `i` replaced.
abbrev pub with_interface : ℕ → InterfaceDesc → Identity → Identity
with_interface i x identity = record identity { interfaces = set identity.interfaces i x }

pub with_interface-IsTable :
    (i : ℕ) (x : InterfaceDesc) (identity : Identity)
    → IsTable identity
    → IsUsable x
    → length x.endpoints ≡ max_endpoint_interface
    → IsTable (with_interface i x identity)
with_interface-IsTable i x identity t u eight = record {
  whole = record {
    count = length-set identity.interfaces i x ∙ t.whole.count;
    sized = Sized-set identity.interfaces i x eight t.whole.sized;
  };
  count = omega (arith, t.count, length-set identity.interfaces i x);
  usable = Every-set IsUsable identity.nb_int identity.interfaces i x u t.usable;
}

-- Every interface of an identity has room for eight endpoints.
pub interface-length :
    (i : ℕ) (x : InterfaceDesc) (identity : Identity)
    → IsTable identity
    → get_elem? identity.interfaces i ≡ some x
    → length x.endpoints ≡ max_endpoint_interface
interface-length i x identity t e =
    let (y, at, eight) =
      Sized-get identity.interfaces i (get_elem?-lt identity.interfaces i x e) t.whole.sized in
    let same : y ≡ x = cc in subst (λ z. length z.endpoints ≡ max_endpoint_interface) same eight

pub with_interface-SameShape :
    (i : ℕ) (old new : InterfaceDesc) (identity : Identity)
    → get_elem? identity.interfaces i ≡ some old
    → new.desc ≡ old.desc
    → SameShape identity (with_interface i new identity)
with_interface-SameShape i old new identity e same = record {
  nb_eq = refl;
  descs_eq = map-set (λ x. x.desc) identity.interfaces i old new e same;
}

-- An endpoint descriptor of an interface replaced.
pub with_endpoint-IsUsable :
    (j : ℕ) (d : Bytes) (x : InterfaceDesc)
    → IsUsable x
    → IsUsableDesc d
    → IsUsable (record x { endpoints = set x.endpoints j d })
with_endpoint-IsUsable j d x u h = record {
  few = omega (arith, u.few, length-set x.endpoints j d);
  descs = Every-set IsUsableDesc (b_num_endpoints x.desc) x.endpoints j d h u.descs;
}

pub SameShape-trans : (a b c : Identity) → SameShape a b → SameShape b c → SameShape a c
SameShape-trans a b c s t = record { nb_eq = t.nb_eq ∙ s.nb_eq; descs_eq = t.descs_eq ∙ s.descs_eq }

-- Interface `i` of an identity of the same shape.
pub interface-SameShape :
    (i : ℕ) (x : InterfaceDesc) (a b : Identity)
    → SameShape a b
    → get_elem? a.interfaces i ≡ some x
    → (y : InterfaceDesc) × (get_elem? b.interfaces i ≡ some y) × (y.desc ≡ x.desc)
interface-SameShape i x a b s e =
    get_elem?-map (λ z. z.desc) b.interfaces i x.desc
      (ap (λ l. get_elem? l i) s.descs_eq ∙ map-get_elem? (λ z. z.desc) a.interfaces i x e)

-- The identity of the endpoint of a usable descriptor exists, and its number fits its field.
pub epid_of_desc-IsReal : (d : Bytes) → IsReal (epid_of_desc d)
unfolding epid_of_desc ep_type_from_kernel ep_dir_from_kernel
epid_of_desc-IsReal d =
    let type_le : (epid_of_desc d).type ≤ interrupt = ground arith in
    let dir_le : (epid_of_desc d).dir ≤ dir_out = ground arith in
    let num_lt : (epid_of_desc d).num < 16 = omega arith in
    record {
      real = record { type_le = type_le; dir_le = dir_le };
      narrow = record {
        num_lt = omega (arith, num_lt);
        type_lt = omega (arith, type_le);
        dir_lt = omega (arith, dir_le);
      };
    }
