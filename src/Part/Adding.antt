-- ===== src/Part/Adding.antt =====
-- Adding an endpoint, with _create_endpoint of common.c.
use usbq_core.Action.{Ok, ◌▷◌}
use usbq_core.Endpoint.{
  Endpoint, Kernel, allocate, create_endpoint, create_endpoint_as, create_ep0_endpoint,
  name_endpoint, release,
}
use usbq_core.Part.{Part, add_endpoint, add_ep0_endpoint, keep_endpoint, on_heap}
use usbq_core.Part.Accounts.{Gives, Grew, allocate-cases}
use usbq_core.Types.{Epid, ctrl, epid_of_desc}
use usbq_core.Prelude.{
  Bytes, Option, [], ap, arith, inl, inr, none, refl, some, suc, ℕ, ◌+◌, ◌∷◌, ◌≡◌, ◌≤◌,
}

module _ {O U X W : Type 0} where
  -- The two outcomes for the endpoint of a descriptor.
  abbrev pub Added : X → Part O U X W → Bytes → Option (Endpoint U X) → Part O U X W → Type 0
  Added usb_ep s d none s' =
      (s'.eplist ≡ s.eplist)
      × (s.heap.live ≤ s'.heap.live)
      × (s'.heap.live ≤ suc s.heap.live)
      × (s'.own ≡ s.own)
  Added usb_ep s d (some ep) s' =
      (s'.eplist ≡ ep ∷ s.eplist)
      × (ep.epid ≡ epid_of_desc d)
      × (ep.desc ≡ some d)
      × (ep.reqlist ≡ [])
      × (ep.usb_ep ≡ usb_ep)
      × (s'.heap.live ≡ 3 + s.heap.live)
      × (s'.own ≡ s.own)

-- A control endpoint number 0 of the direction.
abbrev pub ep0 : ℕ → Epid
ep0 dir = record { num = 0; type = ctrl; dir = dir }

-- The two outcomes for a control endpoint.
abbrev pub Added0 :
    {O U X W : Type 0} → Part O U X W → ℕ → Option (Endpoint U X) → Part O U X W → Type 0
Added0 s dir none s' = Grew s 0 s'
Added0 s dir (some ep) s' =
    (s'.eplist ≡ ep ∷ s.eplist)
    × (ep.epid ≡ ep0 dir)
    × (ep.desc ≡ none)
    × (ep.reqlist ≡ [])
    × (s'.heap.live ≡ 2 + s.heap.live)
    × (s'.own ≡ s.own)

module _ {O U X W : Type 0} (k : Kernel W) (gives : Gives k) (usb_ep : X) where
  name-Added :
      (d : Bytes) (ref : ℕ) (s0 s : Part O U X W)
      → s.eplist ≡ s0.eplist
      → s.heap.live ≡ 2 + s0.heap.live
      → s.own ≡ s0.own
      → Ok
          (Added {U = U} usb_ep s0 d)
          ((on_heap (name_endpoint k usb_ep ref (epid_of_desc d) (some d)) ▷ keep_endpoint k) s)
  unfolding name_endpoint keep_endpoint release
  name-Added d ref s0 s same live own = elim (allocate-cases k gives 128 s.heap) [
    | inl (e, live_eq, next) ↦
        rw (e, name_endpoint)
          (same, omega (arith, live_eq, live), omega (arith, live_eq, live), own)
    | inr (e, live_eq, next) ↦
        rw (e, name_endpoint)
          (
            ap
                (λ l.
                  record {
                    ref = ref;
                    epid = epid_of_desc d;
                    desc = some d;
                    reqlist = [];
                    usb_ep = usb_ep;
                  }
                  ∷ l)
                same,
            refl,
            refl,
            refl,
            refl,
            omega (arith, live_eq, live),
            own,
          )
  ]

  create-Added :
      (d : Bytes) (ref : ℕ) (s0 s : Part O U X W)
      → s.eplist ≡ s0.eplist
      → s.heap.live ≡ suc s0.heap.live
      → s.own ≡ s0.own
      → Ok
          (Added {U = U} usb_ep s0 d)
          ((on_heap (create_endpoint k usb_ep ref d) ▷ keep_endpoint k) s)
  unfolding create_endpoint create_endpoint_as keep_endpoint release
  create-Added d ref s0 s same live own = elim (allocate-cases k gives 9 s.heap) [
    | inl (e, live_eq, next) ↦
        rw (e, create_endpoint_as)
          (same, omega (arith, live_eq, live), omega (arith, live_eq, live), own)
    | inr (e, live_eq, next) ↦
        rw (e, create_endpoint_as) (name-Added d ref s0 _ same (omega (arith, live_eq, live)) own)
  ]

  pub add_endpoint-Added :
      (size : ℕ) (d : Bytes) (s : Part O U X W)
      → Ok (Added usb_ep s d) (add_endpoint k usb_ep size d s)
  unfolding add_endpoint
  add_endpoint-Added size d s = elim (allocate-cases k gives size s.heap) [
    | inl (e, live_eq, next) ↦
        rw (e, Ok, add_endpoint, ◌▷◌) (refl, omega (arith, live_eq), omega (arith, live_eq), refl)
    | inr (e, live_eq, next) ↦
        rw (e, Ok, add_endpoint, ◌▷◌) (create-Added d s.heap.next s _ refl live_eq refl)
  ]

  pub add_ep0_endpoint-Added0 :
      (size dir : ℕ) (s : Part O U X W) → Ok (Added0 s dir) (add_ep0_endpoint k usb_ep size dir s)
  unfolding add_ep0_endpoint create_ep0_endpoint create_endpoint_as name_endpoint keep_endpoint
      release
  add_ep0_endpoint-Added0 size dir s = elim (allocate-cases k gives size s.heap) [
    | inl (e, live, next) ↦
        rw (e, Ok, add_ep0_endpoint, ◌▷◌)
          (record {
            own_eq = refl;
            same = refl;
            live_eq = omega (arith, live);
            next_le = omega (arith, next);
          })
    | inr (e, live, next) ↦ elim (allocate-cases k gives 128 (allocate k size s.heap).1) [
      | inl (e', live', next') ↦
          rw (e, Ok, add_ep0_endpoint, ◌▷◌, e', name_endpoint)
            (record {
              own_eq = refl;
              same = refl;
              live_eq = omega (arith, live, live');
              next_le = omega (arith, next, next');
            })
      | inr (e', live', next') ↦
          rw (e, Ok, add_ep0_endpoint, ◌▷◌, e', name_endpoint)
            (refl, refl, refl, refl, omega (arith, live, live'), refl)
    ]
  ]
