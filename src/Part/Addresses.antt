-- ===== src/Part/Addresses.antt =====
-- The addresses of the endpoints of a part: adding an endpoint gives it one that no other has.
use usbq_core.Action.{Ok, ◌▷◌}
use usbq_core.Endpoint.{
  Endpoint, Heap, Kernel, allocate, create_endpoint, create_endpoint_as, create_ep0_endpoint,
  free_endpoint, name_endpoint, release,
}
use usbq_core.Part.{Part, add_endpoint, add_ep0_endpoint, keep_endpoint, on_heap}
use usbq_core.Part.Table.{Absent, Distinct, Every-remove, remove, remove-Distinct}
use usbq_core.Types.{Epid, ctrl, epid_of_desc}
use usbq_core.Prelude.{
  Bytes, Every, List, Option-cases, [], ap, arith, false, inl, inr, none, refl, some, subst, suc,
  sym, true, ℕ, ◌<◌, ◌∷◌, ◌≡◌, ◌≤◌, ◌⊎◌,
}

module _ {U X : Type 0} where
  -- Every address is before `n`.
  abbrev pub Before : ℕ → List (Endpoint U X) → Type 0
  Before n = Every (λ ep. ep.ref < n)

  Before-Absent : (n : ℕ) (list : List (Endpoint U X)) → Before n list → Absent n list
  Before-Absent n [] b = tt
  Before-Absent n (ep ∷ list) (h, b) = (ground (arith, h), Before-Absent n list b)

  pub Before-later : (n m : ℕ) (list : List (Endpoint U X)) → n ≤ m → Before n list → Before m list
  Before-later n m [] le b = tt
  Before-later n m (ep ∷ list) le (h, b) = (omega (arith, h, le), Before-later n m list le b)

-- The endpoints have distinct addresses, all of them before that of the next object.
pub record Addressed {O U X W : Type 0} (s : Part O U X W) : Type 0 where
  pub distinct : Distinct s.eplist
  pub before : Before s.heap.next s.eplist

module _ {O U X W : Type 0} (s s' : Part O U X W) (a : Addressed s) where
  pub Addressed-same : s'.eplist ≡ s.eplist → s.heap.next ≤ s'.heap.next → Addressed s'
  Addressed-same same le = record {
    distinct = subst Distinct (sym same) a.distinct;
    before =
        subst (Before s'.heap.next) (sym same)
          (Before-later s.heap.next s'.heap.next s.eplist le a.before);
  }

  pub Addressed-remove :
      (id : Epid) → s'.eplist ≡ remove id s.eplist → s'.heap.next ≡ s.heap.next → Addressed s'
  Addressed-remove id gone next = record {
    distinct = subst Distinct (sym gone) (remove-Distinct id s.eplist a.distinct);
    before = subst (Before s'.heap.next) (sym gone) (
        subst (λ n. Before n (remove id s.eplist)) (sym next)
          (Every-remove (λ ep. ep.ref < s.heap.next) id s.eplist a.before));
  }

  pub Addressed-below :
      (ep : Endpoint U X) (list : List (Endpoint U X))
      → s.eplist ≡ ep ∷ list
      → s'.eplist ≡ list
      → s.heap.next ≤ s'.heap.next
      → Addressed s'
  Addressed-below ep list joined gone le = record {
    distinct = subst Distinct (sym gone) ((subst Distinct joined a.distinct).1);
    before = subst (Before s'.heap.next) (sym gone) (
        Before-later s.heap.next s'.heap.next list le
          ((subst (Before s.heap.next) joined a.before).1));
  }

  Addressed-join :
      (ep : Endpoint U X)
      → s'.eplist ≡ ep ∷ s.eplist
      → ep.ref ≡ s.heap.next
      → s.heap.next < s'.heap.next
      → Addressed s'
  Addressed-join ep joined ref lt = record {
    distinct = subst Distinct (sym joined) (
      subst (λ n. Absent n s.eplist) (sym ref) (Before-Absent s.heap.next s.eplist a.before),
      a.distinct,
    );
    before = subst (Before s'.heap.next) (sym joined) (
      omega (arith, ref, lt),
      Before-later s.heap.next s'.heap.next s.eplist (omega (arith, lt)) a.before,
    );
  }

module _ {W : Type 0} (k : Kernel W) where
  allocate-next :
      (n : ℕ) (h : Heap W)
      → (((allocate k n h).0 ≡ false) × ((allocate k n h).1.next ≡ h.next))
        ⊎ (((allocate k n h).0 ≡ true) × ((allocate k n h).1.next ≡ suc h.next))
  unfolding allocate
  allocate-next n h = elim (Option-cases ((k.kmalloc n h.world).0)) [
    | inl e ↦ inl (rw (e, allocate), rw (e, allocate))
    | inr (mem, e) ↦ inr (rw (e, allocate), rw (e, allocate))
  ]

  module _ {O U X : Type 0} (usb_ep : X) (d : Bytes) (s0 : Part O U X W) (a : Addressed s0) where
    name-Addressed :
        (s : Part O U X W)
        → s.eplist ≡ s0.eplist
        → s0.heap.next < s.heap.next
        → Ok
            (λ _ s'. Addressed s')
            ((on_heap (name_endpoint k usb_ep s0.heap.next (epid_of_desc d) (some d))
                ▷ keep_endpoint k)
              s)
    unfolding name_endpoint keep_endpoint release
    name-Addressed s same lt =
        let new : Endpoint U X = record {
          ref = s0.heap.next;
          epid = epid_of_desc d;
          desc = some d;
          reqlist = [];
          usb_ep = usb_ep;
        } in
        elim (allocate-next 128 s.heap) [
          | inl (e, next) ↦
              rw (e, name_endpoint) (Addressed-same s0 _ a same (omega (arith, next, lt)))
          | inr (e, next) ↦
              rw (e, name_endpoint)
                (Addressed-join s0 _ a new (ap (λ l. new ∷ l) same) refl (omega (arith, next, lt)))
        ]

    create-Addressed :
        (s : Part O U X W)
        → s.eplist ≡ s0.eplist
        → s0.heap.next < s.heap.next
        → Ok
            (λ _ s'. Addressed s')
            ((on_heap (create_endpoint k usb_ep s0.heap.next d) ▷ keep_endpoint k) s)
    unfolding create_endpoint create_endpoint_as keep_endpoint release
    create-Addressed s same lt = elim (allocate-next 9 s.heap) [
      | inl (e, next) ↦
          rw (e, create_endpoint_as) (Addressed-same s0 _ a same (omega (arith, next, lt)))
      | inr (e, next) ↦ rw (e, create_endpoint_as) (name-Addressed _ same (omega (arith, next, lt)))
    ]

    pub add_endpoint-Addressed :
        (size : ℕ) → Ok (λ _ s'. Addressed s') (add_endpoint k usb_ep size d s0)
    unfolding add_endpoint
    add_endpoint-Addressed size = elim (allocate-next size s0.heap) [
      | inl (e, next) ↦
          rw (e, Ok, add_endpoint, ◌▷◌) (Addressed-same s0 _ a refl (omega (arith, next)))
      | inr (e, next) ↦
          rw (e, Ok, add_endpoint, ◌▷◌) (create-Addressed _ refl (omega (arith, next)))
    ]

  pub add_ep0_endpoint-Addressed :
      {O U X : Type 0} (usb_ep : X) (size dir : ℕ) (s : Part O U X W)
      → Addressed s
      → Ok (λ _ s'. Addressed s') (add_ep0_endpoint k usb_ep size dir s)
  unfolding add_ep0_endpoint create_ep0_endpoint create_endpoint_as name_endpoint keep_endpoint
      release
  add_ep0_endpoint-Addressed usb_ep size dir s a = elim (allocate-next size s.heap) [
    | inl (e, next) ↦
        rw (e, Ok, add_ep0_endpoint, ◌▷◌) (Addressed-same s _ a refl (omega (arith, next)))
    | inr (e, next) ↦ elim (allocate-next 128 (allocate k size s.heap).1) [
      | inl (e', next') ↦
          rw (e, Ok, add_ep0_endpoint, ◌▷◌, e', name_endpoint)
            (Addressed-same s _ a refl (omega (arith, next, next')))
      | inr (e', next') ↦
          rw (e, Ok, add_ep0_endpoint, ◌▷◌, e', name_endpoint)
            (Addressed-join s _ a
              (record {
                ref = s.heap.next;
                epid = record { num = 0; type = ctrl; dir = dir };
                desc = none;
                reqlist = [];
                usb_ep = usb_ep;
              })
              refl refl (omega (arith, next, next')))
    ]
  ]

  -- Freeing an endpoint gives no address away.
  pub free_endpoint-next :
      {U X : Type 0} (ep : Endpoint U X) (h : Heap W)
      → (release k (free_endpoint k ep h)).next ≡ h.next
  unfolding free_endpoint release
  free_endpoint-next ep h = elim (Option-cases ep.desc) [
    | inl e ↦ rw (e, free_endpoint)
    | inr (d, e) ↦ rw (e, free_endpoint)
  ]
