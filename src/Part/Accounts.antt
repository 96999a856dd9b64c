-- ===== src/Part/Accounts.antt =====
-- What the allocation and the release of a request do to the lists and to the count of what is
-- allocated.
use usbq_core.Action.{Ok, lift, ◌▷◌}
use usbq_core.Endpoint.{Endpoint, Heap, Kernel, Request, allocate, memory, release}
use usbq_core.Msg.{Msg, ack_type, get_data, get_epid}
use usbq_core.Msg.Alloc.{Allocates, IsFresh, alloc_msg-IsFresh}
use usbq_core.Msg.Copy.{Fits, HasRoom}
use usbq_core.Msg.Headers.{IsNarrow, IsUsb, msg_set_epid-get_epid}
use usbq_core.Part.{Part, at_ref}
use usbq_core.Part.Lists.{at_ref-at_ref, at_ref-id, list_del_request-head, put_request-head}
use usbq_core.Part.Requests.{
  alloc_request, alloc_request_msg, alloc_request_transfer, filled, free_request,
}
use usbq_core.Prelude.{
  Bool, Bool-cases, Option, Option-cases, [], ap, arith, false, inl, inr, none, refl, some, suc,
  true, word, ℕ, ◌+◌, ◌<◌, ◌∙◌, ◌∷◌, ◌≡◌, ◌≤◌, ◌⊎◌,
}

-- The endpoint with one more request.
abbrev pub push : {U X : Type 0} → Request U → Endpoint U X → Endpoint U X
push req ep = record ep { reqlist = req ∷ ep.reqlist }

module _ {O U X W : Type 0} where
  -- The endpoints are those of `s`, and `n` objects more are allocated.
  pub record Grew (s : Part O U X W) (n : ℕ) (s' : Part O U X W) : Type 0 where
    pub own_eq : s'.own ≡ s.own
    pub same : s'.eplist ≡ s.eplist
    pub live_eq : s'.heap.live ≡ n + s.heap.live
    pub next_le : s.heap.next ≤ s'.heap.next

  -- Only the kernel has moved on.
  pub world-Grew :
      (s : Part O U X W) (w : W) → Grew s 0 (record s { heap = record s.heap { world = w } })
  world-Grew s w = record {
    own_eq = refl;
    same = refl;
    live_eq = omega arith;
    next_le = omega arith;
  }

  -- The endpoint at `ref` has the request `req` more, and its three objects are allocated.
  pub record Pushed (s : Part O U X W) (ref : ℕ) (req : Request U) (s' : Part O U X W)
      : Type 0 where
    pub own_eq : s'.own ≡ s.own
    pub pushed : s'.eplist ≡ at_ref ref (push req) s.eplist
    pub live_eq : s'.heap.live ≡ 3 + s.heap.live
    pub next_le : s.heap.next ≤ s'.heap.next

  abbrev pub Allocated :
      (Msg → U)
      → Part O U X W
      → Endpoint U X
      → (sz type : ℕ) → Option (Request U)
      → Part O U X W
      → Type 0
  Allocated blank s ep sz type none s' = Grew s 0 s'
  Allocated blank s ep sz type (some req) s' =
      Pushed s ep.ref req s'
      × Fits req.msg
      × (get_data req.msg ≡ [])
      × HasRoom req.msg sz
      × (req.msg.allocated_size ≡ sz)
      × (req.msg.type ≡ type)
      × (get_epid req.msg ≡ ep.epid)
      × (req.transfer ≡ blank req.msg)

-- kmalloc gives as many bytes as it is asked for.
abbrev pub Gives : {W : Type 0} → Kernel W → Type 0
Gives k = (w : _) → Allocates (memory k w)

module _ {W : Type 0} (k : Kernel W) (gives : Gives k) where
  -- What kmalloc of a struct does to the count, and to the addresses that are given.
  pub allocate-cases :
      (n : ℕ) (h : Heap W)
      → (((allocate k n h).0 ≡ false)
          × ((allocate k n h).1.live ≡ h.live)
          × ((allocate k n h).1.next ≡ h.next))
        ⊎ (((allocate k n h).0 ≡ true)
            × ((allocate k n h).1.live ≡ suc h.live)
            × ((allocate k n h).1.next ≡ suc h.next))
  unfolding allocate
  allocate-cases n h = elim (Option-cases ((k.kmalloc n h.world).0)) [
    | inl e ↦ inl (rw (e, allocate), rw (e, allocate), rw (e, allocate))
    | inr (mem, e) ↦ inr (rw (e, allocate), rw (e, allocate), rw (e, allocate))
  ]

  module _ {O U X : Type 0} (alloc_transfer : W → Bool × W) (blank : Msg → U) (ep : Endpoint U X)
      (narrow : IsNarrow ep.epid) (sz : ℕ) (small : sz + 26 < word) (type : ℕ)
      (usb : type ≤ ack_type) (s0 : Part O U X W) where
    IsFresh-IsUsb : (m : Msg) → IsFresh sz type m → IsUsb m
    IsFresh-IsUsb m fresh = record { fits = fresh.fits; usb = omega (arith, fresh.type_eq, usb) }

    alloc_request_msg-Ok :
        (ref : ℕ) (s : Part O U X W)
        → Grew s0 2 s
        → Ok
            (Allocated blank s0 ep sz type)
            (alloc_request_msg k alloc_transfer blank ep sz type ref s)
    unfolding alloc_request_msg release
    alloc_request_msg-Ok ref s g =
        elim (alloc_msg-IsFresh (memory k s.heap.world) (gives s.heap.world) sz type
          (omega (arith, usb)) small) [
            | inl (nothing, e) ↦
                rw (e, lift)
                  (record {
                    own_eq = g.own_eq;
                    same = g.same;
                    live_eq = omega (arith, g.live_eq);
                    next_le = omega (arith, g.next_le);
                  })
            | inr (m, e, fresh) ↦
                let (m', e', epid_eq, empty, type_eq, size_eq, len, allocated, u) =
                  msg_set_epid-get_epid m ep.epid (IsFresh-IsUsb m fresh) narrow in
                rw (e, lift, e')
                  (
                    record {
                      own_eq = g.own_eq;
                      pushed = ap (at_ref ep.ref _) g.same;
                      live_eq = omega (arith, g.live_eq);
                      next_le = omega (arith, g.next_le);
                    },
                    u.fits,
                    empty ∙ fresh.empty,
                    omega (arith, size_eq, len, fresh.size_eq, fresh.body_length),
                    allocated ∙ fresh.allocated,
                    type_eq ∙ fresh.type_eq,
                    epid_eq,
                    refl,
                  )
          ]

    alloc_request_transfer-Ok :
        (ref : ℕ) (s : Part O U X W)
        → Grew s0 1 s
        → Ok
            (Allocated blank s0 ep sz type)
            (alloc_request_transfer k alloc_transfer blank ep sz type ref s)
    unfolding alloc_request_transfer release
    alloc_request_transfer-Ok ref s g = elim (Bool-cases ((alloc_transfer s.heap.world).0)) [
      | inl e ↦
          rw (e, alloc_request_transfer)
            (alloc_request_msg-Ok ref _ (record {
              own_eq = g.own_eq;
              same = g.same;
              live_eq = omega (arith, g.live_eq);
              next_le = omega (arith, g.next_le);
            }))
      | inr e ↦
          rw (e, alloc_request_transfer)
            (record {
              own_eq = g.own_eq;
              same = g.same;
              live_eq = omega (arith, g.live_eq);
              next_le = omega (arith, g.next_le);
            })
    ]

    pub alloc_request-Ok :
        (size : ℕ)
        → Ok
            (Allocated blank s0 ep sz type)
            (alloc_request k alloc_transfer blank ep size sz type s0)
    unfolding alloc_request
    alloc_request-Ok size = elim (allocate-cases size s0.heap) [
      | inl (e, live_eq, next_eq) ↦
          rw (e, Ok, alloc_request, ◌▷◌)
            (record {
              own_eq = refl;
              same = refl;
              live_eq = omega (arith, live_eq);
              next_le = omega (arith, next_eq);
            })
      | inr (e, live_eq, next_eq) ↦
          rw (e, Ok, alloc_request, ◌▷◌)
            (alloc_request_transfer-Ok s0.heap.next _ (record {
              own_eq = refl;
              same = refl;
              live_eq = omega (arith, live_eq);
              next_le = omega (arith, next_eq);
            }))
    ]

module _ {O U X W : Type 0} (k : Kernel W) (s0 : Part O U X W) (ep : Endpoint U X) where
  -- The newest request of an endpoint, once it is filled.
  pub filled-Pushed :
      (req req' : Request U) (s : Part O U X W)
      → req.ref ≡ req'.ref
      → Pushed s0 ep.ref req s
      → Ok (λ r s'. (r ≡ some req') × Pushed s0 ep.ref req' s') (filled k ep req' s)
  unfolding filled
  filled-Pushed req req' s same p = (
    refl,
    record {
      own_eq = p.own_eq;
      pushed =
          ap (at_ref ep.ref _) p.pushed
          ∙ at_ref-at_ref ep.ref _ (push req) (push req') (λ _. refl)
              (λ x. ap (λ l. record x { reqlist = l }) (put_request-head req req' x.reqlist same))
              s0.eplist;
      live_eq = p.live_eq;
      next_le = omega (arith, p.next_le);
    },
  )

  pub free_request-Ok :
      (req : Request U) (s : Part O U X W)
      → Pushed s0 ep.ref req s
      → Ok (λ _ s'. Grew s0 0 s') (free_request k ep req s)
  unfolding free_request release
  free_request-Ok req s p = record {
    own_eq = p.own_eq;
    same =
        ap (at_ref ep.ref _) p.pushed
        ∙ at_ref-at_ref ep.ref _ (push req) (λ x. x) (λ _. refl)
            (λ x. ap (λ l. record x { reqlist = l }) (list_del_request-head req x.reqlist))
            s0.eplist
        ∙ at_ref-id ep.ref (λ x. x) (λ _. refl) s0.eplist;
    live_eq = omega (arith, p.live_eq);
    next_le = omega (arith, p.next_le);
  }
