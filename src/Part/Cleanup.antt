-- ===== src/Part/Cleanup.antt =====
-- The count of what is allocated, as endpoints are freed.
use usbq_core.Action.{Act, Ok, Ok-map, ▷-Ok}
use usbq_core.Endpoint.{Endpoint, Heap, Kernel, free_endpoint, release}
use usbq_core.Part.{Part, for_each_endpoint}
use usbq_core.Prelude.{
  Bytes, List, Option, [], arith, length, none, refl, some, ℕ, ◌*◌, ◌+◌, ◌-◌, ◌∷◌, ◌≡◌,
}

-- The objects of an endpoint: the struct and its name, a descriptor, and three for each request
-- (the struct, the transfer and the message).
abbrev pub desc_objects : Option Bytes → ℕ
desc_objects none = 0
desc_objects (some d) = 1

unfoldable pub objects : {U X : Type 0} → List (Endpoint U X) → ℕ
objects [] = 0
objects (ep ∷ list) = desc_objects ep.desc + 2 + length ep.reqlist * 3 + objects list

module _ {O U X W : Type 0} where
  -- The endpoints are `list`, `n` objects are allocated besides theirs, and the rest is `own`.
  pub record Accounted (own : O) (n : ℕ) (list : List (Endpoint U X)) (s : Part O U X W)
      : Type 0 where
    pub own_eq : s.own ≡ own
    pub eplist_eq : s.eplist ≡ list
    pub live_eq : s.heap.live ≡ objects list + n

  -- A function that frees exactly the objects of the first endpoint.
  abbrev pub Frees : (Endpoint U X → Act (Part O U X W) (Unit {0})) → Type 0
  Frees free =
      (own : O) (n : ℕ) (ep : Endpoint U X) (list : List (Endpoint U X)) (s : Part O U X W)
      → Accounted own n (ep ∷ list) s
      → Ok (λ _ s'. Accounted own n list s') (free ep s)

  module _ (free : Endpoint U X → Act (Part O U X W) (Unit {0})) (frees : Frees free) where
    for_each_endpoint-Accounted :
        (own : O) (n : ℕ) (list : List (Endpoint U X)) (s : Part O U X W)
        → Accounted own n list s
        → Ok (λ _ s'. Accounted own n [] s') (for_each_endpoint free list s)
    unfolding for_each_endpoint
    for_each_endpoint-Accounted own n [] s a = a
    for_each_endpoint-Accounted own n (ep ∷ list) s a =
        ▷-Ok (λ _ s'. Accounted own n [] s') _ (free ep) _ s refl (frees own n ep list s a)
          (λ _ s' a'. for_each_endpoint-Accounted own n list s' a')

    -- All endpoints freed in turn.
    pub for_each_endpoint-freed :
        (n : ℕ) (s : Part O U X W)
        → s.heap.live ≡ objects s.eplist + n
        → Ok
            (λ _ s'. (s'.eplist ≡ []) × (s'.heap.live ≡ n) × (s'.own ≡ s.own))
            (for_each_endpoint free s.eplist s)
    unfolding objects
    for_each_endpoint-freed n s e =
        Ok-map (λ _ s'. Accounted s.own n [] s') _ (for_each_endpoint free s.eplist s)
          (λ _ s' a. (a.eplist_eq, omega (arith, a.live_eq), a.own_eq))
          (for_each_endpoint-Accounted s.own n s.eplist s
            (record { own_eq = refl; eplist_eq = refl; live_eq = e }))

pub free_endpoint-live :
    {U X W : Type 0} (k : Kernel W) (ep : Endpoint U X) (desc : Option Bytes) (h : Heap W)
    → ep.desc ≡ desc
    → (release k (free_endpoint k ep h)).live ≡ h.live - (desc_objects desc + 2)
unfolding free_endpoint release
free_endpoint-live k ep none h e = rw e (omega arith)
free_endpoint-live k ep (some d) h e = rw e (omega arith)
