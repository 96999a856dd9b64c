-- ===== src/Part/Held.antt =====
-- A request that waits in the list of an endpoint, until it is freed.
use usbq_core.Endpoint.{Endpoint, Request}
use usbq_core.Part.{at_ref, list_del_request}
use usbq_core.Part.Accounts.{push}
use usbq_core.Part.Cleanup.{objects}
use usbq_core.Part.Members.{at_ref-Distinct}
use usbq_core.Part.Table.{Absent, Distinct}
use usbq_core.Prelude.{
  Bool-cases, Every, Every-IsIn, IsIn, List, [], ap, arith, false, inl, inr, length, refl, subst,
  sym, true, ℕ, ◌+◌, ◌==◌, ◌∷◌, ◌≡◌, ◌≢◌, ◌⊎◌,
}

module _ {U : Type 0} where
  -- A request at the address.
  abbrev pub Waits : ℕ → List (Request U) → Type 0
  Waits r [] = ⊥
  Waits r (q ∷ list) = (q.ref ≡ r) ⊎ Waits r list

  IsIn-Waits : (req : Request U) (list : List (Request U)) → IsIn req list → Waits req.ref list
  IsIn-Waits req [] m = m
  IsIn-Waits req (q ∷ list) m = elim m [
    | inl same ↦ inl (ap (λ r. r.ref) same)
    | inr later ↦ inr (IsIn-Waits req list later)
  ]

  length-list_del_request :
      (r : ℕ) (list : List (Request U))
      → Waits r list
      → length (list_del_request r list) + 1 ≡ length list
  unfolding list_del_request
  length-list_del_request r [] w = absurd w
  length-list_del_request r (q ∷ list) w = elim (Bool-cases (q.ref == r)) [
    | inl same ↦ rw (same, list_del_request) (omega arith)
    | inr apart ↦
        rw (apart, list_del_request)
          (elim w [
            | inl here ↦ absurd (ground (arith, here, apart))
            | inr later ↦ omega (arith, length-list_del_request r list later)
          ])
  ]

  pub Every-list_del_request :
      (P : Request U → Type 0) (r : ℕ) (list : List (Request U))
      → Every P list
      → Every P (list_del_request r list)
  unfolding list_del_request
  Every-list_del_request P r [] a = tt
  Every-list_del_request P r (q ∷ list) (p, a) = elim (Bool-cases (q.ref == r)) [
    | inl same ↦ rw (same, list_del_request) a
    | inr apart ↦ rw (apart, list_del_request) (p, Every-list_del_request P r list a)
  ]

module _ {U X : Type 0} where
  -- The endpoint at the address has a request at the other address.
  abbrev pub Held : ℕ → ℕ → List (Endpoint U X) → Type 0
  Held ref r [] = ⊥
  Held ref r (x ∷ list) = (x.ref ≡ ref) × Waits r x.reqlist ⊎ (x.ref ≢ ref) × Held ref r list

  Absent-IsIn :
      (ref : ℕ) (ep : Endpoint U X) (list : List (Endpoint U X))
      → Absent ref list
      → IsIn ep list
      → ep.ref ≢ ref
  Absent-IsIn ref ep list a m = Every-IsIn (λ x. x.ref ≢ ref) ep list a m

  pub IsIn-Held :
      (ep : Endpoint U X) (req : Request U) (list : List (Endpoint U X))
      → Distinct list
      → IsIn ep list
      → IsIn req ep.reqlist
      → Held ep.ref req.ref list
  IsIn-Held ep req [] d m m' = m
  IsIn-Held ep req (x ∷ list) (a, d) m m' = elim m [
    | inl same ↦ inl (
      ap (λ y. y.ref) same,
      subst (λ y. Waits req.ref y.reqlist) (sym same) (IsIn-Waits req ep.reqlist m'),
    )
    | inr later ↦
        inr ((λ e. Absent-IsIn x.ref ep list a later (sym e)), IsIn-Held ep req list d later m')
  ]

  -- It waits while other requests come.
  pub push-Held :
      (ref r ref' : ℕ) (req : Request U) (list : List (Endpoint U X))
      → Held ref r list
      → Held ref r (at_ref ref' (push req) list)
  unfolding at_ref
  push-Held ref r ref' req [] h = h
  push-Held ref r ref' req (x ∷ list) h = elim (Bool-cases (x.ref == ref')) [
    | inl same ↦
        rw (same, at_ref)
          (elim h [
            | inl (here, waits) ↦ inl (here, inr waits)
            | inr (other, later) ↦ inr (other, later)
          ])
    | inr apart ↦
        rw (apart, at_ref)
          (elim h [
            | inl (here, waits) ↦ inl (here, waits)
            | inr (other, later) ↦ inr (other, push-Held ref r ref' req list later)
          ])
  ]

  -- The endpoint without the request.
  abbrev pub drop_request : ℕ → Endpoint U X → Endpoint U X
  drop_request r ep = record ep { reqlist = list_del_request r ep.reqlist }

  pub objects-drop_request :
      (ref r : ℕ) (list : List (Endpoint U X))
      → Held ref r list
      → objects (at_ref ref (drop_request r) list) + 3 ≡ objects list
  unfolding at_ref objects
  objects-drop_request ref r [] h = absurd h
  objects-drop_request ref r (x ∷ list) h = elim h [
    | inl (here, waits) ↦
        let same : (x.ref == ref) ≡ true = ground (arith, here) in
        rw (same, at_ref) (omega (arith, length-list_del_request r x.reqlist waits))
    | inr (other, later) ↦
        let apart : (x.ref == ref) ≡ false = ground (arith, other) in
        rw (apart, at_ref) (omega (arith, objects-drop_request ref r list later))
  ]

  pub drop_request-Distinct :
      (ref r : ℕ) (list : List (Endpoint U X))
      → Distinct list
      → Distinct (at_ref ref (drop_request r) list)
  drop_request-Distinct ref r = at_ref-Distinct ref (drop_request r) (λ x. refl)
