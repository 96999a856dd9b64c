-- ===== src/Part/Table.antt =====
-- The list of endpoints without the newest of an identity, which is what freeing the endpoint that
-- was found leaves.
use usbq_core.Endpoint.{Endpoint, find_endpoint, same_epid}
use usbq_core.Part.{list_del}
use usbq_core.Part.Cleanup.{desc_objects, objects}
use usbq_core.Part.Lists.{list_del-head}
use usbq_core.Types.{Epid}
use usbq_core.Prelude.{
  Bool-cases, Every, List, [], ap, arith, false, if◌then◌else◌, inl, inr, length, none, refl, some,
  subst, sym, true, ℕ, ◌*◌, ◌+◌, ◌==◌, ◌∙◌, ◌∷◌, ◌≡◌, ◌≢◌, ◌⊎◌,
}

pub same_epid-eq : (id id' : Epid) → same_epid id id' ≡ true → id ≡ id'
same_epid-eq id id' same =
    let num : id.num ≡ id'.num = ground (arith, same) in
    let type : id.type ≡ id'.type = ground (arith, same) in
    let dir : id.dir ≡ id'.dir = ground (arith, same) in
    λ i. record { num = num i; type = type i; dir = dir i }

-- What is the same as one of two different identities is not the same as the other.
pub same_epid-apart :
    (id id' e : Epid) → same_epid id id' ≡ false → same_epid id e ≡ true → same_epid id' e ≡ false
same_epid-apart id id' e h same = ground (arith, h, same)

module _ {U X : Type 0} where
  -- The list without the newest endpoint of an identity.
  unfoldable pub remove : Epid → List (Endpoint U X) → List (Endpoint U X)
  remove id [] = []
  remove id (ep ∷ list) =
      let rest = remove id list in if same_epid id ep.epid then list else ep ∷ rest

  -- The same for each identity in turn.
  unfoldable pub remove_all : List Epid → List (Endpoint U X) → List (Endpoint U X)
  remove_all [] list = list
  remove_all (id ∷ ids) list = remove_all ids (remove id list)

  -- No endpoint of the list is at the address, and no two are at the same.
  abbrev pub Absent : ℕ → List (Endpoint U X) → Type 0
  Absent ref = Every (λ ep. ep.ref ≢ ref)

  abbrev pub Distinct : List (Endpoint U X) → Type 0
  Distinct [] = Unit {0}
  Distinct (ep ∷ list) = Absent ep.ref list × Distinct list

  found_first :
      (id : Epid) (x : Endpoint U X) (list : List (Endpoint U X))
      → same_epid id x.epid ≡ true
      → (find_endpoint id (x ∷ list) ≡ some x) × (remove id (x ∷ list) ≡ list)
  unfolding find_endpoint remove
  found_first id x list same = (rw (same, find_endpoint), rw (same, remove))

  found_later :
      (id : Epid) (x : Endpoint U X) (list : List (Endpoint U X))
      → same_epid id x.epid ≡ false
      → (find_endpoint id (x ∷ list) ≡ find_endpoint id list)
        × (remove id (x ∷ list) ≡ x ∷ remove id list)
  unfolding find_endpoint remove
  found_later id x list other = (rw (other, find_endpoint), rw (other, remove))

  -- Where an endpoint that was found stands.
  found-cases :
      (id : Epid) (ep x : Endpoint U X) (list : List (Endpoint U X))
      → find_endpoint id (x ∷ list) ≡ some ep
      → (x ≡ ep) × (remove id (x ∷ list) ≡ list)
        ⊎ (find_endpoint id list ≡ some ep) × (remove id (x ∷ list) ≡ x ∷ remove id list)
  found-cases id ep x list e = elim (Bool-cases (same_epid id x.epid)) [
    | inl same ↦ let (first, rest) = found_first id x list same in inl (cc, rest)
    | inr other ↦ let (later, rest) = found_later id x list other in inr (sym later ∙ e, rest)
  ]

  none_found : (id : Epid) (ep : Endpoint U X) → find_endpoint id [] ≢ some ep
  unfolding find_endpoint
  none_found id ep e = cc

  Absent-find_endpoint :
      (ref : ℕ) (id : Epid) (ep : Endpoint U X) (list : List (Endpoint U X))
      → Absent ref list
      → find_endpoint id list ≡ some ep
      → ep.ref ≢ ref
  Absent-find_endpoint ref id ep [] a e = absurd (none_found id ep e)
  Absent-find_endpoint ref id ep (x ∷ list) (h, a) e = elim (found-cases id ep x list e) [
    | inl (same, _) ↦ subst (λ y. y.ref ≢ ref) same h
    | inr (later, _) ↦ Absent-find_endpoint ref id ep list a later
  ]

  pub Every-remove :
      (P : Endpoint U X → Type 0) (id : Epid) (list : List (Endpoint U X))
      → Every P list
      → Every P (remove id list)
  unfolding remove
  Every-remove P id [] a = tt
  Every-remove P id (x ∷ list) (h, a) = elim (Bool-cases (same_epid id x.epid)) [
    | inl same ↦ rw (same, remove) a
    | inr other ↦ rw (other, remove) (h, Every-remove P id list a)
  ]

  pub remove-Distinct :
      (id : Epid) (list : List (Endpoint U X)) → Distinct list → Distinct (remove id list)
  unfolding remove
  remove-Distinct id [] d = tt
  remove-Distinct id (x ∷ list) (a, d) = elim (Bool-cases (same_epid id x.epid)) [
    | inl same ↦ rw (same, remove) d
    | inr other ↦
        rw (other, remove)
          (Every-remove (λ ep. ep.ref ≢ x.ref) id list a, remove-Distinct id list d)
  ]

  -- What was not found is not there to be removed.
  pub remove-none :
      (id : Epid) (list : List (Endpoint U X))
      → find_endpoint id list ≡ none
      → remove id list ≡ list
  unfolding remove find_endpoint
  remove-none id [] e = refl
  remove-none id (x ∷ list) e = elim (Bool-cases (same_epid id x.epid)) [
    | inl same ↦ let (first, rest) = found_first id x list same in cc
    | inr other ↦
        let (later, rest) = found_later id x list other in
        rest ∙ ap (λ l. x ∷ l) (remove-none id list (sym later ∙ e))
  ]

  -- Where addresses are distinct, deleting the endpoint that find_endpoint gives, by its address,
  -- takes away the newest of its identity.
  pub list_del-remove :
      (id : Epid) (ep : Endpoint U X) (list : List (Endpoint U X))
      → Distinct list
      → find_endpoint id list ≡ some ep
      → list_del ep.ref list ≡ remove id list
  unfolding list_del remove
  list_del-remove id ep [] d e = refl
  list_del-remove id ep (x ∷ list) (a, d) e = elim (found-cases id ep x list e) [
    | inl (same, rest) ↦
        subst (λ y. list_del y.ref (x ∷ list) ≡ remove id (x ∷ list)) same
          (list_del-head x list ∙ sym rest)
    | inr (later, rest) ↦
        let other : (x.ref == ep.ref) ≡ false =
          ground (arith, Absent-find_endpoint x.ref id ep list a later) in
        rw (other, list_del) (ap (λ l. x ∷ l) (list_del-remove id ep list d later) ∙ sym rest)
  ]

  pub objects-remove :
      (id : Epid) (ep : Endpoint U X) (list : List (Endpoint U X))
      → find_endpoint id list ≡ some ep
      → objects list ≡ desc_objects ep.desc + 2 + length ep.reqlist * 3 + objects (remove id list)
  unfolding objects
  objects-remove id ep [] e = absurd (none_found id ep e)
  objects-remove id ep (x ∷ list) e = elim (found-cases id ep x list e) [
    | inl (same, rest) ↦
        subst
          (λ y.
            objects (x ∷ list)
            ≡ desc_objects y.desc + 2 + length y.reqlist * 3 + objects (remove id (x ∷ list)))
          same (rw rest)
    | inr (later, rest) ↦ rw rest (omega (arith, objects-remove id ep list later))
  ]
