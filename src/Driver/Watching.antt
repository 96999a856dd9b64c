-- ===== src/Driver/Watching.antt =====
-- A request of the driver that is being completed, under the changes of the list of endpoints.
use usbq_core.Driver.Sound.{Watch, Watched}
use usbq_core.Driver.State.{DriverEndpoint}
use usbq_core.Endpoint.{same_epid}
use usbq_core.Part.Held.{Held}
use usbq_core.Part.Members.{Present-agrees, Present-remove}
use usbq_core.Part.Table.{Absent, Distinct, remove}
use usbq_core.Types.{Epid, is_ctrl}
use usbq_core.Prelude.{
  Bool-cases, Every, List, Option, [], arith, false, inl, inr, none, some, subst, sym, true, ℕ, ◌∙◌,
  ◌∷◌, ◌≡◌, ◌≢◌, ◌⊎◌,
}

-- A request that waits on a control endpoint, or none.
abbrev pub OnControl : Option Watch → Type 0
OnControl none = Unit {0}
OnControl (some w) = is_ctrl w.epid ≡ true

-- The watched request stays when another endpoint goes, or one comes.
Held-remove :
    (ref r : ℕ) (id id' : Epid) (list : List DriverEndpoint)
    → same_epid id' id ≡ false
    → Every (λ x. (x.ref ≢ ref) ⊎ (x.epid ≡ id)) list
    → Held ref r list
    → Held ref r (remove id' list)
unfolding remove
Held-remove ref r id id' [] apart a h = h
Held-remove ref r id id' (x ∷ list) apart (agrees, a) h = elim (Bool-cases (same_epid id' x.epid)) [
  | inl same ↦
      rw (same, remove)
        (elim h [
          | inl (here, waits) ↦ absurd (elim agrees [
            | inl other ↦ other here
            | inr e ↦ subst (λ y. same_epid id' y ≡ true → ⊥) (sym e) (λ t. cc) same
          ])
          | inr (other, later) ↦ later
        ])
  | inr other ↦
      rw (other, remove)
        (elim h [
          | inl here ↦ inl here
          | inr (away, later) ↦ inr (away, Held-remove ref r id id' list apart a later)
        ])
]

Held-Absent :
    (ref r ref' : ℕ) (list : List DriverEndpoint) → Held ref r list → Absent ref' list → ref' ≢ ref
Held-Absent ref r ref' [] h a = absurd h
Held-Absent ref r ref' (x ∷ list) h (other, a) = elim h [
  | inl (here, _) ↦ λ e. other (here ∙ sym e)
  | inr (_, later) ↦ Held-Absent ref r ref' list later a
]

pub Watched-remove :
    (w : Option Watch) (id : Epid) (list : List DriverEndpoint)
    → OnControl w
    → is_ctrl id ≡ false
    → Distinct list
    → Watched w list
    → Watched w (remove id list)
Watched-remove none id list control other d h = tt
Watched-remove (some w) id list control other d (held, here) =
    let apart : same_epid id w.epid ≡ false = ground (arith, other, control) in
    (
      Held-remove w.ref w.request_ref w.epid id list apart (Present-agrees w.ref w.epid list d here)
          held,
      Present-remove w.ref w.epid id list apart here,
    )

pub Watched-join :
    (w : Option Watch) (ep : DriverEndpoint) (list : List DriverEndpoint)
    → Absent ep.ref list
    → Watched w list
    → Watched w (ep ∷ list)
Watched-join none ep list a h = tt
Watched-join (some w) ep list a (held, here) =
    (inr (Held-Absent w.ref w.request_ref ep.ref list held a, held), inr here)
