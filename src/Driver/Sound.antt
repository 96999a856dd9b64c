-- ===== src/Driver/Sound.antt =====
-- What holds of the state of the driver between two events, and what keeps it.
use usbq_core.Driver.Request.{data_at}
use usbq_core.Driver.State.{DriverEndpoint, DriverRequest, DriverState}
use usbq_core.Gadget.Completing.{IsReal}
use usbq_core.Part.{at_ref}
use usbq_core.Part.Accounts.{Grew, Pushed, push}
use usbq_core.Part.Addresses.{Addressed, Addressed-same, Before-later}
use usbq_core.Part.Cleanup.{objects}
use usbq_core.Part.Held.{Held, push-Held}
use usbq_core.Part.Members.{
  Every-at_ref, Present, Present-agrees, Present-at_ref, objects-push, push-Distinct,
}
use usbq_core.Part.Table.{Distinct}
use usbq_core.Types.{Epid, is_ctrl, w_max_packet_size}
use usbq_core.Prelude.{
  Bytes, Every, List, Option, arith, false, inl, inr, length, none, refl, some, subst, sym, true, ℕ,
  ◌+◌, ◌<◌, ◌≡◌, ◌≢◌, ◌≤◌, ◌⊎◌,
}

-- A completion of a control request finds a struct usb_ctrlrequest behind the identity.
abbrev pub Readable : Epid → DriverRequest → Type 0
Readable id req = (is_ctrl id ≡ false) ⊎ (data_at + 8 ≤ length req.msg.body)

-- An endpoint that every event can use: its identity exists, it has a descriptor unless it is a
-- control endpoint, and each of its requests can be completed.
pub record IsLinked (ep : DriverEndpoint) : Type 0 where
  pub real : IsReal ep.epid
  pub described :
      (is_ctrl ep.epid ≡ true) ⊎ (d : Bytes) × (ep.desc ≡ some d) × (w_max_packet_size d < 65536)
  pub requests : Every (Readable ep.epid) ep.reqlist

-- The endpoints have distinct addresses, and all can be used; the objects of the endpoints and of
-- their requests are allocated, with `n` others.
pub record IsSteady {W : Type 0} (n : ℕ) (s : DriverState W) : Type 0 where
  pub addressed : Addressed s
  pub linked : Every IsLinked s.eplist
  pub live_le : objects s.eplist + n ≤ s.heap.live

push-IsLinked :
    (ep : DriverEndpoint) (req : DriverRequest)
    → IsLinked ep
    → Readable ep.epid req
    → IsLinked (push req ep)
push-IsLinked ep req v a = record {
  real = v.real;
  described = v.described;
  requests = (a, v.requests);
}

-- A request that is being completed, and the endpoint that it waits on.
pub record Watch : Type 0 where
  pub ref : ℕ
  pub request_ref : ℕ
  pub epid : Epid

-- It still waits there.
abbrev pub Watched : Option Watch → List DriverEndpoint → Type 0
Watched none list = Unit {0}
Watched (some w) list = Held w.ref w.request_ref list × Present w.ref w.epid list

-- The invariant, while a request that is being completed still waits.
pub record IsWatched {W : Type 0} (n : ℕ) (w : Option Watch) (s : DriverState W) : Type 0 where
  pub steady : IsSteady n s
  pub watched : Watched w s.eplist

Watched-push :
    (w : Option Watch) (ref : ℕ) (req : DriverRequest) (list : List DriverEndpoint)
    → Watched w list
    → Watched w (at_ref ref (push req) list)
Watched-push none ref req list h = tt
Watched-push (some w) ref req list (held, here) = (
  push-Held w.ref w.request_ref ref req list held,
  Present-at_ref w.ref ref w.epid (push req) (λ x. (refl, refl)) list here,
)

module _ {W : Type 0} (n : ℕ) (w : Option Watch) (s s' : DriverState W) (v : IsWatched n w s) where
  -- More is allocated, or the kernel has moved on.
  pub Grew-IsWatched : (m : ℕ) → Grew s m s' → IsWatched n w s'
  Grew-IsWatched m grew = record {
    steady = record {
      addressed = Addressed-same s s' v.steady.addressed grew.same grew.next_le;
      linked = subst (Every IsLinked) (sym grew.same) v.steady.linked;
      live_le = rw grew.same (omega (arith, v.steady.live_le, grew.live_eq));
    };
    watched = subst (Watched w) (sym grew.same) v.watched;
  }

  -- An endpoint has a request more.
  pub Pushed-IsWatched :
      (ep : DriverEndpoint) (req : DriverRequest)
      → Present ep.ref ep.epid s.eplist
      → Readable ep.epid req
      → Pushed s ep.ref req s'
      → IsWatched n w s'
  Pushed-IsWatched ep req here a p = record {
    steady = record {
      addressed = record {
        distinct =
            subst Distinct (sym p.pushed)
              (push-Distinct ep.ref req s.eplist v.steady.addressed.distinct);
        before = subst (Every (λ x. x.ref < s'.heap.next)) (sym p.pushed) (
            Every-at_ref (λ x. x.ref < s'.heap.next) IsLinked ep.ref (push req) (λ x _ h _. h)
              s.eplist
              (Before-later s.heap.next s'.heap.next s.eplist p.next_le v.steady.addressed.before)
              v.steady.linked);
      };
      linked = subst (Every IsLinked) (sym p.pushed) (
          Every-at_ref IsLinked (λ x. (x.ref ≢ ep.ref) ⊎ (x.epid ≡ ep.epid)) ep.ref (push req)
            (λ x e linked. elim [
              | inl other ↦ absurd (other e)
              | inr same ↦ push-IsLinked x req linked (subst (λ id. Readable id req) (sym same) a)
            ])
            s.eplist v.steady.linked
            (Present-agrees ep.ref ep.epid s.eplist v.steady.addressed.distinct here));
      live_le =
          rw p.pushed
            (omega (arith, v.steady.live_le, p.live_eq, objects-push ep.ref req s.eplist));
    };
    watched = subst (Watched w) (sym p.pushed) (Watched-push w ep.ref req s.eplist v.watched);
  }

-- What a call of ep_driver_send_usb does: the endpoint has a request more that can be completed, or
-- there is nothing new.
abbrev pub Submits : {W : Type 0} → DriverEndpoint → DriverState W → DriverState W → Type 0
Submits ep s s' =
    Grew s 0 s' ⊎ (req : DriverRequest) × Readable ep.epid req × Pushed s ep.ref req s'

pub Submits-IsWatched :
    {W : Type 0} (n : ℕ) (w : Option Watch) (ep : DriverEndpoint) (s s' : DriverState W)
    → IsWatched n w s
    → Present ep.ref ep.epid s.eplist
    → Submits ep s s'
    → IsWatched n w s'
Submits-IsWatched n w ep s s' v here (inl grew) = Grew-IsWatched n w s s' v 0 grew
Submits-IsWatched n w ep s s' v here (inr (req, a, p)) = Pushed-IsWatched n w s s' v ep req here a p
