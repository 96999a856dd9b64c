-- ===== src/Msg/Alloc.antt =====
-- alloc_msg and what it gives, for any kmalloc that gives what it was asked for.
use usbq_core.Prelude.{
  ℕ, ◌+◌, ◌≤◌, ◌<◌, ◌≡◌, refl, ◌⊎◌, inl, inr, none, some, [], Bytes, length, Option-cases, drop,
  arith, word, length-drop, add32, le→leb,
}
use usbq_core.Msg.{
  Msg, Kmalloc, msg_diff_size, msg_get_data_size, msg_set_data_size, get_data, alloc_msg,
}
use usbq_core.Msg.Copy.{IsKind, Fits, msg_get_data_size-Fits}

-- kmalloc gives as many bytes as it was asked for, or none.
abbrev pub Allocates : Kmalloc → Type 0
Allocates kmalloc = (n : ℕ) (mem : Bytes) → kmalloc n ≡ some mem → length mem ≡ n

-- A new message: empty, of the kind asked for, with room for `size` bytes of data.
pub record IsFresh (size type : ℕ) (m : Msg) : Type 0 where
  pub fits : Fits m
  pub empty : get_data m ≡ []
  pub type_eq : m.type ≡ type
  pub size_eq : m.size ≡ msg_diff_size type
  pub allocated : m.allocated_size ≡ size
  pub body_length : length m.body + 8 ≡ size + msg_diff_size type

module _ (kmalloc : Kmalloc) (gives : Allocates kmalloc) (size type : ℕ) (known : IsKind type)
    (small : size + 26 < word) where
  abbrev request : ℕ
  request = add32 (add32 size (msg_diff_size type)) 4

  diff_bounds : (8 ≤ msg_diff_size type) × (msg_diff_size type ≤ 22)
  unfolding msg_diff_size
  diff_bounds = ground arith

  request_lem : request ≡ size + msg_diff_size type + 4
  request_lem = omega (arith, diff_bounds)

  abbrev built : Bytes → Msg
  built mem =
      msg_set_data_size
        (record { allocated_size = size; size = 0; type = type; body = drop 12 mem }) 0

  built-size : (mem : Bytes) → (built mem).size ≡ msg_diff_size type
  unfolding msg_set_data_size
  built-size mem = omega (arith, diff_bounds)

  built-length :
      (mem : Bytes) → length mem ≡ request → length (built mem).body + 8 ≡ size + msg_diff_size type
  unfolding msg_set_data_size
  built-length mem e = omega (arith, length-drop 12 mem, request_lem, diff_bounds)

  built-Fits : (mem : Bytes) → length mem ≡ request → Fits (built mem)
  unfolding msg_set_data_size
  built-Fits mem e = record {
    kind = known;
    covers = omega (arith, built-size mem);
    within = omega (arith, built-size mem, built-length mem e);
    small = omega (arith, built-length mem e, diff_bounds);
  }

  built-empty : (mem : Bytes) → length mem ≡ request → msg_get_data_size (built mem) ≡ 0
  unfolding msg_set_data_size
  built-empty mem e =
      omega (arith, built-size mem, msg_get_data_size-Fits (built mem) (built-Fits mem e))

  built-IsFresh : (mem : Bytes) → length mem ≡ request → IsFresh size type (built mem)
  unfolding msg_set_data_size get_data
  built-IsFresh mem e = record {
    fits = built-Fits mem e;
    empty = rw (built-empty mem e);
    type_eq = refl;
    size_eq = built-size mem;
    allocated = refl;
    body_length = built-length mem e;
  }

  -- If kmalloc gives as many bytes as it is asked for, and for a known kind and a size that leaves
  -- room for the headers in a size_t, alloc_msg stays inside of what kmalloc
  -- gives, and gives NULL when kmalloc does, and else a fresh message of that size and kind.
  pub alloc_msg-IsFresh :
      ((kmalloc request ≡ none) × (alloc_msg kmalloc size type ≡ some none))
      ⊎ ((m : Msg) × (alloc_msg kmalloc size type ≡ some (some m)) × IsFresh size type m)
  unfolding alloc_msg
  alloc_msg-IsFresh = elim (Option-cases (kmalloc request)) [
    | inl e ↦ inl (e, rw (e, alloc_msg))
    | inr (mem, e) ↦ inr (
      built mem,
      rw (
        e,
        alloc_msg,
        le→leb 12 (length mem) (omega (arith, gives request mem e, request_lem, diff_bounds)),
      ),
      built-IsFresh mem (gives request mem e),
    )
  ]
