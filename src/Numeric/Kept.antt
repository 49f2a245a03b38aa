-- ===== src/Numeric/Kept.antt =====
-- What a state that was opened is, and what opening keeps.
use ajit_segment_bots.Prelude.{
  Bool, List, Option, arith, length, none, ok, refl, some, ℕ, ◌≡◌, eq_iff,
}
use ajit_segment_bots.Numeric.{
  Disk, Dtypes, Spec, Sidecar, declared, unreadable, open_numeric_state, expected_data_byte_count,
  zeros,
}
use ajit_segment_bots.Numeric.Guard.{shape_eq→eq, length-zeros}

module _ (numpy : Dtypes) (spec : Spec) where
  -- The data file is of the declared size, the sidecar is the declaration, and there is a stamp; data
  -- and a stamp that were there are as they were.
  pub record IsOpenedFrom (d : Disk) (d' : Disk) : Type 0 where
    pub size :
        (bytes : List ℕ) × (d'.content ≡ some bytes)
        × (length bytes ≡ expected_data_byte_count numpy spec)
    pub guarded : d'.declaration ≡ some (declared spec.shape spec.dtype)
    pub stamped : (n : ℕ) × (d'.stamp ≡ some n)
    pub keeps_content : (bytes : List ℕ) → d.content ≡ some bytes → d'.content ≡ some bytes
    pub keeps_stamp : (n : ℕ) → d.stamp ≡ some n → d'.stamp ≡ some n

  opened_parts :
      (durable : Bool) (c : Option (List ℕ)) (de t : Option Sidecar) (n : Option ℕ) (d' : Disk)
      → open_numeric_state numpy spec durable
          (record { content = c; declaration = de; temporary = t; stamp = n })
        ≡ ok d'
      → (d'.content
          ≡ some (elim c [ none ↦ zeros (expected_data_byte_count numpy spec) | some b ↦ b ]))
        × (d'.declaration ≡ some (declared spec.shape spec.dtype))
        × (d'.stamp ≡ some (elim n [ none ↦ 0 | some k ↦ k ]))
        × (length (elim c [ none ↦ zeros (expected_data_byte_count numpy spec) | some b ↦ b ])
            ≡ expected_data_byte_count numpy spec)
  unfolding open_numeric_state
  opened_parts durable c none t n d' h = (
    ground (arith, h, length-zeros (expected_data_byte_count numpy spec)),
    ground (arith, h, length-zeros (expected_data_byte_count numpy spec)),
    ground (arith, h, length-zeros (expected_data_byte_count numpy spec)),
    ground (arith, h, length-zeros (expected_data_byte_count numpy spec)),
  )
  opened_parts durable c (some unreadable) t n d' h = absurd (ground (arith, h))
  opened_parts durable c (some (declared shape dtype)) t n d' h = (
    ground (
      arith,
      h,
      length-zeros (expected_data_byte_count numpy spec),
      shape_eq→eq shape spec.shape,
      eq_iff dtype spec.dtype,
    ),
    ground (
      arith,
      h,
      length-zeros (expected_data_byte_count numpy spec),
      shape_eq→eq shape spec.shape,
      eq_iff dtype spec.dtype,
    ),
    ground (
      arith,
      h,
      length-zeros (expected_data_byte_count numpy spec),
      shape_eq→eq shape spec.shape,
      eq_iff dtype spec.dtype,
    ),
    ground (
      arith,
      h,
      length-zeros (expected_data_byte_count numpy spec),
      shape_eq→eq shape spec.shape,
      eq_iff dtype spec.dtype,
    ),
  )

  -- An opening that refuses nothing leaves a state whose data file is of the declared size and whose
  -- sidecar is the declaration, with the data and the stamp that were there.
  pub open_numeric_state-IsOpenedFrom :
      (durable : Bool) (d d' : Disk)
      → open_numeric_state numpy spec durable d ≡ ok d'
      → IsOpenedFrom d d'
  open_numeric_state-IsOpenedFrom durable d d' h =
      let (content, declaration, stamp, size) =
        opened_parts durable d.content d.declaration d.temporary d.stamp d' h in
      record {
        size = (_, content, size);
        guarded = declaration;
        stamped = (_, stamp);
        keeps_content = λ bytes e. rw (content, e) refl;
        keeps_stamp = λ n e. rw (stamp, e) refl;
      }
