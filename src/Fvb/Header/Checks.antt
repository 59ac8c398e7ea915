-- ===== src/Fvb/Header/Checks.antt =====
-- What InitializeFvAndVariableStoreHeaders and ValidateFvHeader accept and refuse.
use native.Mathlib.Nat.{mod-eq_of_lt}
use odp_platform_radxa_orion.Common.{
  ℕ, ◌+◌, ◌/◌, ◌%◌, ◌<◌, ◌≤◌, ◌≡◌, ◌⊎◌, ◌↔◌, inl, inr, true, false, arith, if◌then◌else◌, some,
  none, u64, sub32, Bool, ◌||◌, not, ◌==◌, add64, Bool-cases, lt→ltb,
}
use odp_platform_radxa_orion.Efi.{success, error, invalid_parameter}
use odp_platform_radxa_orion.Flash.{Buffer, NorFlashInstance, NorFlashLib}
use odp_platform_radxa_orion.Fvb.Header.Memory.{load, from}
use odp_platform_radxa_orion.Fvb.Header.Environment.{Pcds, Guids, BaseLib, PoolLib}
use odp_platform_radxa_orion.Fvb.Header.Build.{
  headers_length, layout_refused, too_small, variable_base, ftw_working_base, ftw_spare_base,
  fv_length, fvh_revision, fvh_signature, combined_headers,
  initialize_fv_and_variable_store_headers,
}
use odp_platform_radxa_orion.Fvb.Header.Validate.{validate_headers, validate_store}

-- The three areas stand one behind the other, each holds a block at least, and each starts on a
-- block.
pub record IsLayout (pcds : Pcds) (block_size : ℕ) : Type 0 where
  pub working_follows : variable_base pcds + pcds.variable_size ≡ ftw_working_base pcds
  pub spare_follows : ftw_working_base pcds + pcds.ftw_working_size ≡ ftw_spare_base pcds
  pub variable_holds : block_size ≤ pcds.variable_size
  pub working_holds : block_size ≤ pcds.ftw_working_size
  pub spare_holds : block_size ≤ pcds.ftw_spare_size
  pub variable_aligned : variable_base pcds % block_size ≡ 0
  pub working_aligned : ftw_working_base pcds % block_size ≡ 0
  pub spare_aligned : ftw_spare_base pcds % block_size ≡ 0

-- The areas end within the 64-bit addresses.
abbrev pub EndsInRange : Pcds → Type 0
EndsInRange pcds =
    (variable_base pcds + pcds.variable_size < u64)
    × (ftw_working_base pcds + pcds.ftw_working_size < u64)

or-false : (a b : Bool) → (a || b ≡ false) ↔ ((a ≡ false) × (b ≡ false))
or-false a b = ground arith

div_pos : (a b : ℕ) → 0 < b → (0 < a / b) ↔ (b ≤ a)
div_pos a b h = (λ k. grind arith, λ k. grind arith)

holds_block :
    (size block_size : ℕ)
    → 0 < block_size
    → (too_small size block_size ≡ false) ↔ (block_size ≤ size)
holds_block size block_size pos =
    (λ h. grind (arith, div_pos size block_size), λ h. grind (arith, div_pos size block_size))

same : (a b : ℕ) → (not (a == b) ≡ false) ↔ (a ≡ b)
same a b = ground arith

sum_same : (a b c : ℕ) → a + b < u64 → (not (add64 a b == c) ≡ false) ↔ (a + b ≡ c)
sum_same a b c h = rw (mod-eq_of_lt h) (same (a + b) c)

-- If a block is not empty and the variable and working areas end within 64-bit addresses, the
-- checks of InitializeFvAndVariableStoreHeaders pass exactly if the three areas stand one behind
-- the other, each holds a block at least, and each starts on a block.
pub layout_refused_iff :
    (pcds : Pcds) (block_size : ℕ)
    → 0 < block_size
    → EndsInRange pcds
    → (layout_refused pcds block_size ≡ false) ↔ IsLayout pcds block_size
unfolding layout_refused
layout_refused_iff pcds block_size pos ends = (
  λ h.
      let (a, h1) = (or-false _ _).0 h in
      let (b, h2) = (or-false _ _).0 h1 in
      let (c, h3) = (or-false _ _).0 h2 in
      let (d, h4) = (or-false _ _).0 h3 in
      let (e, h5) = (or-false _ _).0 h4 in
      let (f, h6) = (or-false _ _).0 h5 in
      let (g, i) = (or-false _ _).0 h6 in
      record {
        working_follows = (sum_same (variable_base pcds) _ _ ends.0).0 a;
        spare_follows = (sum_same (ftw_working_base pcds) _ _ ends.1).0 b;
        variable_holds = (holds_block _ _ pos).0 c;
        working_holds = (holds_block _ _ pos).0 d;
        spare_holds = (holds_block _ _ pos).0 e;
        variable_aligned = (same _ _).0 f;
        working_aligned = (same _ _).0 g;
        spare_aligned = (same _ _).0 i;
      },
  λ l. rw (
    (sum_same (variable_base pcds) _ _ ends.0).1 l.working_follows,
    (sum_same (ftw_working_base pcds) _ _ ends.1).1 l.spare_follows,
    (holds_block pcds.variable_size _ pos).1 l.variable_holds,
    (holds_block pcds.ftw_working_size _ pos).1 l.working_holds,
    (holds_block pcds.ftw_spare_size _ pos).1 l.spare_holds,
    l.variable_aligned,
    l.working_aligned,
    l.spare_aligned,
  ),
)

module _ {W : Type 0} (lib : NorFlashLib W) (pool : PoolLib W) (base : BaseLib) (guids : Guids)
    (pcds : Pcds) (inst : NorFlashInstance) (w : W) (pos : 0 < inst.media.block_size)
    (ends : EndsInRange pcds) where
  -- If a block is not empty, the variable and working areas end within 64-bit addresses and the
  -- areas are no layout, InitializeFvAndVariableStoreHeaders returns EFI_INVALID_PARAMETER and has
  -- done nothing but allocate its buffer, which it does not free.
  pub initialize_refused :
      ¬ (IsLayout pcds inst.media.block_size)
      → initialize_fv_and_variable_store_headers lib pool base guids pcds inst w
        ≡ some (error invalid_parameter, (pool.allocate_zero_pool headers_length w).1)
  unfolding initialize_fv_and_variable_store_headers
  initialize_refused no_layout = elim (Bool-cases (layout_refused pcds inst.media.block_size)) [
    | inl h ↦ rw h
    | inr h ↦ absurd (no_layout ((layout_refused_iff pcds _ pos ends).0 h))
  ]

  -- If a block is not empty, the variable and working areas end within 64-bit addresses and the
  -- areas are a layout, InitializeFvAndVariableStoreHeaders writes the headers once, at the first
  -- block of the volume, frees its buffer and returns the status of the write; if its buffer was
  -- not allocated it has written through NULL.
  pub initialize_accepted :
      IsLayout pcds inst.media.block_size
      → let (allocated, w1) = pool.allocate_zero_pool headers_length w in
        let (status, w2) =
          lib.nor_flash_write inst inst.start_lba 0 headers_length
            (combined_headers base guids pcds inst)
            w1 in
        initialize_fv_and_variable_store_headers lib pool base guids pcds inst w
        ≡ (if allocated then some (status, pool.free_pool w2) else none)
  unfolding initialize_fv_and_variable_store_headers
  initialize_accepted l = rw ((layout_refused_iff pcds _ pos ends).1 l)

module _ (base : BaseLib) (guids : Guids) (pcds : Pcds) (headers : Buffer) where
  -- The first four tests.
  pub record IsVolume : Type 0 where
    pub revision : load headers 55 1 ≡ fvh_revision
    pub signature : load headers 40 4 ≡ fvh_signature
    pub length : load headers 32 8 ≡ fv_length pcds
    pub guid : base.compare_guid (from headers 16) guids.system_nv_data_fv ≡ true

  -- The tests behind the first four, at the length that the header gives.
  pub record IsStore (length : ℕ) : Type 0 where
    pub sum : base.calculate_sum16 headers length ≡ 0
    pub guid :
        (base.compare_guid (from headers length) guids.variable ≡ true)
        ⊎ (base.compare_guid (from headers length) guids.authenticated_variable ≡ true)
    pub size : load headers (length + 16) 4 ≡ sub32 pcds.variable_size length
    pub inside : length + 20 ≤ headers_length

  validate_store_lem :
      (length : ℕ)
      → base.calculate_sum16 headers length ≡ 0
      → (validate_store base guids pcds headers length ≡ some success) ↔ IsStore length
  unfolding validate_store
  validate_store_lem length sum = (λ h. ground arith, λ s. ground arith)

  -- The tests in the words of BaseLib.
  pub validate_headers_tests :
      (validate_headers base guids pcds headers ≡ some success)
      ↔ (IsVolume × IsStore (load headers 48 2))
  unfolding validate_headers
  validate_headers_tests = (
    λ h. ground (arith, validate_store_lem (load headers 48 2)),
    λ s. ground (arith, validate_store_lem (load headers 48 2)),
  )

  -- If the bytes that were read pass the first four tests of ValidateFvHeader and their header
  -- length is more than the 100 bytes that were read, it reads behind their end.
  pub validate_headers_overrun :
      IsVolume
      → headers_length < load headers 48 2
      → validate_headers base guids pcds headers ≡ none
  unfolding validate_headers
  validate_headers_overrun v long =
      rw (v.revision, v.signature, v.length, v.guid, lt→ltb headers_length (load headers 48 2) long)
        (ground arith)
