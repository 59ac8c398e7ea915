-- ===== src/Driver/Ledger.antt =====
-- The blocks of the memory pools that NorFlashCreateInstance leaves allocated.
use mathlib.Core.Path.{subst}
use odp_platform_radxa_orion.Common.{
  ℕ, suc, ◌+◌, ◌<◌, ◌≤◌, ◌≡◌, ◌⊎◌, inl, inr, refl, ◌∙◌, ap, arith, Bool, true, false, not, Option,
  none, some, List, if◌then◌else◌,
}
use odp_platform_radxa_orion.Efi.{Status, error, efi_error}
use odp_platform_radxa_orion.Efi.{out_of_resources}
use odp_platform_radxa_orion.Flash.{Buffer, NorFlashInstance, NorFlashLib}
use odp_platform_radxa_orion.Fvb.Header.Environment.{Pcds, Guids, BaseLib, PoolLib}
use odp_platform_radxa_orion.Fvb.Header.Validate.{validate_fv_header, with_status}
use odp_platform_radxa_orion.Platform.{
  BootMode, boot_with_full_configuration, boot_with_default_settings, other_boot_mode,
}
use odp_platform_radxa_orion.Driver.Services.{Services, Protocol, Handler}
use odp_platform_radxa_orion.Driver.Template.{Addresses}
use odp_platform_radxa_orion.Driver.Create.{
  FvbState, Creation, header_status, published, place_volume, nor_flash_fvb_initialize,
  nor_flash_create_instance, with_shadow_buffer, with_instance, publish_instance, announce_volume,
}

-- One block more, if there is an address.
abbrev pub counted : Option ℕ → ℕ → ℕ
counted none n = n
counted (some address) n = suc n

-- The number of blocks that are allocated: an allocation that gives an address adds one, a block
-- that is freed is no longer counted, and the other calls keep the number.
pub record IsLedger {W : Type 0} (lib : NorFlashLib W) (pool : PoolLib W) (services : Services W)
    (live : W → ℕ) : Type 0 where
  pub copy_pool :
      (w : W)
      → live (services.allocate_runtime_copy_pool w).1
        ≡ counted (services.allocate_runtime_copy_pool w).0 (live w)
  pub zero_pool :
      (n : ℕ) (w : W)
      → live (services.allocate_runtime_zero_pool n w).1
        ≡ counted (services.allocate_runtime_zero_pool n w).0 (live w)
  pub header_pool :
      (n : ℕ) (w : W)
      → live (pool.allocate_zero_pool n w).1
        ≡ (if (pool.allocate_zero_pool n w).0 then suc (live w) else live w)
  pub freed :
      (address : ℕ) (w : W) → 0 < live w → suc (live (services.free_pool address w)) ≡ live w
  pub reads :
      (inst : NorFlashInstance) (lba offset n : ℕ) (buffer : Buffer) (w : W)
      → live (lib.nor_flash_read inst lba offset n buffer w).2 ≡ live w
  pub formatted : (w : W) → live (services.install_nv_var_store_formatted w).1 ≡ live w
  pub events : (handler : Handler) (w : W) → live (services.create_event_ex handler w).1 ≡ live w
  pub installs :
      (inst : NorFlashInstance) (protocols : List Protocol) (w : W)
      → live (services.install_multiple_protocol_interfaces inst protocols w).1 ≡ live w

module _ {W : Type 0} (live : W → ℕ) where
  -- What a creation leaves allocated: at least one block, although it failed, or the two of the
  -- instance that it stored; in both cases at most one more.
  abbrev pub Leaves : ℕ → Option (Creation W) → Type 0
  Leaves before none = Unit
  Leaves before (some c) =
      ((c.stored ≡ none) × (1 + before ≤ live c.world) × (live c.world ≤ 2 + before))
      ⊎ ((inst : NorFlashInstance) × (c.stored ≡ some inst)
          × (2 + before ≤ live c.world)
          × (live c.world ≤ 3 + before))

  -- What a creation leaves allocated, by what became of the allocation of its instance.
  abbrev pub LeavesFor : ℕ → Option ℕ → Option (Creation W) → Type 0
  LeavesFor before (some address) result = Leaves before result
  LeavesFor before none none = ⊥
  LeavesFor before none (some c) = (c.stored ≡ none) × (live c.world ≡ before)

module _ {W : Type 0} (lib : NorFlashLib W) (pool : PoolLib W) (base : BaseLib) (guids : Guids)
    (pcds : Pcds) (services : Services W) (live : W → ℕ)
    (ledger : IsLedger lib pool services live) where
  -- At most one block more than before.
  abbrev OneMore : ℕ → Option (Status × W) → Type 0
  OneMore before none = Unit
  OneMore before (some (status, w)) = (before ≤ live w) × (live w ≤ suc before)

  with_status-OneMore :
      (before : ℕ) (w : W) (result : Option Status)
      → live w ≡ suc before
      → OneMore before (with_status lib pool base guids pcds w result)
  with_status-OneMore before w none h = tt
  with_status-OneMore before w (some status) h = (omega arith, omega arith)

  tested-OneMore :
      (before : ℕ) (allocated failed : Bool) (status : Status) (result : Option Status) (w1 w2 : W)
      → live w1 ≡ (if allocated then suc before else before)
      → live w2 ≡ live w1
      → OneMore before (
          if not allocated
          then some (error out_of_resources, w1)
          else if failed
          then some (status, w2)
          else with_status lib pool base guids pcds w2 result)
  tested-OneMore before false failed status result w1 w2 h k = (omega arith, omega arith)
  tested-OneMore before true true status result w1 w2 h k =
      (omega (arith, h, k), omega (arith, h, k))
  tested-OneMore before true false status result w1 w2 h k =
      with_status-OneMore before w2 result (omega (arith, h, k))

  validate_fv_header-OneMore :
      (inst : NorFlashInstance) (w : W)
      → OneMore (live w) (validate_fv_header lib pool base guids pcds inst w)
  unfolding validate_fv_header
  validate_fv_header-OneMore inst w =
      tested-OneMore (live w) _ _ _ _ _ _ (ledger.header_pool _ w) (ledger.reads _ _ _ _ _ _)

  header_status-OneMore :
      (mode : BootMode) (inst : NorFlashInstance) (w : W)
      → OneMore (live w) (header_status lib pool base guids pcds services mode inst w)
  unfolding header_status
  header_status-OneMore boot_with_default_settings inst w = (omega arith, omega arith)
  header_status-OneMore boot_with_full_configuration inst w = validate_fv_header-OneMore inst w
  header_status-OneMore (other_boot_mode n) inst w = validate_fv_header-OneMore inst w

  -- The same of a volume that was set up.
  abbrev SetUp : ℕ → Option (FvbState W) → Type 0
  SetUp before none = Unit
  SetUp before (some fvb) = (before ≤ live fvb.world) × (live fvb.world ≤ suc before)

  announced :
      (before : ℕ) (failed : Bool) (fvb fvb' : FvbState W)
      → (before ≤ live fvb.world) × (live fvb.world ≤ suc before)
      → live fvb'.world ≡ live fvb.world
      → SetUp before (if failed then some fvb else some fvb')
  announced before true fvb fvb' h k = h
  announced before false fvb fvb' h k = (omega (arith, h, k), omega (arith, h, k))

  announce_volume-SetUp :
      (before : ℕ) (inst : NorFlashInstance) (header : Option (Status × W))
      → OneMore before header
      → SetUp before (announce_volume lib pool base guids pcds services inst header)
  unfolding announce_volume
  announce_volume-SetUp before inst none h = tt
  announce_volume-SetUp before inst (some (status, w)) h =
      announced before (efi_error status) _ _ h (ledger.events _ _ ∙ ledger.formatted w)

  nor_flash_fvb_initialize-SetUp :
      (inst : NorFlashInstance) (w : W)
      → SetUp (live w) (nor_flash_fvb_initialize lib pool base guids pcds services inst w)
  unfolding nor_flash_fvb_initialize
  nor_flash_fvb_initialize-SetUp inst w =
      announce_volume-SetUp (live w) (place_volume pcds inst) _ (header_status-OneMore _ _ _)

  module _ (addresses : Addresses) where
    installed :
        (before : ℕ) (failed : Bool) (c c' : Creation W) (inst : NorFlashInstance)
        → c.stored ≡ none
        → c'.stored ≡ some inst
        → 2 + before ≤ live c'.world
        → live c'.world ≤ 3 + before
        → suc (live c.world) ≡ live c'.world
        → Leaves live before (if failed then some c else some c')
    installed before true c c' inst e e' low high one =
        inl (e, omega (arith, one), omega (arith, one))
    installed before false c c' inst e e' low high one = inr (inst, e', low, high)

    publish_instance-Leaves :
        (before address : ℕ) (fvb : Option (FvbState W))
        → SetUp (2 + before) fvb
        → Leaves live before
            (publish_instance lib pool base guids pcds services addresses address fvb)
    unfolding publish_instance
    publish_instance-Leaves before address none h = tt
    publish_instance-Leaves before address (some fvb) h =
        let same = ledger.installs fvb.instance_after (published fvb.status) fvb.world in
        installed before _ _ _ fvb.instance_after refl refl (omega (arith, same, h))
          (omega (arith, same, h)) (ledger.freed address _ (omega (arith, same, h)))

    with_shadow_buffer-Leaves :
        (before address nv_base : ℕ) (inst : NorFlashInstance) (shadow : Option ℕ) (w : W)
        → live w ≡ counted shadow (1 + before)
        → Leaves live before (
            with_shadow_buffer lib pool base guids pcds services addresses address inst nv_base
              (shadow, w))
    unfolding with_shadow_buffer
    with_shadow_buffer-Leaves before address nv_base inst none w h =
        inl (refl, omega arith, omega arith)
    with_shadow_buffer-Leaves before address nv_base inst (some shadow) w h =
        publish_instance-Leaves before address _ (
          subst
            (λ n. SetUp n (
              nor_flash_fvb_initialize lib pool base guids pcds services
                (record inst { shadow_buffer = some shadow }) w))
            (h ∙ omega arith)
            (nor_flash_fvb_initialize-SetUp (record inst { shadow_buffer = some shadow }) w))

    with_instance-LeavesFor :
        (before device_base size index block_size nv_base : ℕ) (allocated : Option ℕ) (w : W)
        → live w ≡ counted allocated before
        → LeavesFor live before allocated (
            with_instance lib pool base guids pcds services addresses device_base size index
              block_size nv_base
              (allocated, w))
    unfolding with_instance
    with_instance-LeavesFor before device_base size index block_size nv_base none w h = (refl, h)
    with_instance-LeavesFor before device_base size index block_size nv_base (some address) w h =
        with_shadow_buffer-Leaves before address nv_base _ _ _
          (ledger.zero_pool block_size w ∙ ap (counted _) (h ∙ omega arith))

    -- Over services that count the allocated blocks of the pools: if the instance of a
    -- NorFlashCreateInstance whose last argument is not NULL is not allocated, the call stores
    -- nothing and leaves as many blocks as before. If it is allocated and the call returns without
    -- an instance, one block remains at least, and two at most; if it stores an instance, the
    -- blocks of the instance and of its shadow buffer remain, and one more at most.
    pub nor_flash_create_instance-LeavesFor :
        (device_base region_base size index block_size nv_base : ℕ) (w : W)
        → LeavesFor live (live w) (services.allocate_runtime_copy_pool w).0 (
            nor_flash_create_instance lib pool base guids pcds services addresses true device_base
              region_base size index block_size nv_base w)
    unfolding nor_flash_create_instance
    nor_flash_create_instance-LeavesFor device_base region_base size index block_size nv_base w =
        with_instance-LeavesFor (live w) device_base size index block_size nv_base _ _
          (ledger.copy_pool w)
