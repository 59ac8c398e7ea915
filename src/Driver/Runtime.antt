-- ===== src/Driver/Runtime.antt =====
-- The volume before and behind SetVirtualAddressMap: the clients call the protocol, and at some
-- time NorFlashVirtualNotifyEvent converts the instance that the protocol works on.
use mathlib.Core.Path.{subst}
use odp_platform_radxa_orion.Common.{
  ℕ, ◌+◌, ◌*◌, ◌<◌, ◌≤◌, ◌≡◌, refl, sym, ◌∙◌, ap₂, false, List, [], ◌∷◌,
}
use odp_platform_radxa_orion.Efi.{success}
use odp_platform_radxa_orion.Flash.{Buffer, NorFlashInstance, NorFlashLib}
use odp_platform_radxa_orion.Flash.Laws.{IsNorFlash}
use odp_platform_radxa_orion.Fvb.Transfer.{fvb_read}
use odp_platform_radxa_orion.Fvb.Transfer.Branches.{IsBlockSize}
use odp_platform_radxa_orion.Fvb.Transfer.Contents.{IsRequest}
use odp_platform_radxa_orion.Fvb.Erase.Contents.{IsAddressable}
use odp_platform_radxa_orion.Fvb.Volume.{Op, apply, view, Step, done}
use odp_platform_radxa_orion.Fvb.Volume.Refine.{Step-apply, fvb_read-apply_all}
use odp_platform_radxa_orion.Driver.Start.{convert_instance}

-- What happens to the driver: a client calls an operation, or the operating system sets its map of
-- the addresses.
pub data Event : Type 0 where
  call : Op → Event
  set_virtual_map : (ℕ → ℕ) → Event

-- What an event does to the array of bytes.
abbrev pub apply_event : ℕ → Event → Buffer → Buffer
apply_event block_size (call op) bytes = apply block_size op bytes
apply_event block_size (set_virtual_map convert) bytes = bytes

abbrev pub apply_events : ℕ → List Event → Buffer → Buffer
apply_events block_size [] bytes = bytes
apply_events block_size (event ∷ events) bytes =
    apply_events block_size events (apply_event block_size event bytes)

-- A writable volume with blocks of 1 to 2^32 - 1 bytes, whose last block and size in bytes are
-- 64-bit words.
pub record IsUsable (inst : NorFlashInstance) : Type 0 where
  pub block_size : IsBlockSize inst.media.block_size
  pub addressable : IsAddressable inst
  pub writable : inst.media.read_only ≡ false

module _ {W : Type 0} (lib : NorFlashLib W) (contents : W → Buffer) where
  -- The steps of the driver's state, the instance and the world.
  pub data Move : NorFlashInstance → W → Event → NorFlashInstance → W → Type 0 where
    calls :
        (inst : NorFlashInstance) (w w' : W) (op : Op)
        → Step lib contents inst w op w'
        → Move inst w (call op) inst w'
    maps :
        (inst : NorFlashInstance) (w : W) (convert : ℕ → ℕ)
        → Move inst w (set_virtual_map convert) (convert_instance convert inst) w

  pub data Moves : NorFlashInstance → W → List Event → NorFlashInstance → W → Type 0 where
    stays : (inst : NorFlashInstance) (w : W) → Moves inst w [] inst w
    moves :
        (inst inst' inst'' : NorFlashInstance) (w w' w'' : W) (event : Event) (events : List Event)
        → Move inst w event inst' w'
        → Moves inst' w' events inst'' w''
        → Moves inst w (event ∷ events) inst'' w''

-- What an event leaves as it is.
pub record SameVolume (inst inst' : NorFlashInstance) : Type 0 where
  pub start : inst'.start_lba ≡ inst.start_lba
  pub count : inst'.blocks ≡ inst.blocks
  pub size : inst'.media.block_size ≡ inst.media.block_size

pub IsUsable-convert :
    (convert : ℕ → ℕ) (inst : NorFlashInstance)
    → IsUsable inst
    → IsUsable (convert_instance convert inst)
unfolding convert_instance
IsUsable-convert convert inst usable = record {
  block_size = usable.block_size;
  addressable = record { last = usable.addressable.last; bytes = usable.addressable.bytes };
  writable = usable.writable;
}

module _ {W : Type 0} (lib : NorFlashLib W) (contents : W → Buffer)
    (laws : IsNorFlash lib contents) where
  -- What a sequence of events has done.
  abbrev Done : NorFlashInstance → W → List Event → NorFlashInstance → W → Type 0
  Done inst w events inst' w' =
      IsUsable inst'
      × SameVolume inst inst'
      × (view contents inst' w' ≡ apply_events inst.media.block_size events (view contents inst w))

  Move-Done :
      (inst inst' : NorFlashInstance) (w w' : W) (event : Event)
      → IsUsable inst
      → Move lib contents inst w event inst' w'
      → Done inst w (event ∷ []) inst' w'
  unfolding convert_instance
  Move-Done _ _ _ _ _ usable (calls inst w w' op step) = (
    usable,
    record { start = refl; count = refl; size = refl },
    Step-apply lib contents laws inst usable.block_size usable.addressable usable.writable step,
  )
  Move-Done _ _ _ _ _ usable (maps inst w convert) = (
    IsUsable-convert convert inst usable,
    record { start = refl; count = refl; size = refl },
    refl,
  )

  Moves-Done :
      {inst inst' : NorFlashInstance} {w w' : W} {events : List Event}
      → IsUsable inst
      → Moves lib contents inst w events inst' w'
      → Done inst w events inst' w'
  Moves-Done usable (stays inst w) =
      (usable, record { start = refl; count = refl; size = refl }, refl)
  Moves-Done usable (moves inst inst' inst'' w w' w'' event events first later) =
      let (usable', same, bytes) = Move-Done inst inst' w w' event usable first in
      let (usable'', same', bytes') = Moves-Done usable' later in
      (
        usable'',
        record {
          start = same'.start ∙ same.start;
          count = same'.count ∙ same.count;
          size = same'.size ∙ same.size;
        },
        bytes' ∙ ap₂ (λ b v. apply_events b events v) same.size bytes,
      )

  -- The volume refines an array of bytes across SetVirtualAddressMap. Over a flash that keeps its
  -- laws, on a writable volume with blocks of 1 to 2^32 - 1 bytes whose last block and size in
  -- bytes are 64-bit words: behind any sequence of reads, of writes to erased bytes without an
  -- error and of erasures without an error, of requests that the protocol serves as documented and
  -- of blocks of the volume, and of conversions of the instance by NorFlashVirtualNotifyEvent
  -- between them, the instance is still such a volume, at the same blocks, the volume holds the
  -- bytes that the array holds behind the calls alone, and an FvbRead of the converted instance
  -- within a block that returns EFI_SUCCESS gives the array's bytes.
  pub fvb_read-apply_events :
      (inst inst' : NorFlashInstance) (w w' : W) (events : List Event) (lba offset n : ℕ)
      (into : Buffer)
      → IsUsable inst
      → Moves lib contents inst w events inst' w'
      → IsRequest inst.media.block_size offset n
      → lba < inst.blocks
      → offset + n ≤ inst.media.block_size
      → (fvb_read lib inst' lba offset n into w').status ≡ success
      → IsUsable inst'
        × SameVolume inst inst'
        × (view contents inst' w'
            ≡ apply_events inst.media.block_size events (view contents inst w))
        × ((i : ℕ)
            → i < n
            → (fvb_read lib inst' lba offset n into w').buffer i
              ≡ apply_events inst.media.block_size events
                  (view contents inst w)
                  (lba * inst.media.block_size + offset + i))
  fvb_read-apply_events inst inst' w w' events lba offset n into usable steps request inside room
        ok =
      let (usable', same, bytes) = Moves-Done usable steps in
      let got =
        fvb_read-apply_all lib contents laws inst' usable'.block_size usable'.addressable
          usable'.writable w' w' [] lba offset n into done
          (subst (λ b. IsRequest b offset n) (sym same.size) request)
          (subst (λ b. lba < b) (sym same.count) inside)
          (subst (λ b. offset + n ≤ b) (sym same.size) room) ok in
      (
        usable',
        same,
        bytes,
        λ i h. got.1 i h ∙ ap₂ (λ (b : ℕ) (v : Buffer). v (lba * b + offset + i)) same.size bytes,
      )
