-- ===== src/Fvb/Header/Accepted.antt =====
-- The bytes that ValidateFvHeader accepts, with a BaseLib that keeps its laws.
use odp_platform_radxa_orion.Common.{
  ℕ, ◌+◌, ◌*◌, ◌%◌, ◌^◌, ◌<◌, ◌≤◌, ◌≡◌, ◌⊎◌, ◌↔◌, inl, inr, sym, ◌∙◌, some, sub32,
}
use odp_platform_radxa_orion.Efi.{success}
use odp_platform_radxa_orion.Flash.{Buffer}
use odp_platform_radxa_orion.Fvb.Header.Memory.{load, from}
use odp_platform_radxa_orion.Fvb.Header.Environment.{Pcds, Guids, BaseLib, IsBaseLib, word_sum}
use odp_platform_radxa_orion.Fvb.Header.Build.{
  headers_length, fvh_revision, fvh_signature, fv_length,
}
use odp_platform_radxa_orion.Fvb.Header.Validate.{validate_headers}
use odp_platform_radxa_orion.Fvb.Header.Checks.{IsVolume, IsStore, validate_headers_tests}

-- The 16 bytes of a GUID stand in a buffer.
abbrev pub HasGuid : Buffer → ℕ → Buffer → Type 0
HasGuid bytes offset guid = (i : ℕ) → i < 16 → bytes (offset + i) ≡ guid i

-- A header of `words` 16-bit words for the volume of the PCDs, with the header of a variable store
-- behind it.
pub record IsFormatted (guids : Guids) (pcds : Pcds) (bytes : Buffer) (words : ℕ) : Type 0 where
  pub revision : load bytes 55 1 ≡ fvh_revision
  pub signature : load bytes 40 4 ≡ fvh_signature
  pub length : load bytes 32 8 ≡ fv_length pcds
  pub volume_guid : HasGuid bytes 16 guids.system_nv_data_fv
  pub sum : word_sum bytes words % 2 ^ 16 ≡ 0
  pub store_guid :
      HasGuid bytes (2 * words) guids.variable
      ⊎ HasGuid bytes (2 * words) guids.authenticated_variable
  pub store_size : load bytes (2 * words + 16) 4 ≡ sub32 pcds.variable_size (2 * words)
  pub inside : 2 * words + 20 ≤ headers_length

module _ (base : BaseLib) (laws : IsBaseLib base) (guids : Guids) (pcds : Pcds) (bytes : Buffer)
    (words : ℕ) (even : load bytes 48 2 ≡ 2 * words) where
  accepted :
      IsVolume base guids pcds bytes
      → IsStore base guids pcds bytes (2 * words)
      → IsFormatted guids pcds bytes words
  accepted v s = record {
    revision = v.revision;
    signature = v.signature;
    length = v.length;
    volume_guid = (laws.compare (from bytes 16) guids.system_nv_data_fv).0 v.guid;
    sum = sym (laws.sum16 bytes words) ∙ s.sum;
    store_guid = elim s.guid [
      | inl e ↦ inl ((laws.compare (from bytes (2 * words)) guids.variable).0 e)
      | inr e ↦ inr ((laws.compare (from bytes (2 * words)) guids.authenticated_variable).0 e)
    ];
    store_size = s.size;
    inside = s.inside;
  }

  IsVolume-formatted : IsFormatted guids pcds bytes words → IsVolume base guids pcds bytes
  IsVolume-formatted f = record {
    revision = f.revision;
    signature = f.signature;
    length = f.length;
    guid = (laws.compare (from bytes 16) guids.system_nv_data_fv).1 f.volume_guid;
  }

  IsStore-formatted : IsFormatted guids pcds bytes words → IsStore base guids pcds bytes (2 * words)
  IsStore-formatted f = record {
    sum = laws.sum16 bytes words ∙ f.sum;
    guid = elim f.store_guid [
      | inl e ↦ inl ((laws.compare (from bytes (2 * words)) guids.variable).1 e)
      | inr e ↦ inr ((laws.compare (from bytes (2 * words)) guids.authenticated_variable).1 e)
    ];
    size = f.store_size;
    inside = f.inside;
  }

  -- With a BaseLib that keeps its laws, for bytes whose header length is even: the tests of
  -- ValidateFvHeader accept them exactly if the volume header has the revision, the signature, the
  -- length and the 16 bytes of the GUID of the volume, the 16-bit words up to its header length
  -- sum to zero modulo 2^16, and behind that length stands a variable store header with the 16
  -- bytes of one of the two GUIDs and the size of the variable store less that length, all within
  -- the 100 bytes that were read.
  pub validate_headers_iff :
      (validate_headers base guids pcds bytes ≡ some success) ↔ IsFormatted guids pcds bytes words
  validate_headers_iff =
      let (sound, complete) = validate_headers_tests base guids pcds bytes in
      (
        λ h. let (v, s) = sound h in accepted v (rw even at s),
        λ f. complete (IsVolume-formatted f, rw even (IsStore-formatted f)),
      )
