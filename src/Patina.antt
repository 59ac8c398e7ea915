-- ===== src/Patina.antt =====
-- The log lines of the Patina DXE core's binary, lib.rs. The buffer is a string of the crate
-- heapless, and the arguments of a message are the strings that their Display writes, in order.
pub mod Lines
use odp_platform_radxa_orion.Common.{
  ℕ, ◌-◌, ◌≡◌, ◌≤◌, ◌<◌, ◌+◌, Bool, false, true, ◌&&◌, Option, none, some, List, [], ◌∷◌, ◌++◌, ltb,
  leb, if◌then◌else◌,
}
use odp_platform_radxa_orion.Common.Lists.{length, get_elem?, take}

-- log::Level
pub data Level : Type 0 where
  error warn info debug trace : Level

-- The texts in UTF-8.
abbrev pub log_level_str : Level → List ℕ
log_level_str error = 69 ∷ 82 ∷ 82 ∷ 79 ∷ 82 ∷ []
log_level_str warn = 87 ∷ 65 ∷ 82 ∷ 78 ∷ []
log_level_str info = 73 ∷ 78 ∷ 70 ∷ 79 ∷ []
log_level_str debug = 68 ∷ 69 ∷ 66 ∷ 85 ∷ 71 ∷ []
log_level_str trace = 84 ∷ 82 ∷ 65 ∷ 67 ∷ 69 ∷ []

abbrev pub log_buffer_size : ℕ
log_buffer_size = 256

-- "\r\n"
abbrev pub crlf : List ℕ
crlf = 13 ∷ 10 ∷ []

-- "[Patina " and "] "
abbrev pub before_level : List ℕ
before_level = 91 ∷ 80 ∷ 97 ∷ 116 ∷ 105 ∷ 110 ∷ 97 ∷ 32 ∷ []

abbrev pub behind_level : List ℕ
behind_level = 93 ∷ 32 ∷ []

-- heapless::String. An error of push_str is `none`, and so is a panic of truncate.
pub record Heapless (S : Type 0) : Type 0 where
  pub new : S
  pub as_bytes : S → List ℕ
  pub push_str : S → List ℕ → Option S
  pub truncate : S → ℕ → Option S

-- A byte of UTF-8 inside a character.
abbrev pub is_continuation : ℕ → Bool
is_continuation b = leb 0x80 b && ltb b 0xC0

-- No character goes over the place.
abbrev pub is_char_boundary : List ℕ → ℕ → Bool
is_char_boundary bytes n = elim (get_elem? bytes n) [
  | none ↦ true
  | some b ↦ if is_continuation b then false else true
]

-- What heapless documents: push_str appends what fits the capacity as a whole, and truncate keeps
-- the first bytes, where it does not cut a character.
pub record IsHeapless {S : Type 0} (heapless : Heapless S) : Type 0 where
  pub new_empty : heapless.as_bytes heapless.new ≡ []
  pub push_fits :
      (s : S) (text : List ℕ)
      → length (heapless.as_bytes s) + length text ≤ log_buffer_size
      → (s' : S) × (heapless.push_str s text ≡ some s')
        × (heapless.as_bytes s' ≡ heapless.as_bytes s ++ text)
  pub push_full :
      (s : S) (text : List ℕ)
      → log_buffer_size < length (heapless.as_bytes s) + length text
      → heapless.push_str s text ≡ none
  pub truncates :
      (s : S) (n : ℕ)
      → n < length (heapless.as_bytes s)
      → is_char_boundary (heapless.as_bytes s) n ≡ true
      → (s' : S) × (heapless.truncate s n ≡ some s')
        × (heapless.as_bytes s' ≡ take n (heapless.as_bytes s))
  pub truncate_panics :
      (s : S) (n : ℕ)
      → n < length (heapless.as_bytes s)
      → is_char_boundary (heapless.as_bytes s) n ≡ false
      → heapless.truncate s n ≡ none

module _ {S : Type 0} (heapless : Heapless S) where
  -- write!, which stops at the first string that does not fit.
  unfoldable pub write_all : S → List (List ℕ) → S
  write_all buffer [] = buffer
  write_all buffer (text ∷ texts) = elim (heapless.push_str buffer text) [
    | none ↦ buffer
    | some more ↦ write_all more texts
  ]

  -- `let _ = buffer.push_str(CRLF)`
  unfoldable pub end_line : S → S
  end_line buffer = elim (heapless.push_str buffer crlf) [ none ↦ buffer | some line ↦ line ]

  -- The end of the function: `none` is the panic of truncate.
  unfoldable pub close_line : S → Option S
  close_line buffer =
      if ltb (log_buffer_size - length crlf) (length (heapless.as_bytes buffer))
      then (elim (heapless.truncate buffer (log_buffer_size - length crlf)) [
        | none ↦ none
        | some body ↦ some (end_line body)
      ])
      else some (end_line buffer)

  unfoldable pub format_log_message : List ℕ → List (List ℕ) → Option S
  format_log_message level args =
      close_line (write_all heapless.new (before_level ∷ level ∷ behind_level ∷ args))
