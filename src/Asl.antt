-- ===== src/Asl.antt =====
-- main.rs of common/tests/acpi: extract_named_block, which cuts a block of braces out of the source
-- of the ACPI tables. The lexer that the crate logos generates for AslToken is a parameter. A result
-- `none` is a panic, as the tests are built with checks of overflow.
pub mod Find
pub mod Braces
pub mod Blocks
pub mod Named
pub mod Titles
use odp_platform_radxa_orion.Common.{
  ℕ, zero, suc, ◌+◌, ◌-◌, ◌^◌, Bool, true, false, ◌&&◌, ◌||◌, Option, none, some, List, [], ◌∷◌,
  ◌++◌, ltb, ◌==◌, if◌then◌else◌, min,
}
use odp_platform_radxa_orion.Common.Lists.{take, drop}

-- The bytes of a text.
abbrev pub Text : Type 0
Text = List ℕ

pub data AslToken : Type 0 where
  block_comment line_comment string_literal open_brace close_brace other slash : AslToken

-- A token, or an error of the lexer, and the end of its span.
abbrev pub Item : Type 0
Item = Option AslToken × ℕ

abbrev pub Lexer : Type 0
Lexer = Text → List Item

-- str::find, the position of the first occurrence.
unfoldable pub is_prefix : Text → Text → Bool
is_prefix [] s = true
is_prefix (p ∷ ps) [] = false
is_prefix (p ∷ ps) (c ∷ cs) = p == c && is_prefix ps cs

abbrev pub next_position : Option ℕ → Option ℕ
next_position none = none
next_position (some i) = some (suc i)

unfoldable pub str_find : Text → Text → Option ℕ
str_find pattern [] = if is_prefix pattern [] then some 0 else none
str_find pattern (c ∷ cs) =
    let rest = next_position (str_find pattern cs) in
    if is_prefix pattern (c ∷ cs) then some 0 else rest

-- str::contains
unfoldable pub str_contains : Text → Text → Bool
str_contains s pattern = elim (str_find pattern s) [ none ↦ false | some i ↦ true ]

-- `format!("{}({})", keyword, name)` and `format!("{} ({})", keyword, name)`
abbrev pub pattern : Text → Text → Text
pattern keyword name = keyword ++ (b'(' ∷ (name ++ (b')' ∷ [])))

abbrev pub spaced_pattern : Text → Text → Text
spaced_pattern keyword name = keyword ++ (b' ' ∷ (b'(' ∷ (name ++ (b')' ∷ []))))

-- The smaller one of the positions that there are.
abbrev pub earliest : Option ℕ → Option ℕ → Option ℕ
earliest none b = b
earliest (some i) none = some i
earliest (some i) (some j) = some (min i j)

-- What the loop's match tells apart.
pub data Brace : Type 0 where
  opens closes neither : Brace

abbrev pub brace_of : Option AslToken → Brace
brace_of (some open_brace) = opens
brace_of (some close_brace) = closes
brace_of _ = neither

-- The loop over the tokens behind the opening brace at `start`: the end of the brace that brings
-- the depth back to zero, and zero if there is none. The depth is a u32.
unfoldable pub scan : ℕ → ℕ → List Item → Option ℕ
scan start depth [] = some 0
scan start depth ((token, end) ∷ items) = elim (brace_of token) [
  | opens ↦ if depth + 1 == 2 ^ 32 then none else scan start (depth + 1) items
  | closes ↦
      if depth == 0
      then none
      else if depth - 1 == 0
      then some (start + end)
      else scan start (depth - 1) items
  | neither ↦ scan start depth items
]

-- The assertion on `end`, and the block up to it.
abbrev pub cut : Text → Option ℕ → Option Text
cut rest none = none
cut rest (some end) = if ltb 0 end then some (take end rest) else none

-- From the start of the block on.
unfoldable pub block_at : Lexer → Text → Option Text
block_at lexer rest = elim (str_find (b'{' ∷ []) rest) [
  | none ↦ none
  | some start ↦ cut rest (scan start 0 (lexer (drop start rest)))
]

unfoldable pub extract_named_block : Lexer → Text → Text → Text → Option Text
extract_named_block lexer source keyword name =
    elim (earliest (str_find (pattern keyword name) source)
      (str_find (spaced_pattern keyword name) source)) [
        | none ↦ none
        | some start ↦ block_at lexer (drop start source)
      ]

-- extract_device_block, with the keyword "Device"
abbrev pub extract_device_block : Lexer → Text → Text → Option Text
extract_device_block lexer source device_name =
    extract_named_block lexer source (b'D' ∷ b'e' ∷ b'v' ∷ b'i' ∷ b'c' ∷ b'e' ∷ []) device_name
