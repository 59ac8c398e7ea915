-- ===== src/Tests/Tables.antt =====
-- A source of two devices, with a lexer for texts without comments and strings.
use Prim.Native.Char.{code}
use Prim.Native.String.{String}
use odp_platform_radxa_orion.Common.{
  ℕ, suc, ◌+◌, ◌<◌, ◌≤◌, ◌≡◌, ◌↔◌, refl, ◌==◌, if◌then◌else◌, some, List, [], ◌∷◌, arith,
  Bool-cases, inl, inr,
}
use odp_platform_radxa_orion.Common.Lists.{length, All}
use odp_platform_radxa_orion.Asl.{
  Text, Item, Lexer, open_brace, close_brace, other, extract_named_block, extract_device_block,
  block_at, scan, str_find, is_prefix,
}
use odp_platform_radxa_orion.Asl.Blocks.{IsLexer}
use odp_platform_radxa_orion.Asl.Named.{IsNamedBlock, extract_named_block_iff}
use odp_platform_radxa_orion.Asl.Titles.{IsTitled, extract_named_block-IsTitled}

abbrev codes : String → Text
codes String.[] = []
codes (String.◌∷◌ c s) = code c ∷ codes s

-- One token for each byte that is no blank, from a position on.
abbrev token : ℕ → ℕ → List Item → List Item
token c end rest =
    if c == b' '
    then rest
    else if c == b'{'
    then (some open_brace, end) ∷ rest
    else if c == b'}'
    then (some close_brace, end) ∷ rest
    else (some other, end) ∷ rest

tokens : ℕ → Text → List Item
tokens i [] = []
tokens i (c ∷ cs) = token c (suc i) (tokens (suc i) cs)

abbrev lexer : Lexer
lexer = tokens 0

token-All :
    (P : Item → Type 0) (c end : ℕ) (rest : List Item)
    → ((t : Item) → t.1 ≡ end → P t)
    → All P rest
    → All P (token c end rest)
token-All P c end rest h k = elim (Bool-cases (c == b' ')) [
  | inl e ↦ rw e k
  | inr e ↦ rw e (elim (Bool-cases (c == b'{')) [
    | inl f ↦ rw f (h (some open_brace, end) refl, k)
    | inr f ↦ rw f (elim (Bool-cases (c == b'}')) [
      | inl g ↦ rw g (h (some close_brace, end) refl, k)
      | inr g ↦ rw g (h (some other, end) refl, k)
    ])
  ])
]

tokens-spans :
    (i n : ℕ) (cs : Text) → i + length cs ≤ n → All (λ t. (0 < t.1) × (t.1 ≤ n)) (tokens i cs)
unfolding tokens
tokens-spans i n [] h = tt
tokens-spans i n (c ∷ cs) h =
    token-All _ c (suc i) (tokens (suc i) cs) (λ t e. (omega arith, omega arith))
      (tokens-spans (suc i) n cs (omega arith))

tokens-count : (i : ℕ) (cs : Text) → length (tokens i cs) ≤ length cs
unfolding tokens
tokens-count i [] = omega arith
tokens-count i (c ∷ cs) = ground (arith, tokens-count (suc i) cs)

lexer-IsLexer : IsLexer lexer
unfolding tokens
lexer-IsLexer = record {
  at_brace = λ cs. (tokens 1 cs, refl);
  spans = λ cs. tokens-spans 0 (length cs) cs (omega arith);
  count = λ cs. tokens-count 0 cs;
}

abbrev source : Text
source = codes "Device(TMPT){A} Device (HWMN) {Method(_STA){B}C} Device(X){}"

abbrev block : Text
block = codes "Device (HWMN) {Method(_STA){B}C}"

abbrev device : Text
device = codes "Device"

abbrev hwmn : Text
hwmn = codes "HWMN"

extracted : extract_device_block lexer source hwmn ≡ some block
unfolding extract_named_block block_at scan str_find is_prefix tokens
extracted = refl

extract_named_block_iff_example :
    (extract_named_block lexer source device hwmn ≡ some block)
    ↔ IsNamedBlock lexer source device hwmn block
extract_named_block_iff_example =
    extract_named_block_iff lexer lexer-IsLexer source device hwmn block (omega arith)

extract_named_block-IsTitled_example : IsTitled device hwmn block
extract_named_block-IsTitled_example =
    extract_named_block-IsTitled lexer source device hwmn block lexer-IsLexer (omega arith)
      (omega arith) (omega arith) extracted
