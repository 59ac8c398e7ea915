-- ===== src/Patina/Lines.antt =====
-- What format_log_message makes of a message.
use mathlib.Core.Path.{subst}
use mathlib.Core.List.{append-nil, append_assoc}
use odp_platform_radxa_orion.Common.{
  ℕ, ◌-◌, ◌≡◌, ◌≤◌, ◌<◌, ◌+◌, ◌∙◌, refl, sym, ap, Bool-cases, inl, inr, false, Option, none, some,
  List, [], ◌∷◌, ◌++◌, ltb, leb, if◌then◌else◌, arith,
}
use odp_platform_radxa_orion.Common.Lists.{length, length-append, take, length-take, take-all}
use odp_platform_radxa_orion.Patina.{
  Level, error, warn, info, debug, trace, log_level_str, log_buffer_size, crlf, before_level,
  behind_level, Heapless, IsHeapless, is_char_boundary, write_all, end_line, close_line,
  format_log_message,
}

-- The texts in order, up to the first one that has no room as a whole.
abbrev pub fitting : ℕ → List (List ℕ) → List ℕ
fitting room [] = []
fitting room (text ∷ texts) =
    let rest = fitting (room - length text) texts in
    if leb (length text) room then text ++ rest else []

fitting_fits : (room : ℕ) (texts : List (List ℕ)) → length (fitting room texts) ≤ room
fitting_fits room [] = omega arith
fitting_fits room (text ∷ texts) = elim (Bool-cases (leb (length text) room)) [
  | inl e ↦ rw e (
      ground (
        arith,
        length-append text (fitting (room - length text) texts),
        fitting_fits (room - length text) texts,
      ))
  | inr e ↦ rw e (omega arith)
]

-- The bytes of a line: the level, and the message's texts as far as they fit.
abbrev pub line_body : List ℕ → List (List ℕ) → List ℕ
line_body level args = fitting log_buffer_size (before_level ∷ level ∷ behind_level ∷ args)

-- "[Patina {LEVEL}] "
abbrev pub prefix : Level → List ℕ
prefix level = before_level ++ (log_level_str level ++ behind_level)

line_body_lem :
    (level : Level) (args : List (List ℕ))
    → line_body (log_level_str level) args
      ≡ prefix level ++ fitting (log_buffer_size - length (prefix level)) args
line_body_lem error args = refl
line_body_lem warn args = refl
line_body_lem info args = refl
line_body_lem debug args = refl
line_body_lem trace args = refl

module _ {S : Type 0} (heapless : Heapless S) where
  -- A line with the body cut to 254 bytes, or the panic where that cuts a character.
  abbrev pub Closed : List ℕ → Option S → Type 0
  Closed body none = (254 < length body) × (is_char_boundary body 254 ≡ false)
  Closed body (some line) =
      (heapless.as_bytes line ≡ take 254 body ++ crlf)
      × (length (heapless.as_bytes line) ≤ log_buffer_size)

module _ {S : Type 0} (heapless : Heapless S) (laws : IsHeapless heapless) where
  write_all-fitting :
      (room : ℕ) (texts : List (List ℕ)) (buffer : S)
      → room + length (heapless.as_bytes buffer) ≡ log_buffer_size
      → heapless.as_bytes (write_all heapless buffer texts)
        ≡ heapless.as_bytes buffer ++ fitting room texts
  unfolding write_all
  write_all-fitting room [] buffer h = sym (append-nil _)
  write_all-fitting room (text ∷ texts) buffer h = elim (Bool-cases (leb (length text) room)) [
    | inl e ↦
        let (more, pushed, bytes) = laws.push_fits buffer text (ground arith) in
        rw (e, write_all, pushed)
          (write_all-fitting (room - length text) texts more (
              ground (
                arith,
                ap (λ (t : List ℕ). length t) bytes,
                length-append (heapless.as_bytes buffer) text,
              ))
            ∙ ap (λ t. t ++ fitting (room - length text) texts) bytes
            ∙ append_assoc (heapless.as_bytes buffer) text (fitting (room - length text) texts))
    | inr e ↦ rw (e, write_all, laws.push_full buffer text (ground arith)) (sym (append-nil _))
  ]

  -- What a message leaves in the buffer.
  written :
      (level : List ℕ) (args : List (List ℕ))
      → heapless.as_bytes
          (write_all heapless heapless.new (before_level ∷ level ∷ behind_level ∷ args))
        ≡ line_body level args
  written level args =
      write_all-fitting log_buffer_size (before_level ∷ level ∷ behind_level ∷ args) heapless.new
        (ground (arith, ap (λ (t : List ℕ). length t) laws.new_empty))
      ∙ ap (λ t. t ++ line_body level args) laws.new_empty

  end_line_lem :
      (buffer : S)
      → length (heapless.as_bytes buffer) ≤ 254
      → heapless.as_bytes (end_line heapless buffer) ≡ heapless.as_bytes buffer ++ crlf
  unfolding end_line
  end_line_lem buffer h =
      let (line, pushed, bytes) = laws.push_fits buffer crlf (omega arith) in
      rw (end_line, pushed) bytes

  ended :
      (buffer : S) (body : List ℕ)
      → heapless.as_bytes buffer ≡ take 254 body
      → Closed heapless body (some (end_line heapless buffer))
  ended buffer body e =
      let bytes =
        end_line_lem buffer (omega (arith, ap (λ (t : List ℕ). length t) e, length-take 254 body))
        ∙ ap (λ t. t ++ crlf) e in
      (
        bytes,
        omega (
          arith,
          ap (λ (t : List ℕ). length t) bytes,
          length-append (take 254 body) crlf,
          length-take 254 body,
        ),
      )

  cut_line :
      (buffer : S)
      → 254 < length (heapless.as_bytes buffer)
      → Closed heapless (heapless.as_bytes buffer) (elim (heapless.truncate buffer 254) [
        | none ↦ none
        | some body ↦ some (end_line heapless body)
      ])
  cut_line buffer h = elim (Bool-cases (is_char_boundary (heapless.as_bytes buffer) 254)) [
    | inl e ↦
        let (body, cut, bytes) = laws.truncates buffer 254 h e in
        rw cut (ended body (heapless.as_bytes buffer) bytes)
    | inr e ↦ rw (laws.truncate_panics buffer 254 h e) (h, e)
  ]

  close_line-Closed :
      (buffer : S) → Closed heapless (heapless.as_bytes buffer) (close_line heapless buffer)
  unfolding close_line
  close_line-Closed buffer = elim (Bool-cases (ltb 254 (length (heapless.as_bytes buffer)))) [
    | inl e ↦ rw (close_line, e) (cut_line buffer (ground arith))
    | inr e ↦
        rw (close_line, e)
          (ended buffer (heapless.as_bytes buffer)
            (sym (take-all 254 (heapless.as_bytes buffer) (ground arith))))
  ]

  format_log_message-Closed :
      (level : List ℕ) (args : List (List ℕ))
      → Closed heapless (line_body level args) (format_log_message heapless level args)
  unfolding format_log_message
  format_log_message-Closed level args =
      subst (λ body. Closed heapless body (format_log_message heapless level args))
        (written level args) (close_line-Closed _)

  -- With a heapless string that keeps its laws, format_log_message for a level and the texts of a
  -- message makes a line of at most 256 bytes: "[Patina LEVEL] " and the texts in order up to the
  -- first one that has no room as a whole in 256 bytes, cut behind 254 bytes, and then CR LF. It
  -- panics instead only if the cut is in the middle of a character.
  pub log_line-Closed :
      (level : Level) (args : List (List ℕ))
      → Closed heapless
          (prefix level ++ fitting (log_buffer_size - length (prefix level)) args)
          (format_log_message heapless (log_level_str level) args)
  log_line-Closed level args =
      subst (λ body. Closed heapless body (format_log_message heapless (log_level_str level) args))
        (line_body_lem level args) (format_log_message-Closed (log_level_str level) args)
