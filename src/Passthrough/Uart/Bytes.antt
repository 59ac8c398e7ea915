-- ===== src/Passthrough/Uart/Bytes.antt =====
-- One byte over the registers of the UART: what the driver expects of them, and its loops that wait
-- for a flag.
use odp_platform_radxa_orion.Common.{
  ℕ, zero, suc, ◌%◌, ◌^◌, ◌<◌, ◌≤◌, ◌≡◌, ◌≢◌, refl, sym, ◌∙◌, ap, ap₂, Bool, true, false, Option,
  none, some, List, [], ◌∷◌, arith, inl, inr, Bool-cases,
}
use odp_platform_radxa_orion.Passthrough.{Line, write}
use odp_platform_radxa_orion.Passthrough.Uart.{
  Registers, is_full, is_empty, poll, write_byte, read_byte,
}

-- What the driver expects of the UART: `line` is what was sent and what the controller sends from
-- now on. Flags are read without an effect on the line. A byte that is written where the
-- transmitter has room is sent; where the receiver is not empty, the next byte is read. The
-- transmitter makes room, and a byte that the controller sends arrives, within fewer than `bound`
-- reads of the flags.
pub record IsUart {S : Type 0} (uart : Registers S) (line : S → Line) (bound : ℕ) : Type 0 where
  pub flags_keep : (s : S) → line (uart.read_fr s).1 ≡ line s
  pub sends :
      (s : S) (c : ℕ)
      → is_full (uart.read_fr s).0 ≡ false
      → line (uart.write_dr c (uart.read_fr s).1) ≡ write (c ∷ []) (line s)
  pub receives :
      (s : S)
      → is_empty (uart.read_fr s).0 ≡ false
      → (b : ℕ) × (rest : List ℕ) × ((line s).incoming ≡ b ∷ rest)
        × ((uart.read_dr (uart.read_fr s).1).0 % 2 ^ 8 ≡ b)
        × (line (uart.read_dr (uart.read_fr s).1).1 ≡ record (line s) { incoming = rest })
  pub until_room : S → ℕ
  pub room_bound : (s : S) → until_room s < bound
  pub drains :
      (s : S) → is_full (uart.read_fr s).0 ≡ true → until_room (uart.read_fr s).1 < until_room s
  pub until_byte : S → ℕ
  pub byte_bound : (s : S) → until_byte s < bound
  pub arrives :
      (s : S)
      → (line s).incoming ≢ []
      → is_empty (uart.read_fr s).0 ≡ true
      → until_byte (uart.read_fr s).1 < until_byte s

cons_eq : (a b : ℕ) (as' bs : List ℕ) → a ∷ as' ≡ b ∷ bs → (a ≡ b) × (as' ≡ bs)
cons_eq a b as' bs e = (cc, cc)

module _ {S : Type 0} (uart : Registers S) where
  poll_busy :
      (flag : ℕ → Bool) (rounds : ℕ) (s : S)
      → flag (uart.read_fr s).0 ≡ true
      → poll uart flag (suc rounds) s ≡ poll uart flag rounds (uart.read_fr s).1
  unfolding poll
  poll_busy flag rounds s e = rw (e, poll) refl

  poll_ready :
      (flag : ℕ → Bool) (rounds : ℕ) (s : S)
      → flag (uart.read_fr s).0 ≡ false
      → poll uart flag (suc rounds) s ≡ some (uart.read_fr s).1
  unfolding poll
  poll_ready flag rounds s e = rw (e, poll) refl

module _ {S : Type 0} (uart : Registers S) (line : S → Line) (bound : ℕ)
    (laws : IsUart uart line bound) where
  -- The flags were read in a state with the same line in which the flag is clear.
  abbrev Ready : (ℕ → Bool) → S → Option S → Type 0
  Ready flag s polled =
      (t : S) × (polled ≡ some (uart.read_fr t).1)
      × (flag (uart.read_fr t).0 ≡ false)
      × (line t ≡ line s)

  -- A loop ends that comes nearer to its end in each round.
  poll-Ready :
      (flag : ℕ → Bool) (measure : S → ℕ) (l : Line) (rounds : ℕ) (s : S)
      → ((t : S)
          → line t ≡ l
          → flag (uart.read_fr t).0 ≡ true
          → measure (uart.read_fr t).1 < measure t)
      → line s ≡ l
      → measure s < rounds
      → Ready flag s (poll uart flag rounds s)
  poll-Ready flag measure l zero s nearer same h = absurd (omega arith)
  poll-Ready flag measure l (suc rounds) s nearer same h =
      elim (Bool-cases (flag (uart.read_fr s).0)) [
        | inl busy ↦
            let (t, e, clear, kept) =
              poll-Ready flag measure l rounds (uart.read_fr s).1 nearer (laws.flags_keep s ∙ same)
                (omega (arith, nearer s same busy)) in
            (t, poll_busy uart flag rounds s busy ∙ e, clear, kept ∙ laws.flags_keep s)
        | inr clear ↦ (s, poll_ready uart flag rounds s clear, clear, refl)
      ]

  pub write_byte_lem :
      (rounds c : ℕ) (s : S)
      → bound ≤ rounds
      → (s' : S) × (write_byte uart rounds c s ≡ some s') × (line s' ≡ write (c ∷ []) (line s))
  unfolding write_byte
  write_byte_lem rounds c s h =
      let (t, e, room, kept) =
        poll-Ready is_full laws.until_room (line s) rounds s (λ t _ full. laws.drains t full) refl
          (omega (arith, laws.room_bound s)) in
      (
        uart.write_dr c (uart.read_fr t).1,
        rw (e, write_byte) refl,
        laws.sends t c room ∙ ap (write (c ∷ [])) kept,
      )

  pub read_byte_lem :
      (rounds : ℕ) (s : S) (b : ℕ) (rest : List ℕ)
      → (line s).incoming ≡ b ∷ rest
      → bound ≤ rounds
      → (s' : S) × (read_byte uart rounds s ≡ some (b, s'))
        × (line s' ≡ record (line s) { incoming = rest })
  unfolding read_byte
  read_byte_lem rounds s b rest next h =
      let (t, e, byte, kept) =
        poll-Ready is_empty laws.until_byte (line s) rounds s
          (λ t same. laws.arrives t (λ none_left. cc)) refl (omega (arith, laws.byte_bound s)) in
      let (b', rest', next', value, left) = laws.receives t byte in
      let (eb, er) = cons_eq b' b rest' rest (sym next' ∙ ap Line.incoming kept ∙ next) in
      (
        (uart.read_dr (uart.read_fr t).1).1,
        rw (e, read_byte) (ap (λ v. some (v, (uart.read_dr (uart.read_fr t).1).1)) (value ∙ eb)),
        left ∙ ap₂ (λ (l : Line) r. record l { incoming = r }) kept er,
      )

  -- Where the controller sends nothing more, the receiver stays empty.
  poll_waits : (rounds : ℕ) (s : S) → (line s).incoming ≡ [] → poll uart is_empty rounds s ≡ none
  unfolding poll
  poll_waits zero s e = refl
  poll_waits (suc rounds) s e = elim (Bool-cases (is_empty (uart.read_fr s).0)) [
    | inl empty ↦
        rw (empty, poll)
          (poll_waits rounds (uart.read_fr s).1 (ap Line.incoming (laws.flags_keep s) ∙ e))
    | inr byte ↦ let (b, rest, next, value, l) = laws.receives s byte in cc
  ]

  pub read_byte_waits :
      (rounds : ℕ) (s : S) → (line s).incoming ≡ [] → read_byte uart rounds s ≡ none
  unfolding read_byte
  read_byte_waits rounds s e = rw (poll_waits rounds s e, read_byte) refl
