-- ===== src/Passthrough/Uart/Refine.antt =====
-- The registers of the UART against the line of bytes that send_cmd works on.
use odp_platform_radxa_orion.Common.{
  ℕ, zero, suc, ◌≤◌, ◌≡◌, refl, sym, ◌∙◌, ap, Option, none, some, List, [], ◌∷◌,
}
use mathlib.Core.List.{append-nil, append_assoc}
use odp_platform_radxa_orion.Passthrough.{
  Line, Outcome, returned, panicked, waiting, stuck, write, read, take_bytes,
}
use odp_platform_radxa_orion.Passthrough.Uart.{Registers, read_byte, write_bytes, read_bytes}
use odp_platform_radxa_orion.Passthrough.Uart.Bytes.{
  IsUart, write_byte_lem, read_byte_lem, read_byte_waits,
}

module _ {S : Type 0} (uart : Registers S) (line : S → Line) (bound : ℕ)
    (laws : IsUart uart line bound) where
  -- The bytes were sent.
  abbrev pub Writes : List ℕ → S → Option S → Type 0
  Writes cs s result = (s' : S) × (result ≡ some s') × (line s' ≡ write cs (line s))

  pub write_bytes-Writes :
      (rounds : ℕ) (cs : List ℕ) (s : S)
      → bound ≤ rounds
      → Writes cs s (write_bytes uart rounds cs s)
  unfolding write_bytes write
  write_bytes-Writes rounds [] s h =
      (s, refl, ap (λ t. record (line s) { sent = t }) (sym (append-nil (line s).sent)))
  write_bytes-Writes rounds (c ∷ cs) s h =
      let (s', e, l) = write_byte_lem uart line bound laws rounds c s h in
      let (s'', later, l') = write_bytes-Writes rounds cs s' h in
      (
        s'',
        rw (e, write_bytes) later,
        l'
            ∙ ap (write cs) l
            ∙ ap (λ t. record (line s) { sent = t }) (append_assoc (line s).sent (c ∷ []) cs),
      )

  -- The bytes at the head of the line were taken off it, or there are not as many.
  abbrev pub Takes : S → Option (List ℕ × List ℕ) → Option (List ℕ × S) → Type 0
  Takes s none result = result ≡ none
  Takes s (some (front, rest)) result =
      (s' : S) × (result ≡ some (front, s')) × (line s' ≡ record (line s) { incoming = rest })

  Takes-cons :
      (rounds n b : ℕ) (s s' : S) (rest : List ℕ) (taken : Option (List ℕ × List ℕ))
      → read_byte uart rounds s ≡ some (b, s')
      → line s' ≡ record (line s) { incoming = rest }
      → take_bytes n rest ≡ taken
      → Takes s' taken (read_bytes uart rounds n s')
      → Takes s (take_bytes (suc n) (b ∷ rest)) (read_bytes uart rounds (suc n) s)
  unfolding read_bytes take_bytes
  Takes-cons rounds n b s s' rest none e l taken later =
      rw (taken, take_bytes) (rw (e, read_bytes) (rw (later, read_bytes) refl))
  Takes-cons rounds n b s s' rest (some (front, end)) e l taken (s'', later, l') =
      rw (taken, take_bytes)
        (
          s'',
          rw (e, read_bytes) (rw (later, read_bytes) refl),
          l' ∙ ap (λ (t : Line). record t { incoming = end }) l,
        )

  pub read_bytes-Takes :
      (rounds n : ℕ) (s : S) (bs : List ℕ)
      → (line s).incoming ≡ bs
      → bound ≤ rounds
      → Takes s (take_bytes n bs) (read_bytes uart rounds n s)
  unfolding read_bytes take_bytes
  read_bytes-Takes rounds zero s bs e h = (s, refl, ap (λ t. record (line s) { incoming = t }) e)
  read_bytes-Takes rounds (suc n) s [] e h =
      rw (read_byte_waits uart line bound laws rounds s e, read_bytes) refl
  read_bytes-Takes rounds (suc n) s (b ∷ rest) e h =
      let (s', got, l) = read_byte_lem uart line bound laws rounds s b rest e h in
      Takes-cons rounds n b s s' rest (take_bytes n rest) got l refl
        (read_bytes-Takes rounds n s' rest (ap Line.incoming l) h)

  -- A read returns what the line returns, or takes more rounds than it was given where the line
  -- waits.
  abbrev pub Reads : Outcome (List ℕ) → Option (List ℕ × S) → Type 0
  Reads (returned front left) result = (s' : S) × (result ≡ some (front, s')) × (line s' ≡ left)
  Reads (waiting left) result = result ≡ none
  Reads (panicked left) result = ⊥
  Reads stuck result = ⊥

  read_bytes-Reads :
      (rounds n : ℕ) (s : S) → bound ≤ rounds → Reads (read n (line s)) (read_bytes uart rounds n s)
  unfolding read
  read_bytes-Reads rounds n s h =
      of_taken (take_bytes n (line s).incoming) refl
        (read_bytes-Takes rounds n s (line s).incoming refl h)
    where
      of_taken :
          (taken : Option (List ℕ × List ℕ))
          → take_bytes n (line s).incoming ≡ taken
          → Takes s taken (read_bytes uart rounds n s)
          → Reads (read n (line s)) (read_bytes uart rounds n s)
      of_taken none e t = rw (e, read) t
      of_taken (some (front, rest)) e t = rw (e, read) t

  -- The UART driver refines a line of bytes. With registers that keep their laws, and at least as
  -- many rounds for each wait as the transmitter needs to make room and a byte to arrive:
  -- EcUart::write, down to its accesses of the registers, returns, and has sent the bytes in order
  -- behind those that were sent, and nothing else changed on the line; and EcUart::read of a
  -- number of bytes returns what the model of the line returns, the next bytes, which it has taken
  -- off the line, or it does not end within the rounds where the controller sends fewer.
  registers_line :
      (rounds : ℕ) (cs : List ℕ) (n : ℕ) (s : S)
      → bound ≤ rounds
      → Writes cs s (write_bytes uart rounds cs s)
        × Reads (read n (line s)) (read_bytes uart rounds n s)
  registers_line rounds cs n s h = (write_bytes-Writes rounds cs s h, read_bytes-Reads rounds n s h)
