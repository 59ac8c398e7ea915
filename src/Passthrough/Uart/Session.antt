-- ===== src/Passthrough/Uart/Session.antt =====
-- The services over the registers of the UART against the services over the line.
use mathlib.Core.Path.{subst}
use odp_platform_radxa_orion.Common.{
  ℕ, zero, suc, ◌+◌, ◌≤◌, ◌≡◌, refl, sym, ◌∙◌, ap, Bool, true, false, Option, none, some, List, [],
  ◌∷◌, ◌++◌,
}
use odp_platform_radxa_orion.Common.Lists.{length, All}
use odp_platform_radxa_orion.Passthrough.{
  Line, Ending, returned, panicked, ◌>>=◌, or_panic, Port, line_port, read, write, take_bytes,
  accept, accepted_len, byte_at, read_body, round, next, receive,
}
use odp_platform_radxa_orion.Passthrough.Request.{
  Ffa, PassthroughService, Result, ok, err, invalid_parameters, find, frame, send_cmd, answer,
  handle_message, respond, handle_request,
}
use odp_platform_radxa_orion.Passthrough.Packets.{Packet, wire}
use odp_platform_radxa_orion.Passthrough.Delivered.{on_line}
use odp_platform_radxa_orion.Passthrough.Frame.{IsFfa}
use odp_platform_radxa_orion.Passthrough.Partition.{
  Appended, Partition, services, inner, ffa_msg_send_direct_req2, serve_all,
}
use odp_platform_radxa_orion.Passthrough.Partition.Session.{
  Exchange, IsExchange, requests, replies, Served, serve_all-Served,
}
use odp_platform_radxa_orion.Passthrough.Uart.{
  Registers, read_bytes, to_write, to_read, registers_port,
}
use odp_platform_radxa_orion.Passthrough.Uart.Bytes.{IsUart}
use odp_platform_radxa_orion.Passthrough.Uart.Refine.{Takes, write_bytes-Writes, read_bytes-Takes}
use odp_platform_radxa_orion.Passthrough.Uart.Related.{
  Related, bind-Related, or_panic-Related, if-Related, Related-returned,
}

module _ {S : Type 0} (uart : Registers S) (line : S → Line) (bound : ℕ)
    (laws : IsUart uart line bound) (waits : ℕ) (enough : bound ≤ waits) where
  abbrev pub device : Port S
  device = registers_port uart waits (λ s. suc (length (line s).incoming))

  put-Related :
      (bytes : List ℕ) (s : S)
      → Related line (device.put bytes s) (returned tt (write bytes (line s)))
  put-Related bytes s =
      let (s', e, l) = write_bytes-Writes uart line bound laws waits bytes s enough in
      subst (λ m. Related line (to_write s m) (returned tt (write bytes (line s)))) (sym e)
        (refl, l)

  get-Related : (n : ℕ) (s : S) → Related line (device.get n s) (read n (line s))
  unfolding read
  get-Related n s =
      of_taken (take_bytes n (line s).incoming) refl
        (read_bytes-Takes uart line bound laws waits n s (line s).incoming refl enough)
    where
      of_taken :
          (taken : Option (List ℕ × List ℕ))
          → take_bytes n (line s).incoming ≡ taken
          → Takes uart line bound laws s taken (read_bytes uart waits n s)
          → Related line (device.get n s) (read n (line s))
      of_taken none e t =
          subst (λ m. Related line (to_read s m) (read n (line s))) (sym t) (rw (e, read) refl)
      of_taken (some (front, rest)) e (s', r, l) =
          subst (λ m. Related line (to_read s m) (read n (line s))) (sym r) (rw (e, read) (refl, l))

  read_body-Related :
      (out header : List ℕ) (s : S)
      → Related line (read_body ⦃port = device⦄ out header s) (read_body out header (line s))
  unfolding read_body
  read_body-Related out header s =
      if-Related line (accepted_len (byte_at header 2)) _ (panicked s) _ (panicked (line s))
        (bind-Related line (device.get (byte_at header 2) s) (read (byte_at header 2) (line s)) _ _
          (get-Related (byte_at header 2) s)
          (λ body t. or_panic-Related line (accept out (header ++ body)) t))
        refl

  round-Related :
      (out : List ℕ) (s : S) → Related line (round ⦃port = device⦄ out s) (round out (line s))
  unfolding round
  round-Related out s =
      bind-Related line (device.get 4 s) (read 4 (line s)) _ _ (get-Related 4 s)
        (read_body-Related out)

  next-Related :
      (again : List ℕ → S → Ending S (List ℕ)) (again_line : List ℕ → Line → Ending Line (List ℕ))
      → ((out : List ℕ) (s : S) → Related line (again out s) (again_line out (line s)))
      → (r : Bool × List ℕ) (s : S)
      → Related line (next ⦃port = device⦄ again r s) (next again_line r (line s))
  unfolding next
  next-Related again again_line h (true, out) s = (refl, refl)
  next-Related again again_line h (false, out) s = h out s

  receive-Related :
      (fuel : ℕ) (out : List ℕ) (s : S)
      → Related line (receive ⦃port = device⦄ fuel out s) (receive fuel out (line s))
  unfolding receive
  receive-Related zero out s = tt
  receive-Related (suc fuel) out s =
      bind-Related line (round ⦃port = device⦄ out s) (round out (line s)) _ _ (round-Related out s)
        (next-Related _ _ (receive-Related fuel))

  module _ {Message Payload Response : Type 0} (ffa : Ffa Message Payload Response) where
    send_cmd-Related :
        (bytes : List ℕ) (s : S)
        → Related line (send_cmd ffa ⦃port = device⦄ bytes s) (send_cmd ffa bytes (line s))
    unfolding send_cmd
    send_cmd-Related bytes s =
        bind-Related line (device.put bytes s >>= λ done. receive ⦃port = device⦄ rounds [])
          (receive rounds [] (write bytes (line s))) (λ out. or_panic (collected out))
          (λ out. or_panic (collected out))
          (bind-Related line (device.put bytes s) (returned tt (write bytes (line s)))
            (λ done. receive ⦃port = device⦄ rounds []) (λ done. receive rounds [])
            (put-Related bytes s) (λ done t. receive-Related rounds [] t))
          (λ out t. or_panic-Related line (collected out) t)
      where
        rounds : ℕ
        rounds = suc (length (line s).incoming)

        collected : List ℕ → Option (Result Payload)
        collected out = elim (ffa.collect out) [ none ↦ none | some p ↦ some (ok p) ]

    answer-Related :
        (r : Result Payload) (s : S)
        → Related line (answer ffa ⦃port = device⦄ r s) (answer ffa r (line s))
    unfolding answer
    answer-Related (ok value) s = (refl, refl)
    answer-Related (err e) s = or_panic-Related line _ s

    -- Either call panics where there is nothing to go on with.
    some-Related :
        {A B : Type 0} (o : Option A) (s : S) (f : A → Ending S B) (g : A → Ending Line B)
        → ((a : A) → Related line (f a) (g a))
        → Related line
            (elim o [ none ↦ panicked s | some a ↦ f a ])
            (elim o [ none ↦ panicked (line s) | some a ↦ g a ])
    some-Related none s f g h = refl
    some-Related (some a) s f g h = h a

    handle_message-Related :
        (service : PassthroughService) (msg : Message) (len : ℕ) (s : S)
        → Related line
            (handle_message ffa ⦃port = device⦄ service msg len s)
            (handle_message ffa service msg len (line s))
    unfolding handle_message
    handle_message-Related service msg len s =
        some-Related (frame ffa service.destination_eid (ffa.payload msg) len) s _ _
          (λ bytes. bind-Related line _ _ _ _ (send_cmd-Related bytes s) answer-Related)

    respond-Related :
        (msg : Message) (r : Result Payload) (s : S)
        → Related line (respond ffa ⦃port = device⦄ msg r s) (respond ffa msg r (line s))
    unfolding respond
    respond-Related msg (ok p) s = (refl, refl)
    respond-Related msg (err e) s = (refl, refl)

    -- A command that is not found is refused by either call.
    found-Related :
        {A B : Type 0} (o : Option A) (s : S) (r : B) (f : A → Ending S B) (g : A → Ending Line B)
        → ((a : A) → Related line (f a) (g a))
        → Related line
            (elim o [ none ↦ returned r s | some a ↦ f a ])
            (elim o [ none ↦ returned r (line s) | some a ↦ g a ])
    found-Related none s r f g h = (refl, refl)
    found-Related (some a) s r f g h = h a

    handle_request-Related :
        (service : PassthroughService) (msg : Message) (s : S)
        → Related line
            (handle_request ffa ⦃port = device⦄ service msg s)
            (handle_request ffa service msg (line s))
    unfolding handle_request
    handle_request-Related service msg s =
        some-Related (ffa.u8_at (ffa.payload msg) 0) s _ _ (λ cmd.
          found-Related (find cmd service.supported_commands) s (err invalid_parameters) _ _ (λ c.
            bind-Related line _ _ _ _ (handle_message-Related service msg (c.payload_len + 1) s)
              (respond-Related msg)))

    -- The services over the registers of the UART end as they do over a line of bytes. With
    -- registers that keep their laws, at least as many rounds for each wait as the transmitter
    -- needs to make room and a byte to arrive, and one round more for the loop of send_cmd than
    -- the controller sends bytes: in every state of the device and for any services and any
    -- sequence of requests, the calls of ffa_msg_send_direct_req2, down to the accesses of the
    -- registers, return if those over the line return, with the same responses and the same line
    -- behind them; panic if those panic, with the same line; and if those wait for a byte that
    -- does not come, they do not end within the rounds.
    pub serve_all-Related :
        (p : Partition) (rs : List (Appended × Message)) (s : S)
        → Related line (serve_all ffa ⦃port = device⦄ p rs s) (serve_all ffa p rs (line s))
    unfolding serve_all ffa_msg_send_direct_req2
    serve_all-Related p [] s = (refl, refl)
    serve_all-Related p ((service, msg) ∷ rs) s =
        bind-Related line _ _ _ _ (handle_request-Related (inner p service) msg s) (λ response t.
          bind-Related line _ _ _ _ (serve_all-Related p rs t) (λ responses end. (refl, refl)))

    -- The services over the registers of the UART do what they do over a line of bytes. With
    -- registers that keep their laws, at least as many rounds for each wait as the transmitter
    -- needs to make room and a byte to arrive, one round more for the loop of send_cmd than the
    -- controller sends bytes, and an odp_ffa that keeps its laws: for the three services that main
    -- builds and any sequence of requests to them in which each is for a row of the service's
    -- table and answered by the controller with a well-formed message of at most 112 payload
    -- bytes, or is for another command, where the controller sends its answers one behind the
    -- other, the calls of ffa_msg_send_direct_req2, down to the accesses of the registers, all
    -- return. They have sent one packet for each request of a row, in order, and no other byte;
    -- each such request has the response whose payload starts with the payload bytes of the answer
    -- to it, each other one the error InvalidParameters; and what the controller sends behind its
    -- answers has not been read.
    pub registers_session :
        (ffa_laws : IsFfa ffa) (p : Partition) (built : services ≡ some p)
        (es : List (Exchange ffa)) (sent rest : List ℕ) (s : S)
        → All (IsExchange ffa) es
        → line s ≡ on_line sent (replies ffa es ++ rest)
        → (ps : List Packet) × (rs : List (Result Response)) × (s' : S) × Served ffa es ps rs
          × (serve_all ffa ⦃port = device⦄ p (requests ffa es) s ≡ returned rs s')
          × (line s' ≡ on_line (sent ++ wire ps) rest)
    registers_session ffa_laws p built es sent rest s h at_start =
        let (ps, rs, served, run) = serve_all-Served ffa ffa_laws p built es sent rest h in
        let (s', returns, left) = Related-returned line _ rs (on_line (sent ++ wire ps) rest) (
          subst (Related line (serve_all ffa ⦃port = device⦄ p (requests ffa es) s))
            (ap (serve_all ffa p (requests ffa es)) at_start ∙ run)
            (serve_all-Related p (requests ffa es) s)) in
        (ps, rs, s', served, returns, left)
