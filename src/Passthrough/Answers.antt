-- ===== src/Passthrough/Answers.antt =====
-- How send_cmd answers, and what handle_request makes of the answer.
use mathlib.Core.Path.{subst}
use odp_platform_radxa_orion.Common.{
  ℕ, suc, ◌≤◌, ◌≡◌, refl, sym, ap, Option, none, some, List, [], ◌++◌, arith,
}
use odp_platform_radxa_orion.Common.Lists.{length}
use odp_platform_radxa_orion.Passthrough.{line_port, Line, or_panic, write, receive}
use odp_platform_radxa_orion.Passthrough.Request.{Ffa, Result, ok, send_cmd, answer, respond}
use odp_platform_radxa_orion.Passthrough.Ends.{Ends, bind-Ends}
use odp_platform_radxa_orion.Passthrough.Packets.{Packet, IsMessage, wire, payloads}
use odp_platform_radxa_orion.Passthrough.Message.{Received, receive-Received}

-- The bytes were sent.
abbrev pub HasSent : List ℕ → Line → Line → Type 0
HasSent bytes line left = left.sent ≡ line.sent ++ bytes

module _ {Message Payload Response : Type 0} (ffa : Ffa Message Payload Response) where
  -- The bytes were sent, a message was taken off the line, and the result is made of its payload.
  abbrev pub Answered : {A : Type 0} → (Payload → A) → List ℕ → Line → A → Line → Type 0
  Answered {A} result bytes line a left =
      (left.sent ≡ line.sent ++ bytes)
      × (ps : List Packet) × IsMessage ps
      × (line.incoming ≡ wire ps ++ left.incoming)
      × (length (payloads ps) ≤ 256)
      × (p : Payload) × (ffa.collect (payloads ps) ≡ some p)
      × (a ≡ result p)

  collect-Answered :
      (bytes out : List ℕ) (line left : Line)
      → Received [] (write bytes line) out left
      → Ends
          (HasSent bytes line)
          (Answered {A = Result Payload} ok bytes line)
          (or_panic (elim (ffa.collect out) [ none ↦ none | some p ↦ some (ok p) ]) left)
  unfolding write
  collect-Answered bytes out line left (s, ps, message, e, extended, bound) =
      collected (ffa.collect out) (sym (ap (ffa.collect) extended))
    where
      collected :
          (result : Option Payload)
          → ffa.collect (payloads ps) ≡ result
          → Ends
              (HasSent bytes line)
              (Answered {A = Result Payload} ok bytes line)
              (or_panic (elim result [ none ↦ none | some p ↦ some (ok p) ]) left)
      collected none h = s
      collected (some p) h =
          (s, ps, message, e, subst (λ t. length t ≤ 256) extended bound, p, h, refl)

  pub send_cmd-Ends :
      (bytes : List ℕ) (line : Line)
      → Ends
          (HasSent bytes line)
          (Answered {A = Result Payload} ok bytes line)
          (send_cmd ffa bytes line)
  unfolding send_cmd write
  send_cmd-Ends bytes line =
      bind-Ends (HasSent bytes line) (Received [] (write bytes line))
        (Answered {A = Result Payload} ok bytes line)
        (receive (suc (length line.incoming)) [] (write bytes line))
        (λ out. or_panic (elim (ffa.collect out) [ none ↦ none | some p ↦ some (ok p) ]))
        (receive-Received (suc (length line.incoming)) [] (write bytes line) (omega arith))
        (λ out left. collect-Answered bytes out line left)

  pub answer-Ends :
      (bytes : List ℕ) (line : Line) (a : Result Payload) (left : Line)
      → Answered {A = Result Payload} ok bytes line a left
      → Ends (HasSent bytes line) (Answered {A = Result Payload} ok bytes line) (answer ffa a left)
  unfolding answer
  answer-Ends bytes line a left (s, ps, message, e, bound, p, collected, h) =
      subst
        (λ t.
          Ends (HasSent bytes line) (Answered {A = Result Payload} ok bytes line)
            (answer ffa t left))
        (sym h) (s, ps, message, e, bound, p, collected, refl)

  pub respond-Ends :
      (msg : Message) (bytes : List ℕ) (line : Line) (a : Result Payload) (left : Line)
      → Answered {A = Result Payload} ok bytes line a left
      → Ends
          (HasSent bytes line)
          (Answered {A = Result Response} (λ p. ok (ffa.from_req_with_payload msg p)) bytes line)
          (respond ffa msg a left)
  unfolding respond
  respond-Ends msg bytes line a left (s, ps, message, e, bound, p, collected, h) =
      subst
        (λ t.
          Ends (HasSent bytes line)
            (Answered {A = Result Response} (λ p. ok (ffa.from_req_with_payload msg p)) bytes line)
            (respond ffa msg t left))
        (sym h) (s, ps, message, e, bound, p, collected, refl)
