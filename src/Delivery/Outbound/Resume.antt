-- ===== src/Delivery/Outbound/Resume.antt =====
-- A delivery that fails half way is resumed where it stopped:
-- apps/worker/src/processors/outbound.ts.
use chatbot_integration.Prelude.{
  drop-nil, ℕ, suc, ◌+◌, ◌≡◌, ◌≤◌, refl, subst, ◌∙◌, String, true, false, List, [], ◌∷◌, ◌++◌,
  Option, none, some, arith, ◌⊎◌, inl, inr, ltb, drop, max, ◌-◌, dec_lt, lt→ltb,
}
use mathlib.Core.List.{append_assoc, append-nil}
use chatbot_integration.Delivery.{Message, NormalizedMessage}
use chatbot_integration.Delivery.Outbound.{
  Adapter, SendRequest, SendOutcome, taken, refused, maybe_delivered, SendEnd, all_sent, stopped,
  send_parts, record_unit,
}

-- A platform whose log of parts grows by the part that a send was taken for, and only by that.
pub record IsLogged {S : Type 0} (adapter : Adapter S) (log : S → List NormalizedMessage)
    : Type 0 where
  pub taken_logged :
      (r : SendRequest) (s s' : S) (id : Option String)
      → adapter.send r s ≡ (s', taken id)
      → log s' ≡ log s ++ r.part ∷ []
  pub refused_unlogged :
      (r : SendRequest) (s s' : S) (reason : String)
      → adapter.send r s ≡ (s', refused reason)
      → log s' ≡ log s

send_cases :
    {S : Type 0} (o : S × SendOutcome)
    → ((s : S) × (id : Option String) × (o ≡ (s, taken id)))
      ⊎ ((s : S) × (reason : String) × (o ≡ (s, refused reason)))
      ⊎ ((s : S) × (reason : String) × (o ≡ (s, maybe_delivered reason)))
send_cases (s, taken id) = inl (s, id, refl)
send_cases (s, refused reason) = inr (inl (s, reason, refl))
send_cases (s, maybe_delivered reason) = inr (inr (s, reason, refl))

drop-zero : (a i : ℕ) (ps : List NormalizedMessage) → a ≤ i → drop (a - i) ps ≡ ps
drop-zero a i ps h = let e : a - i ≡ 0 = omega arith in rw e refl

drop-suc :
    (a i : ℕ) (p : NormalizedMessage) (ps : List NormalizedMessage)
    → suc i ≤ a
    → drop (a - i) (p ∷ ps) ≡ drop (a - suc i) ps
drop-suc a i p ps h = let e : a - i ≡ suc (a - suc i) = omega arith in rw e refl

record_unit-sent : (id : Option String) (n : ℕ) (m : Message) → (record_unit id n m).sent_parts ≡ n
unfolding record_unit
record_unit-sent none n m = refl
record_unit-sent (some id) n m = refl

module _ {S : Type 0} (adapter : Adapter S) (log : S → List NormalizedMessage)
    (logged : IsLogged adapter log) (request : ℕ → NormalizedMessage → SendRequest)
    (carries : (i : ℕ) (p : NormalizedMessage) → (request i p).part ≡ p) where
  -- What the log holds at the end of the loop, from `index` on: all that is `expected`, or that
  -- but for the parts after the checkpoint.
  abbrev pub Accounts : (index : ℕ) (parts expected : List NormalizedMessage) → SendEnd S → Type 0
  Accounts index parts expected (all_sent m s) = log s ≡ expected
  Accounts index parts expected (stopped m s reason false) =
      (log s ++ drop (m.sent_parts - index) parts ≡ expected) × (index ≤ m.sent_parts)
  Accounts index parts expected (stopped m s reason true) = Unit {0}

  Accounts-skip :
      (index : ℕ) (part : NormalizedMessage) (parts expected : List NormalizedMessage)
      (r : SendEnd S)
      → Accounts (suc index) parts expected r
      → Accounts index (part ∷ parts) expected r
  Accounts-skip index part parts expected (all_sent m s) h = h
  Accounts-skip index part parts expected (stopped m s reason false) h =
      (rw (drop-suc m.sent_parts index part parts h.1) h.0, omega arith)
  Accounts-skip index part parts expected (stopped m s reason true) h = tt

  grown :
      (start index : ℕ) (part : NormalizedMessage) (parts : List NormalizedMessage) (s s' : S)
      (id : Option String)
      → adapter.send (request index part) s ≡ (s', taken id)
      → start ≤ suc index
      → log s' ++ drop (start - suc index) parts ≡ log s ++ part ∷ parts
  grown start index part parts s s' id e h =
      rw
        (
          drop-zero start (suc index) parts h,
          logged.taken_logged (request index part) s s' id e,
          carries index part,
        )
        (append_assoc (log s) (part ∷ []) parts)

  send_parts-Accounts :
      (start index : ℕ) (parts : List NormalizedMessage) (m : Message) (s : S)
      → m.sent_parts ≡ max start index
      → Accounts index parts
          (log s ++ drop (start - index) parts)
          (send_parts adapter request false start index parts m s)
  unfolding send_parts
  send_parts-Accounts start index [] m s h = rw (drop-nil (start - index), append-nil)
  send_parts-Accounts start index (part ∷ parts) m s h = elim (dec_lt index start) [
    | yes skipped ↦
        rw (lt→ltb index start skipped, drop-suc start index part parts skipped)
          (Accounts-skip index part parts _ _
            (send_parts-Accounts start (suc index) parts m s (omega arith)))
    | no reached ↦
        let before : ltb index start ≡ false = ground arith in
        rw (before, drop-zero start index (part ∷ parts) (omega arith))
          (elim (send_cases (adapter.send (request index part) s)) [
            | inl (s', id, e) ↦ rw e (
                Accounts-skip index part parts _ _ (
                  subst
                    (λ x. Accounts (suc index) parts x (
                      send_parts adapter request false start (suc index) parts
                        (record_unit id (index + 1) m) s'))
                    (grown start index part parts s s' id e (omega arith))
                    (send_parts-Accounts start (suc index) parts (record_unit id (index + 1) m) s'
                      (omega (arith, record_unit-sent id (index + 1) m)))))
            | inr (inl (s', reason, e)) ↦ rw e (
              rw
                  (
                    logged.refused_unlogged (request index part) s s' reason e,
                    drop-zero m.sent_parts index (part ∷ parts) (omega arith),
                  )
                  refl,
              omega arith,
            )
            | inr (inr (s', reason, e)) ↦ rw e tt
          ])
  ]

module _ {S : Type 0} (adapter : Adapter S) (log : S → List NormalizedMessage)
    (logged : IsLogged adapter log) where
  abbrev pub Carries : (ℕ → NormalizedMessage → SendRequest) → Type 0
  Carries request = (i : ℕ) (p : NormalizedMessage) → (request i p).part ≡ p

  -- A delivery that is refused at some part and then resumed over the same parts, however it is
  -- asked for the second time, reaches the platform as each part not sent before, exactly once and
  -- in order.
  pub resume_exactly_once :
      (request again : ℕ → NormalizedMessage → SendRequest) (parts : List NormalizedMessage)
      (m m' m'' : Message) (s s' s'' : S) (reason : String)
      → Carries request
      → Carries again
      → send_parts adapter request false m.sent_parts 0 parts m s ≡ stopped m' s' reason false
      → send_parts adapter again false m'.sent_parts 0 parts m' s' ≡ all_sent m'' s''
      → log s'' ≡ log s ++ drop m.sent_parts parts
  resume_exactly_once request again parts m m' m'' s s' s'' reason c c' first second =
      let one =
        rw first at (
          send_parts-Accounts adapter log logged request c m.sent_parts 0 parts m s
            (omega arith)) in
      let two = rw second at (
        send_parts-Accounts adapter log logged again c' m'.sent_parts 0 parts m' s'
          (omega arith)) in
      two ∙ one.0 ∙ rw minus_zero
    where
      minus_zero : m.sent_parts - 0 ≡ m.sent_parts
      minus_zero = omega arith
