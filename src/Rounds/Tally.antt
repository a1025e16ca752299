-- ===== src/Rounds/Tally.antt =====
-- When sendToDomain of src/givemail.cc asks for a restart.
use givemail.Base.{
  ℕ, zero, suc, ◌+◌, ◌%◌, ◌^◌, ◌<◌, ◌≤◌, ◌≡◌, refl, sym, ap, ◌∙◌, Bool, true, false, none, some,
  List, [], ◌∷◌, arith, leb, Bool-cases, Option-cases, inl, inr, ◌⊎◌,
}
use givemail.Session.{Session}
use givemail.Session.Fill.{Destination}
use givemail.Session.Generate.{generate_messages}
use givemail.Updater.{Updater}
use givemail.Rounds.{
  Round, Mailing, max_recipients, is_internal, count_failure, settle, goes_on, send_rounds,
  send_to_domain,
}

-- How a batch ends.
pub data Outcome : Type 0 where
  sent : Outcome
  failed_internally : Outcome
  failed : Outcome

abbrev pub outcome : Bool → Bool → Outcome
outcome true internal = sent
outcome false true = failed_internally
outcome false false = failed

-- The internal failures since the last other failure.
abbrev pub tally : ℕ → List Outcome → ℕ
tally n [] = n
tally n (sent ∷ os) = tally n os
tally n (failed_internally ∷ os) = tally (suc n) os
tally n (failed ∷ os) = tally 0 os

-- The rounds from a state to another, by their outcomes.
pub data Rounds (fuel : ℕ) (w : Mailing) : Round → List Outcome → Round → Type 0 where
  stop : (st : Round) → Rounds fuel w st [] st
  round :
      (st st' : Round) (os : List Outcome) (rs : List Destination) (ok : Bool) (s : Session)
      → goes_on w st ≡ true
      → w.waiting st (max_recipients w.context st.session) ≡ some rs
      → generate_messages fuel w.generator w.context w.details rs st.session ≡ some (ok, s)
      → Rounds fuel w (settle w rs ok s st) os st'
      → Rounds fuel w st (outcome ok (is_internal w s) ∷ os) st'

-- What the loop keeps.
record Sound (st : Round) : Type 0 where
  few : st.api_failures ≤ 3
  tallied : st.restart ≡ leb 3 st.api_failures
  quitting : st.restart ≡ true → st.must_quit ≡ true

-- Where the loop ends.
abbrev pub Ended : Mailing → Round → Type 0
Ended w st = (goes_on w st ≡ false) ⊎ (w.waiting st (max_recipients w.context st.session) ≡ none)

send_rounds-Rounds :
    (n fuel : ℕ) (w : Mailing) (st st' : Round)
    → send_rounds n fuel w st ≡ some st'
    → (os : List Outcome) × Rounds fuel w st os st' × Ended w st'
unfolding send_rounds
send_rounds-Rounds zero fuel w st st' e = cc
send_rounds-Rounds (suc n) fuel w st st' e = elim (Bool-cases (goes_on w st)) [
  | inl g ↦ elim (Option-cases (w.waiting st (max_recipients w.context st.session))) [
    | inl q ↦
        let same : some st ≡ some st' = rw (send_rounds, g, q) at e in
        let h : st ≡ st' = cc in rw (← h) ([], stop st, inr q)
    | inr (rs, q) ↦
        elim (Option-cases (generate_messages fuel w.generator w.context w.details rs st.session)) [
          | inl m ↦ let no : none ≡ some st' = rw (send_rounds, g, q, m) at e in cc
          | inr ((ok, s), m) ↦
              let rest : send_rounds n fuel w (settle w rs ok s st) ≡ some st' =
                rw (send_rounds, g, q, m) at e in
              let (os, r, ended) = send_rounds-Rounds n fuel w (settle w rs ok s st) st' rest in
              (outcome ok (is_internal w s) ∷ os, round st st' os rs ok s g q m r, ended)
        ]
  ]
  | inr g ↦
      let same : some st ≡ some st' = rw (send_rounds, g) at e in
      let h : st ≡ st' = cc in rw (← h) ([], stop st, inl g)
]

-- The loop goes on only without a reason to quit.
goes_on-must_quit : (w : Mailing) (st : Round) → goes_on w st ≡ true → st.must_quit ≡ false
unfolding goes_on
goes_on-must_quit w st h = elim (Bool-cases st.must_quit) [
  | inl q ↦ let no : false ≡ true = rw (goes_on, q) at h in cc
  | inr q ↦ q
]

-- While it does, fewer than three failures are counted.
goes_on-Sound : (w : Mailing) (st : Round) → Sound st → goes_on w st ≡ true → st.api_failures < 3
goes_on-Sound w st sound h = elim (Bool-cases (leb 3 st.api_failures)) [
  | inl three ↦
      let asked : st.restart ≡ true = sound.tallied ∙ three in
      let quit = sound.quitting asked in let going = goes_on-must_quit w st h in cc
  | inr few ↦ ground arith
]

-- What a round leaves of the failures.
abbrev Settled : Round → Bool → Bool → Round → Type 0
Settled st ok internal st' =
    (st'.api_failures ≡ tally st.api_failures (outcome ok internal ∷ [])) × Sound st'

none_counted : false ≡ leb 3 0
none_counted = ground arith

tally-outcome :
    (n : ℕ) (ok internal : Bool) (os : List Outcome)
    → tally (tally n (outcome ok internal ∷ [])) os ≡ tally n (outcome ok internal ∷ os)
tally-outcome n true internal os = refl
tally-outcome n false true os = refl
tally-outcome n false false os = refl

settle-Settled :
    (w : Mailing) (st : Round) (rs : List Destination) (ok : Bool) (s : Session)
    → Sound st
    → goes_on w st ≡ true
    → Settled st ok (is_internal w s) (settle w rs ok s st)
unfolding settle count_failure
settle-Settled w st rs true s sound g =
    (refl, record { few = sound.few; tallied = sound.tallied; quitting = sound.quitting })
settle-Settled w st rs false s sound g =
    let few = goes_on-Sound w st sound g in
    let one_more : (st.api_failures + 1) % 2 ^ 32 ≡ suc st.api_failures = omega arith in
    let below : leb 3 st.api_failures ≡ false = ground arith in
    let unasked : st.restart ≡ false = sound.tallied ∙ below in
    elim (Bool-cases (is_internal w s)) [
      | inl i ↦ elim (Bool-cases (leb 3 (suc st.api_failures))) [
        | inl three ↦
            rw (i, one_more, three)
              (refl, record { few = omega arith; tallied = sym three; quitting = λ _. refl })
        | inr more ↦
            rw (i, one_more, more)
              (
                refl,
                record {
                  few = omega arith;
                  tallied = unasked ∙ sym more;
                  quitting = sound.quitting;
                },
              )
      ]
      | inr i ↦ rw i (
        refl,
        record { few = omega arith; tallied = unasked ∙ none_counted; quitting = sound.quitting },
      )
    ]

Rounds-tally :
    {fuel : ℕ} {w : Mailing} {st st' : Round} {os : List Outcome}
    → Rounds fuel w st os st'
    → Sound st
    → (st'.api_failures ≡ tally st.api_failures os) × Sound st'
Rounds-tally (stop st) sound = (refl, sound)
Rounds-tally {w = w} (round st st' os rs ok s g q m r) sound =
    let (counted, sound') = settle-Settled w st rs ok s sound g in
    let (later, sound'') = Rounds-tally r sound' in
    (
      later
          ∙ (ap (λ (n : ℕ). tally n os) counted
              ∙ tally-outcome st.api_failures ok (is_internal w s) os),
      sound'',
    )

abbrev pub started : Session → Updater → Round
started s u = record {
  session = s;
  updater = u;
  api_failures = 0;
  must_quit = false;
  restart = false;
}

started-Sound : (s : Session) (u : Updater) → Sound (started s u)
started-Sound s u = record { few = omega arith; tallied = none_counted; quitting = λ h. cc }

-- Whatever the database, the templates and the provider do: where sendToDomain returns, it has gone
-- through rounds from its start to a state in which either the condition of its loop does not hold
-- or no recipient waits. It asks for a restart exactly where the internal failures since the last
-- other failure are three, and they are never more; batches that were sent do not set them back.
pub send_to_domain-restart :
    (n fuel : ℕ) (w : Mailing) (s : Session) (u : Updater) (st : Round)
    → send_to_domain n fuel w s u ≡ some st
    → (os : List Outcome) × Rounds fuel w (started s u) os st
      × Ended w st
      × (tally 0 os ≤ 3)
      × (st.restart ≡ leb 3 (tally 0 os))
unfolding send_to_domain
send_to_domain-restart n fuel w s u st e =
    let (os, r, ended) = send_rounds-Rounds n fuel w (started s u) st e in
    let (counted, kept) = Rounds-tally r (started-Sound s u) in
    let few = kept.few in
    (os, r, ended, omega (arith, counted), kept.tallied ∙ ap (λ (k : ℕ). leb 3 k) counted)

-- A batch without a provider fails internally.
no_provider :
    (fuel : ℕ) (w : Mailing) (rs : List Destination) (s : Session)
    → w.context.has_provider ≡ false
    → (generate_messages fuel w.generator w.context w.details rs s ≡ some (false, s))
      × (is_internal w s ≡ true)
unfolding generate_messages is_internal
no_provider fuel w [] s h = (rw h refl, rw h refl)
no_provider fuel w (r ∷ rs) s h = (rw h refl, rw h refl)

-- One round of it, if the rest of them returns.
no_provider_round :
    (n fuel : ℕ) (w : Mailing) (st : Round)
    → w.context.has_provider ≡ false
    → (goes_on w st ≡ true
        → (rs : List Destination)
        → (st' : Round) × (send_rounds n fuel w (settle w rs false st.session st) ≡ some st'))
    → (st' : Round) × (send_rounds (suc n) fuel w st ≡ some st')
unfolding send_rounds
no_provider_round n fuel w st h rest = elim (Bool-cases (goes_on w st)) [
  | inr g ↦ rw (send_rounds, g) (st, refl)
  | inl g ↦ elim (Option-cases (w.waiting st (max_recipients w.context st.session))) [
    | inl q ↦ rw (send_rounds, g, q) (st, refl)
    | inr (rs, q) ↦
        let (m, i) = no_provider fuel w rs st.session h in rw (send_rounds, g, q, m) (rest g rs)
  ]
]

no_provider_rounds :
    (left n fuel : ℕ) (w : Mailing) (st : Round)
    → w.context.has_provider ≡ false
    → Sound st
    → 3 ≤ st.api_failures + left
    → (st' : Round) × (send_rounds (suc (left + n)) fuel w st ≡ some st')
no_provider_rounds zero n fuel w st h sound enough =
    no_provider_round (0 + n) fuel w st h
      (λ g rs. let few = goes_on-Sound w st sound g in absurd (omega arith))
no_provider_rounds (suc left) n fuel w st h sound enough =
    let shift : suc left + n ≡ suc (left + n) = omega arith in
    rw shift (
      no_provider_round (suc (left + n)) fuel w st h (λ g rs.
        let settled = settle-Settled w st rs false st.session sound g in
        let internal = (no_provider fuel w rs st.session h).1 in
        let counted : (settle w rs false st.session st).api_failures ≡ suc st.api_failures =
          rw internal at settled.0 in
        no_provider_rounds left n fuel w (settle w rs false st.session st) h settled.1
          (omega (arith, counted))))

-- Without a provider sendToDomain returns, whatever the database answers: fuel for four rounds is
-- enough, and with more fuel it returns as well.
pub send_to_domain_returns :
    (n fuel : ℕ) (w : Mailing) (s : Session) (u : Updater)
    → w.context.has_provider ≡ false
    → (st : Round) × (send_to_domain (4 + n) fuel w s u ≡ some st)
unfolding send_to_domain
send_to_domain_returns n fuel w s u h =
    let shift : 4 + n ≡ suc (3 + n) = omega arith in
    rw shift (no_provider_rounds 3 n fuel w (started s u) h (started-Sound s u) (omega arith))
