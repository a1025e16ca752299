-- ===== src/Session/Returns.antt =====
-- Where queueMessage returns.
use givemail.Base.{
  ℕ, zero, suc, ◌+◌, ◌≤◌, ◌<◌, ◌≡◌, ◌⊎◌, refl, ap, ◌∙◌, inl, inr, Bool, true, false, not, ◌&&◌,
  ◌||◌, Option, some, List, [], ◌∷◌, arith, ltb, ◌==◌, length, All, by_test, Option-cases,
}
use givemail.Base.Text.{is_empty}
use givemail.Message.{Message}
use givemail.Session.{Event, message_queued, Context, Session, note}
use givemail.Session.Dispatch.{create_session, dispatch_messages}
use givemail.Session.Fill.{
  RecipientType, as_to, as_cc, as_bcc, Destination, Mailer, Batch, name_recipient, is_never, notify,
  set_specific_headers, find_return_path, unsubscribe_link_of, link_unsubscription, take_recipient,
  add_recipient, fill_batch,
}
use givemail.Session.Queue.{
  set_headers, sign_message, start_batch, end_round, queue_loop, queue_message,
}
use givemail.Session.Mailed.{mailed, newest_first, address}

-- A batch for which no id has to be encoded.
abbrev Plain : Batch → Type 0
Plain b = (is_never b.message.dsn_flags ≡ true) × (b.set_unsubscribe_link ≡ false)

kinds : (k : RecipientType) → (k ≡ as_to) ⊎ ((k ≡ as_cc) ⊎ (k ≡ as_bcc))
kinds as_to = inl refl
kinds as_cc = inr (inl refl)
kinds as_bcc = inr (inr refl)

name_recipient-Plain : (r : Destination) (b : Batch) → Plain b → Plain (name_recipient r b)
unfolding name_recipient
name_recipient-Plain r b p = elim (kinds r.recipient_type) [
  | inl e ↦ rw (name_recipient, e) p
  | inr (inl e) ↦ rw (name_recipient, e) p
  | inr (inr e) ↦ rw (name_recipient, e) p
]

abbrev Takes : Option Batch → Type 0
Takes o = (b : Batch) × (o ≡ some b) × Plain b

notify-Plain : (junk : ℕ) (r : Destination) (b : Batch) → Plain b → Takes (notify junk r b)
unfolding notify
notify-Plain junk r b p =
    let e : (not (is_never b.message.dsn_flags) && is_empty b.dsn_env_id) ≡ false =
      ground (arith, p) in
    rw e (b, refl, p)

find_return_path-Plain : (r : Destination) (b : Batch) → Plain b → Plain (find_return_path r b)
unfolding find_return_path
find_return_path-Plain r b p =
    by_test Plain b.look_for_return_path
      (λ _.
        by_test (λ (m : Message). (is_never m.dsn_flags ≡ true) × (b.set_unsubscribe_link ≡ false))
          (is_empty r.return_path_email_address) (λ _. p) (λ _. p))
      (λ _. p)

link_unsubscription-Plain :
    (junk : ℕ) (r : Destination) (b : Batch) → Plain b → Takes (link_unsubscription junk r b)
unfolding link_unsubscription
link_unsubscription-Plain junk r b p =
    let link = unsubscribe_link_of b.message in
    by_test Takes (b.set_unsubscribe_link && (not (is_empty link) && is_empty b.unsubscribe_link))
      (λ h. absurd (ground (arith, h, p.1))) (λ _. (b, refl, p))

take_recipient-Plain :
    (junk : ℕ) (specific : Bool) (r : Destination) (b : Batch)
    → Plain b
    → Takes (take_recipient junk specific r b)
unfolding take_recipient set_specific_headers
take_recipient-Plain junk specific r b p =
    let named : Takes (set_specific_headers junk specific r b) =
      by_test Takes specific
        (λ _. notify-Plain junk r (name_recipient r b) (name_recipient-Plain r b p))
        (λ _. (b, refl, p)) in
    let (b', e, p') = named in
    rw (take_recipient, e)
      (link_unsubscription-Plain junk r (find_return_path r b') (find_return_path-Plain r b' p'))

abbrev FillsAll : List Destination → Session → Option (List Destination × Batch × Session) → Type 0
FillsAll rs s o =
    (b : Batch) × (t : Session) × (o ≡ some ([], b, t))
    × (t.msgs_count ≡ s.msgs_count + length rs)
    × (mailed t.log ≡ newest_first rs (mailed s.log))

fill_batch-FillsAll :
    (fuel max junk : ℕ) (specific : Bool) (rs : List Destination) (b : Batch) (s : Session)
    → length rs < fuel
    → s.msgs_count + length rs ≤ max
    → All (λ r. is_empty (address r) ≡ false) rs
    → Plain b
    → FillsAll rs s (fill_batch fuel max junk specific rs b s)
unfolding fill_batch
fill_batch-FillsAll zero max junk specific rs b s f room given p = absurd (omega arith)
fill_batch-FillsAll (suc fuel) max junk specific [] b s f room given p =
    (b, s, refl, omega arith, refl)
fill_batch-FillsAll (suc fuel) max junk specific (r ∷ rs) b s f room given p =
    let (b', e, p') = take_recipient-Plain junk specific r b p in
    let below : ltb s.msgs_count max ≡ true = ground arith in
    let (b2, t, h, c, m) =
      fill_batch-FillsAll fuel max junk specific rs b' (add_recipient r s) (omega arith)
        (omega arith) given.1 p' in
    (b2, t, rw (fill_batch, below, given.0, e) h, omega (arith, c), m)

-- A result that has given all destinations to the provider and sent nothing.
abbrev Stops : List Destination → Session → Option (Bool × Message × Session) → Type 0
Stops rs s o =
    (ok : Bool) × (m : Message) × (t : Session) × (o ≡ some (ok, m, t))
    × (t.msgs_count ≡ s.msgs_count + length rs)
    × (mailed t.log ≡ newest_first rs (mailed s.log))

-- What signing leaves as it is.
abbrev Kept : Session → Bool × Message × Session → Type 0
Kept s p = (p.2.msgs_count ≡ s.msgs_count) × (p.2.log ≡ s.log)

sign_message-Kept :
    (k : Mailer) (x : Context) (m : Message) (s : Session) → Kept s (sign_message k x m s)
unfolding sign_message
sign_message-Kept k x m s =
    by_test (Kept s) (not x.has_provider) (λ _. (refl, refl))
      (λ _.
        by_test (Kept s) (not k.can_sign) (λ _. (refl, refl))
          (λ _. elim (Option-cases (k.sign (k.message_data m) m)) [
            | inl e ↦ rw e (refl, refl)
            | inr (h, e) ↦ rw e (
                by_test (Kept s)
                  (not k.verify_signatures
                    || k.verify (k.message_data m) (record m { signature_header = h }))
                  (λ _. (refl, refl)) (λ _. (refl, refl)))
          ]))

module _ (x : Context) where
  dispatch_waits :
      (fuel : ℕ) (s : Session)
      → s.msgs_count < x.limits.max_msgs_per_server
      → dispatch_messages fuel x false s ≡ some (true, s)
  unfolding dispatch_messages
  dispatch_waits fuel s below =
      let P : Option (Bool × Session) → Type 0 = λ o. o ≡ some (true, s) in
      by_test P (not x.has_provider || (s.msgs_count == 0)) (λ _. refl)
        (λ _.
          by_test P (ltb s.msgs_count x.limits.max_msgs_per_server && not false) (λ _. refl)
            (λ h. absurd (ground (arith, h, below))))

  end_round-Stops :
      (fuel : ℕ) (rs : List Destination) (s : Session) (p : Bool × Message × Session)
      (next : Message → Session → Option (Bool × Message × Session))
      → ((m : Message) (t : Session) → next m t ≡ some (true, m, t))
      → p.2.msgs_count < x.limits.max_msgs_per_server
      → p.2.msgs_count ≡ s.msgs_count + length rs
      → mailed p.2.log ≡ newest_first rs (mailed s.log)
      → Stops rs s (end_round fuel x p next)
  unfolding end_round
  end_round-Stops fuel rs s (false, m, t) next n below c g = (false, m, t, refl, c, g)
  end_round-Stops fuel rs s (true, m, t) next n below c g =
      rw (end_round, dispatch_waits fuel t below) (true, m, t, n m t, c, g)

module _ (k : Mailer) (x : Context) (m : Message) (no_notice : is_never m.dsn_flags ≡ true) where
  start_batch-Plain : (specific : Bool) → Plain (start_batch specific true false m).1
  unfolding start_batch
  start_batch-Plain specific =
      by_test (λ (q : Bool × Batch). Plain q.1) specific
        (λ _. elim (Option-cases m.details) [
          | inl e ↦ rw e (no_notice, refl)
          | inr (d, e) ↦ rw e (no_notice, refl)
        ])
        (λ _. (no_notice, refl))

  queue_loop-Stops :
      (fuel : ℕ) (specific : Bool) (rs : List Destination) (s : Session)
      → length rs < suc fuel
      → s.msgs_count + length rs < x.limits.max_msgs_per_server
      → All (λ r. is_empty (address r) ≡ false) rs
      → Stops rs s (queue_loop (suc (suc fuel)) k x specific true false rs m s)
  unfolding queue_loop
  queue_loop-Stops fuel specific [] s enough room given = (true, m, s, refl, omega arith, refl)
  queue_loop-Stops fuel specific (r ∷ rs) s enough room given =
      let (specific', b) = start_batch specific true false m in
      let max = x.limits.max_msgs_per_server in
      let (b', t, e, c, g) =
        fill_batch-FillsAll (suc fuel) max k.junk specific' (r ∷ rs) b s enough (omega arith) given
          (start_batch-Plain specific) in
      let m' = set_headers k.templates b' in
      let (count_kept, log_kept) = sign_message-Kept k x m' t in
      rw (queue_loop, e)
        (end_round-Stops x (suc fuel) (r ∷ rs) s (sign_message k x m' t)
          (queue_loop (suc fuel) k x specific' b'.look_for_return_path b'.set_unsubscribe_link [])
          (λ m2 t2. refl) (omega (arith, count_kept, c)) (count_kept ∙ c) (ap mailed log_kept ∙ g))

  -- queueMessage returns for a message to all recipients whose delivery is not to be notified, where
  -- the provider has a session, each recipient has an address, all of them fit in the batch with room
  -- to spare, and the fuel is 2 more than their number or above. It has then given all of them to the
  -- provider, in their order and each once, and counted them in the batch, whatever it returns.
  pub queue_message_returns :
      (fuel : ℕ) (rs : List Destination) (s : Session)
      → x.has_provider ≡ true
      → ((log : List Event) → x.outside.has_session log ≡ true)
      → length rs ≤ fuel
      → s.msgs_count + length rs < x.limits.max_msgs_per_server
      → All (λ r. is_empty (address r) ≡ false) rs
      → (ok : Bool) × (m' : Message) × (t : Session) × (queue_message
            (suc (suc fuel))
            k
            x
            m
            rs
            false
            s
          ≡ some (ok, m', t))
        × (t.msgs_count ≡ s.msgs_count + length rs)
        × (mailed t.log ≡ newest_first rs (mailed s.log))
  unfolding queue_message create_session
  queue_message_returns fuel rs s provider session enough room given =
      let has : create_session (suc (suc fuel)) x s ≡ some (true, s) =
        rw (provider, session s.log) refl in
      rw (queue_message, has, session s.log)
        (queue_loop-Stops fuel (not false && not k.hide_recipients) rs (note message_queued s)
          (omega arith) room given)
