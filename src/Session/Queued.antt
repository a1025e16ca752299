-- ===== src/Session/Queued.antt =====
-- The recipients that queueMessage gives to the provider.
use givemail.Base.{
  ℕ, zero, suc, ◌≡◌, refl, sym, ap, ◌∙◌, inl, inr, Bool, true, false, not, ◌&&◌, ◌||◌, Option, none,
  some, List, [], ◌∷◌, ◌++◌, append_assoc, by_test, Option-cases,
}
use givemail.Message.{Message}
use givemail.Session.{message_queued, Context, Session, note}
use givemail.Session.Dispatch.{create_session, dispatch_messages}
use givemail.Session.Fill.{Destination, Mailer, fill_batch}
use givemail.Session.Queue.{
  set_headers, sign_message, start_batch, end_round, queue_loop, queue_message,
}
use givemail.Session.Mailed.{
  mailed, create_session-Quiet, dispatch_messages-Quiet, newest_first, newest_first-append, Fills,
  fill_batch-Fills,
}

-- What queueMessage gives to the provider: the destinations at the front, all if it succeeds.
abbrev pub Queues : List Destination → Session → Option (Bool × Message × Session) → Type 0
Queues rs s none = Unit
Queues rs s (some (ok, m, t)) =
    (taken : List Destination) × (rest : List Destination) × (rs ≡ taken ++ rest)
    × (mailed t.log ≡ newest_first taken (mailed s.log))
    × (ok ≡ true → rest ≡ [])

Queues-behind :
    (rs taken rest : List Destination) (s s' : Session)
    → rs ≡ taken ++ rest
    → mailed s'.log ≡ newest_first taken (mailed s.log)
    → (o : Option (Bool × Message × Session)) → Queues rest s' o
    → Queues rs s o
Queues-behind rs taken rest s s' e h none q = tt
Queues-behind rs taken rest s s' e h (some (ok, m, t)) (more, left, f, g, all) = (
  taken ++ more,
  left,
  e ∙ (ap (λ l. taken ++ l) f ∙ sym (append_assoc taken more left)),
  g ∙ (ap (newest_first more) h ∙ sym (newest_first-append taken more (mailed s.log))),
  all,
)

module _ (fuel : ℕ) (k : Mailer) (x : Context) where
  end_round-Queues :
      (p : Bool × Message × Session) (next : Message → Session → Option (Bool × Message × Session))
      (rest : List Destination)
      → ((m : Message) (s : Session) → Queues rest s (next m s))
      → Queues rest p.2 (end_round fuel x p next)
  unfolding end_round
  end_round-Queues (false, m, s) next rest h = ([], rest, refl, refl, λ e. cc e)
  end_round-Queues (true, m, s) next rest h =
      let quiet = dispatch_messages-Quiet fuel x false s in
      elim (Option-cases (dispatch_messages fuel x false s)) [
        | inl e ↦ rw (end_round, e) tt
        | inr ((false, t), e) ↦ rw (end_round, e) ([], rest, refl, rw e at quiet, λ f. cc f)
        | inr ((true, t), e) ↦
            rw (end_round, e)
              (Queues-behind rest [] rest s t refl (rw e at quiet) (next m t) (h m t))
      ]

  sign_message-log : (m : Message) (s : Session) → (sign_message k x m s).2.log ≡ s.log
  unfolding sign_message
  sign_message-log m s =
      let P : Bool × Message × Session → Type 0 = λ p. p.2.log ≡ s.log in
      by_test P (not x.has_provider) (λ _. refl)
        (λ _.
          by_test P (not k.can_sign) (λ _. refl)
            (λ _. elim (Option-cases (k.sign (k.message_data m) m)) [
              | inl e ↦ rw e refl
              | inr (h, e) ↦ rw e (
                  by_test P
                    (not k.verify_signatures
                      || k.verify (k.message_data m) (record m { signature_header = h }))
                    (λ _. refl) (λ _. refl))
            ]))

queue_loop-Queues :
    (fuel : ℕ) (k : Mailer) (x : Context) (specific look link : Bool) (rs : List Destination)
    (m : Message) (s : Session)
    → Queues rs s (queue_loop fuel k x specific look link rs m s)
unfolding queue_loop
queue_loop-Queues zero k x specific look link rs m s = tt
queue_loop-Queues (suc fuel) k x specific look link [] m s = ([], [], refl, refl, λ _. refl)
queue_loop-Queues (suc fuel) k x specific look link (r ∷ rs) m s =
    let (specific', b) = start_batch specific look link m in
    let max = x.limits.max_msgs_per_server in
    let filled = fill_batch-Fills max k.junk specific' fuel (r ∷ rs) b s in
    elim (Option-cases (fill_batch fuel max k.junk specific' (r ∷ rs) b s)) [
      | inl e ↦ rw (queue_loop, e) tt
      | inr ((rest, b', s'), e) ↦
          let (taken, f, g) : Fills (r ∷ rs) s (some (rest, b', s')) = rw e at filled in
          let p = sign_message k x (set_headers k.templates b') s' in
          let next =
            queue_loop fuel k x specific' b'.look_for_return_path b'.set_unsubscribe_link rest in
          let kept : mailed p.2.log ≡ newest_first taken (mailed s.log) =
            ap mailed (sign_message-log fuel k x (set_headers k.templates b') s') ∙ g in
          rw (queue_loop, e)
            (Queues-behind (r ∷ rs) taken rest s p.2 f kept (end_round fuel x p next) (
              end_round-Queues fuel k x p next rest (
                queue_loop-Queues fuel k x specific' b'.look_for_return_path b'.set_unsubscribe_link
                  rest)))
    ]

module _ (fuel : ℕ) (k : Mailer) (x : Context) (m : Message) (rs : List Destination)
    (personalized : Bool) where
  pub queue_message-Queues :
      (s : Session) → Queues rs s (queue_message fuel k x m rs personalized s)
  unfolding queue_message
  queue_message-Queues s =
      let quiet = create_session-Quiet fuel x s in
      let specific = not personalized && not k.hide_recipients in
      elim (Option-cases (create_session fuel x s)) [
        | inl e ↦ rw (queue_message, e) tt
        | inr ((false, s'), e) ↦ rw (queue_message, e) ([], rs, refl, rw e at quiet, λ f. cc f)
        | inr ((true, s'), e) ↦
            let same : mailed s'.log ≡ mailed s.log = rw e at quiet in
            rw (queue_message, e)
              (by_test (Queues rs s) (x.outside.has_session s'.log)
                (λ _.
                  Queues-behind rs [] rs s (note message_queued s') refl same
                    (queue_loop fuel k x specific true personalized rs m (note message_queued s'))
                    (queue_loop-Queues fuel k x specific true personalized rs m
                      (note message_queued s')))
                (λ _. ([], rs, refl, same, λ f. cc f)))
      ]

  -- queueMessage gives destinations from the front to the provider, in their order and each once,
  -- whatever it returns: batches that are sent in between, and servers that fail, change nothing in
  -- that. If it returns true, these are all destinations.
  pub queue_message_mails :
      (s t : Session) (m' : Message) (ok : Bool)
      → queue_message fuel k x m rs personalized s ≡ some (ok, m', t)
      → (taken : List Destination) × (rest : List Destination) × (rs ≡ taken ++ rest)
        × (mailed t.log ≡ newest_first taken (mailed s.log))
        × (ok ≡ true → rest ≡ [])
  queue_message_mails s t m' ok e = rw e at (queue_message-Queues s)
