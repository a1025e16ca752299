-- ===== src/Session/Unsent.antt =====
-- What becomes of messages that are not signed.
use givemail.Base.{
  ℕ, zero, suc, ◌+◌, ◌≡◌, ◌≢◌, refl, ◌∙◌, inl, inr, Bool, true, false, not, ◌&&◌, ◌||◌, Option,
  none, some, List, [], ◌∷◌, arith, ltb, ◌==◌, if◌then◌else◌, by_test, Option-cases,
}
use givemail.Base.Text.{Text, is_empty}
use givemail.Details.{MessageDetails, is_recipient_personalized}
use givemail.Message.{Message}
use givemail.Session.{message_queued, Context, Session, note}
use givemail.Session.Safety.{Follows, Returned}
use givemail.Session.Dispatch.{and_then, create_session, dispatch_messages, send}
use givemail.Session.Batch.{after_first, emptied, create_session-Follows, send-Follows}
use givemail.Session.Fill.{Destination, Mailer, Batch, take_recipient, add_recipient, fill_batch}
use givemail.Session.Queue.{
  set_headers, sign_message, start_batch, end_round, queue_loop, queue_message,
}
use givemail.Session.Generate.{
  Generator, recipient_fields, dsn_of, queue_personal, personal_loop, queue_common, force_send,
  generate_messages,
}

-- m_msgsDataSize is 0.
abbrev Unsigned : Session → Type 0
Unsigned s = s.msgs_data_size ≡ 0

abbrev Stays : Option (Bool × Session) → Type 0
Stays = Returned (λ _ t. Unsigned t)

create_session-Stays :
    (fuel : ℕ) (x : Context) (s : Session) → Unsigned s → Stays (create_session fuel x s)
create_session-Stays fuel x s u = elim (Option-cases (create_session fuel x s)) [
  | inl e ↦ rw e tt
  | inr (r, e) ↦
      let f : Follows s r.1 = rw e at (create_session-Follows fuel x s) in rw e (f.size_kept ∙ u)
]

dispatch_messages-Stays :
    (fuel : ℕ) (x : Context) (force : Bool) (s : Session)
    → Unsigned s
    → Stays (dispatch_messages fuel x force s)
unfolding dispatch_messages
dispatch_messages-Stays fuel x force s u =
    by_test Stays (not x.has_provider || (s.msgs_count == 0)) (λ _. u)
      (λ _.
        by_test Stays (ltb s.msgs_count x.limits.max_msgs_per_server && not force) (λ _. u)
          (λ _.
            by_test Stays x.dont_send (λ _. refl)
              (λ _. elim (Option-cases (send fuel x s)) [
                | inl e ↦ rw e tt
                | inr (r, e) ↦
                    let f : Follows (emptied (after_first x s)) r.1 =
                      rw e at (send-Follows fuel x s) in
                    rw e f.size_kept
              ])))

abbrev FillsUnsigned : Option (List Destination × Batch × Session) → Type 0
FillsUnsigned none = Unit
FillsUnsigned (some (rest, b, t)) = Unsigned t

fill_batch-Unsigned :
    (fuel max junk : ℕ) (specific : Bool) (rs : List Destination) (b : Batch) (s : Session)
    → Unsigned s
    → FillsUnsigned (fill_batch fuel max junk specific rs b s)
unfolding fill_batch
fill_batch-Unsigned zero max junk specific rs b s u = tt
fill_batch-Unsigned (suc fuel) max junk specific [] b s u = u
fill_batch-Unsigned (suc fuel) max junk specific (r ∷ rs) b s u =
    by_test FillsUnsigned (ltb s.msgs_count max)
      (λ _.
        by_test FillsUnsigned (is_empty r.recipient.email_address)
          (λ _. fill_batch-Unsigned fuel max junk specific (r ∷ rs) b s u)
          (λ _. elim (Option-cases (take_recipient junk specific r b)) [
            | inl e ↦ rw (FillsUnsigned, e) tt
            | inr (b', e) ↦
                rw e (fill_batch-Unsigned fuel max junk specific rs b' (add_recipient r s) u)
          ]))
      (λ _. u)

abbrev QueuesUnsigned : Option (Bool × Message × Session) → Type 0
QueuesUnsigned none = Unit
QueuesUnsigned (some (ok, m, t)) = Unsigned t

module _ (fuel : ℕ) (x : Context) where
  end_round-Unsigned :
      (p : Bool × Message × Session) (next : Message → Session → Option (Bool × Message × Session))
      → Unsigned p.2
      → ((m : Message) (s : Session) → Unsigned s → QueuesUnsigned (next m s))
      → QueuesUnsigned (end_round fuel x p next)
  unfolding end_round
  end_round-Unsigned (false, m, s) next u h = u
  end_round-Unsigned (true, m, s) next u h =
      let stays = dispatch_messages-Stays fuel x false s u in
      elim (Option-cases (dispatch_messages fuel x false s)) [
        | inl e ↦ rw (end_round, e) tt
        | inr ((false, t), e) ↦ rw (end_round, e) (rw e at stays)
        | inr ((true, t), e) ↦ rw (end_round, e) (h m t (rw e at stays))
      ]

-- Where nothing can be signed, signMessage leaves the size as it is.
module _ (k : Mailer) (x : Context) (cannot : k.can_sign ≡ false) where
  sign_message-Unsigned :
      (m : Message) (s : Session) → Unsigned s → Unsigned (sign_message k x m s).2
  unfolding sign_message
  sign_message-Unsigned m s u =
      let P : Bool × Message × Session → Type 0 = λ p. Unsigned p.2 in
      by_test P (not x.has_provider) (λ _. u)
        (λ _. by_test P (not k.can_sign) (λ _. u) (λ h. absurd (ground (arith, h, cannot))))

  queue_loop-Unsigned :
      (fuel : ℕ) (specific look link : Bool) (rs : List Destination) (m : Message) (s : Session)
      → Unsigned s
      → QueuesUnsigned (queue_loop fuel k x specific look link rs m s)
  unfolding queue_loop
  queue_loop-Unsigned zero specific look link rs m s u = tt
  queue_loop-Unsigned (suc fuel) specific look link [] m s u = u
  queue_loop-Unsigned (suc fuel) specific look link (r ∷ rs) m s u =
      let (specific', b) = start_batch specific look link m in
      let max = x.limits.max_msgs_per_server in
      let filled = fill_batch-Unsigned fuel max k.junk specific' (r ∷ rs) b s u in
      elim (Option-cases (fill_batch fuel max k.junk specific' (r ∷ rs) b s)) [
        | inl e ↦ rw (queue_loop, e) tt
        | inr ((rest, b', s'), e) ↦
            let u' : Unsigned s' = rw e at filled in
            let m' = set_headers k.templates b' in
            rw (queue_loop, e)
              (end_round-Unsigned fuel x (sign_message k x m' s') _ (sign_message-Unsigned m' s' u')
                (queue_loop-Unsigned fuel specific' b'.look_for_return_path b'.set_unsubscribe_link
                  rest))
      ]

  queue_message-Unsigned :
      (fuel : ℕ) (m : Message) (rs : List Destination) (personalized : Bool) (s : Session)
      → Unsigned s
      → QueuesUnsigned (queue_message fuel k x m rs personalized s)
  unfolding queue_message
  queue_message-Unsigned fuel m rs personalized s u =
      let stays = create_session-Stays fuel x s u in
      let specific = not personalized && not k.hide_recipients in
      elim (Option-cases (create_session fuel x s)) [
        | inl e ↦ rw (queue_message, e) tt
        | inr ((false, s'), e) ↦ rw (queue_message, e) (rw e at stays)
        | inr ((true, s'), e) ↦
            let u' : Unsigned s' = rw e at stays in
            rw (queue_message, e)
              (by_test QueuesUnsigned (x.outside.has_session s'.log)
                (λ _.
                  queue_loop-Unsigned fuel specific true personalized rs m (note message_queued s')
                    u')
                (λ _. u'))
      ]

module _ (fuel : ℕ) (g : Generator) (x : Context) (d : MessageDetails)
    (cannot : g.mailer.can_sign ≡ false) where
  queue_personal-Unsigned :
      (r : Destination) (n : ℕ) (fields : List (Text × Text)) (s : Session)
      → Unsigned s
      → Stays (queue_personal fuel g x d r n (some fields) s)
  unfolding queue_personal
  queue_personal-Unsigned r n fields s u =
      let m = g.new_message n fields d (dsn_of g.dsn_notify) in
      let queued = queue_message-Unsigned g.mailer x cannot fuel m (r ∷ []) true s u in
      elim (Option-cases (queue_message fuel g.mailer x m (r ∷ []) true s)) [
        | inl e ↦ rw (queue_personal, e) tt
        | inr ((ok, m', t), e) ↦ rw (queue_personal, e) (rw e at queued)
      ]

  queue_common-Unsigned :
      (r : Destination) (rs : List Destination) (s : Session)
      → Unsigned s
      → Stays (queue_common fuel g x d r rs s)
  unfolding queue_common
  queue_common-Unsigned r rs s u =
      let m = g.new_message 0 r.custom_fields d (dsn_of g.dsn_notify) in
      let queued = queue_message-Unsigned g.mailer x cannot fuel m (r ∷ rs) false s u in
      elim (Option-cases (queue_message fuel g.mailer x m (r ∷ rs) false s)) [
        | inl e ↦ rw (queue_common, e) tt
        | inr ((ok, m', t), e) ↦ rw (queue_common, e) (rw e at queued)
      ]

  personal_loop-Unsigned :
      (n : ℕ) (rs : List Destination) (fields : List (Text × Text)) (ok : Bool) (s : Session)
      → Unsigned s
      → Stays (personal_loop fuel g x d n rs fields ok s)
  unfolding personal_loop
  personal_loop-Unsigned n [] fields ok s u = u
  personal_loop-Unsigned n (r ∷ rs) fields ok s u =
      elim (Option-cases (recipient_fields g.mailer.junk r fields)) [
        | inl e ↦ rw (personal_loop, e) tt
        | inr (fields', e) ↦ elim (Option-cases (queue_personal fuel g x d r n (some fields') s)) [
          | inl f ↦ rw (personal_loop, e, f) tt
          | inr ((queued, s'), f) ↦
              let u' : Unsigned s' = rw f at (queue_personal-Unsigned r n fields' s u) in
              rw (personal_loop, e, f)
                (personal_loop-Unsigned (n + 1) rs fields' (ok && queued) s' u')
        ]
      ]

  abbrev Refused : Option (Bool × Session) → Type 0
  Refused none = Unit
  Refused (some (ok, t)) = ok ≡ false

  and_then-Refused :
      (queued : Option (Bool × Session))
      → Stays queued
      → Refused (and_then queued (λ q. force_send fuel x q.0 q.1))
  unfolding force_send
  and_then-Refused none u = tt
  and_then-Refused (some (ok, s)) u =
      let e : (s.msgs_data_size == 0) ≡ true = rw u refl in rw e refl

  generate_messages-Refused :
      (r : Destination) (rs : List Destination) (s : Session)
      → Unsigned s
      → Refused (generate_messages fuel g x d (r ∷ rs) s)
  unfolding generate_messages
  generate_messages-Refused r rs s u =
      let personal = personal_loop fuel g x d 0 (r ∷ rs) [] true s in
      let common = queue_common fuel g x d r rs s in
      let queued = if is_recipient_personalized g.has_field d then personal else common in
      let stays : Stays queued =
        by_test Stays (is_recipient_personalized g.has_field d)
          (λ _. personal_loop-Unsigned 0 (r ∷ rs) [] true s u)
          (λ _. queue_common-Unsigned r rs s u) in
      by_test Refused (not x.has_provider) (λ _. refl) (λ _. and_then-Refused queued stays)

  -- Where messages cannot be signed and m_msgsDataSize starts at 0, generateMessages never returns
  -- true for one destination or more, whatever was sent: before the forced dispatch at its end it
  -- asks for signed bytes, of which there are none.
  pub generate_messages_refuses :
      (r : Destination) (rs : List Destination) (s t : Session)
      → s.msgs_data_size ≡ 0
      → generate_messages fuel g x d (r ∷ rs) s ≢ some (true, t)
  generate_messages_refuses r rs s t u e =
      let refused : Refused (some (true, t)) = rw e at (generate_messages-Refused r rs s u) in
      cc refused
