-- ===== src/Session/Delivered.antt =====
-- The recipients that generateMessages gives to the provider.
use givemail.Base.{
  ℕ, ◌+◌, ◌≡◌, refl, ap, ◌∙◌, inl, inr, Bool, true, false, not, ◌&&◌, ◌||◌, Option, none, some,
  List, [], ◌∷◌, ◌++◌, append-nil, arith, ltb, ◌==◌, if◌then◌else◌, by_test, Option-cases,
}
use givemail.Base.Text.{Text}
use givemail.Message.{Message}
use givemail.Session.{Context, Session}
use givemail.Session.Safety.{Follows, Returned}
use givemail.Session.Dispatch.{and_then, dispatch_messages, send}
use givemail.Session.Batch.{after_first, emptied, send-Follows}
use givemail.Details.{MessageDetails, is_recipient_personalized}
use givemail.Session.Generate.{
  Generator, recipient_fields, dsn_of, queue_personal, personal_loop, queue_common, force_send,
  generate_messages,
}
use givemail.Session.Fill.{Destination}
use givemail.Session.Queue.{queue_message}
use givemail.Session.Mailed.{mailed, dispatch_messages-Quiet, newest_first}
use givemail.Session.Queued.{Queues, queue_message-Queues}

-- A success that has given all destinations to the provider.
abbrev Gives : List Destination → Session → Option (Bool × Session) → Type 0
Gives rs s none = Unit
Gives rs s (some (ok, t)) = ok ≡ true → mailed t.log ≡ newest_first rs (mailed s.log)

all_given :
    (rs : List Destination) (s t : Session) (m : Message) (ok : Bool)
    → Queues rs s (some (ok, m, t))
    → ok ≡ true
    → mailed t.log ≡ newest_first rs (mailed s.log)
all_given rs s t m ok (taken, rest, e, h, all) good =
    let whole : rs ≡ taken = e ∙ (ap (λ l. taken ++ l) (all good) ∙ append-nil taken) in rw whole h

module _ (fuel : ℕ) (g : Generator) (x : Context) (d : MessageDetails) where
  queue_personal-Gives :
      (r : Destination) (n : ℕ) (fields : List (Text × Text)) (s : Session)
      → Gives (r ∷ []) s (queue_personal fuel g x d r n (some fields) s)
  unfolding queue_personal
  queue_personal-Gives r n fields s =
      let m = g.new_message n fields d (dsn_of g.dsn_notify) in
      let queued = queue_message-Queues fuel g.mailer x m (r ∷ []) true s in
      elim (Option-cases (queue_message fuel g.mailer x m (r ∷ []) true s)) [
        | inl e ↦ rw (queue_personal, e) tt
        | inr ((ok, m', t), e) ↦
            let q : Queues (r ∷ []) s (some (ok, m', t)) = rw e at queued in
            rw (queue_personal, e) (all_given (r ∷ []) s t m' ok q)
      ]

  queue_common-Gives :
      (r : Destination) (rs : List Destination) (s : Session)
      → Gives (r ∷ rs) s (queue_common fuel g x d r rs s)
  unfolding queue_common
  queue_common-Gives r rs s =
      let m = g.new_message 0 r.custom_fields d (dsn_of g.dsn_notify) in
      let queued = queue_message-Queues fuel g.mailer x m (r ∷ rs) false s in
      elim (Option-cases (queue_message fuel g.mailer x m (r ∷ rs) false s)) [
        | inl e ↦ rw (queue_common, e) tt
        | inr ((ok, m', t), e) ↦
            let q : Queues (r ∷ rs) s (some (ok, m', t)) = rw e at queued in
            rw (queue_common, e) (all_given (r ∷ rs) s t m' ok q)
      ]

  -- The success so far is kept in the result.
  abbrev Continues : List Destination → Bool → Session → Option (Bool × Session) → Type 0
  Continues rs so_far s none = Unit
  Continues rs so_far s (some (ok, t)) =
      ok ≡ true → (so_far ≡ true) × (mailed t.log ≡ newest_first rs (mailed s.log))

  join :
      (r : Destination) (rs : List Destination) (s s' : Session) (ok queued : Bool)
      → Gives (r ∷ []) s (some (queued, s'))
      → (o : Option (Bool × Session)) → Continues rs (ok && queued) s' o
      → Continues (r ∷ rs) ok s o
  join r rs s s' ok queued one none c = tt
  join r rs s s' ok queued one (some (good, t)) c = λ e.
      let (both, given) = c e in
      let first : queued ≡ true = ground (arith, both) in
      (ground (arith, both), given ∙ ap (newest_first rs) (one first))

  personal_loop-Continues :
      (n : ℕ) (rs : List Destination) (fields : List (Text × Text)) (ok : Bool) (s : Session)
      → Continues rs ok s (personal_loop fuel g x d n rs fields ok s)
  unfolding personal_loop
  personal_loop-Continues n [] fields ok s = λ good. (good, refl)
  personal_loop-Continues n (r ∷ rs) fields ok s =
      elim (Option-cases (recipient_fields g.mailer.junk r fields)) [
        | inl e ↦ rw (Continues, e) tt
        | inr (fields', e) ↦ elim (Option-cases (queue_personal fuel g x d r n (some fields') s)) [
          | inl f ↦ rw (Continues, e, f) tt
          | inr ((queued, s'), f) ↦
              let one : Gives (r ∷ []) s (some (queued, s')) =
                rw f at (queue_personal-Gives r n fields' s) in
              rw (Continues, e, f)
                (join r rs s s' ok queued one
                  (personal_loop fuel g x d (n + 1) rs fields' (ok && queued) s')
                  (personal_loop-Continues (n + 1) rs fields' (ok && queued) s'))
        ]
      ]

  -- A success that leaves no message in the batch.
  abbrev Finishes : Bool → Session → Option (Bool × Session) → Type 0
  Finishes so_far s none = Unit
  Finishes so_far s (some (ok, t)) =
      ok ≡ true → (so_far ≡ true) × (mailed t.log ≡ mailed s.log) × (t.msgs_count ≡ 0)

  forced_empty :
      x.has_provider ≡ true
      → (s : Session) → Returned (λ _ t. t.msgs_count ≡ 0) (dispatch_messages fuel x true s)
  unfolding dispatch_messages
  forced_empty p s =
      let P : Option (Bool × Session) → Type 0 = Returned (λ _ t. t.msgs_count ≡ 0) in
      by_test P (not x.has_provider || (s.msgs_count == 0)) (λ h. ground (arith, h, p))
        (λ _.
          by_test P (ltb s.msgs_count x.limits.max_msgs_per_server && not true)
            (λ h. absurd (ground (arith, h)))
            (λ _.
              by_test P x.dont_send (λ _. refl)
                (λ _. elim (Option-cases (send fuel x s)) [
                  | inl e ↦ rw e tt
                  | inr (r, e) ↦
                      let f : Follows (emptied (after_first x s)) r.1 =
                        rw e at (send-Follows fuel x s) in
                      rw e f.count_kept
                ])))

  force_send-Finishes :
      x.has_provider ≡ true → (ok : Bool) (s : Session) → Finishes ok s (force_send fuel x ok s)
  unfolding force_send
  force_send-Finishes p ok s =
      by_test (Finishes ok s) (s.msgs_data_size == 0) (λ _ h. cc h)
        (λ _. elim (Option-cases (dispatch_messages fuel x true s)) [
          | inl e ↦ rw (Finishes, e) tt
          | inr ((good, t), e) ↦
              let quiet : mailed t.log ≡ mailed s.log =
                rw e at (dispatch_messages-Quiet fuel x true s) in
              let none_left : t.msgs_count ≡ 0 = rw e at (forced_empty p s) in
              rw (Finishes, e) (λ h. (ground (arith, h), quiet, none_left))
        ])

  abbrev Delivers : List Destination → Session → Option (Bool × Session) → Type 0
  Delivers rs s none = Unit
  Delivers rs s (some (ok, t)) =
      ok ≡ true → (mailed t.log ≡ newest_first rs (mailed s.log)) × (t.msgs_count ≡ 0)

  and_then-Delivers :
      (rs : List Destination) (s : Session) (queued : Option (Bool × Session))
      → x.has_provider ≡ true
      → Gives rs s queued
      → Delivers rs s (and_then queued (λ q. force_send fuel x q.0 q.1))
  and_then-Delivers rs s none p h = tt
  and_then-Delivers rs s (some (ok, s')) p h = elim (Option-cases (force_send fuel x ok s')) [
    | inl e ↦ rw (Delivers, e) tt
    | inr ((good, t), e) ↦
        let f : Finishes ok s' (some (good, t)) = rw e at (force_send-Finishes p ok s') in
        rw (Delivers, e) (λ g. let (o, m, c) = f g in (m ∙ h o, c))
  ]

  personal_loop-Gives :
      (rs : List Destination) (s : Session) → Gives rs s (personal_loop fuel g x d 0 rs [] true s)
  personal_loop-Gives rs s = elim (Option-cases (personal_loop fuel g x d 0 rs [] true s)) [
    | inl e ↦ rw (Gives, e) tt
    | inr ((ok, t), e) ↦
        let c : Continues rs true s (some (ok, t)) =
          rw e at (personal_loop-Continues 0 rs [] true s) in
        rw (Gives, e) (λ h. (c h).1)
  ]

  generate_messages-Delivers :
      (r : Destination) (rs : List Destination) (s : Session)
      → Delivers (r ∷ rs) s (generate_messages fuel g x d (r ∷ rs) s)
  unfolding generate_messages
  generate_messages-Delivers r rs s =
      let personal = personal_loop fuel g x d 0 (r ∷ rs) [] true s in
      let common = queue_common fuel g x d r rs s in
      let queued = if is_recipient_personalized g.has_field d then personal else common in
      let gives : Gives (r ∷ rs) s queued =
        by_test (Gives (r ∷ rs) s) (is_recipient_personalized g.has_field d)
          (λ _. personal_loop-Gives (r ∷ rs) s) (λ _. queue_common-Gives r rs s) in
      by_test (Delivers (r ∷ rs) s) (not x.has_provider) (λ _ h. cc h)
        (λ p. and_then-Delivers (r ∷ rs) s queued (ground (arith, p)) gives)

  -- Where generateMessages returns true for one destination or more, it has given all of them to the
  -- provider, in their order and each once, and no message is left in the batch: whether there is
  -- one message for all or one for each, how many batches are sent on the way, and which servers fail.
  pub generate_messages_delivers :
      (r : Destination) (rs : List Destination) (s t : Session)
      → generate_messages fuel g x d (r ∷ rs) s ≡ some (true, t)
      → (mailed t.log ≡ newest_first (r ∷ rs) (mailed s.log)) × (t.msgs_count ≡ 0)
  generate_messages_delivers r rs s t e =
      let delivers : Delivers (r ∷ rs) s (some (true, t)) =
        rw e at (generate_messages-Delivers r rs s) in
      delivers refl
