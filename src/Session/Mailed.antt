-- ===== src/Session/Mailed.antt =====
-- The recipients that a session has given to the provider.
use givemail.Base.{
  ℕ, zero, suc, ◌≡◌, refl, ap, ◌∙◌, inl, inr, Bool, false, not, ◌&&◌, ◌||◌, Option, none, some,
  List, [], ◌∷◌, ◌++◌, ltb, ◌==◌, All, last, by_test, Option-cases,
}
use givemail.Base.Text.{Text, is_empty}
use givemail.Session.{
  Event, time_read, addresses_queried, session_created, session_destroyed, authentication_enabled,
  start_tls_enabled, server_set, session_started, status_updated, message_queued, recipient_added,
  Context, Session,
}
use givemail.Session.Safety.{Spares, Follows, Returned}
use givemail.Session.Dispatch.{create_session, dispatch_messages, is_connection_failure, send}
use givemail.Session.Recording.{reset_error}
use givemail.Session.Starting.{start_session-Follows}
use givemail.Session.Batch.{first_try, after_first, emptied, create_session-Follows, send-Follows}
use givemail.Session.Route.{discard_current_server}
use givemail.Session.Fill.{Destination, Batch, take_recipient, add_recipient, fill_batch}

-- The addresses that were given to the provider, the newest first.
abbrev pub mailed : List Event → List Text
mailed [] = []
mailed (time_read ∷ log) = mailed log
mailed (addresses_queried host ∷ log) = mailed log
mailed (session_created done ∷ log) = mailed log
mailed (session_destroyed ∷ log) = mailed log
mailed (authentication_enabled realm user_name password ∷ log) = mailed log
mailed (start_tls_enabled ∷ log) = mailed log
mailed (server_set host port done ∷ log) = mailed log
mailed (session_started reset done ∷ log) = mailed log
mailed (status_updated ∷ log) = mailed log
mailed (message_queued ∷ log) = mailed log
mailed (recipient_added email_address ∷ log) = email_address ∷ mailed log

mailed-Spares :
    (names : List Text) (added log : List Event)
    → All (Spares names) added
    → mailed (added ++ log) ≡ mailed log
mailed-Spares names [] log h = refl
mailed-Spares names (time_read ∷ added) log h = mailed-Spares names added log h.1
mailed-Spares names (addresses_queried host ∷ added) log h = mailed-Spares names added log h.1
mailed-Spares names (session_created done ∷ added) log h = mailed-Spares names added log h.1
mailed-Spares names (session_destroyed ∷ added) log h = mailed-Spares names added log h.1
mailed-Spares names (authentication_enabled realm user_name password ∷ added) log h =
    mailed-Spares names added log h.1
mailed-Spares names (start_tls_enabled ∷ added) log h = mailed-Spares names added log h.1
mailed-Spares names (server_set host port done ∷ added) log h = mailed-Spares names added log h.1
mailed-Spares names (session_started reset done ∷ added) log h = mailed-Spares names added log h.1
mailed-Spares names (status_updated ∷ added) log h = mailed-Spares names added log h.1
mailed-Spares names (message_queued ∷ added) log h = absurd h.0
mailed-Spares names (recipient_added email_address ∷ added) log h = absurd h.0

pub mailed-Follows : (s t : Session) → Follows s t → mailed t.log ≡ mailed s.log
mailed-Follows s t f = ap mailed f.log_grows ∙ mailed-Spares s.discarded f.added s.log f.spared

-- A result that gives the provider no recipient.
abbrev pub Quiet : Session → Option (Bool × Session) → Type 0
Quiet s = Returned (λ _ t. mailed t.log ≡ mailed s.log)

discard-log : (s : Session) → (discard_current_server s).log ≡ s.log
unfolding discard_current_server
discard-log s = elim (Option-cases (last s.top_queue)) [
  | inl e ↦ rw (discard_current_server, e) refl
  | inr (mx, e) ↦ elim (Option-cases (last mx.addresses)) [
    | inl f ↦ rw (discard_current_server, e, f) refl
    | inr (a, f) ↦ rw (discard_current_server, e, f) refl
  ]
]

after_first-mailed : (x : Context) (s : Session) → mailed (after_first x s).log ≡ mailed s.log
after_first-mailed x s =
    let first =
      mailed-Follows (reset_error s) (first_try x s)
        (start_session-Follows x false (reset_error s)) in
    by_test (λ (t : Session). mailed t.log ≡ mailed s.log) (is_connection_failure x (first_try x s))
      (λ _. ap mailed (discard-log (first_try x s)) ∙ first) (λ _. first)

pub create_session-Quiet :
    (fuel : ℕ) (x : Context) (s : Session) → Quiet s (create_session fuel x s)
create_session-Quiet fuel x s = elim (Option-cases (create_session fuel x s)) [
  | inl e ↦ rw e tt
  | inr (r, e) ↦
      let f : Follows s r.1 = rw e at (create_session-Follows fuel x s) in
      rw e (mailed-Follows s r.1 f)
]

pub dispatch_messages-Quiet :
    (fuel : ℕ) (x : Context) (force : Bool) (s : Session)
    → Quiet s (dispatch_messages fuel x force s)
unfolding dispatch_messages
dispatch_messages-Quiet fuel x force s =
    by_test (Quiet s) (not x.has_provider || (s.msgs_count == 0)) (λ _. refl)
      (λ _.
        by_test (Quiet s) (ltb s.msgs_count x.limits.max_msgs_per_server && not force) (λ _. refl)
          (λ _.
            by_test (Quiet s) x.dont_send (λ _. refl)
              (λ _. elim (Option-cases (send fuel x s)) [
                | inl e ↦ rw e tt
                | inr (r, e) ↦
                    let f : Follows (emptied (after_first x s)) r.1 =
                      rw e at (send-Follows fuel x s) in
                    rw e (mailed-Follows (emptied (after_first x s)) r.1 f ∙ after_first-mailed x s)
              ])))

-- The addresses of some destinations, as the log has them.
abbrev pub address : Destination → Text
address r = r.recipient.email_address

abbrev pub newest_first : List Destination → List Text → List Text
newest_first [] before = before
newest_first (r ∷ rs) before = newest_first rs (address r ∷ before)

pub newest_first-append :
    (rs qs : List Destination) (before : List Text)
    → newest_first (rs ++ qs) before ≡ newest_first qs (newest_first rs before)
newest_first-append [] qs before = refl
newest_first-append (r ∷ rs) qs before = newest_first-append rs qs (address r ∷ before)

-- What a batch takes: the destinations at the front, in their order.
abbrev pub Fills : List Destination → Session → Option (List Destination × Batch × Session) → Type 0
Fills rs s none = Unit
Fills rs s (some (rest, b, t)) =
    (taken : List Destination) × (rs ≡ taken ++ rest)
    × (mailed t.log ≡ newest_first taken (mailed s.log))

module _ (max junk : ℕ) (specific : Bool) where
  pub fill_batch-Fills :
      (fuel : ℕ) (rs : List Destination) (b : Batch) (s : Session)
      → Fills rs s (fill_batch fuel max junk specific rs b s)
  unfolding fill_batch
  fill_batch-Fills zero rs b s = tt
  fill_batch-Fills (suc fuel) [] b s = ([], refl, refl)
  fill_batch-Fills (suc fuel) (r ∷ rs) b s =
      by_test (Fills (r ∷ rs) s) (ltb s.msgs_count max)
        (λ _.
          by_test (Fills (r ∷ rs) s) (is_empty (address r))
            (λ _. fill_batch-Fills fuel (r ∷ rs) b s)
            (λ _. elim (Option-cases (take_recipient junk specific r b)) [
              | inl e ↦ rw (Fills, e) tt
              | inr (b', e) ↦
                  elim (Option-cases
                    (fill_batch fuel max junk specific rs b' (add_recipient r s))) [
                      | inl f ↦ rw (Fills, e, f) tt
                      | inr ((rest, b2, t), f) ↦
                          let ih : Fills rs (add_recipient r s) (some (rest, b2, t)) =
                            rw f at (fill_batch-Fills fuel rs b' (add_recipient r s)) in
                          rw (Fills, e, f) (r ∷ ih.0, ap (◌∷◌ r) ih.1, ih.2)
                    ]
            ]))
        (λ _. ([], refl, refl))
