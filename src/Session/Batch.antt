-- ===== src/Session/Batch.antt =====
-- What dispatchMessages does to the batch and to the server that failed.
use givemail.Base.{
  ℕ, ◌≤◌, ◌<◌, ◌≡◌, refl, subst, ◌⊎◌, inl, inr, Bool, true, false, not, ◌&&◌, ◌||◌, Option, none,
  some, List, [], ◌∷◌, ◌++◌, arith, ltb, ◌==◌, if◌then◌else◌, All, by_test, Option-cases,
  Bool-cases,
}
use givemail.Base.Text.{str_eq, is_empty}
use givemail.Session.{
  Event, session_created, session_destroyed, status_updated, authentication_enabled,
  start_tls_enabled, Context, Session, note,
}
use givemail.Session.Route.{cycle_servers, discard_current_server}
use givemail.Session.Safety.{
  Spares, Follows, Returned, stays, noted, alike, follows_trans, later, cycle_servers-Follows,
}
use givemail.Session.Current.{HasCurrent, discard-HasCurrent}
use givemail.Session.Dispatch.{
  and_then, enable_options, create_session, is_connection_failure, start_session, try_again, renew,
  send, dispatch_messages,
}
use givemail.Session.Recording.{reset_error}
use givemail.Session.Starting.{start_session-Follows, start_session-keeps}

enable_options-Follows : (x : Context) (s : Session) → Follows s (enable_options x s)
unfolding enable_options
enable_options-Follows x s =
    let o = x.options in
    let is_relay = str_eq o.mail_relay_address x.limits.domain_name in
    let named =
      authentication_enabled o.mail_relay_address o.mail_relay_user_name o.mail_relay_password in
    let unnamed = authentication_enabled [] [] [] in
    let e = if is_relay && not (is_empty o.mail_relay_user_name) then named else unnamed in
    let f : Follows s (note e s) = noted e s (
      by_test (Spares s.discarded) (is_relay && not (is_empty o.mail_relay_user_name)) (λ _. tt)
        (λ _. tt)) in
    by_test (Follows s) (is_relay && o.mail_relay_tls)
      (λ _. follows_trans s (note e s) _ f (noted start_tls_enabled (note e s) tt)) (λ _. f)

Returned-and_then :
    (P Q : Session → Type 0) (o : Option (Bool × Session))
    (f : Bool × Session → Option (Bool × Session))
    → Returned (λ _ t. P t) o
    → ((r : Bool × Session) → P r.1 → Returned (λ _ t. Q t) (f r))
    → Returned (λ _ t. Q t) (and_then o f)
Returned-and_then P Q none f h k = tt
Returned-and_then P Q (some r) f h k = k r h

pub create_session-Follows :
    (fuel : ℕ) (x : Context) (s : Session) → Returned (λ _ t. Follows s t) (create_session fuel x s)
unfolding create_session
create_session-Follows fuel x s =
    let done = x.outside.create_session s.log in
    let created = note (session_created done) s in
    let f = noted (session_created done) s tt in
    let P : Option (Bool × Session) → Type 0 = Returned (λ _ t. Follows s t) in
    by_test P (not x.has_provider) (λ _. stays s)
      (λ _.
        by_test P (x.outside.has_session s.log) (λ _. stays s)
          (λ _.
            by_test P done
              (λ _.
                Returned-and_then (Follows created) (Follows s) (cycle_servers fuel x created) _
                  (cycle_servers-Follows fuel x created)
                  (λ r g.
                    let h = follows_trans s created r.1 f g in
                    by_test (λ (q : Bool × Session). Follows s q.1) r.0
                      (λ _. follows_trans s r.1 _ h (enable_options-Follows x r.1)) (λ _. h)))
              (λ _. f)))

-- The counts of a batch at 0.
abbrev pub emptied : Session → Session
emptied s = record s { msgs_count = 0; msgs_data_size = 0 }

emptied-Follows : (s t : Session) → Follows s t → Follows (emptied s) (emptied t)
emptied-Follows s t f = record {
  count_kept = refl;
  size_kept = refl;
  discarded_kept = f.discarded_kept;
  added = f.added;
  log_grows = f.log_grows;
  spared = f.spared;
}

renew-Follows :
    (fuel : ℕ) (x : Context) (ok : Bool) (s : Session)
    → Returned (λ _ t. Follows (emptied s) t) (renew fuel x ok s)
unfolding renew
renew-Follows fuel x ok s =
    let told = if ok then note status_updated s else s in
    let f : Follows s told =
      by_test (Follows s) ok (λ _. noted status_updated s tt) (λ _. stays s) in
    let gone = note session_destroyed (emptied told) in
    let g =
      follows_trans (emptied s) (emptied told) gone (emptied-Follows s told f)
        (noted session_destroyed (emptied told) tt) in
    Returned-and_then (Follows gone) (Follows (emptied s)) (create_session fuel x gone) _
      (create_session-Follows fuel x gone) (λ r h. follows_trans (emptied s) gone r.1 g h)

try_again-Follows :
    (fuel : ℕ) (x : Context) (s : Session)
    → Returned (λ _ t. Follows (discard_current_server s) t) (try_again fuel x s)
unfolding try_again
try_again-Follows fuel x s =
    let d = discard_current_server s in
    Returned-and_then (Follows d) (Follows d) (cycle_servers fuel x d) _
      (cycle_servers-Follows fuel x d)
      (λ r f.
        let again = start_session x true r.1 in
        let g = follows_trans d r.1 again.1 f (start_session-Follows x true r.1) in
        by_test (λ (q : Bool × Session). Follows d q.1) r.0
          (λ _.
            by_test (Follows d) again.0
              (λ _.
                follows_trans d again.1 _ g
                  (alike again.1 (reset_error again.1) refl refl refl refl))
              (λ _. g))
          (λ _. f))

-- The state in which dispatchMessages has sent its messages, the server discarded if it failed.
abbrev pub first_try : Context → Session → Session
first_try x s = (start_session x false (reset_error s)).1

abbrev pub after_first : Context → Session → Session
after_first x s =
    if is_connection_failure x (first_try x s)
    then discard_current_server (first_try x s)
    else first_try x s

pub send-Follows :
    (fuel : ℕ) (x : Context) (s : Session)
    → Returned (λ _ t. Follows (emptied (after_first x s)) t) (send fuel x s)
unfolding send
send-Follows fuel x s =
    let first = start_session x false (reset_error s) in
    let after = after_first x s in
    let failed = is_connection_failure x first.1 in
    Returned-and_then (Follows after) (Follows (emptied after))
      (if failed then try_again fuel x first.1 else some first) _
      (elim (Bool-cases failed) [
        | inl f ↦ rw f (try_again-Follows fuel x first.1)
        | inr f ↦ rw f (stays first.1)
      ])
      (λ r f.
        later (emptied after) (emptied r.1) _ (emptied-Follows after r.1 f)
          (renew-Follows fuel x r.0 r.1))

Returned-send :
    (fuel : ℕ) (x : Context) (s : Session)
    → Returned (λ _ t. (t.msgs_count ≡ 0) × (t.msgs_data_size ≡ 0)) (send fuel x s)
Returned-send fuel x s = elim (Option-cases (send fuel x s)) [
  | inl e ↦ rw e tt
  | inr (r, e) ↦
      let f : Follows (emptied (after_first x s)) r.1 = rw e at (send-Follows fuel x s) in
      rw e (f.count_kept, f.size_kept)
]

module _ (fuel : ℕ) (x : Context) (force : Bool) (s : Session) where
  dispatch_messages-Returned :
      x.has_provider ≡ true
      → 0 < s.msgs_count
      → (force ≡ true) ⊎ (x.limits.max_msgs_per_server ≤ s.msgs_count)
      → Returned
          (λ _ t. (t.msgs_count ≡ 0) × (t.msgs_data_size ≡ 0))
          (dispatch_messages fuel x force s)
  unfolding dispatch_messages
  dispatch_messages-Returned p n due =
      let P : Option (Bool × Session) → Type 0 =
        Returned (λ _ t. (t.msgs_count ≡ 0) × (t.msgs_data_size ≡ 0)) in
      let some_left : (not x.has_provider || (s.msgs_count == 0)) ≡ false = ground (arith, p) in
      let now : (ltb s.msgs_count x.limits.max_msgs_per_server && not force) ≡ false =
        ground (arith, due) in
      by_test P (not x.has_provider || (s.msgs_count == 0)) (λ h. absurd (cc (h, some_left)))
        (λ _.
          by_test P (ltb s.msgs_count x.limits.max_msgs_per_server && not force)
            (λ h. absurd (cc (h, now)))
            (λ _. by_test P x.dont_send (λ _. (refl, refl)) (λ _. Returned-send fuel x s)))

  -- Where there is a provider and a batch to send, and it is full or the sending is forced,
  -- dispatchMessages leaves an empty batch, whether it succeeds or not.
  pub dispatch_messages-emptied :
      (t : Session) (ok : Bool)
      → x.has_provider ≡ true
      → 0 < s.msgs_count
      → (force ≡ true) ⊎ (x.limits.max_msgs_per_server ≤ s.msgs_count)
      → dispatch_messages fuel x force s ≡ some (ok, t)
      → (t.msgs_count ≡ 0) × (t.msgs_data_size ≡ 0)
  dispatch_messages-emptied t ok p n due e = rw e at (dispatch_messages-Returned p n due)

first_try-keeps :
    (x : Context) (s : Session)
    → ((first_try x s).top_queue ≡ s.top_queue) × ((first_try x s).discarded ≡ s.discarded)
first_try-keeps x s = start_session-keeps x false (reset_error s)

-- Where the provider was last set to the last address of the last record of the queue of servers,
-- which it took and which is not discarded, and sending a batch failed for want of a connection,
-- whether startSession returned false or the events of the connection left that error behind: where
-- the search for another server returns, that address is discarded, and of the rest of
-- dispatchMessages no call sets the provider to it again, nor to a name discarded before.
pub send-discards :
    (fuel : ℕ) (x : Context) (s t : Session) (ok : Bool) (current : HasCurrent x s)
    → is_connection_failure x (first_try x s) ≡ true
    → send fuel x s ≡ some (ok, t)
    → (t.discarded ≡ current.2.address.host_name ∷ s.discarded)
      × ((added : List Event) × (t.log ≡ added ++ (first_try x s).log)
          × All (Spares (current.2.address.host_name ∷ s.discarded)) added)
send-discards fuel x s t ok (mx, back, i) failed e =
    let f : Follows (emptied (after_first x s)) t = rw e at (send-Follows fuel x s) in
    let first = first_try x s in
    let (q, k) = first_try-keeps x s in
    let a = i.address in
    let d = discard-HasCurrent first mx a (cc (q, back)) i.at_back in
    let after : after_first x s ≡ record first { discarded = a.host_name ∷ first.discarded } =
      rw failed d in
    let g = subst (λ u. Follows (emptied u) t) after f in
    (cc (g.discarded_kept, k), (g.added, g.log_grows, rw k at (g.spared)))
