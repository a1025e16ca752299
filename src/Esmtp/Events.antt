-- ===== src/Esmtp/Events.antt =====
-- isInternalError and isConnectionError of src/LibESMTPProvider.cc, and what eventCallback leaves of
-- the error of a session: how a connection that is dropped at once is told from others.
use givemail.Base.{
  ℕ, ◌≡◌, refl, ◌∙◌, Bool, true, false, not, ◌&&◌, ◌||◌, Option, none, some, List, [], ◌∷◌, ◌==◌,
  if◌then◌else◌, All, ==_iff, Bool-cases, inl, inr,
}
use givemail.Session.{EventNum, connect, Errors, Context, Session}
use givemail.Session.Recording.{
  reset_error, set_error, is_error, is_disconnect, handle_event, event_callback, run_events,
}

-- isInternalError
unfoldable pub is_internal_error : Errors → Option ℕ → Bool
is_internal_error errors e = is_error errors.inval e

-- isConnectionError
unfoldable pub is_connection_error : Errors → Option ℕ → Bool
is_connection_error errors e = is_error errors.dropped_connection e || is_error errors.eai_noname e

-- An event of the connection that is there.
abbrev pub IsLater : EventNum → Type 0
IsLater connect = false ≡ true
IsLater e = true ≡ true

abbrev pub all_disconnects : List EventNum → Bool
all_disconnects [] = true
all_disconnects (e ∷ es) = is_disconnect e && all_disconnects es

if_reset :
    (b : Bool) (s : Session)
    → (if b then reset_error s else s).error_num ≡ (if b then none else s.error_num)
if_reset true s = refl
if_reset false s = refl

module _ (errors : Errors) (x : Context) where
  -- What an event of the connection leaves of the error.
  event_callback-error :
      (e : EventNum) (s : Session) (ok : ℕ)
      → IsLater e
      → (event_callback errors x e s ok).0.error_num ≡ (
          if is_error errors.dropped_connection s.error_num && not (is_disconnect e)
          then none
          else s.error_num)
  unfolding event_callback handle_event
  event_callback-error connect s ok h = cc
  event_callback-error e s ok h =
      if_reset (is_error errors.dropped_connection s.error_num && not (is_disconnect e)) s

  set_error-error :
      (n : ℕ) (s : Session) → x.has_provider ≡ true → (set_error x n s).error_num ≡ some n
  unfolding set_error
  set_error-error n s p = rw p refl

  is_connection_error_if :
      (b : Bool)
      → is_connection_error errors (if b then some errors.dropped_connection else none) ≡ b
  unfolding is_connection_error
  is_connection_error_if true =
      rw ((==_iff errors.dropped_connection errors.dropped_connection).1 refl) refl
  is_connection_error_if false = refl

  no_error_later :
      (es : List EventNum) (s : Session)
      → All IsLater es
      → s.error_num ≡ none
      → (run_events errors x es s).error_num ≡ none
  unfolding run_events
  no_error_later [] s h n = n
  no_error_later (e ∷ es) s h n =
      no_error_later es (event_callback errors x e s 0).0 h.1
        (event_callback-error e s 0 h.0 ∙ (rw n refl))

  dropped_later :
      (es : List EventNum) (s : Session)
      → All IsLater es
      → s.error_num ≡ some errors.dropped_connection
      → (run_events errors x es s).error_num
        ≡ (if all_disconnects es then some errors.dropped_connection else none)
  unfolding run_events
  dropped_later [] s h n = n
  dropped_later (e ∷ es) s h n =
      let s' = (event_callback errors x e s 0).0 in
      let same : (errors.dropped_connection == errors.dropped_connection) ≡ true =
        (==_iff errors.dropped_connection errors.dropped_connection).1 refl in
      let after : s'.error_num
          ≡ (if not (is_disconnect e) then none else some errors.dropped_connection) =
        event_callback-error e s 0 h.0 ∙ (rw (n, same) refl) in
      elim (Bool-cases (is_disconnect e)) [
        | inl d ↦
            let kept : s'.error_num ≡ some errors.dropped_connection = rw d at after in
            rw d (dropped_later es s' h.1 kept)
        | inr d ↦
            let gone : s'.error_num ≡ none = rw d at after in rw d (no_error_later es s' h.1 gone)
      ]

  -- With a provider, whatever the error was before: after a connection has been made, and events of
  -- it with no other connection among them, the error is that of a dropped connection where all of
  -- them are disconnections, none among them included, and else there is no error. So the failure is
  -- one of the connection exactly where nothing else happened.
  pub run_events_connected :
      (es : List EventNum) (s : Session)
      → x.has_provider ≡ true
      → All IsLater es
      → ((run_events errors x (connect ∷ es) s).error_num
          ≡ (if all_disconnects es then some errors.dropped_connection else none))
        × (is_connection_error errors (run_events errors x (connect ∷ es) s).error_num
            ≡ all_disconnects es)
  unfolding run_events event_callback handle_event
  run_events_connected es s p h =
      let s' = (event_callback errors x connect s 0).0 in
      let e = dropped_later es s' h (set_error-error errors.dropped_connection _ p) in
      (e, rw e (is_connection_error_if (all_disconnects es)))
