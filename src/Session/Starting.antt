-- ===== src/Session/Starting.antt =====
-- What startSession, and the callback that runs meanwhile, leave of the state of a session.
use givemail.Base.{
  ℕ, ◌≡◌, refl, ◌∙◌, Bool, not, ◌&&◌, Option, List, [], ◌∷◌, if◌then◌else◌, by_test,
}
use givemail.Base.Text.{Text}
use givemail.Session.{EventNum, connect, Errors, session_started, Context, Session, note}
use givemail.Session.Safety.{Follows, alike, noted, follows_trans}
use givemail.Session.Recording.{
  reset_error, record_error, set_error, is_error, is_disconnect, handle_event, event_callback,
  run_events,
}
use givemail.Session.Dispatch.{start_session}

-- The callback changes nothing but the error.
record IsErrorOf (s t : Session) : Type 0 where
  count_kept : t.msgs_count ≡ s.msgs_count
  size_kept : t.msgs_data_size ≡ s.msgs_data_size
  queue_kept : t.top_queue ≡ s.top_queue
  discarded_kept : t.discarded ≡ s.discarded
  log_kept : t.log ≡ s.log

abbrev unchanged : (s : Session) → IsErrorOf s s
unchanged s = record {
  count_kept = refl;
  size_kept = refl;
  queue_kept = refl;
  discarded_kept = refl;
  log_kept = refl;
}

abbrev with_error :
    (s : Session) (e : Option ℕ) (m : Text)
    → IsErrorOf s (record s { error_num = e; error_msg = m })
with_error s e m = record {
  count_kept = refl;
  size_kept = refl;
  queue_kept = refl;
  discarded_kept = refl;
  log_kept = refl;
}

IsErrorOf_trans : (s t u : Session) → IsErrorOf s t → IsErrorOf t u → IsErrorOf s u
IsErrorOf_trans s t u f g = record {
  count_kept = g.count_kept ∙ f.count_kept;
  size_kept = g.size_kept ∙ f.size_kept;
  queue_kept = g.queue_kept ∙ f.queue_kept;
  discarded_kept = g.discarded_kept ∙ f.discarded_kept;
  log_kept = g.log_kept ∙ f.log_kept;
}

module _ (errors : Errors) (x : Context) where
  handle_event-IsErrorOf :
      (e : EventNum) (s : Session) (ok : ℕ) → IsErrorOf s (handle_event errors x e s ok).0
  unfolding handle_event set_error
  handle_event-IsErrorOf connect s ok =
      by_test (IsErrorOf s) x.has_provider (λ _. with_error s _ _) (λ _. unchanged s)
  handle_event-IsErrorOf e s ok = unchanged s

  event_callback-IsErrorOf :
      (e : EventNum) (s : Session) → IsErrorOf s (event_callback errors x e s 0).0
  unfolding event_callback
  event_callback-IsErrorOf e s =
      let dropped = is_error errors.dropped_connection s.error_num && not (is_disconnect e) in
      let before = if dropped then reset_error s else s in
      let f : IsErrorOf s before =
        by_test (IsErrorOf s) dropped (λ _. with_error s _ _) (λ _. unchanged s) in
      IsErrorOf_trans s before _ f (handle_event-IsErrorOf e before 0)

  run_events-IsErrorOf : (es : List EventNum) (s : Session) → IsErrorOf s (run_events errors x es s)
  unfolding run_events
  run_events-IsErrorOf [] s = unchanged s
  run_events-IsErrorOf (e ∷ es) s =
      let next = (event_callback errors x e s 0).0 in
      IsErrorOf_trans s next _ (event_callback-IsErrorOf e s) (run_events-IsErrorOf es next)

-- The session when startSession returns, before its failure is recorded.
abbrev told : Context → Bool → Session → Session
told x reset s = run_events x.outside.errors x (x.outside.start_events s.log reset) s

abbrev started : Context → Bool → Session → Session
started x reset s =
    note (session_started reset (x.outside.start_session s.log reset)) (told x reset s)

start_session-IsErrorOf :
    (x : Context) (reset : Bool) (s : Session)
    → IsErrorOf (started x reset s) (start_session x reset s).1
unfolding start_session record_error
start_session-IsErrorOf x reset s =
    by_test (IsErrorOf (started x reset s)) (x.outside.start_session s.log reset)
      (λ _. unchanged (started x reset s)) (λ _. with_error (started x reset s) _ _)

IsErrorOf-Follows : (s t : Session) → IsErrorOf s t → Follows s t
IsErrorOf-Follows s t f = alike s t f.count_kept f.size_kept f.discarded_kept f.log_kept

pub start_session-Follows :
    (x : Context) (reset : Bool) (s : Session) → Follows s (start_session x reset s).1
start_session-Follows x reset s =
    let t = told x reset s in
    let u = started x reset s in
    let f = IsErrorOf-Follows s t (run_events-IsErrorOf x.outside.errors x _ s) in
    let e = session_started reset (x.outside.start_session s.log reset) in
    follows_trans s u _ (follows_trans s t u f (noted e t tt))
      (IsErrorOf-Follows u _ (start_session-IsErrorOf x reset s))

pub start_session-keeps :
    (x : Context) (reset : Bool) (s : Session)
    → ((start_session x reset s).1.top_queue ≡ s.top_queue)
      × ((start_session x reset s).1.discarded ≡ s.discarded)
start_session-keeps x reset s =
    let f = run_events-IsErrorOf x.outside.errors x (x.outside.start_events s.log reset) s in
    let g = start_session-IsErrorOf x reset s in
    (g.queue_kept ∙ f.queue_kept, g.discarded_kept ∙ f.discarded_kept)
