-- ===== src/Session/Generate.antt =====
-- generateMessages of src/SMTPSession.cc. The map of the destinations is the list of its values in
-- order, and newMessage of the provider is given the number of the message besides its arguments, as
-- it makes a random id. Dumps, timers and the deletion of the messages are left out.
use givemail.Base.{
  ℕ, ◌+◌, Bool, true, false, not, ◌&&◌, Option, none, some, List, [], ◌∷◌, ◌==◌, if◌then◌else◌,
}
use givemail.Base.Text.{Text, codes, str_eq}
use givemail.Details.{MessageDetails, is_recipient_personalized}
use givemail.Details.Ids.{encode_recipient_id}
use givemail.Message.{Message, DsnNotification}
use givemail.Session.{Context, Session}
use givemail.Session.Dispatch.{dispatch_messages, and_then}
use givemail.Session.Fill.{Destination, Mailer}
use givemail.Session.Queue.{queue_message}

pub record Generator : Type 0 where
  pub mailer : Mailer
  pub has_field : Text → Text → Bool
  pub new_message : ℕ → List (Text × Text) → MessageDetails → DsnNotification → Message
  pub dsn_notify : Text

-- m[key] = value
unfoldable pub put_field : Text → Text → List (Text × Text) → List (Text × Text)
put_field key value [] = (key, value) ∷ []
put_field key value ((k, v) ∷ rest) =
    let kept = put_field key value rest in if str_eq k key then (k, value) ∷ rest else (k, v) ∷ kept

unfoldable pub put_fields : List (Text × Text) → List (Text × Text) → List (Text × Text)
put_fields [] fields = fields
put_fields ((k, v) ∷ custom) fields = put_fields custom (put_field k v fields)

-- The values for a recipient, put over those of the recipients before.
unfoldable pub recipient_fields : ℕ → Destination → List (Text × Text) → Option (List (Text × Text))
recipient_fields junk r fields = elim (encode_recipient_id junk r.recipient.id) [
  | none ↦ none
  | some id ↦
      let named = put_field (codes "Name") r.recipient.name fields in
      let addressed = put_field (codes "emailaddress") r.recipient.email_address named in
      some (put_fields r.custom_fields (put_field (codes "recipientId") id addressed))
]

-- dsnNotify
unfoldable pub dsn_of : Text → DsnNotification
dsn_of option =
    if str_eq option (codes "SUCCESS")
    then DsnNotification.success
    else if str_eq option (codes "FAILURE")
    then DsnNotification.failure
    else DsnNotification.never

-- The message for one recipient, and the loop's next round.
unfoldable pub queue_personal :
    ℕ
    → Generator
    → Context
    → MessageDetails
    → Destination
    → ℕ
    → Option (List (Text × Text))
    → Session
    → Option (Bool × Session)
queue_personal fuel g x d r n none s = none
queue_personal fuel g x d r n (some fields) s =
    elim (queue_message fuel g.mailer x (g.new_message n fields d (dsn_of g.dsn_notify)) (r ∷ [])
      true s) [ none ↦ none | some (ok, m, s') ↦ some (ok, s') ]

-- The loop over the destinations; a message that fails does not end it.
unfoldable pub personal_loop :
    ℕ
    → Generator
    → Context
    → MessageDetails
    → ℕ
    → List Destination
    → List (Text × Text)
    → Bool
    → Session
    → Option (Bool × Session)
personal_loop fuel g x d n [] fields ok s = some (ok, s)
personal_loop fuel g x d n (r ∷ rs) fields ok s = elim (recipient_fields g.mailer.junk r fields) [
  | none ↦ none
  | some fields' ↦ elim (queue_personal fuel g x d r n (some fields') s) [
    | none ↦ none
    | some (queued, s') ↦ personal_loop fuel g x d (n + 1) rs fields' (ok && queued) s'
  ]
]

-- One message for all.
unfoldable pub queue_common :
    ℕ
    → Generator
    → Context
    → MessageDetails
    → Destination
    → List Destination
    → Session
    → Option (Bool × Session)
queue_common fuel g x d r rs s =
    elim (queue_message fuel g.mailer x (g.new_message 0 r.custom_fields d (dsn_of g.dsn_notify))
      (r ∷ rs) false s) [ none ↦ none | some (ok, m, s') ↦ some (ok, s') ]

-- The forced dispatch at the end.
unfoldable pub force_send : ℕ → Context → Bool → Session → Option (Bool × Session)
force_send fuel x ok s =
    if s.msgs_data_size == 0
    then some (false, s)
    else and_then (dispatch_messages fuel x true s) (λ r. some (ok && r.0, r.1))

-- generateMessages, of details that are not null
unfoldable pub generate_messages :
    ℕ → Generator → Context → MessageDetails → List Destination → Session → Option (Bool × Session)
generate_messages fuel g x d [] s = some (x.has_provider, s)
generate_messages fuel g x d (r ∷ rs) s =
    let queued =
      if is_recipient_personalized g.has_field d
      then personal_loop fuel g x d 0 (r ∷ rs) [] true s
      else queue_common fuel g x d r rs s in
    if not x.has_provider then some (false, s) else and_then queued (λ q. force_send fuel x q.0 q.1)
