-- ===== src/Session/Fill.antt =====
-- appendValueAndPath, and the loop of queueMessage of src/SMTPSession.cc that fills a batch with
-- recipients. The provider's work on a message, the signing and the templates are the fields of
-- `Mailer`; the recipients that are given to the provider stand in the session's log. A result is
-- `none` where the fuel runs out, or where encodeRecipientId would go out of bounds.
use givemail.Base.{
  ℕ, zero, suc, ◌+◌, Bool, true, false, not, ◌&&◌, Option, none, some, List, [], ◌∷◌, ◌++◌, ltb,
  leb, if◌then◌else◌, length,
}
use givemail.Base.Text.{Text, codes, is_empty, find_byte, find_byte_from, erase}
use givemail.Recipient.{Recipient}
use givemail.Details.Ids.{encode_recipient_id}
use givemail.Message.{Message, DsnNotification, Templates, set_reverse_path}
use givemail.Session.{recipient_added, Session, note}

-- RecipientType
pub data RecipientType : Type 0 where
  as_to : RecipientType
  as_cc : RecipientType
  as_bcc : RecipientType

-- A recipient with the members that a message to it reads.
pub record Destination : Type 0 where
  pub recipient : Recipient
  pub return_path_email_address : Text
  pub custom_fields : List (Text × Text)
  pub recipient_type : RecipientType

-- The surroundings of a message: whether the configuration hides the recipients, the answers of the
-- provider and of the signing (the header of a signature, if it succeeds), and what a new buffer of
-- Base64 holds.
pub record Mailer : Type 0 where
  pub hide_recipients : Bool
  pub verify_signatures : Bool
  pub can_sign : Bool
  pub sign : Text → Message → Option Text
  pub verify : Text → Message → Bool
  pub message_data : Message → Text
  pub templates : Templates
  pub junk : ℕ

-- appendValueAndPath
unfoldable pub append_value_and_path : Text → Text → Text
append_value_and_path value path =
    let before =
      if is_empty value then [] else value ++ (if is_empty path then [] else codes " ") in
    let behind = if is_empty path then [] else codes "<" ++ (path ++ codes ">") in
    if is_empty value && is_empty path then [] else before ++ behind

-- The locals of queueMessage that the loop over the recipients changes, and the message.
pub record Batch : Type 0 where
  pub to_header : Text
  pub cc_header : Text
  pub dsn_env_id : Text
  pub unsubscribe_link : Text
  pub look_for_return_path : Bool
  pub set_unsubscribe_link : Bool
  pub message : Message

-- A recipient put behind those of a header.
unfoldable pub join_address : Text → Recipient → Text
join_address header r =
    (if is_empty header then header else header ++ codes ", ")
    ++ append_value_and_path r.name r.email_address

unfoldable pub name_recipient : Destination → Batch → Batch
name_recipient r b = elim r.recipient_type [
  | as_to ↦ record b { to_header = join_address b.to_header r.recipient }
  | as_cc ↦ record b { cc_header = join_address b.cc_header r.recipient }
  | as_bcc ↦ b
]

abbrev pub is_never : DsnNotification → Bool
is_never DsnNotification.never = true
is_never DsnNotification.success = false
is_never DsnNotification.failure = false

-- The id of the first recipient, for the notifications of delivery.
unfoldable pub notify : ℕ → Destination → Batch → Option Batch
notify junk r b =
    let notified : Option Batch = elim (encode_recipient_id junk r.recipient.id) [
      | none ↦ none
      | some id ↦ some (record b { dsn_env_id = id })
    ] in
    if not (is_never b.message.dsn_flags) && is_empty b.dsn_env_id then notified else some b

-- The block under setRecipientSpecificHeaders.
unfoldable pub set_specific_headers : ℕ → Bool → Destination → Batch → Option Batch
set_specific_headers junk specific r b =
    let named = notify junk r (name_recipient r b) in if specific then named else some b

-- The block under lookForReturnPath.
unfoldable pub find_return_path : Destination → Batch → Batch
find_return_path r b =
    let m = b.message in
    let m' =
      if is_empty r.return_path_email_address
      then m
      else set_reverse_path r.return_path_email_address m in
    if b.look_for_return_path then record b { look_for_return_path = false; message = m' } else b

-- The loop that removes each '=', from one that was found, on as much fuel as the text is long.
unfoldable pub strip_equals : ℕ → Text → Option ℕ → Text
strip_equals zero s pos = s
strip_equals (suc fuel) s none = s
strip_equals (suc fuel) s (some pos) =
    let erased = erase s pos 1 in
    elim (leb (length erased) pos) [
      | true ↦ erased
      | false ↦ strip_equals fuel erased (find_byte_from b'=' erased pos)
    ]

-- m_unsubscribeLink, empty without details
unfoldable pub unsubscribe_link_of : Message → Text
unsubscribe_link_of m = elim m.details [ none ↦ [] | some d ↦ d.unsubscribe_link ]

-- The block under setUnsubscribeLink.
unfoldable pub link_unsubscription : ℕ → Destination → Batch → Option Batch
link_unsubscription junk r b =
    let link = unsubscribe_link_of b.message in
    let linked : Option Batch = elim (encode_recipient_id junk r.recipient.id) [
      | none ↦ none
      | some id ↦ some (record b {
        unsubscribe_link = link ++ strip_equals (length id) id (find_byte b'=' id);
        set_unsubscribe_link = false;
      })
    ] in
    if b.set_unsubscribe_link && (not (is_empty link) && is_empty b.unsubscribe_link)
    then linked
    else some b

-- What one round of the inner loop does, up to addRecipient.
unfoldable pub take_recipient : ℕ → Bool → Destination → Batch → Option Batch
take_recipient junk specific r b = elim (set_specific_headers junk specific r b) [
  | none ↦ none
  | some b' ↦ link_unsubscription junk r (find_return_path r b')
]

-- addRecipient, and the next round
abbrev pub add_recipient : Destination → Session → Session
add_recipient r s =
    note (recipient_added r.recipient.email_address) (record s { msgs_count = s.msgs_count + 1 })

-- The inner loop: the recipients that are left, the batch and the session.
unfoldable pub fill_batch :
    ℕ
    → ℕ
    → ℕ
    → Bool
    → List Destination
    → Batch
    → Session
    → Option (List Destination × Batch × Session)
fill_batch zero max junk specific rs b s = none
fill_batch (suc fuel) max junk specific [] b s = some ([], b, s)
fill_batch (suc fuel) max junk specific (r ∷ rs) b s =
    let same = fill_batch fuel max junk specific (r ∷ rs) b s in
    let next : Option (List Destination × Batch × Session) =
      elim (take_recipient junk specific r b) [
        | none ↦ none
        | some b' ↦ fill_batch fuel max junk specific rs b' (add_recipient r s)
      ] in
    if ltb s.msgs_count max
    then (if is_empty r.recipient.email_address then same else next)
    else some (r ∷ rs, b, s)
