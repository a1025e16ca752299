-- ===== src/Session/Queue.antt =====
-- queueMessage and signMessage of src/SMTPSession.cc, behind the loop that fills a batch.
use givemail.Base.{
  ℕ, zero, suc, ◌+◌, Bool, true, false, not, ◌&&◌, ◌||◌, Option, none, some, List, [], ◌∷◌,
  if◌then◌else◌, length,
}
use givemail.Base.Text.{Text, codes, is_empty}
use givemail.Message.{Message, Templates, add_header, substitute}
use givemail.Session.{message_queued, Context, Session, note}
use givemail.Session.Dispatch.{create_session, dispatch_messages}
use givemail.Session.Fill.{Destination, Mailer, Batch, fill_batch}

-- addHeader of a text that is substituted
unfoldable pub add_substituted : Templates → Text → Text → Message → Message
add_substituted t header value m =
    let (text, m') = substitute t value m in (add_header header text [] m').0

-- The headers that are set behind the loop.
unfoldable pub set_headers : Templates → Batch → Message
set_headers t b =
    let m1 =
      if is_empty b.unsubscribe_link
      then b.message
      else (add_header (codes "List-Unsubscribe") b.unsubscribe_link [] b.message).0 in
    let m2 = if is_empty b.dsn_env_id then m1 else record m1 { env_id = b.dsn_env_id } in
    let with_to = add_substituted t (codes "To") b.to_header m2 in
    if not (is_empty b.to_header)
    then (if is_empty b.cc_header
        then with_to
        else add_substituted t (codes "CC") b.cc_header with_to)
    else if is_empty b.cc_header
    then m2
    else add_substituted t (codes "To") b.cc_header m2

-- signMessage
unfoldable pub sign_message : Mailer → Context → Message → Session → Bool × Message × Session
sign_message k x m s =
    let full = k.message_data m in
    let signing : Bool × Message × Session = elim (k.sign full m) [
      | none ↦ (false, m, s)
      | some h ↦
          let m' : Message = record m { signature_header = h } in
          if not k.verify_signatures || k.verify full m'
          then (true, m', record s { msgs_data_size = s.msgs_data_size + (length full + length h) })
          else (false, m', s)
    ] in
    if not x.has_provider then (false, m, s) else if not k.can_sign then (true, m, s) else signing

-- The To and CC headers that a batch starts with, and whether its recipients are named in them.
unfoldable pub start_batch : Bool → Bool → Bool → Message → Bool × Batch
start_batch specific look link m =
    let empty : Batch = record {
      to_header = [];
      cc_header = [];
      dsn_env_id = [];
      unsubscribe_link = [];
      look_for_return_path = look;
      set_unsubscribe_link = link;
      message = m;
    } in
    let given : Bool × Batch = elim m.details [
      | none ↦ (specific, empty)
      | some d ↦
          (is_empty d.to && is_empty d.cc, record empty { to_header = d.to; cc_header = d.cc })
    ] in
    if specific then given else (false, empty)

-- The end of a round: the batch is dispatched if it is full, and `next` is the next round.
unfoldable pub end_round :
    ℕ
    → Context
    → Bool × Message × Session
    → (Message → Session → Option (Bool × Message × Session))
    → Option (Bool × Message × Session)
end_round fuel x (false, m, s) next = some (false, m, s)
end_round fuel x (true, m, s) next = elim (dispatch_messages fuel x false s) [
  | none ↦ none
  | some (false, s') ↦ some (false, m, s')
  | some (true, s') ↦ next m s'
]

-- The outer loop.
unfoldable pub queue_loop :
    ℕ
    → Mailer
    → Context
    → Bool
    → Bool
    → Bool
    → List Destination
    → Message
    → Session
    → Option (Bool × Message × Session)
queue_loop zero k x specific look link rs m s = none
queue_loop (suc fuel) k x specific look link [] m s = some (true, m, s)
queue_loop (suc fuel) k x specific look link (r ∷ rs) m s =
    let (specific', b) = start_batch specific look link m in
    elim (fill_batch fuel x.limits.max_msgs_per_server k.junk specific' (r ∷ rs) b s) [
      | none ↦ none
      | some (rest, b', s') ↦
          end_round fuel x (sign_message k x (set_headers k.templates b') s')
            (queue_loop fuel k x specific' b'.look_for_return_path b'.set_unsubscribe_link rest)
    ]

-- queueMessage, of a message that is not null
unfoldable pub queue_message :
    ℕ
    → Mailer
    → Context
    → Message
    → List Destination
    → Bool
    → Session
    → Option (Bool × Message × Session)
queue_message fuel k x m rs personalized s =
    let specific = not personalized && not k.hide_recipients in
    elim (create_session fuel x s) [
      | none ↦ none
      | some (false, s') ↦ some (false, m, s')
      | some (true, s') ↦
          if x.outside.has_session s'.log
          then queue_loop fuel k x specific true personalized rs m (note message_queued s')
          else some (false, m, s')
    ]
