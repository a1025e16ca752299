-- ===== src/Message/Keeps.antt =====
-- What buildHeaders of src/SMTPMessage.cc keeps: a property of messages that a header more, the next
-- number for a substitution and the address of the sender leave true.
use givemail.Base.{
  ◌+◌, ◌%◌, ◌^◌, ℕ, ◌≡◌, refl, Bool, true, false, not, ◌&&◌, Option, some, [], ◌∷◌, ◌++◌,
  if◌then◌else◌, All, by_test,
}
use givemail.Base.Text.{Text, codes, is_empty}
use givemail.Details.{MessageDetails, same_kind}
use givemail.Base64.Buffer.{IsByte}
use givemail.Details.Ids.{create_message_id_lem}
use givemail.Message.{
  Message, Templates, append_header, substitute, append_substituted, get_user_agent,
}
use givemail.Message.Headers.{
  Chance, new_id, append_id, build_sender, build_replies, build_ids, build_from, build_reply_to,
  build_agent, build_subject, build_details, build_headers,
}

pub record Closed (P : Message → Type 0) : Type 0 where
  pub append :
      (header value path : Text) (m : Message) → P m → P (append_header header value path m)
  pub counted : (n : ℕ) (m : Message) → P m → P (record m { sub_id = n })
  pub from_set : (from : Text) (m : Message) → P m → P (record m { smtp_from = from })

-- The random numbers print as byte strings, the first of an id as one byte or more, and the sender's
-- address is one.
abbrev pub Random : Chance → MessageDetails → Type 0
Random r d =
    (place : ℕ)
    → (b : ℕ) × (bytes : Text) × (r.first place ≡ b ∷ bytes)
      × All IsByte (b ∷ (bytes ++ (d.from_email_address ++ r.second place)))

module _ (P : Message → Type 0) (closed : Closed P) where
  -- Substituting a text changes no header.
  substitute_keeps :
      (t : Templates) (content : Text) (m : Message) → P m → P (substitute t content m).1
  unfolding substitute
  substitute_keeps t content m l = closed.counted ((m.sub_id + 1) % 2 ^ 32) m l

  append_substituted_keeps :
      (t : Templates) (header value : Text) (m : Message)
      → P m
      → P (append_substituted t header value m)
  unfolding append_substituted
  append_substituted_keeps t header value m l =
      closed.append header _ [] _ (substitute_keeps t value m l)

  build_sender_keeps :
      (t : Templates) (d : MessageDetails) (m : Message) → P m → P (build_sender t d m).1
  unfolding build_sender
  build_sender_keeps t d m l =
      by_test (λ (p : Text × Message). P p.1) (is_empty d.sender_email_address) (λ _. l)
        (λ _.
          closed.append (codes "Resent-From") [] _ _
            (closed.append (codes "Sender") _ [] _ (substitute_keeps t d.sender_email_address m l)))

  build_from_keeps : (t : Templates) (d : MessageDetails) (m : Message) → P m → P (build_from t d m)
  unfolding build_from
  build_from_keeps t d m l =
      let (from, m1) = substitute t d.from_email_address m in
      let kept = substitute_keeps t d.from_email_address m l in
      let set : P (record m1 { smtp_from = from }) = closed.from_set from m1 kept in
      by_test P (is_empty d.from_email_address) (λ _. l)
        (λ _. closed.append (codes "From") _ from _ (substitute_keeps t d.from_name _ set))

  build_reply_to_keeps :
      (t : Templates) (d : MessageDetails) (m : Message) → P m → P (build_reply_to t d m)
  unfolding build_reply_to
  build_reply_to_keeps t d m l =
      let first = substitute_keeps t d.reply_to_name m l in
      by_test P (is_empty d.reply_to_email_address) (λ _. l)
        (λ _.
          closed.append (codes "Reply-To") _ _ _
            (substitute_keeps t d.reply_to_email_address _ first))

  build_agent_keeps :
      (package_name : Text) (use_x_mailer : Bool) (m : Message)
      → P m
      → P (build_agent package_name use_x_mailer m)
  unfolding build_agent
  build_agent_keeps package_name use_x_mailer m l =
      let agent = get_user_agent package_name m in
      let agent_header = if use_x_mailer then codes "X-Mailer" else codes "User-Agent" in
      let m1 = append_header (codes "MIME-Version") (codes "1.0") [] m in
      let l1 = closed.append (codes "MIME-Version") (codes "1.0") [] m l in
      let m2 = if is_empty agent then m1 else append_header agent_header agent [] m1 in
      let l2 : P m2 =
        by_test P (is_empty agent) (λ _. l1) (λ _. closed.append agent_header agent [] m1 l1) in
      by_test P (is_empty m.complaints) (λ _. l2)
        (λ _. closed.append (codes "X-Complaints-To") m.complaints [] m2 l2)

  build_subject_keeps :
      (t : Templates) (d : MessageDetails) (m : Message) → P m → P (build_subject t d m)
  unfolding build_subject
  build_subject_keeps t d m l =
      by_test P (is_empty d.subject) (λ _. l)
        (λ _. append_substituted_keeps t (codes "Subject") d.subject m l)

  abbrev Made : Option Message → Type 0
  Made o = (m : Message) × (o ≡ some m) × P m

  module _ (r : Chance) (d : MessageDetails) (random : Random r d) where
    id_made :
        (place : ℕ) (suffix : Text) (is_reply_id : Bool)
        → (id : Text) × (new_id r place suffix is_reply_id d ≡ some id)
    id_made place suffix is_reply_id =
        let (b, bytes, e, h) = random place in
        let (id, made, _, _) =
          create_message_id_lem r.junk b bytes (r.second place) suffix is_reply_id d h in
        (
          if same_kind d.is_reply is_reply_id && not (is_empty d.msg_id)
              then d.msg_id
              else id ++ suffix,
          rw e made,
        )

    append_id-Made :
        (header suffix : Text) (place : ℕ) (is_reply_id : Bool) (m : Message)
        → P m
        → Made (append_id header (new_id r place suffix is_reply_id d) m)
    unfolding append_id
    append_id-Made header suffix place is_reply_id m l =
        let (id, e) = id_made place suffix is_reply_id in
        rw e (_, refl, closed.append header id [] m l)

    build_replies-Made : (suffix : Text) (m : Message) → P m → Made (build_replies r d suffix m)
    unfolding build_replies
    build_replies-Made suffix m l =
        let (m1, e, l1) = append_id-Made (codes "References") suffix 1 true m l in
        rw (build_replies, e) (append_id-Made (codes "In-Reply-To") suffix 2 true m1 l1)

    build_ids-Made : (suffix : Text) (m : Message) → P m → Made (build_ids r d suffix m)
    unfolding build_ids
    build_ids-Made suffix m l =
        let (m1, e, l1) = append_id-Made (codes "Resent-Message-Id") suffix 0 false m l in
        let m2 = append_header (codes "Message-Id") m.msg_id [] m1 in
        let l2 = closed.append (codes "Message-Id") m.msg_id [] m1 l1 in
        rw (build_ids, e)
          (by_test Made d.is_reply (λ _. build_replies-Made suffix m2 l2) (λ _. (m2, refl, l2)))

    build_details-Made : (t : Templates) (m : Message) → P m → Made (build_details t r d m)
    unfolding build_details
    build_details-Made t m l =
        let l1 = build_sender_keeps t d (build_subject t d m) (build_subject_keeps t d m l) in
        let built = build_sender t d (build_subject t d m) in
        let (m2, e, l2) = build_ids-Made built.0 built.1 l1 in
        rw (build_details, e) (_, refl, build_reply_to_keeps t d _ (build_from_keeps t d m2 l2))

    pub build_headers_keeps :
        (t : Templates) (package_name : Text) (m : Message)
        → m.details ≡ some d
        → P m
        → (m' : Message) × (build_headers t r package_name m ≡ some m') × P m'
    unfolding build_headers
    build_headers_keeps t package_name m given l =
        rw (build_headers, given)
          (build_details-Made t (build_agent package_name d.use_x_mailer m)
            (build_agent_keeps package_name d.use_x_mailer m l))
