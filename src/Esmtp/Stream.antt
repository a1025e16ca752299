-- ===== src/Esmtp/Stream.antt =====
-- What getMessageData of src/LibESMTPProvider.cc reads, case by case of messageDataCallback.
use givemail.Base.{
  ℕ, ◌^◌, ◌<◌, ◌≡◌, refl, sym, ◌∙◌, Bool, true, false, not, ◌&&◌, ◌||◌, some, [], ◌∷◌, ◌++◌, arith,
  ltb, if◌then◌else◌, length, get_elem?, All, ◌==◌, Bool-cases, inl, inr,
}
use givemail.Base.Text.{IsNonzero, Text, is_empty}
use givemail.Details.{MessageDetails}
use givemail.Details.Parts.{Built, parts, get_attachment-parts}
use givemail.Message.{
  Message, requires_mixed_parts, requires_alternative_parts, requires_related_parts,
}
use givemail.Esmtp
use givemail.Esmtp.{
  Stage, next, Cursor, to, Step, give, Memory, crlf, start_mixed_text, start_alt_text,
  start_alt_no_multi_text, start_plain_text, alt_transition_text, start_related_text,
  start_html_text, start_inline_text, start_attachment_text, end_related_text, end_alt_text,
  end_mixed_text,
}
use givemail.Esmtp.Blocks.{inline_block, attachment_block, count, current}
use givemail.Esmtp.Callback.{
  dump, dispatch, at_end, at_end_mixed, at_end_alt, at_end_related, at_end_html, at_html,
  at_start_html, at_start_related, at_alt_transition, at_end_plain, at_plain, at_start_plain,
  at_start_alt, at_start_mixed, at_extra_headers, lacks_newline, rewind,
}
use givemail.Esmtp.Reads.{Reads, reading_end, reading_case}
use givemail.Esmtp.Lines.{cursor}
use givemail.Esmtp.Parts.{parts_text, IsReadable, Placed}
use givemail.Esmtp.Sequence.{parts_Reads}

none_of : (n : ℕ) → ltb 0 n ≡ false → n ≡ 0
none_of n h = ground arith

-- IsNonzero, as a test.
unfoldable pub all_nonzero : Text → Bool
all_nonzero [] = true
all_nonzero (b ∷ s) = not (b == 0) && all_nonzero s

pub all_nonzero-IsNonzero : (s : Text) → all_nonzero s ≡ true → All IsNonzero s
unfolding all_nonzero
all_nonzero-IsNonzero [] h = tt
all_nonzero-IsNonzero (b ∷ s) h = elim (Bool-cases (b == 0)) [
  | inl zero_byte ↦ let no : false ≡ true = rw zero_byte at h in cc
  | inr e ↦
      let later : all_nonzero s ≡ true = rw e at h in (ground arith, all_nonzero-IsNonzero s later)
]

module _ (w : Memory) (m : Message) where
  inline_Placed : Placed w m (inline_block w) (at_end_related w m)
  unfolding dispatch next
  inline_Placed = record {
    next_start = refl;
    next_headers = refl;
    next_line = refl;
    next_line_end = refl;
    next_end_part = refl;
    next_next_part = refl;
    is_start = λ k pos more. refl;
    is_headers = λ k pos more. refl;
    is_line = λ k pos more. refl;
    is_line_end = λ k pos more. refl;
    is_end_part = λ k pos more. refl;
    is_next_part = λ k pos more. refl;
    is_after = λ k pos more. refl;
  }

  attachment_Placed : Placed w m (attachment_block w) (at_end_mixed w m)
  unfolding dispatch next
  attachment_Placed = record {
    next_start = refl;
    next_headers = refl;
    next_line = refl;
    next_line_end = refl;
    next_end_part = refl;
    next_next_part = refl;
    is_start = λ k pos more. refl;
    is_headers = λ k pos more. refl;
    is_line = λ k pos more. refl;
    is_line_end = λ k pos more. refl;
    is_end_part = λ k pos more. refl;
    is_next_part = λ k pos more. refl;
    is_after = λ k pos more. refl;
  }

-- A message with details whose attachments are fewer than 2 ^ 32 of each kind.
pub record IsLoaded (m : Message) (d : MessageDetails) : Type 0 where
  pub given : m.details ≡ some d
  pub built : Built d
  pub few : (inline_parts : Bool) → length (parts inline_parts d) < 2 ^ 32

-- What is read has no zero byte, and the contents of the attachments are bytes.
pub record IsPlainText (w : Memory) (m : Message) (d : MessageDetails) : Type 0 where
  pub headers : All IsNonzero (dump m)
  pub plain : All IsNonzero m.plain_content
  pub html : All IsNonzero m.html_content
  pub inline_parts : All (IsReadable (inline_block w)) (parts true d)
  pub attachments : All (IsReadable (attachment_block w)) (parts false d)

abbrev pub when : Bool → Text → Text
when b text = if b then text else []

-- The texts of the cases, from the last on, by the tests and by the texts of the parts.
module _ (mixed related : Bool) (plain html inline_parts attachments : Text) where
  abbrev pub has_plain : Bool
  has_plain = not (is_empty plain)

  abbrev pub has_html : Bool
  has_html = not (is_empty html)

  abbrev pub alternative : Bool
  alternative = has_plain && has_html

  -- Whether more follows the HTML content, or the plain one.
  abbrev pub html_goes_on : Bool
  html_goes_on = has_html && lacks_newline html && (alternative || (related || mixed))

  abbrev pub plain_goes_on : Bool
  plain_goes_on =
      has_plain && lacks_newline plain && (has_html || (alternative || (related || mixed)))

  abbrev pub attachments_text : Text
  attachments_text = attachments ++ (when mixed end_mixed_text ++ [])

  abbrev pub end_alt_and_on : Text
  end_alt_and_on = when alternative end_alt_text ++ attachments_text

  abbrev pub end_related_and_on : Text
  end_related_and_on = when related end_related_text ++ end_alt_and_on

  abbrev pub inline_text : Text
  inline_text = inline_parts ++ end_related_and_on

  abbrev pub html_text : Text
  html_text =
      when (has_html && related) start_related_text
      ++ (when has_html start_html_text
          ++ (when has_html html ++ (when html_goes_on crlf ++ inline_text)))

  abbrev pub plain_text : Text
  plain_text =
      when has_plain start_plain_text
      ++ (when has_plain plain
          ++ (when plain_goes_on crlf ++ (when alternative alt_transition_text ++ html_text)))

  abbrev pub mixed_text : Text
  mixed_text =
      when mixed start_mixed_text
      ++ (when alternative (if mixed then start_alt_text else start_alt_no_multi_text)
          ++ plain_text)

-- These at a message.
abbrev pub at_message {ℓ} :
    {A : Type ℓ}
    → Memory
    → Message
    → MessageDetails
    → (Bool → Bool → Text → Text → Text → Text → A)
    → A
at_message w m d f =
    f (requires_mixed_parts m) (requires_related_parts m) m.plain_content m.html_content
      (parts_text (inline_block w) (parts true d)) (parts_text (attachment_block w) (parts false d))

module _ (w : Memory) (m : Message) (d : MessageDetails) (loaded : IsLoaded m d)
    (readable : IsPlainText w m d) where
  abbrev counts : Bool → ℕ
  counts inline_parts = length (parts inline_parts d)

  counted : (inline_parts : Bool) → count inline_parts m ≡ some (counts inline_parts)
  unfolding count
  counted inline_parts =
      rw
        (loaded.given, (get_attachment-parts inline_parts loaded.built (loaded.few inline_parts)).0)
        refl

  listed :
      (inline_parts : Bool) (c : Cursor)
      → current inline_parts m c ≡ some (get_elem? (parts inline_parts d) c.current_attachment)
  unfolding current
  listed inline_parts c =
      rw
        (
          loaded.given,
          (get_attachment-parts inline_parts loaded.built (loaded.few inline_parts)).1
              c.current_attachment,
        )
        refl

  -- The tests for parts are those of the lists.
  pub is_kind :
      (inline_parts : Bool)
      → (if inline_parts then requires_related_parts m else requires_mixed_parts m)
        ≡ ltb 0 (counts inline_parts)
  unfolding requires_mixed_parts requires_related_parts
  is_kind true =
      rw (loaded.given, (get_attachment-parts true loaded.built (loaded.few true)).0) refl
  is_kind false =
      rw (loaded.given, (get_attachment-parts false loaded.built (loaded.few false)).0) refl

  -- A case that goes on to the next stage whether its test holds or not.
  case_Reads :
      (b : Bool) (s : Stage) (piece text : Text) (more : Bool)
      → dispatch w m (cursor s 0 0 more)
        ≡ (if b then give piece (cursor s 0 0 more) else dispatch w m (cursor (next s) 0 0 more))
      → All IsNonzero piece
      → Reads w m (cursor (next s) 0 0 more) text
      → Reads w m (cursor s 0 0 more) (when b piece ++ text)
  case_Reads b s piece text more e h r =
      reading_case w m b (cursor s 0 0 more) (cursor s 0 0 more) (cursor (next s) 0 0 more) piece
        text e (λ _. h) (λ _. r) (λ _. r)

  end_mixed_Reads :
      (k : ℕ) (more : Bool)
      → Reads w m
          (cursor Esmtp.end_mixed k 0 more)
          (when (requires_mixed_parts m) end_mixed_text ++ [])
  unfolding dispatch next at_end_mixed at_end all_nonzero
  end_mixed_Reads k more =
      let c = cursor Esmtp.end_mixed k 0 more in
      let last = reading_end w m (cursor Esmtp.end k 0 more) (cursor Esmtp.end k 0 more) refl in
      reading_case w m (requires_mixed_parts m) c c (cursor Esmtp.end k 0 more) end_mixed_text []
        refl (λ _. all_nonzero-IsNonzero end_mixed_text refl) (λ _. last) (λ _. last)

  end_alt_Reads :
      (more : Bool) → Reads w m (cursor Esmtp.end_alt 0 0 more) (at_message w m d end_alt_and_on)
  unfolding dispatch next requires_alternative_parts at_end_alt all_nonzero
  end_alt_Reads more =
      case_Reads (at_message w m d alternative) Esmtp.end_alt end_alt_text
        (at_message w m d attachments_text) more refl (all_nonzero-IsNonzero end_alt_text refl)
        (parts_Reads w m (attachment_block w) (at_end_mixed w m) (attachment_Placed w m)
          (counts false) (counted false) (loaded.few false)
          (all_nonzero-IsNonzero start_attachment_text refl) (parts false d) (listed false) refl
          more _ readable.attachments (end_mixed_Reads (counts false)))

  -- Where there is no inline part, the count of the attachments given is 0 already.
  end_related_Reads :
      (more : Bool)
      → Reads w m
          (cursor Esmtp.end_related (counts true) 0 more)
          (at_message w m d end_related_and_on)
  unfolding dispatch next requires_alternative_parts at_end_related all_nonzero
  end_related_Reads more =
      let c = cursor Esmtp.end_related (counts true) 0 more in
      let c' = cursor Esmtp.end_related 0 0 more in
      let none_left : requires_related_parts m ≡ false → counts true ≡ 0 =
        λ h. none_of (counts true) (sym (is_kind true) ∙ h) in
      reading_case w m (requires_related_parts m) c c' (cursor Esmtp.end_alt (counts true) 0 more)
        end_related_text _ refl (λ _. all_nonzero-IsNonzero end_related_text refl)
        (λ _. end_alt_Reads more) (λ h. rw (none_left h) (end_alt_Reads more))

  -- From END_HTML on.
  inline_Reads :
      (more : Bool) → Reads w m (cursor Esmtp.start_inline 0 0 more) (at_message w m d inline_text)
  unfolding next all_nonzero
  inline_Reads more =
      parts_Reads w m (inline_block w) (at_end_related w m) (inline_Placed w m) (counts true)
        (counted true) (loaded.few true) (all_nonzero-IsNonzero start_inline_text refl)
        (parts true d) (listed true) refl more _ readable.inline_parts end_related_Reads

  html_Reads :
      (more : Bool) → Reads w m (cursor Esmtp.start_related 0 0 more) (at_message w m d html_text)
  unfolding dispatch next requires_alternative_parts at_end_html at_html at_start_html
      at_start_related all_nonzero
  html_Reads more =
      case_Reads (at_message w m d has_html && requires_related_parts m) Esmtp.start_related
        start_related_text _ more refl (all_nonzero-IsNonzero start_related_text refl)
        (case_Reads (at_message w m d has_html) Esmtp.start_html start_html_text _ more refl
          (all_nonzero-IsNonzero start_html_text refl)
          (case_Reads (at_message w m d has_html) Esmtp.html m.html_content _ more refl
            readable.html
            (case_Reads (at_message w m d html_goes_on) Esmtp.end_html crlf _ more refl
              (all_nonzero-IsNonzero crlf refl) (inline_Reads more))))

  plain_Reads :
      (more : Bool) → Reads w m (cursor Esmtp.start_plain 0 0 more) (at_message w m d plain_text)
  unfolding dispatch next requires_alternative_parts at_alt_transition at_end_plain at_plain
      at_start_plain all_nonzero
  plain_Reads more =
      case_Reads (at_message w m d has_plain) Esmtp.start_plain start_plain_text _ more refl
        (all_nonzero-IsNonzero start_plain_text refl)
        (case_Reads (at_message w m d has_plain) Esmtp.plain m.plain_content _ more refl
          readable.plain
          (case_Reads (at_message w m d plain_goes_on) Esmtp.end_plain crlf _ more refl
            (all_nonzero-IsNonzero crlf refl)
            (case_Reads (at_message w m d alternative) Esmtp.alt_transition alt_transition_text _
              more refl (all_nonzero-IsNonzero alt_transition_text refl) (html_Reads more))))

  start_alt_IsNonzero :
      (b : Bool) → All IsNonzero (if b then start_alt_text else start_alt_no_multi_text)
  unfolding all_nonzero
  start_alt_IsNonzero true = all_nonzero-IsNonzero start_alt_text refl
  start_alt_IsNonzero false = all_nonzero-IsNonzero start_alt_no_multi_text refl

  pub whole_Reads :
      (c : Cursor)
      → Reads w m
          (rewind w m c)
          (when (not (is_empty (dump m))) (dump m) ++ at_message w m d mixed_text)
  unfolding dispatch next requires_alternative_parts at_start_alt at_start_mixed at_extra_headers
      all_nonzero
  whole_Reads c =
      let more = c.has_more_lines in
      case_Reads (not (is_empty (dump m))) Esmtp.extra_headers (dump m) _ more refl readable.headers
        (case_Reads (requires_mixed_parts m) Esmtp.start_mixed start_mixed_text _ more refl
          (all_nonzero-IsNonzero start_mixed_text refl)
          (case_Reads (at_message w m d alternative) Esmtp.start_alt _ _ more refl
            (start_alt_IsNonzero (requires_mixed_parts m)) (plain_Reads more)))
