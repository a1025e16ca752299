-- ===== src/Details/Parts.antt =====
-- The attachments of a message against its lists of inline parts and of others.
use givemail.Base.{
  ℕ, zero, suc, ◌+◌, ◌%◌, ◌^◌, ◌<◌, ◌≡◌, refl, inl, inr, Bool, true, false, Option, none, some,
  List, [], ◌∷◌, ◌++◌, map, arith, if◌then◌else◌, length, length-append, filter, filter-append,
  get_elem?, get_elem?_past, Bool-cases, Option-cases,
}
use givemail.Base.Text.{Text, is_empty, codes}
use givemail.Details.{
  Attachment, MessageDetails, new_attachment, is_inline, add_attachment, add_files, set_attachments,
  load_attachment, load_attachments, get_attachment_count, same_kind, attachment_loop,
  get_attachment, set_content_piece,
}

abbrev pub of_kind : Bool → Attachment → Bool
of_kind inline_parts a = same_kind (is_inline a) inline_parts

-- The attachments of a kind, in their order.
abbrev pub parts : Bool → MessageDetails → List Attachment
parts inline_parts d = filter (of_kind inline_parts) d.attachments

attachment_loop-get_elem? :
    (k pos : ℕ) (inline_parts : Bool) (l : List Attachment)
    → attachment_loop (pos + k) inline_parts pos l ≡ get_elem? (filter (of_kind inline_parts) l) k
unfolding attachment_loop
attachment_loop-get_elem? k pos inline_parts [] = refl
attachment_loop-get_elem? zero pos inline_parts (a ∷ l) =
    ground (arith, attachment_loop-get_elem? zero pos inline_parts l)
attachment_loop-get_elem? (suc k) pos inline_parts (a ∷ l) =
    let e : pos + suc k ≡ pos + 1 + k = omega arith in
    let same = attachment_loop-get_elem? (suc k) pos inline_parts l in
    let next : attachment_loop (pos + suc k) inline_parts (pos + 1) l
        ≡ get_elem? (filter (of_kind inline_parts) l) k =
      rw e (attachment_loop-get_elem? k (pos + 1) inline_parts l) in
    ground (arith, same, next)

get_attachment-get_elem? :
    (num : ℕ) (inline_parts : Bool) (d : MessageDetails)
    → get_attachment num inline_parts d ≡ get_elem? (parts inline_parts d) num
unfolding get_attachment
get_attachment-get_elem? num inline_parts d =
    let e : 0 + num ≡ num = omega arith in
    rw e at (attachment_loop-get_elem? num 0 inline_parts d.attachments)

-- The counts are those of the lists, as far as 32 bits go.
abbrev Counted : MessageDetails → Type 0
Counted d =
    (inline_parts : Bool)
    → get_attachment_count inline_parts d ≡ length (parts inline_parts d) % 2 ^ 32

length-parts_one :
    (inline_parts : Bool) (l : List Attachment) (a : Attachment)
    → length (filter (of_kind inline_parts) (l ++ a ∷ []))
      ≡ length (filter (of_kind inline_parts) l) + (if of_kind inline_parts a then 1 else 0)
length-parts_one inline_parts l a =
    rw
      (
        filter-append (of_kind inline_parts) l (a ∷ []),
        length-append (filter (of_kind inline_parts) l) (filter (of_kind inline_parts) (a ∷ [])),
      )
      (ground arith)

add_attachment-Counted :
    (o : Option Attachment) (d : MessageDetails) → Counted d → Counted (add_attachment o d).0
unfolding add_attachment get_attachment_count
add_attachment-Counted none d h b = h b
add_attachment-Counted (some a) d h true =
    ground (arith, length-parts_one true d.attachments a, h true)
add_attachment-Counted (some a) d h false =
    ground (arith, length-parts_one false d.attachments a, h false)

add_files-Counted :
    (paths : List Text) (d : MessageDetails) → Counted d → Counted (add_files paths d)
unfolding add_files
add_files-Counted [] d h = h
add_files-Counted (path ∷ paths) d h =
    let a = new_attachment path [] [] (codes "base64") in
    add_files-Counted paths (add_attachment (some a) d).0 (add_attachment-Counted (some a) d h)

load_attachment-is_inline :
    (load_raw : Text → Option Text) (a : Attachment)
    → is_inline (load_attachment load_raw a) ≡ is_inline a
unfolding load_attachment
load_attachment-is_inline load_raw a = elim (Bool-cases (is_empty a.file_path)) [
  | inl e ↦ rw e refl
  | inr e ↦ elim (Option-cases a.content) [
    | inl c ↦ rw (e, c) refl
    | inr (text, c) ↦ elim (Bool-cases (is_empty text)) [
      | inl z ↦ rw (e, c, z) refl
      | inr z ↦ rw (e, c, z) refl
    ]
  ]
]

length-load :
    (load_raw : Text → Option Text) (inline_parts : Bool) (l : List Attachment)
    → length (filter (of_kind inline_parts) (map (load_attachment load_raw) l))
      ≡ length (filter (of_kind inline_parts) l)
length-load load_raw inline_parts [] = refl
length-load load_raw inline_parts (a ∷ l) =
    rw (load_attachment-is_inline load_raw a)
      (ground (arith, Bool-cases (of_kind inline_parts a), length-load load_raw inline_parts l))

-- How the details of a message come about: those that are made have no attachments yet.
pub data Built : MessageDetails → Type 0 where
  made :
      (d : MessageDetails)
      → d.attachments ≡ []
      → d.attachments_count ≡ 0
      → d.inline_parts_count ≡ 0
      → Built d
  added : {d : MessageDetails} (o : Option Attachment) → Built d → Built (add_attachment o d).0
  appended :
      {d : MessageDetails} (paths : List Text) → Built d → Built (set_attachments paths true d)
  loaded :
      {d : MessageDetails} (load_raw : Text → Option Text)
      → Built d
      → Built (load_attachments load_raw d)
  filled :
      {d : MessageDetails} (content_type text encoding : Text) (personalize : Bool)
      → Built d
      → Built (set_content_piece content_type text encoding personalize d).0

Built-Counted : {d : MessageDetails} → Built d → Counted d
unfolding set_attachments get_attachment_count load_attachments set_content_piece
Built-Counted (made d none_yet no_parts no_inline) true = rw (none_yet, no_inline) refl
Built-Counted (made d none_yet no_parts no_inline) false = rw (none_yet, no_parts) refl
Built-Counted (added {d} o b) k = add_attachment-Counted o d (Built-Counted b) k
Built-Counted (appended {d} paths b) k = add_files-Counted paths d (Built-Counted b) k
Built-Counted (loaded {d} load_raw b) k =
    rw (length-load load_raw k d.attachments) (Built-Counted b k)
Built-Counted (filled t x e p b) k = Built-Counted b k

-- Details that are built by addAttachment, setAttachments with append, loadAttachments and
-- setContentPiece, with fewer than 2 ^ 32 attachments of a kind, stand for the list of these:
-- getAttachmentCount is its length, and getAttachment gives its elements by number, and no
-- attachment past its end.
pub get_attachment-parts :
    {d : MessageDetails} (inline_parts : Bool)
    → Built d
    → length (parts inline_parts d) < 2 ^ 32
    → (get_attachment_count inline_parts d ≡ length (parts inline_parts d))
      × ((num : ℕ) → get_attachment num inline_parts d ≡ get_elem? (parts inline_parts d) num)
get_attachment-parts {d} inline_parts b h = (
  omega (arith, Built-Counted b inline_parts),
  λ num. get_attachment-get_elem? num inline_parts d,
)

-- What setAttachments leaves if it does not append.
add_files-adds :
    (paths : List Text) (d : MessageDetails)
    → d.attachments_count < 2 ^ 32
    → (length (parts false (add_files paths d)) ≡ length (parts false d) + length paths)
      × ((add_files paths d).attachments_count ≡ (d.attachments_count + length paths) % 2 ^ 32)
unfolding add_files add_attachment new_attachment
add_files-adds [] d h = omega arith
add_files-adds (path ∷ paths) d h =
    let a = new_attachment path [] [] (codes "base64") in
    let (l, c) = add_files-adds paths (add_attachment (some a) d).0 (omega arith) in
    omega (arith, length-parts_one false d.attachments a, l, c)

-- setAttachments that replaces the attachments does not set the counts back: with one or more
-- attachments before, getAttachmentCount is then above the number of the files, and getAttachment
-- gives no attachment at a number below that count.
pub set_attachments_miscounts :
    (paths : List Text) (d : MessageDetails)
    → 0 < d.attachments_count
    → d.attachments_count + length paths < 2 ^ 32
    → (length paths < get_attachment_count false (set_attachments paths false d))
      × (get_attachment (length paths) false (set_attachments paths false d) ≡ none)
unfolding set_attachments get_attachment_count
set_attachments_miscounts paths d h k =
    let emptied : MessageDetails = record d { attachments = [] } in
    let (l, c) = add_files-adds paths emptied (omega arith) in
    let e : length (parts false (add_files paths emptied)) ≡ length paths = omega (arith, l) in
    (
      omega (arith, c),
      rw (get_attachment-get_elem? (length paths) false (add_files paths emptied), ← e)
          (get_elem?_past (parts false (add_files paths emptied))),
    )
