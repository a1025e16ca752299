-- ===== src/Details/Pieces.antt =====
-- setContentPiece against the methods that read a piece.
use givemail.Base.{
  ◌≡◌, refl, ap, inl, inr, Bool, true, false, List, [], ◌∷◌, arith, Bool-cases, All,
}
use givemail.Base.Text.{Text, find_text}
use givemail.Base.Find.{find_text_self}
use givemail.Details.{
  ContentPiece, MessageDetails, found, has_type, set_piece, set_content_piece, has_piece,
  content_of, encoding_of,
}

module _ (content_type text encoding : Text) (personalize : Bool) where
  own_type : found (find_text content_type content_type) ≡ true
  own_type = rw (find_text_self content_type) refl

  set_piece-reads :
      (l : List ContentPiece)
      → (content_of content_type (set_piece content_type text encoding personalize l) ≡ text)
        × (encoding_of content_type (set_piece content_type text encoding personalize l) ≡ encoding)
        × (has_piece content_type (set_piece content_type text encoding personalize l) ≡ true)
  unfolding set_piece content_of encoding_of has_piece
  set_piece-reads [] = rw own_type (refl, refl, refl)
  set_piece-reads (p ∷ l) = elim (Bool-cases (has_type content_type p)) [
    | inl e ↦ rw (e, e) (refl, refl, refl)
    | inr e ↦ rw (e, e) (set_piece-reads l)
  ]

  set_piece-set_piece :
      (text' encoding' : Text) (personalize' : Bool) (l : List ContentPiece)
      → set_piece content_type text' encoding' personalize'
          (set_piece content_type text encoding personalize l)
        ≡ set_piece content_type text' encoding' personalize' l
  unfolding set_piece
  set_piece-set_piece text' encoding' personalize' [] = rw own_type refl
  set_piece-set_piece text' encoding' personalize' (p ∷ l) =
      elim (Bool-cases (has_type content_type p)) [
        | inl e ↦ rw (e, e) refl
        | inr e ↦ rw (e, e) (ap (◌∷◌ p) (set_piece-set_piece text' encoding' personalize' l))
      ]

  -- The pieces that the type finds are not found by another one.
  abbrev pub Apart : Text → ContentPiece → Type 0
  Apart other p = has_type content_type p ≡ true → has_type other p ≡ false

  set_piece-other :
      (other : Text) (l : List ContentPiece)
      → found (find_text other content_type) ≡ false
      → All (Apart other) l
      → content_of other (set_piece content_type text encoding personalize l) ≡ content_of other l
  unfolding set_piece content_of
  set_piece-other other [] h a = rw h refl
  set_piece-other other (p ∷ l) h a = elim (Bool-cases (has_type content_type p)) [
    | inl e ↦ rw (e, a.0 e) refl
    | inr e ↦ rw e (ground (arith, set_piece-other other l h a.1))
  ]

  -- After setContentPiece, getContent gives the content, getEncoding the encoding and
  -- hasContentPiece true for its type; a second call for the type does what it would do alone. The
  -- content of another type is what it was, if that type is not found within this one, nor in a
  -- piece in which this one is found.
  pub set_content_piece-reads :
      (d : MessageDetails)
      → (content_of content_type
            (set_content_piece content_type text encoding personalize d).0.content_pieces
          ≡ text)
        × (encoding_of content_type
              (set_content_piece content_type text encoding personalize d).0.content_pieces
            ≡ encoding)
        × (has_piece content_type
              (set_content_piece content_type text encoding personalize d).0.content_pieces
            ≡ true)
        × ((text' encoding' : Text) (personalize' : Bool)
            → set_content_piece content_type text' encoding' personalize'
                (set_content_piece content_type text encoding personalize d).0
              ≡ set_content_piece content_type text' encoding' personalize' d)
        × ((other : Text)
            → found (find_text other content_type) ≡ false
            → All (Apart other) d.content_pieces
            → content_of other
                (set_content_piece content_type text encoding personalize d).0.content_pieces
              ≡ content_of other d.content_pieces)
  unfolding set_content_piece
  set_content_piece-reads d =
      let (c, e, h) = set_piece-reads d.content_pieces in
      (
        c,
        e,
        h,
        λ text' encoding' personalize'.
            rw (set_piece-set_piece text' encoding' personalize' d.content_pieces) refl,
        λ other h a. set_piece-other other d.content_pieces h a,
      )
