-- ===== src/Esmtp/Reads.antt =====
-- What the calls of messageDataCallback give from a cursor on, read together as getMessageData does.
use givemail.Base.{
  ℕ, suc, ◌+◌, ◌≡◌, refl, Bool, true, false, none, some, [], ◌∷◌, ◌++◌, arith, if◌then◌else◌, All,
}
use givemail.Base.Text.{Text, IsNonzero}
use givemail.Message.{Message}
use givemail.Esmtp.{next, Cursor, to, give, Memory}
use givemail.Esmtp.Callback.{dispatch, message_data_callback, c_string, read_pieces}

pub c_string-IsNonzero : (s : Text) → All IsNonzero s → c_string s ≡ s
unfolding c_string
c_string-IsNonzero [] h = refl
c_string-IsNonzero (b ∷ s) h = ground (arith, c_string-IsNonzero s h.1, h.0)

module _ (w : Memory) (m : Message) where
  -- From the cursor on, every fuel from some number on gives the text.
  abbrev pub Reads : Cursor → Text → Type 0
  Reads c text = (n : ℕ) × ((k : ℕ) → read_pieces w m (suc (n + k)) c ≡ some text)

  pub reading_end : (c c' : Cursor) → dispatch w m c ≡ some (none, c') → Reads c []
  unfolding read_pieces message_data_callback
  reading_end c c' e = (0, λ k. rw (message_data_callback, e) refl)

  pub reading_piece :
      (c c' : Cursor) (piece text : Text)
      → dispatch w m c ≡ give piece c'
      → All IsNonzero piece
      → Reads (to (next c'.stage) c') text
      → Reads c (piece ++ text)
  unfolding read_pieces message_data_callback
  reading_piece c c' piece text e h (n, r) = (
    suc n,
    λ k.
        let shift : suc n + k ≡ suc (n + k) = omega arith in
        rw (message_data_callback, e, shift, r k, c_string-IsNonzero piece h) refl,
  )

  -- Cursors at which the code does the same read the same.
  pub reading_same :
      (c c' : Cursor) (text : Text)
      → dispatch w m c ≡ dispatch w m c'
      → Reads c' text
      → Reads c text
  unfolding read_pieces message_data_callback
  reading_same c c' text e (n, r) = (n, λ k. rw (message_data_callback, e) (r k))

  -- A case that gives a piece where a test holds, and falls through where it does not.
  pub reading_case :
      (b : Bool) (c c' c'' : Cursor) (piece text : Text)
      → dispatch w m c ≡ (if b then give piece c' else dispatch w m c'')
      → (b ≡ true → All IsNonzero piece)
      → (b ≡ true → Reads (to (next c'.stage) c') text)
      → (b ≡ false → Reads c'' text)
      → Reads c ((if b then piece else []) ++ text)
  reading_case true c c' c'' piece text e h r f = reading_piece c c' piece text e (h refl) (r refl)
  reading_case false c c' c'' piece text e h r f = reading_same c c'' text e (f refl)
