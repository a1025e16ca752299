-- ===== src/Message/Listed.antt =====
-- The list of the names of a message's headers and their dump, through buildHeaders of
-- src/SMTPMessage.cc.
use givemail.Base.{◌≡◌, some}
use givemail.Base.Text.{Text}
use givemail.Details.{MessageDetails}
use givemail.Message.{Message, Templates}
use givemail.Message.Headers.{Chance, build_headers}
use givemail.Message.Dump.{Listed, append_header-Listed}
use givemail.Message.Keeps.{Closed, Random, build_headers_keeps}

pub Listed-Closed : Closed Listed
Listed-Closed = record {
  append = append_header-Listed;
  counted = λ n m l. record { named = l.named; listed = l.listed; dumped = l.dumped };
  from_set = λ from m l. record { named = l.named; listed = l.listed; dumped = l.dumped };
}

-- buildHeaders returns where the random numbers print as byte strings, the first of each id as one
-- byte or more, and the sender's address is a byte string. Where the list of the headers' names is
-- that of the headers, each but the first behind a colon, no name is empty, and the dump of a
-- message that has one is the lines of the headers, so it is after it.
pub build_headers-Listed :
    (r : Chance) (d : MessageDetails)
    → Random r d
    → (t : Templates) (package_name : Text) (m : Message) → m.details ≡ some d
    → Listed m
    → (m' : Message) × (build_headers t r package_name m ≡ some m') × Listed m'
build_headers-Listed r d random = build_headers_keeps Listed Listed-Closed r d random
