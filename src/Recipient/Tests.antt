-- ===== src/Recipient/Tests.antt =====
-- Addresses that are read, and the theorems at concrete inputs.
use givemail.Base.{◌≡◌, refl, true, false, [], arith}
use givemail.Base.Text.{codes, find_byte, str_eq, str_lt}
use givemail.Recipient.{
  Recipient, is_valid_status, has_valid_status, comes_before, name_and_address,
  extract_name_and_email_address,
}
use givemail.Recipient.Address.{extract_name_and_email_address-both}

sent_is_valid : is_valid_status (codes "Sent") ≡ true
unfolding str_eq
sent_is_valid = refl

abbrev jo : Recipient
jo = record { id = codes "j"; name = codes "J"; status = codes "Ready"; email_address = codes "j" }

ordered : comes_before jo (record jo { name = codes "K" }) ≡ true
unfolding str_eq str_lt
ordered = refl

reads : extract_name_and_email_address (codes "J<j>") ≡ jo
unfolding extract_name_and_email_address name_and_address find_byte
reads = refl

-- A '>' alone is taken for the end of an address.
reads_half : extract_name_and_email_address (codes "ab>c") ≡ record {
  id = codes "ab";
  name = codes "ab>c";
  status = codes "Ready";
  email_address = codes "ab";
}
unfolding extract_name_and_email_address name_and_address find_byte
reads_half = refl

extract_name_and_email_address-both_example : extract_name_and_email_address (codes "J<j>") ≡ jo
extract_name_and_email_address-both_example =
    extract_name_and_email_address-both (codes "J") (codes "j") [] (omega arith) ((omega arith), tt)
      ((omega arith), ((omega arith), ((omega arith), tt)))

ready_is_not_valid : has_valid_status (extract_name_and_email_address (codes "J<j>")) ≡ false
unfolding extract_name_and_email_address name_and_address find_byte str_eq
ready_is_not_valid = refl
