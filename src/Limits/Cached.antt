-- ===== src/Limits/Cached.antt =====
-- What findDomainLimits of src/ConfigurationFile.cc keeps, and what it asks again.
use givemail.Base.{
  ◌≡◌, refl, sym, ap, ◌∙◌, Bool, true, false, Option, none, some, List, [], ◌∷◌, if◌then◌else◌,
  null, Bool-cases, Option-cases, inl, inr, by_test,
}
use givemail.Base.Text.{Text, str_eq, str_eq_iff}
use givemail.Session.{DomainLimits}
use givemail.Limits.{
  Query, NameServer, Configuration, find_limits, erase_limits, insert_limits, query_servers,
  find_domain_limits,
}

str_eq_self : (s : Text) → str_eq s s ≡ true
str_eq_self s = (str_eq_iff s s).1 refl

-- An entry has the name that it is found by.
find_limits-name :
    (name : Text) (ls : List DomainLimits) (l : DomainLimits)
    → find_limits name ls ≡ some l
    → l.domain_name ≡ name
unfolding find_limits
find_limits-name name [] l e = cc
find_limits-name name (k ∷ rest) l e = elim (Bool-cases (str_eq k.domain_name name)) [
  | inl h ↦
      let same : some k ≡ some l = rw h at e in
      let e' : k ≡ l = cc in rw (← e') ((str_eq_iff k.domain_name name).0 h)
  | inr h ↦
      let later : find_limits name rest ≡ some l = rw h at e in find_limits-name name rest l later
]

-- Tests of one name against two that differ.
not_both :
    (a b n : Text) → str_eq a b ≡ false → str_eq a n ≡ true → str_eq b n ≡ true → false ≡ true
not_both a b n h p q =
    let same : a ≡ b = (str_eq_iff a n).0 p ∙ sym ((str_eq_iff b n).0 q) in
    sym h ∙ (str_eq_iff a b).1 same

if_twice :
    (b : Bool) (x y : Option DomainLimits)
    → (if b then none else y) ≡ (if b then none else if b then x else y)
if_twice true x y = refl
if_twice false x y = refl

if_swap :
    (a b : Bool) (x y z : Option DomainLimits)
    → (a ≡ true → b ≡ true → false ≡ true)
    → (if a then x else if b then y else z) ≡ (if b then y else if a then x else z)
if_swap true true x y z h = let no = h refl refl in cc
if_swap true false x y z h = refl
if_swap false b x y z h = refl

find_limits-erase_limits :
    (n name : Text) (ls : List DomainLimits)
    → find_limits n (erase_limits name ls) ≡ (if str_eq name n then none else find_limits n ls)
unfolding find_limits erase_limits
find_limits-erase_limits n name [] =
    by_test (λ (o : Option DomainLimits). none ≡ o) (str_eq name n) (λ _. refl) (λ _. refl)
find_limits-erase_limits n name (k ∷ rest) = elim (Bool-cases (str_eq k.domain_name name)) [
  | inl h ↦
      let same = (str_eq_iff k.domain_name name).0 h in
      rw (h, find_limits-erase_limits n name rest, same)
        (if_twice (str_eq name n) (some (record k { domain_name = name })) (find_limits n rest))
  | inr h ↦
      rw (h, find_limits-erase_limits n name rest)
        (if_swap (str_eq k.domain_name n) (str_eq name n) (some k) none (find_limits n rest)
          (not_both k.domain_name name n h))
]

find_limits-insert_limits :
    (n : Text) (l : DomainLimits) (ls : List DomainLimits)
    → find_limits l.domain_name ls ≡ none
    → find_limits n (insert_limits l ls)
      ≡ (if str_eq l.domain_name n then some l else find_limits n ls)
unfolding find_limits insert_limits
find_limits-insert_limits n l [] e = refl
find_limits-insert_limits n l (k ∷ rest) e =
    elim (Bool-cases (str_eq k.domain_name l.domain_name)) [
      | inl h ↦ let no : some k ≡ none = rw h at e in cc
      | inr h ↦
          let e' : find_limits l.domain_name rest ≡ none = rw h at e in
          rw (h, find_limits-insert_limits n l rest e')
            (if_swap (str_eq k.domain_name n) (str_eq l.domain_name n) (some k) (some l)
              (find_limits n rest) (not_both k.domain_name l.domain_name n h))
    ]

query_servers-name :
    (names : NameServer) (fallback : Bool) (l : DomainLimits) (log : List Query)
    → (query_servers names fallback l log).1.domain_name ≡ l.domain_name
unfolding query_servers
query_servers-name names fallback l log =
    by_test (λ (r : Bool × DomainLimits × List Query). r.1.domain_name ≡ l.domain_name)
      (names.query_mx_records log l.domain_name l.mx_records).0 (λ _. refl)
      (λ _.
        by_test (λ (r : Bool × DomainLimits × List Query). r.1.domain_name ≡ l.domain_name) fallback
          (λ _. refl) (λ _. refl))

-- What findDomainLimits leaves of the entries.
abbrev Kept : DomainLimits → Configuration → Bool × DomainLimits × Configuration → Type 0
Kept l config r =
    (n : Text)
    → find_limits n r.2.domain_limits
      ≡ (if str_eq l.domain_name n then some r.1 else find_limits n config.domain_limits)

if_again :
    (b : Bool) (x z : Option DomainLimits)
    → (if b then x else if b then none else z) ≡ (if b then x else z)
if_again true x z = refl
if_again false x z = refl

-- A new entry in place of that of the name.
replaced :
    (name n : Text) (found : DomainLimits) (ls : List DomainLimits)
    → found.domain_name ≡ name
    → find_limits n (insert_limits found (erase_limits name ls))
      ≡ (if str_eq name n then some found else find_limits n ls)
replaced name n found ls e =
    let gone : find_limits found.domain_name (erase_limits name ls) ≡ none =
      find_limits-erase_limits found.domain_name name ls ∙ rw (e, str_eq_self name) refl in
    let z = find_limits n ls in
    find_limits-insert_limits n found (erase_limits name ls) gone
    ∙ (rw (find_limits-erase_limits n name ls) (
          ap (λ (t : Text). if str_eq t n then some found else if str_eq name n then none else z) e)
        ∙ if_again (str_eq name n) (some found) z)

found_already :
    (name n : Text) (c : DomainLimits) (ls : List DomainLimits)
    → find_limits name ls ≡ some c
    → find_limits n ls ≡ (if str_eq name n then some c else find_limits n ls)
found_already name n c ls e = elim (Bool-cases (str_eq name n)) [
  | inl h ↦ let same = (str_eq_iff name n).0 h in rw (h, ← same) e
  | inr h ↦ rw h refl
]

find_domain_limits-Kept :
    (names : NameServer) (fallback : Bool) (l : DomainLimits) (config : Configuration)
    → null l.mx_records ≡ true
    → Kept l config (find_domain_limits names fallback l config)
unfolding find_domain_limits
find_domain_limits-Kept names fallback l config e =
    elim (Option-cases (find_limits l.domain_name config.domain_limits)) [
      | inl c ↦
          let q = query_servers names fallback l config.log in
          let name : q.1.domain_name ≡ l.domain_name =
            query_servers-name names fallback l config.log in
          let absent : find_limits q.1.domain_name config.domain_limits ≡ none = rw name c in
          rw (find_domain_limits, c, e)
            (λ n. find_limits-insert_limits n q.1 config.domain_limits absent ∙ rw name refl)
      | inr (k, c) ↦
          let same = find_limits-name l.domain_name config.domain_limits k c in
          elim (Bool-cases (null k.mx_records)) [
            | inl empty ↦
                let q = query_servers names fallback k config.log in
                let name : q.1.domain_name ≡ k.domain_name =
                  query_servers-name names fallback k config.log in
                rw (find_domain_limits, c, empty)
                  (λ n. replaced k.domain_name n q.1 config.domain_limits name ∙ rw same refl)
            | inr full ↦
                rw (find_domain_limits, c, full)
                  (λ n. found_already l.domain_name n k config.domain_limits c)
          ]
    ]

given_again :
    (names : NameServer) (fallback : Bool) (k : DomainLimits) (config : Configuration)
    (found : DomainLimits)
    → find_limits k.domain_name config.domain_limits ≡ some found
    → null found.mx_records ≡ false
    → find_domain_limits names fallback k config ≡ (true, found, config)
unfolding find_domain_limits
given_again names fallback k config found c full = rw (find_domain_limits, c, full) refl

-- For limits without servers: behind findDomainLimits the entry of their name is the limits that it
-- gave, and the entries of other names are as they were. While these limits have servers, expired or
-- not, each later call for limits of that name without servers gives them again, and asks no name
-- server and changes nothing.
pub find_domain_limits-keeps :
    (names : NameServer) (fallback : Bool) (l : DomainLimits) (config : Configuration)
    → l.mx_records ≡ []
    → let (usable, found, config') = find_domain_limits names fallback l config in
      ((n : Text)
        → find_limits n config'.domain_limits
          ≡ (if str_eq l.domain_name n then some found else find_limits n config.domain_limits))
      × ((fallback' : Bool) (k : DomainLimits)
          → k.domain_name ≡ l.domain_name
          → null found.mx_records ≡ false
          → find_domain_limits names fallback' k config' ≡ (true, found, config'))
find_domain_limits-keeps names fallback l config e =
    let empty : null l.mx_records ≡ true = ap null e in
    let kept = find_domain_limits-Kept names fallback l config empty in
    (
      kept,
      λ fallback' k name full.
          given_again names fallback' k (find_domain_limits names fallback l config).2 _
            (kept k.domain_name ∙ rw (name, str_eq_self l.domain_name) refl) full,
    )
