-- ===== src/Session/Priorities.antt =====
-- Which records queueNextPriorityRecords queues.
use givemail.Base.{
  ℕ, ◌≤◌, ◌<◌, ◌≡◌, refl, ap, Bool, true, false, not, ◌&&◌, List, [], ◌∷◌, ◌++◌, map, reverse,
  arith, ltb, leb, ◌==◌, inl, inr, Bool-cases, filter, All, append_assoc, append-nil,
}
use givemail.Resolver.{Resource, ResourceRecord, has_expired}
use givemail.Session.{Context, Session}
use givemail.Session.Route.{unset, next_loop, queue_next_priority_records}

-- In the order of increasing priority numbers, all of them below the number that is not set.
abbrev pub Ascends : List Resource → Type 0
Ascends [] = Unit
Ascends (r ∷ rs) =
    (r.priority < unset) × All (λ (q : Resource). r.priority ≤ q.priority) rs × Ascends rs

abbrev pub bare : Resource → ResourceRecord
bare r = record { resource = r; addresses = [] }

-- The records behind `top` that are alive.
abbrev pub is_next : ℕ → ℕ → Resource → Bool
is_next now top r = ltb top r.priority && not (has_expired r now)

abbrev pub next_servers : ℕ → ℕ → List Resource → List ResourceRecord
next_servers now top rs = map bare (filter (is_next now top) rs)

module _ (now top : ℕ) where
  -- Once the current priority is set, the rest is queued.
  queue_rest :
      (rs : List Resource) (current : ℕ) (queue : List ResourceRecord)
      → top < current
      → current < unset
      → All (λ (q : Resource). current ≤ q.priority) rs
      → next_loop now top rs current queue ≡ (current, queue ++ next_servers now top rs)
  unfolding next_loop
  queue_rest [] current queue t u h = rw (append-nil queue) refl
  queue_rest (r ∷ rs) current queue t u h =
      let keep : ((current == unset) && ltb r.priority current) ≡ false = ground arith in
      let later : leb r.priority top ≡ false = ground (arith, h.0) in
      let behind : ltb top r.priority ≡ true = ground (arith, h.0) in
      let stop : ltb r.priority current ≡ false = ground (arith, h.0) in
      elim (Bool-cases (has_expired r now)) [
        | inl e ↦ rw (keep, later, stop, behind, e) (queue_rest rs current queue t u h.1)
        | inr e ↦
            rw (keep, later, stop, behind, e)
              (rw (append_assoc queue (bare r ∷ []) (next_servers now top rs)) at
                (queue_rest rs current (queue ++ bare r ∷ []) t u h.1))
      ]

  queue_all :
      (rs : List Resource) (queue : List ResourceRecord)
      → Ascends rs
      → (next_loop now top rs unset queue).1 ≡ queue ++ next_servers now top rs
  unfolding next_loop
  queue_all [] queue h = rw (append-nil queue) refl
  queue_all (r ∷ rs) queue h = elim (Bool-cases (leb r.priority top)) [
    | inl before ↦
        let behind : ltb top r.priority ≡ false = ground arith in
        rw (before, behind) (queue_all rs queue h.2)
    | inr after ↦
        let behind : ltb top r.priority ≡ true = ground arith in
        let set : ((unset == unset) && ltb r.priority unset) ≡ true = ground (arith, h.0) in
        let stop : ltb r.priority r.priority ≡ false = ground arith in
        elim (Bool-cases (has_expired r now)) [
          | inl e ↦
              rw (after, behind, set, stop, e)
                (ap (λ (p : ℕ × List ResourceRecord). p.1)
                  (queue_rest rs r.priority queue (ground arith) h.0 h.1))
          | inr e ↦
              rw (after, behind, set, stop, e)
                (rw (append_assoc queue (bare r ∷ []) (next_servers now top rs)) at (
                  ap (λ (p : ℕ × List ResourceRecord). p.1)
                    (queue_rest rs r.priority (queue ++ bare r ∷ []) (ground arith) h.0 h.1)))
        ]
  ]

-- Where the records come in the order of increasing priority numbers, all below 1000000,
-- queueNextPriorityRecords queues, behind what the queue holds, every record that is alive and whose
-- number is above the top priority, and not only those of the next priority.
pub queue_next_priority_records-next_servers :
    (x : Context) (s : Session)
    → Ascends (reverse x.limits.mx_records)
    → (queue_next_priority_records x s).1.top_queue
      ≡ s.top_queue
        ++ next_servers (x.outside.time s.log) s.top_priority (reverse x.limits.mx_records)
unfolding queue_next_priority_records
queue_next_priority_records-next_servers x s h =
    queue_all (x.outside.time s.log) s.top_priority (reverse x.limits.mx_records) s.top_queue h
