-- ===== src/Timer/Schedule.antt =====
-- codechiev/net/Timer.cpp: Scheduler. The channels of the timers are those of an endpoint's poll. A timer is
-- known by its descriptor; its callback is a number, or none. What the callbacks work on, what they do
-- to it, and what `read` answers in it are arguments; a callback leaves the scheduler alone.
use codechiev.Common.{
  ℕ, ◌≡◌, refl, sym, ap, ◌∙◌, Bool, true, false, Option, none, some, Option-cases, Bool-cases,
  >>=-eq-some, some-injective, inl, inr, List, [], ◌∷◌, ◌>>=◌, ℤ, pos, negsuc, ◌==◌,
}
use codechiev.Common.Assoc.{lookup, insert, erase, lookup-insert_self, lookup-erase_self}
use codechiev.Endpoint.{Endpoint, add_channel, update_channel, del_channel, epollin}

pub record Scheduler : Type 0 where
  pub timers : List (ℕ × Option ℕ)
  pub poll : Endpoint

unfoldable pub add_timer : ℕ → Option ℕ → Scheduler → Option Scheduler
add_timer fd callback s = do
  poll ← add_channel fd epollin s.poll
  some (record s { timers = insert fd callback s.timers; poll = poll })

unfoldable pub set_timer : ℕ → Scheduler → Option Scheduler
set_timer fd s = do poll ← update_channel fd epollin s.poll; some (record s { poll = poll })

unfoldable pub remove_timer : ℕ → Scheduler → Option Scheduler
remove_timer fd s = elim (lookup fd s.timers) [
  | none ↦ some s
  | some _ ↦ (do
    poll ← del_channel fd s.poll
    some (record s { timers = erase fd s.timers; poll = poll }))
]

abbrev pub is_whole : ℤ → Bool
is_whole (pos n) = n == 8
is_whole (negsuc n) = false

module _ {S : Type 0} (read : ℕ → S → ℤ × S) (run : ℕ → S → S) where
  -- Timer::callback
  unfoldable pub run_callback : Option ℕ → S → S
  run_callback none x = x
  run_callback (some callback) x = run callback x

  -- One entry of the vector, with what `read` has answered.
  unfoldable pub take_read : ℕ → Scheduler → ℤ × S → S
  take_read fd s (len, x) = elim (is_whole len) [
    | false ↦ x
    | true ↦ elim (lookup fd s.timers) [ none ↦ x | some callback ↦ run_callback callback x ]
  ]

  -- Scheduler::pollEvent
  unfoldable pub poll_event : List ℕ → Scheduler → S → S
  poll_event [] s x = x
  poll_event (fd ∷ vec) s x = poll_event vec s (take_read fd s (read fd x))

add_timer-lookup :
    (fd : ℕ) (callback : Option ℕ) (s s' : Scheduler)
    → add_timer fd callback s ≡ some s'
    → lookup fd s'.timers ≡ some callback
unfolding add_timer
add_timer-lookup fd callback s s' added =
    let (poll, _, made) =
      >>=-eq-some (add_channel fd epollin s.poll)
        (λ p. some (record s { timers = insert fd callback s.timers; poll = p })) added in
    ap (λ (t : Scheduler). lookup fd t.timers) (sym (some-injective made))
    ∙ lookup-insert_self fd callback s.timers

remove_timer-lookup :
    (fd : ℕ) (s s' : Scheduler) → remove_timer fd s ≡ some s' → lookup fd s'.timers ≡ none
unfolding remove_timer
remove_timer-lookup fd s s' removed = elim (Option-cases (lookup fd s.timers)) [
  | inl unset ↦
      let same : some s ≡ some s' = rw (unset, remove_timer) at removed in
      ap (λ (t : Scheduler). lookup fd t.timers) (sym (some-injective same)) ∙ unset
  | inr (callback, found) ↦
      let (poll, _, made) =
        >>=-eq-some (del_channel fd s.poll)
          (λ p. some (record s { timers = erase fd s.timers; poll = p }))
          (rw (found, remove_timer) at removed) in
      ap (λ (t : Scheduler). lookup fd t.timers) (sym (some-injective made))
      ∙ lookup-erase_self fd s.timers
]

module _ {S : Type 0} (read : ℕ → S → ℤ × S) (run : ℕ → S → S) where
  pub take_read-whole :
      (fd : ℕ) (s : Scheduler) (callback : Option ℕ) (p : ℤ × S)
      → lookup fd s.timers ≡ some callback
      → p.0 ≡ pos 8
      → take_read read run fd s p ≡ run_callback read run callback p.1
  unfolding take_read
  take_read-whole fd s callback (len, x) found whole = rw (whole, found, take_read) refl

  take_read-none :
      (fd : ℕ) (s : Scheduler) (p : ℤ × S)
      → lookup fd s.timers ≡ none
      → take_read read run fd s p ≡ p.1
  unfolding take_read
  take_read-none fd s (len, x) gone = elim (Bool-cases (is_whole len)) [
    | inl whole ↦ rw (whole, gone, take_read) refl
    | inr part ↦ rw (part, take_read) refl
  ]

  -- An event of a timer that has been added runs its callback, if it has one and all eight bytes are
  -- read; once the timer has been removed, an event of its descriptor runs nothing.
  pub add_timer-remove_timer :
      (fd : ℕ) (callback : Option ℕ) (s added removed : Scheduler) (x : S)
      → add_timer fd callback s ≡ some added
      → remove_timer fd added ≡ some removed
      → ((read fd x).0 ≡ pos 8
          → poll_event read run (fd ∷ []) added x ≡ run_callback read run callback (read fd x).1)
        × (poll_event read run (fd ∷ []) removed x ≡ (read fd x).1)
  unfolding poll_event
  add_timer-remove_timer fd callback s added removed x adds removes = (
    (λ whole.
        take_read-whole fd added callback (read fd x) (add_timer-lookup fd callback s added adds)
          whole),
    take_read-none fd removed (read fd x) (remove_timer-lookup fd added removed removes),
  )
