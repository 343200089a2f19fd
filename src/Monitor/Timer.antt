-- ===== src/Monitor/Timer.antt =====
-- `Timer` of dht/monitoring/service.go. The clock is an argument, in nanoseconds, and does not go back.
use open_acn.Base.{String, ℕ, ◌-◌, Option, none, some, Except, done, fail, msg}
use open_acn.Base.GoMap.{GoMap, lookup, insert, delete}
use open_acn.Acn.Message.{◌+ˢ◌}

abbrev pub NamedTimers : Type 0
NamedTimers = GoMap ℕ

abbrev pub get_timer : ℕ → ℕ → ℕ
get_timer now timer = now - timer

unfoldable pub new_timer_named : ℕ → String → NamedTimers → String × NamedTimers
new_timer_named now name timers = (name, insert name now timers)

abbrev pub started : ℕ → String → Option ℕ → NamedTimers → Except ℕ × NamedTimers
started now timer none timers = (fail (msg ("Unknown timer " +ˢ timer)), timers)
started now timer (some start) timers = (done (now - start), delete timer timers)

unfoldable pub get_timer_named : ℕ → String → NamedTimers → Except ℕ × NamedTimers
get_timer_named now timer timers = started now timer (lookup timer timers) timers
