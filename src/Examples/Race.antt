-- ===== src/Examples/Race.antt =====
-- Schedules of the deque of the multicore build.
use ein8_proj.Base.{ℕ, ◌≡◌, refl, List, [], ◌∷◌, arith}
use ein8_proj.Deque.{Deque}
use ein8_proj.Deque.Conserve.{count_pushed, count_taken, events-start-Behaves, none_lost}
use ein8_proj.Deque.Refine.{Behaves}
use ein8_proj.Deque.Steps.{
  Choice, ThiefPc, begin_pop, begin_push, events, final, go_owner, go_thief, owner_idle, owner_pop,
  owner_push, owner_step, start, step, thief_idle, thief_step,
}

-- A push, a thief and a pop that race for the single item: the thief wins.
abbrev race : List Choice
race =
    begin_push 7
    ∷ go_owner
    ∷ go_owner
    ∷ go_owner
    ∷ go_thief 0
    ∷ go_thief 0
    ∷ go_thief 0
    ∷ begin_pop
    ∷ go_owner
    ∷ go_owner
    ∷ go_owner
    ∷ go_thief 0
    ∷ go_owner
    ∷ go_owner
    ∷ []

abbrev blank : ℕ → ℕ
blank i = 0

abbrev nobody_steals : ℕ → ThiefPc
nobody_steals i = thief_idle

abbrev one_item : Deque
one_item = record { top = 3; bottom = 4; items = λ i. 9 }

race_empty :
    ((final race (start blank)).owner ≡ owner_idle)
    × ((final race (start blank)).deque.top ≡ (final race (start blank)).deque.bottom)
unfolding final step owner_step owner_push owner_pop thief_step start
race_empty = (refl, refl)

events-start-Behaves_example : (ys : List ℕ) × Behaves [] (events race (start blank)) ys
events-start-Behaves_example = events-start-Behaves blank race (omega arith)

none_lost_example :
    count_taken 7 (events race (start blank)) ≡ count_pushed 7 (events race (start blank))
none_lost_example = none_lost blank 7 race (omega arith) (race_empty.0) (race_empty.1)
