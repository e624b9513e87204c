-- ===== src/Availability/Examples.antt =====
-- The theorem on channels, applied to a region that is lost twice and comes back once.
use gohbase.Prelude.{refl, none, some, [], ◌∷◌}
use gohbase.Availability.{
  Info, new_info, mark_unavailable, mark_available, Step, unavailable, available_again, start, step,
}
use gohbase.Availability.Channels.{AllClosed, Reachable-AllClosed}

abbrev lost : Info
lost = record { available = some 0; made = 1; closed = [] }

abbrev back : Info
back = record { available = none; made = 1; closed = 0 ∷ [] }

abbrev lost_again : Info
lost_again = record { available = some 1; made = 2; closed = 0 ∷ [] }

first_loss : Step new_info lost
unfolding mark_unavailable new_info
first_loss = unavailable new_info

return_again : Step lost back
unfolding mark_available
return_again = available_again lost back refl

second_loss : Step back lost_again
unfolding mark_unavailable
second_loss = unavailable back

Reachable-AllClosed_example : AllClosed lost_again
Reachable-AllClosed_example =
    Reachable-AllClosed {i = lost_again}
      (step (step (step start first_loss) return_again) second_loss)
