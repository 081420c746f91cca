-- ===== src/Tests/Outbox.antt =====
-- The outbox at concrete inputs.
use booking_system.Base.{Option, none, some, List, [], ◌∷◌, Text, codes}
use booking_system.Store.Outbox.{SyncOutbox, booking_created}
use booking_system.SyncOutbox.{Queue}
use booking_system.SyncOutbox.Bounds.{IsValid}
use booking_system.SyncOutbox.Drain.{Op, enqueues, retries, drains, run, run-IsValid}

abbrev empty_queue : Queue
empty_queue = record { rows = []; bookings = []; next_id = 0 }

empty_queue-IsValid : IsValid empty_queue
empty_queue-IsValid = ((λ a b i j e. elim i [ ]), tt, tt)

-- Outlook is down.
abbrev down : SyncOutbox → Option Text × Option Text
down r = (some (codes "503"), none)

abbrev ops : List Op
ops =
    enqueues 1000 booking_created 9 100
    ∷ drains down 2000
    ∷ drains down 40000
    ∷ retries 50000 9 100 booking_created
    ∷ []

run-IsValid_example : IsValid (run ops empty_queue)
run-IsValid_example = run-IsValid ops empty_queue empty_queue-IsValid
